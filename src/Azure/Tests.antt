-- ===== src/Azure/Tests.antt =====
-- A server of one zone that keeps a TLSA set for each owner, up to case.
use gentlsa.Prelude.{
  ℕ, ◌≡◌, refl, sym, ap, ◌∙◌, Text, codes, Bool, true, false, Option, none, some, List, [], ◌∷◌,
  if◌then◌else◌, eq_ignore_ascii_case,
}
use gentlsa.Prelude.StrLaws.{eq_ignore_ascii_case_refl}
use gentlsa.Publish.{rollover}
use gentlsa.Azure.{
  DnsZone, TlsaJson, RecordSetJson, RecordSetBody, Api, from_json, set_records, fqdn_from_relative,
}
use gentlsa.Azure.Change.{Serves, Publishes, Prunes, publish_tlsa-prune_tlsa}

abbrev Sets : Type 0
Sets = Text → Option RecordSetJson

abbrev put : Sets → Text → Option RecordSetJson → Sets
put s owner next other = if eq_ignore_ascii_case other owner then next else s other

abbrev set_named : Text → RecordSetBody → RecordSetJson
set_named owner body = record {
  id = none;
  name = owner;
  properties = record { fqdn = none; tlsa_records = body.tlsa_records };
}

abbrev toy : Api Sets
toy = record {
  zones = λ s url. none;
  zone = λ s group name. none;
  sets = λ s zone url. none;
  set = λ s zone owner. some (s owner);
  put = λ s zone owner body. some (put s owner (some (set_named owner body)));
  delete = λ s zone owner. some (put s owner none);
}

put_self : (s : Sets) (owner : Text) (next : Option RecordSetJson) → put s owner next owner ≡ next
put_self s owner next = rw (eq_ignore_ascii_case_refl owner) refl

put_other :
    (s : Sets) (owner other : Text) (next : Option RecordSetJson)
    → eq_ignore_ascii_case other owner ≡ false
    → put s owner next other ≡ s other
put_other s owner other next d = rw d refl

abbrev zone : DnsZone
zone = record {
  id = codes "/subscriptions/s/resourceGroups/g";
  name = codes "x.y";
  resource_group = codes "g";
}

abbrev toy-Serves : Serves toy zone
toy-Serves = record {
  set_of = λ s owner. s owner;
  reads = λ s owner. refl;
  puts = λ s owner body. (
    put s owner (some (set_named owner body)),
    set_named owner body,
    refl,
    put_self s owner (some (set_named owner body)),
    refl,
    λ other d. put_other s owner other (some (set_named owner body)) d,
  );
  deletes = λ s owner.
      (put s owner none, refl, put_self s owner none, λ other d. put_other s owner other none d);
}

abbrev stale_record : TlsaJson
stale_record = record {
  usage = 3;
  selector = 1;
  matching_type = 1;
  cert_association_data = codes "AA";
}

abbrev start : Sets
start owner = some (record {
  id = none;
  name = codes "_443._tcp";
  properties = record { fqdn = none; tlsa_records = stale_record ∷ [] };
})

publish_tlsa-prune_tlsa_example :
    Publishes toy zone toy-Serves 60 none 443 (codes "bb") rollover false start
    × Prunes toy zone toy-Serves 60 none 443 (codes "bb") false start
publish_tlsa-prune_tlsa_example =
    publish_tlsa-prune_tlsa toy zone toy-Serves 60 none 443 (codes "bb") rollover false start

zone_read :
    from_json
      (record { id = codes "/subscriptions/s/resourcegroups/g/providers"; name = codes "x.y" })
    ≡ some (record {
      id = codes "/subscriptions/s/resourcegroups/g/providers";
      name = codes "x.y";
      resource_group = codes "g";
    })
unfolding from_json gentlsa.Prelude.split_from gentlsa.Prelude.lower gentlsa.Prelude.trim_end_by
    gentlsa.Prelude.trim_start_by gentlsa.Prelude.is_whitespace
zone_read = refl

apex_name : fqdn_from_relative (codes "@") (codes "x.y.") ≡ codes "x.y."
unfolding fqdn_from_relative gentlsa.Prelude.trim_end_by
apex_name = refl

dane_read :
    set_records (record {
      id = none;
      name = codes "_443._tcp";
      properties = record { fqdn = none; tlsa_records = stale_record ∷ [] };
    })
    ≡ record { usage = 3; selector = 1; matching = 1; certificate = codes "aa" } ∷ []
unfolding set_records gentlsa.Prelude.lower
dane_read = refl
