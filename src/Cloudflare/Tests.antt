-- ===== src/Cloudflare/Tests.antt =====
-- A server that keeps a list of records.
use gentlsa.Prelude.{
  ℕ, ◌≡◌, ◌≢◌, refl, sym, Text, codes, Bool, true, false, not, Option, none, some, List, [], ◌∷◌,
  ◌++◌, filter, map, any, take, text_eq, Any, inl, inr, if◌then◌else◌, arith,
}
use gentlsa.Prelude.StrLaws.{text_eq_iff}
use gentlsa.Publish.{
  rollover, PublishReport, PruneReport, publish_action, rrset_after_publish, rrset_after_prune,
}
use gentlsa.Publish.Listing.{names_equal_equivalence}
use gentlsa.Cloudflare.{
  Zone, DnsRecord, Api, expected_names, matches_owner, dane_records, is_stale_record, publish_tlsa,
  prune_tlsa,
}
use gentlsa.Cloudflare.Server.{Serves, Distinct, differs_from, page_size}
use gentlsa.Cloudflare.Prune.{prune_tlsa-rrset, stale-apex}
use gentlsa.Cloudflare.Adds.{ours, publish_tlsa-rrset}

abbrev server : Api (List DnsRecord)
server = record {
  records = λ s zone. some (take page_size s);
  post = λ s zone p. some (
      s
      ++ record {
        id = codes "new";
        name = p.name ++ (codes "." ++ zone.name);
        record_type = p.record_type;
        data_of = some p.data_of;
      }
        ∷ []);
  put = λ s zone id p. some s;
  delete =
      λ s zone id. if any (λ r. text_eq r.id id) s then some (filter (differs_from id) s) else none;
}

abbrev zone : Zone
zone = record { id = codes "z"; name = codes "b.c" }

known :
    (id : Text) (rs : List DnsRecord)
    → Any (λ r. r.id ≡ id) rs
    → any (λ r. text_eq r.id id) rs ≡ true
known id [] h = absurd h
known id (r ∷ rs) (inl e) = rw ((text_eq_iff r.id id).1 e) refl
known id (r ∷ rs) (inr h) = ground (arith, known id rs h)

server-Serves : Serves server zone
server-Serves = record {
  view = λ s. s;
  lists = λ s. refl;
  deletes = λ s id h. (filter (differs_from id) s, rw (known id s h) refl, refl);
  posts = λ s p type' new. (
    s
        ++ record {
          id = codes "new";
          name = p.name ++ (codes "." ++ zone.name);
          record_type = p.record_type;
          data_of = some p.data_of;
        }
          ∷ [],
    record {
      id = codes "new";
      name = p.name ++ (codes "." ++ zone.name);
      record_type = p.record_type;
      data_of = some p.data_of;
    },
    refl,
    refl,
    (refl, refl, (names_equal_equivalence (p.name ++ (codes "." ++ zone.name)) [] []).0),
  );
}

abbrev ee : Text → Text → Text → DnsRecord
ee id name hash = record {
  id = id;
  name = name;
  record_type = codes "TLSA";
  data_of = some (record { usage = 3; selector = 1; matching_type = 1; certificate = hash });
}

abbrev start : List DnsRecord
start =
    ee (codes "1") (codes "_25._tcp.mx.b.c") (codes "aa")
    ∷ ee (codes "2") (codes "_25._tcp.b.c") (codes "cc")
    ∷ []

start-Distinct : Distinct start
start-Distinct =
    ((λ e. absurd (cc (sym ((text_eq_iff (codes "1") (codes "2")).1 e))), tt), (tt, tt))

publish_tlsa-rrset_example :
    (report : PublishReport) × (s' : List DnsRecord) × (publish_tlsa server zone
        (some (codes "mx"))
        25
        (codes "bb")
        rollover
        false
        start
      ≡ some (report, s'))
    × (report.action
        ≡ publish_action
            (dane_records
              (ours server zone server-Serves (some (codes "mx")) 25 (codes "bb") start))
            (codes "bb")
            rollover
            false)
    × (dane_records (ours server zone server-Serves (some (codes "mx")) 25 (codes "bb") s')
        ≡ rrset_after_publish
            (dane_records
              (ours server zone server-Serves (some (codes "mx")) 25 (codes "bb") start))
            (codes "bb")
            (publish_action
              (dane_records
                (ours server zone server-Serves (some (codes "mx")) 25 (codes "bb") start))
              (codes "bb")
              rollover
              false))
unfolding gentlsa.Prelude.trim_end_by gentlsa.Prelude.lower server-Serves
publish_tlsa-rrset_example =
    publish_tlsa-rrset server zone server-Serves (some (codes "mx")) 25 (codes "bb") start
      (omega arith) refl refl

prune_tlsa-rrset_example :
    ((report : PruneReport) × (s' : List DnsRecord) × (prune_tlsa server zone
          (some (codes "mx"))
          25
          (codes "aa")
          false
          start
        ≡ some (report, s'))
      × (dane_records (filter (matches_owner (expected_names zone (some (codes "mx")) 25)) s')
          ≡ rrset_after_prune
              (dane_records
                (filter (matches_owner (expected_names zone (some (codes "mx")) 25)) start))
              (codes "aa"))
      × (filter (λ r. not (matches_owner (expected_names zone (some (codes "mx")) 25) r)) s'
          ≡ filter (λ r. not (matches_owner (expected_names zone (some (codes "mx")) 25) r)) start))
    × ((report : PruneReport) × (prune_tlsa server zone
            (some (codes "mx"))
            25
            (codes "aa")
            true
            start
          ≡ some (report, start)))
unfolding server-Serves
prune_tlsa-rrset_example =
    prune_tlsa-rrset server zone server-Serves (some (codes "mx")) 25 (codes "aa") start
      start-Distinct (omega arith)

apex_is_stale :
    is_stale_record
      (expected_names zone none 25)
      (codes "aa")
      (ee (codes "2") (codes "_25._tcp.b.c") (codes "cc"))
    ≡ true
unfolding is_stale_record expected_names gentlsa.Prelude.trim_end_by
    gentlsa.Prelude.Decimal.to_string gentlsa.Prelude.lower gentlsa.Publish.is_dane_ee_spki_sha256
    gentlsa.Publish.hash_matches gentlsa.Tlsa.hashes_equal
apex_is_stale = refl

-- The record of the zone itself is stale in a prune for the host `mx`.
stale-apex_example :
    is_stale_record
      (expected_names zone (some (codes "mx")) 25)
      (codes "aa")
      (ee (codes "2") (codes "_25._tcp.b.c") (codes "cc"))
    ≡ true
stale-apex_example =
    stale-apex zone (codes "mx") 25 (codes "aa")
      (ee (codes "2") (codes "_25._tcp.b.c") (codes "cc")) apex_is_stale
