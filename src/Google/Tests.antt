-- ===== src/Google/Tests.antt =====
-- A server of one zone that keeps a TLSA set for each owner.
use gentlsa.Prelude.{
  ℕ, ◌≡◌, ◌≢◌, refl, sym, ap, ◌∙◌, Text, codes, Bool, true, false, Option, none, some, List, [],
  ◌∷◌, map, if◌then◌else◌, arith,
}
use mathlib.Core.Path.{subst}
use gentlsa.Prelude.StrLaws.{eq_ignore_ascii_case_refl}
use gentlsa.Publish.{
  rollover, added, DaneTlsa, publish_action, rrset_after_publish, rrset_after_prune, stale_dane,
}
use gentlsa.Publish.Names.{names_equal, fqdn_owner}
use gentlsa.Publish.Printed.{IsHash}
use gentlsa.Google.{
  ManagedZone, Rrset, Api, current_dane, deletions_of, first_set, publish_report, prune_report,
  publish_tlsa, prune_tlsa,
}
use gentlsa.Google.Change.{Serves, IsNamed, Holds, dane_of, publish_tlsa-Holds, prune_tlsa-Holds}

abbrev Sets : Type 0
Sets = Text → Option Rrset

abbrev named_as : Text → Option Rrset → Option Rrset
named_as fqdn none = none
named_as fqdn (some set) = some (record set { name = fqdn })

abbrev put : Sets → Text → Option Rrset → Sets
put s name next other = if names_equal other name then next else s other

-- A change is made at the name of its set.
abbrev changed : Sets → List Rrset → List Rrset → Sets
changed s [] [] = s
changed s (set ∷ _) _ = put s set.name (some set)
changed s [] (set ∷ _) = put s set.name none

abbrev toy : Api Sets
toy = record {
  zones = λ s page. none;
  zones_named = λ s name. none;
  rrsets = λ s zone page. none;
  rrsets_named = λ s zone fqdn.
      some (record { rrsets = deletions_of (named_as fqdn (s fqdn)); next_page_token = none });
  post_change = λ s zone change. some (changed s change.additions change.deletions);
}

names_equal_refl : (name : Text) → names_equal name name ≡ true
unfolding names_equal
names_equal_refl name = eq_ignore_ascii_case_refl _

first-named : (o : Option Rrset) → first_set (deletions_of o) ≡ o
unfolding first_set deletions_of
first-named none = refl
first-named (some set) = refl

put_self : (s : Sets) (name : Text) (next : Option Rrset) → put s name next name ≡ next
put_self s name next = rw (names_equal_refl name) refl

put_other :
    (s : Sets) (name other : Text) (next : Option Rrset)
    → names_equal other name ≡ false
    → put s name next other ≡ s other
put_other s name other next d = rw d refl

named_self : (set : Rrset) → named_as set.name (some set) ≡ some set
named_self set = refl

changed_lem :
    (s : Sets) (fqdn : Text) (next : Option Rrset)
    → IsNamed fqdn next
    → (named_as fqdn (changed s (deletions_of next) (deletions_of (named_as fqdn (s fqdn))) fqdn)
        ≡ next)
      × ((other : Text)
          → names_equal other fqdn ≡ false
          → named_as other
              (changed s (deletions_of next) (deletions_of (named_as fqdn (s fqdn))) other)
            ≡ named_as other (s other))
unfolding deletions_of
changed_lem s fqdn (some set) h =
    subst
      (λ f.
        (named_as f (put s set.name (some set) f) ≡ some set)
        × ((other : Text)
            → names_equal other f ≡ false
            → named_as other (put s set.name (some set) other) ≡ named_as other (s other)))
      h
      (
        ap (named_as set.name) (put_self s set.name (some set)),
        λ other d. ap (named_as other) (put_other s set.name other (some set) d),
      )
changed_lem s fqdn none h = gone (s fqdn) refl
  where
    gone :
        (o : Option Rrset)
        → o ≡ s fqdn
        → (named_as fqdn (changed s [] (deletions_of (named_as fqdn o)) fqdn) ≡ none)
          × ((other : Text)
              → names_equal other fqdn ≡ false
              → named_as other (changed s [] (deletions_of (named_as fqdn o)) other)
                ≡ named_as other (s other))
    gone none e = (ap (named_as fqdn) (sym e), λ other d. refl)
    gone (some set) e = (
      ap (named_as fqdn) (put_self s fqdn none),
      λ other d. ap (named_as other) (put_other s fqdn other none d),
    )

abbrev zone : ManagedZone
zone = record { name = codes "z"; dns_name = codes "x.y."; id = codes "1" }

abbrev toy-Serves : Serves toy zone
toy-Serves = record {
  set_of = λ s fqdn. named_as fqdn (s fqdn);
  named = λ s fqdn. (
    record { rrsets = deletions_of (named_as fqdn (s fqdn)); next_page_token = none },
    refl,
    first-named (named_as fqdn (s fqdn)),
  );
  changes = λ s fqdn next h. (
    changed s (deletions_of next) (deletions_of (named_as fqdn (s fqdn))),
    refl,
    (changed_lem s fqdn next h).0,
    (changed_lem s fqdn next h).1,
  );
}

abbrev owner : Text
owner = codes "_443._tcp.x.y."

-- Each owner has one record.
abbrev start : Sets
start fqdn = some (record {
  name = codes "";
  record_type = codes "TLSA";
  ttl = 300;
  rrdatas = codes "3 1 1 AA" ∷ [];
})

bb-IsHash : IsHash (codes "bb")
unfolding gentlsa.Prelude.is_whitespace
bb-IsHash = record { some_text = λ e. cc e; no_space = (refl, (refl, tt)) }

publish_tlsa-Holds_example :
    let fqdn = fqdn_owner zone.dns_name none 443 in
    let ours = dane_of toy zone toy-Serves start fqdn in
    let action = publish_action ours (codes "bb") rollover false in
    (s' : Sets) × (publish_tlsa toy zone 60 none 443 (codes "bb") rollover false start
      ≡ some (publish_report zone none 443 rollover false ours action, s'))
    × Holds toy zone toy-Serves fqdn (rrset_after_publish ours (codes "bb") action) start s'
publish_tlsa-Holds_example =
    publish_tlsa-Holds toy zone toy-Serves 60 none 443 (codes "bb") rollover false start bb-IsHash

prune_tlsa-Holds_example :
    let fqdn = fqdn_owner zone.dns_name none 443 in
    let ours = dane_of toy zone toy-Serves start fqdn in
    (s' : Sets) × (prune_tlsa toy zone 60 none 443 (codes "bb") false start
      ≡ some (prune_report zone false (stale_dane ours (codes "bb")), s'))
    × Holds toy zone toy-Serves fqdn
        (if false then ours else rrset_after_prune ours (codes "bb"))
        start
        s'
prune_tlsa-Holds_example = prune_tlsa-Holds toy zone toy-Serves 60 none 443 (codes "bb") false start

read_start :
    dane_of toy zone toy-Serves start owner
    ≡ record { usage = 3; selector = 1; matching = 1; certificate = codes "aa" } ∷ []
unfolding current_dane gentlsa.Publish.Rdata.rdata_dane gentlsa.Publish.Rdata.next_u8
    gentlsa.Prelude.words_from gentlsa.Prelude.is_whitespace gentlsa.Prelude.Decimal.parse_uint
    gentlsa.Publish.Rdata.joined_certificate gentlsa.Prelude.lower
read_start = refl
