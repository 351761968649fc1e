-- ===== src/Commands/CloudDns.antt =====
-- A server of Cloud DNS for the tests of src/main.rs: the TLSA sets of each zone by the owner's name in
-- lower case.
use gentlsa.Prelude.{
  ◌≡◌, refl, sym, ap, ◌∙◌, inl, inr, Text, true, false, ◌&&◌, Option, none, some, List, [], ◌∷◌,
  if◌then◌else◌, text_eq, to_ascii_lowercase, trim_dots, some-inj, Bool-cases, Option-cases,
}
use mathlib.Core.Path.{subst}
use gentlsa.Prelude.StrLaws.{text_eq_iff, text_eq_refl}
use gentlsa.Publish.Names.{names_equal}
use gentlsa.Google.{ManagedZone, Rrset, Api, deletions_of, first_set}
use gentlsa.Google.Change.{IsNamed}
use gentlsa.Commands.AtGoogle.{ServesZones}

abbrev pub Zones : Type 0
Zones = Text → Text → Option Rrset

abbrev pub key : Text → Text
key fqdn = to_ascii_lowercase (trim_dots fqdn)

-- A set under the key of its own name.
abbrev pub valid : Text → Option Rrset → Option Rrset
valid k none = none
valid k (some set) = if text_eq (key set.name) k then some set else none

abbrev pub set_at : Zones → ManagedZone → Text → Option Rrset
set_at s zone fqdn = valid (key fqdn) (s zone.name (key fqdn))

abbrev pub store : Zones → ManagedZone → Text → Option Rrset → Zones
store s zone k next z other = if text_eq z zone.name && text_eq other k then next else s z other

abbrev pub changed : Zones → ManagedZone → List Rrset → List Rrset → Zones
changed s zone [] [] = s
changed s zone (set ∷ _) _ = store s zone (key set.name) (some set)
changed s zone [] (set ∷ _) = store s zone (key set.name) none

abbrev pub cloud_dns : List ManagedZone → Api Zones
cloud_dns zones = record {
  zones = λ s page. none;
  zones_named = λ s name. some (record { managed_zones = zones; next_page_token = none });
  rrsets = λ s zone page. none;
  rrsets_named = λ s zone fqdn.
      some (record { rrsets = deletions_of (set_at s zone fqdn); next_page_token = none });
  post_change = λ s zone change. some (changed s zone change.additions change.deletions);
}

pub first-deletions_of : (o : Option Rrset) → first_set (deletions_of o) ≡ o
unfolding first_set deletions_of
first-deletions_of none = refl
first-deletions_of (some set) = refl

valid-key : (k : Text) (o : Option Rrset) (set : Rrset) → valid k o ≡ some set → key set.name ≡ k
valid-key k none set e = cc e
valid-key k (some set') set e = elim (Bool-cases (text_eq (key set'.name) k)) [
  | inl t ↦
      ap (λ (x : Rrset). key x.name) (sym (some-inj set' set (rw t at e)))
      ∙ (text_eq_iff (key set'.name) k).0 t
  | inr t ↦ cc (rw t at e)
]

store_self :
    (s : Zones) (zone : ManagedZone) (k : Text) (next : Option Rrset)
    → store s zone k next zone.name k ≡ next
store_self s zone k next = rw (text_eq_refl zone.name, text_eq_refl k) refl

store_other :
    (s : Zones) (zone : ManagedZone) (fqdn other : Text) (next : Option Rrset)
    → names_equal other fqdn ≡ false
    → store s zone (key fqdn) next zone.name (key other) ≡ s zone.name (key other)
unfolding names_equal
store_other s zone fqdn other next d =
    let differs : text_eq (key other) (key fqdn) ≡ false = d in
    rw (text_eq_refl zone.name, differs) refl

-- What the server keeps behind a change at an owner.
abbrev IsChanged : Zones → Zones → ManagedZone → Text → Option Rrset → Type 0
IsChanged s s' zone fqdn next =
    (set_at s' zone fqdn ≡ next)
    × ((other : Text) → names_equal other fqdn ≡ false → set_at s' zone other ≡ set_at s zone other)

stored :
    (s : Zones) (zone : ManagedZone) (fqdn : Text) (next : Option Rrset)
    → valid (key fqdn) next ≡ next
    → IsChanged s (store s zone (key fqdn) next) zone fqdn next
stored s zone fqdn next v = (
  ap (valid (key fqdn)) (store_self s zone (key fqdn) next) ∙ v,
  λ other d. ap (valid (key other)) (store_other s zone fqdn other next d),
)

pub changed-IsChanged :
    (s : Zones) (zone : ManagedZone) (fqdn : Text) (next : Option Rrset)
    → IsNamed fqdn next
    → IsChanged s
        (changed s zone (deletions_of next) (deletions_of (set_at s zone fqdn)))
        zone
        fqdn
        next
unfolding deletions_of
changed-IsChanged s zone fqdn (some set) h =
    subst (λ f. IsChanged s (store s zone (key set.name) (some set)) zone f (some set)) h
      (stored s zone set.name (some set) (rw (text_eq_refl (key set.name)) refl))
changed-IsChanged s zone fqdn none h = elim (Option-cases (set_at s zone fqdn)) [
  | inl e ↦ rw e (e, λ other d. refl)
  | inr (set, e) ↦
      let k = valid-key (key fqdn) (s zone.name (key fqdn)) set e in
      rw e (
        subst (λ x. IsChanged s (store s zone x none) zone fqdn none) (sym k)
          (stored s zone fqdn none refl))
]

pub same_owner :
    (s : Zones) (zone : ManagedZone) (fqdn other : Text)
    → names_equal other fqdn ≡ true
    → set_at s zone other ≡ set_at s zone fqdn
unfolding names_equal
same_owner s zone fqdn other n =
    ap (λ k. valid k (s zone.name k)) ((text_eq_iff (key other) (key fqdn)).0 n)

pub other_zone :
    (s : Zones) (zone other : ManagedZone) (additions deletions : List Rrset) (fqdn : Text)
    → text_eq other.name zone.name ≡ false
    → set_at (changed s zone additions deletions) other fqdn ≡ set_at s other fqdn
other_zone s zone other [] [] fqdn d = refl
other_zone s zone other (set ∷ additions) deletions fqdn d = rw d refl
other_zone s zone other [] (set ∷ deletions) fqdn d = rw d refl

abbrev pub cloud_dns-ServesZones : (zones : List ManagedZone) → ServesZones (cloud_dns zones)
cloud_dns-ServesZones zones = record {
  serves = λ zone. record {
    set_of = λ s fqdn. set_at s zone fqdn;
    named = λ s fqdn. (
      record { rrsets = deletions_of (set_at s zone fqdn); next_page_token = none },
      refl,
      first-deletions_of (set_at s zone fqdn),
    );
    changes = λ s fqdn next h. (
      changed s zone (deletions_of next) (deletions_of (set_at s zone fqdn)),
      refl,
      (changed-IsChanged s zone fqdn next h).0,
      (changed-IsChanged s zone fqdn next h).1,
    );
  };
  one_owner = λ zone s fqdn other n. same_owner s zone fqdn other n;
  one_zone = λ zone other s fqdn t.
      ap (λ z. valid (key fqdn) (s z (key fqdn))) ((text_eq_iff other.name zone.name).0 t);
  apart = λ zone other s s' change fqdn d e.
      ap (λ x. set_at x other fqdn) (sym (some-inj _ s' e))
      ∙ other_zone s zone other change.additions change.deletions fqdn d;
  zones_stay = λ zone s s' change name e. refl;
}
