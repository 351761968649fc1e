-- ===== src/Google.antt =====
-- src/google.rs: the record sets of Google Cloud DNS, and the listing, the publish and the prune. The
-- HTTP API, with its tokens and its paths, is the operations of `Api` on a state of the server; `none`
-- is an error of the source.
pub mod Change
pub mod Tests
use gentlsa.Prelude.{
  ℕ, zero, suc, Text, codes, Bool, true, false, not, ◌&&◌, ◌||◌, Option, none, some, List, [], ◌∷◌,
  ◌++◌, if◌then◌else◌, length, is_empty, find?, filter_map, map, trim_dots, trim, strip_suffix,
  ◌>>=◌,
}
use gentlsa.Tlsa.Owner.{owner_name}
use gentlsa.Publish.{
  PublishMode, PublishAction, already_published, added, replaced, would_add, would_replace,
  PublishReport, PruneReport, DaneTlsa, publish_action, rrset_after_publish, rrset_after_prune,
  stale_dane,
}
use gentlsa.Publish.Names.{names_equal, fqdn_owner}
use gentlsa.Publish.Rdata.{ListedTlsa, rdata_listed, rdata_dane, format_tlsa_rdata, keep_matching}
use gentlsa.Publish.Paging.{pages}

pub record ManagedZone : Type 0 where
  pub name : Text
  pub dns_name : Text
  pub id : Text

pub record Rrset : Type 0 where
  pub name : Text
  pub record_type : Text
  pub ttl : ℕ
  pub rrdatas : List Text

pub record RrsetsResponse : Type 0 where
  pub rrsets : List Rrset
  pub next_page_token : Option Text

pub record ZonesResponse : Type 0 where
  pub managed_zones : List ManagedZone
  pub next_page_token : Option Text

pub record ChangeRequest : Type 0 where
  pub additions : List Rrset
  pub deletions : List Rrset

-- `zones` takes a page token, `zones_named` a DNS name, `rrsets` a page token, and `rrsets_named` an
-- owner name.
pub record Api (S : Type 0) : Type 0 where
  pub zones : S → Option Text → Option ZonesResponse
  pub zones_named : S → Text → Option ZonesResponse
  pub rrsets : S → ManagedZone → Option Text → Option RrsetsResponse
  pub rrsets_named : S → ManagedZone → Text → Option RrsetsResponse
  pub post_change : S → ManagedZone → ChangeRequest → Option S

unfoldable pub set_dane : Rrset → List DaneTlsa
set_dane set = filter_map (rdata_dane set.name) set.rrdatas

unfoldable pub set_listed : Rrset → List ListedTlsa
set_listed set = filter_map (rdata_listed set.name) set.rrdatas

unfoldable pub from_dane : Text → ℕ → List DaneTlsa → Rrset
from_dane name ttl records' = record {
  name = name;
  record_type = codes "TLSA";
  ttl = ttl;
  rrdatas = map format_tlsa_rdata records';
}

unfoldable pub trailing_dot : Text → Text
unfolding strip_suffix
trailing_dot name = elim (strip_suffix (codes ".") (trim name)) [
  | some _ ↦ trim name
  | none ↦ trim name ++ codes "."
]

-- `map(to_dane).unwrap_or_default()`.
unfoldable pub current_dane : Option Rrset → List DaneTlsa
unfolding set_dane
current_dane none = []
current_dane (some set) = set_dane set

-- A token that is not empty asks for another page.
unfoldable pub next_page : Option Text → Option (Option Text)
next_page none = none
next_page (some token) = if is_empty token then none else some (some token)

-- `flat_map` by `to_listed`, and `next` of an iterator.
unfoldable pub concat_listed : List Rrset → List ListedTlsa
unfolding set_listed
concat_listed [] = []
concat_listed (set ∷ sets) = set_listed set ++ concat_listed sets

unfoldable pub first_set : List Rrset → Option Rrset
first_set [] = none
first_set (set ∷ sets) = some set

unfoldable pub deletions_of : Option Rrset → List Rrset
deletions_of none = []
deletions_of (some current) = current ∷ []

unfoldable pub additions_of : Text → ℕ → List DaneTlsa → List Rrset
unfolding from_dane
additions_of fqdn ttl [] = []
additions_of fqdn ttl (r ∷ next) = from_dane fqdn ttl (r ∷ next) ∷ []

unfoldable pub change_request : Text → ℕ → Option Rrset → List DaneTlsa → ChangeRequest
unfolding deletions_of additions_of
change_request fqdn ttl current next = record {
  additions = additions_of fqdn ttl next;
  deletions = deletions_of current;
}

unfoldable pub zone_matches : Text → ManagedZone → Bool
unfolding names_equal
zone_matches name zone = names_equal zone.dns_name name || names_equal zone.name name

-- The closure `report`.
unfoldable pub publish_report :
    ManagedZone
    → Option Text
    → ℕ
    → PublishMode
    → Bool
    → List DaneTlsa
    → PublishAction
    → PublishReport
publish_report zone hostname port mode dryrun dane action = record {
  zone = trim_dots zone.dns_name;
  owner = owner_name port hostname;
  action = action;
  mode = mode;
  dryrun = dryrun;
  existing = length dane;
}

unfoldable pub prune_report : ManagedZone → Bool → List DaneTlsa → PruneReport
prune_report zone dryrun stale = record {
  zone = trim_dots zone.dns_name;
  dryrun = dryrun;
  stale = map (λ r. r.certificate) stale;
}

module _ {S : Type 0} (api : Api S) where
  -- The rounds of a loop over pages are bounded by `fuel`.
  unfoldable pub list_zones : ℕ → S → Option (List ManagedZone)
  list_zones fuel s =
      pages
        (λ page. api.zones s page >>= λ parsed.
          some (parsed.managed_zones, next_page parsed.next_page_token))
        fuel none

  unfoldable pub zone_by_name : Text → S → Option (Option ManagedZone)
  unfolding trailing_dot
  zone_by_name name s = do
    parsed ← api.zones_named s (trailing_dot name)
    some (find? (zone_matches name) parsed.managed_zones)

  unfoldable pub tlsa_records : ℕ → ManagedZone → S → Option (List ListedTlsa)
  unfolding set_listed
  tlsa_records fuel zone s =
      pages
        (λ page. api.rrsets s zone page >>= λ parsed.
          some (concat_listed parsed.rrsets, next_page parsed.next_page_token))
        fuel none

  unfoldable pub list_tlsa : ℕ → ManagedZone → Option Text → List ℕ → S → Option (List ListedTlsa)
  unfolding tlsa_records
  list_tlsa fuel zone hostname ports s =
      tlsa_records fuel zone s >>= λ records'. keep_matching zone.dns_name hostname ports records'

  unfoldable pub rrset_for_owner : ManagedZone → Text → S → Option (Option Rrset)
  rrset_for_owner zone fqdn s =
      api.rrsets_named s zone fqdn >>= λ parsed. some (first_set parsed.rrsets)

  unfoldable pub apply_rrset : ManagedZone → Text → ℕ → Option Rrset → List DaneTlsa → S → Option S
  apply_rrset zone fqdn ttl current next s =
      let change = change_request fqdn ttl current next in
      if is_empty change.additions && is_empty change.deletions
      then some s
      else api.post_change s zone change

  -- The `match` on the action.
  unfoldable pub perform :
      ManagedZone → Text → ℕ → Option Rrset → Text → PublishAction → S → Option S
  perform zone fqdn ttl current certificate added s =
      apply_rrset zone fqdn ttl current
        (rrset_after_publish (current_dane current) certificate added) s
  perform zone fqdn ttl current certificate replaced s =
      apply_rrset zone fqdn ttl current
        (rrset_after_publish (current_dane current) certificate replaced) s
  perform zone fqdn ttl current certificate already_published s = some s
  perform zone fqdn ttl current certificate would_add s = some s
  perform zone fqdn ttl current certificate would_replace s = some s

  unfoldable pub publish_tlsa :
      ManagedZone → ℕ → Option Text → ℕ → Text → PublishMode → Bool → S → Option (PublishReport × S)
  publish_tlsa zone ttl hostname port certificate mode dryrun s = do
    let fqdn = fqdn_owner zone.dns_name hostname port
    current ← rrset_for_owner zone fqdn s
    let dane = current_dane current
    let action = publish_action dane certificate mode dryrun
    s' ← perform zone fqdn ttl current certificate action s
    some (publish_report zone hostname port mode dryrun dane action, s')

  unfoldable pub prune_tlsa :
      ManagedZone → ℕ → Option Text → ℕ → Text → Bool → S → Option (PruneReport × S)
  prune_tlsa zone ttl hostname port live_hash dryrun s = do
    let fqdn = fqdn_owner zone.dns_name hostname port
    current ← rrset_for_owner zone fqdn s
    let dane = current_dane current
    let stale = stale_dane dane live_hash
    s' ←
        (if is_empty stale
          then some s
          else if dryrun
          then some s
          else apply_rrset zone fqdn ttl current (rrset_after_prune dane live_hash) s)
    some (prune_report zone dryrun stale, s')
