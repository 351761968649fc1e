-- ===== src/Publish.antt =====
-- src/publish.rs: the decision of a publish, the record sets after a publish and after a prune.
pub mod Kind
pub mod Names
pub mod Rdata
pub mod Action
pub mod Sets
pub mod Cycle
pub mod RoundTrip
pub mod Printed
pub mod Paging
pub mod OwnerHost
pub mod Listing
pub mod Tests
use gentlsa.Prelude.{
  ℕ, Text, Bool, true, false, not, ◌&&◌, ◌||◌, Option, none, some, List, [], ◌∷◌, ◌++◌, ◌==◌,
  if◌then◌else◌, any, filter, to_ascii_lowercase,
}
use gentlsa.Tlsa
use gentlsa.Tlsa.{usage_default, selector_default, matching_default, hashes_equal}

pub data PublishMode : Type 0 where
  rollover replace : PublishMode

pub data PublishAction : Type 0 where
  already_published added replaced would_add would_replace : PublishAction

-- `==` of the derived `PartialEq`.
abbrev pub is_replace : PublishMode → Bool
is_replace rollover = false
is_replace replace = true

pub record PublishReport : Type 0 where
  pub zone : Text
  pub owner : Text
  pub action : PublishAction
  pub mode : PublishMode
  pub dryrun : Bool
  pub existing : ℕ

pub record PruneReport : Type 0 where
  pub zone : Text
  pub dryrun : Bool
  pub stale : List Text

-- DANE-EE / SPKI / SHA-256 view used to decide rollover, replace or prune.
pub record DaneTlsa : Type 0 where
  pub usage : ℕ
  pub selector : ℕ
  pub matching : ℕ
  pub certificate : Text

unfoldable pub is_dane_ee_spki_sha256 : DaneTlsa → Bool
unfolding Tlsa.is_dane_ee_spki_sha256
is_dane_ee_spki_sha256 r = Tlsa.is_dane_ee_spki_sha256 r.usage r.selector r.matching

unfoldable pub hash_matches : DaneTlsa → Text → Bool
hash_matches r live = hashes_equal live r.certificate

-- The test of `publish_action` for a record that already holds the hash.
unfoldable pub is_current : Text → DaneTlsa → Bool
is_current certificate r = hash_matches r certificate && is_dane_ee_spki_sha256 r

unfoldable pub publish_action : List DaneTlsa → Text → PublishMode → Bool → PublishAction
publish_action ours certificate mode dryrun =
    if any (is_current certificate) ours
    then already_published
    else if is_replace mode && any is_dane_ee_spki_sha256 ours
    then if dryrun then would_replace else replaced
    else if dryrun
    then would_add
    else added

unfoldable pub live_dane : Text → DaneTlsa
live_dane certificate = record {
  usage = usage_default;
  selector = selector_default;
  matching = matching_default;
  certificate = to_ascii_lowercase certificate;
}

-- The loop of the `Replaced` branch: the records pushed so far are `next`, and `done` is the flag
-- `replaced`; behind the loop the live record is pushed if the flag is still unset.
unfoldable pub replace_loop : Text → List DaneTlsa → Bool → List DaneTlsa → List DaneTlsa
replace_loop certificate [] done next = if done then next else next ++ live_dane certificate ∷ []
replace_loop certificate (r ∷ ours) done next = elim (not done && is_dane_ee_spki_sha256 r) [
  | true ↦ replace_loop certificate ours true (next ++ live_dane certificate ∷ [])
  | false ↦ replace_loop certificate ours done (next ++ r ∷ [])
]

unfoldable pub rrset_after_publish : List DaneTlsa → Text → PublishAction → List DaneTlsa
rrset_after_publish ours certificate added = ours ++ live_dane certificate ∷ []
rrset_after_publish ours certificate replaced = replace_loop certificate ours false []
rrset_after_publish ours certificate _ = ours

unfoldable pub rrset_after_prune : List DaneTlsa → Text → List DaneTlsa
rrset_after_prune ours live_hash =
    filter (λ r. not (is_dane_ee_spki_sha256 r) || hash_matches r live_hash) ours

unfoldable pub is_stale : Text → DaneTlsa → Bool
is_stale live_hash r = is_dane_ee_spki_sha256 r && not (hash_matches r live_hash)

unfoldable pub stale_dane : List DaneTlsa → Text → List DaneTlsa
stale_dane records live_hash = filter (is_stale live_hash) records
