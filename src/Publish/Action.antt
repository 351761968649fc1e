-- ===== src/Publish/Action.antt =====
-- src/publish.rs: lemmas on `publish_action`.
use gentlsa.Prelude.{
  Text, List, [], ◌∷◌, ◌≡◌, refl, ◌↔◌, Bool, true, false, any, Any, arith, eq_ignore_ascii_case,
}
use gentlsa.Tlsa.{hashes_equal}
use gentlsa.Publish.{
  PublishMode, replace, PublishAction, already_published, added, replaced, would_add, would_replace,
  DaneTlsa, is_current, is_dane_ee_spki_sha256, publish_action, hash_matches,
}

-- A 3 1 1 record: DANE-EE, SubjectPublicKeyInfo, SHA-256.
pub record IsDaneEe (r : DaneTlsa) : Type 0 where
  pub usage : r.usage ≡ 3
  pub selector : r.selector ≡ 1
  pub matching : r.matching ≡ 1

-- A 3 1 1 record with the hash, up to case.
pub record HoldsHash (certificate : Text) (r : DaneTlsa) : Type 0 where
  pub dane : IsDaneEe r
  pub same : eq_ignore_ascii_case certificate r.certificate ≡ true

pub is_dane_iff : (r : DaneTlsa) → (is_dane_ee_spki_sha256 r ≡ true) ↔ IsDaneEe r
unfolding is_dane_ee_spki_sha256
is_dane_iff r = ground arith

pub is_current_iff :
    (certificate : Text) (r : DaneTlsa)
    → (is_current certificate r ≡ true) ↔ HoldsHash certificate r
unfolding is_current hash_matches hashes_equal
is_current_iff certificate r = (
  λ h. record { dane = (is_dane_iff r).0 (ground (arith, h)); same = ground (arith, h) },
  λ h. ground (arith, h.same, (is_dane_iff r).1 h.dane),
)

pub any_current_iff :
    (certificate : Text) (ours : List DaneTlsa)
    → (any (is_current certificate) ours ≡ true) ↔ Any (HoldsHash certificate) ours
any_current_iff certificate [] = ground arith
any_current_iff certificate (r ∷ ours) =
    ground (arith, is_current_iff certificate r, any_current_iff certificate ours)

pub any_dane_iff :
    (ours : List DaneTlsa) → (any is_dane_ee_spki_sha256 ours ≡ true) ↔ Any IsDaneEe ours
any_dane_iff [] = ground arith
any_dane_iff (r ∷ ours) = ground (arith, is_dane_iff r, any_dane_iff ours)

-- The action as the two facts on the records and the two switches determine it.
action_table : Bool → Bool → PublishMode → Bool → PublishAction
action_table true _ _ _ = already_published
action_table false true replace true = would_replace
action_table false true replace false = replaced
action_table false _ _ true = would_add
action_table false _ _ false = added

publish_action-table :
    (ours : List DaneTlsa) (certificate : Text) (mode : PublishMode) (dryrun : Bool)
    → publish_action ours certificate mode dryrun
      ≡ action_table
          (any (is_current certificate) ours)
          (any is_dane_ee_spki_sha256 ours)
          mode
          dryrun
unfolding publish_action action_table
publish_action-table ours certificate mode dryrun = ground arith

table_cases :
    (held dane : Bool) (mode : PublishMode)
    → ((dryrun : Bool) → (action_table held dane mode dryrun ≡ already_published) ↔ (held ≡ true))
      × ((action_table held dane mode false ≡ replaced)
          ↔ ((held ≡ false) × (mode ≡ replace) × (dane ≡ true)))
      × ((action_table held dane mode false ≡ added)
          ↔ ((held ≡ false) × ¬ ((mode ≡ replace) × (dane ≡ true))))
      × ((action_table held dane mode true ≡ would_replace)
          ↔ (action_table held dane mode false ≡ replaced))
      × ((action_table held dane mode true ≡ would_add)
          ↔ (action_table held dane mode false ≡ added))
unfolding action_table
table_cases held dane mode =
    (λ dryrun. ground arith, ground arith, ground arith, ground arith, ground arith)

-- `b ≡ false` says that what `b` decides fails.
false_iff : {P : Type 0} (b : Bool) → (b ≡ true) ↔ P → (b ≡ false) ↔ (¬ P)
false_iff true h = (λ e. absurd (cc e), λ n. absurd (n (h.0 refl)))
false_iff false h = (λ _ p. cc (h.1 p), λ _. refl)

iff_trans : {P Q R : Type 0} → P ↔ Q → Q ↔ R → P ↔ R
iff_trans f g = (λ p. g.0 (f.0 p), λ r. f.1 (g.1 r))

-- The action is `already_published` exactly when a 3 1 1 record holds the hash, up to case. Without
-- such a record it is a replacement exactly when the mode is `replace` and some 3 1 1 record is
-- there, and an addition otherwise; and the dry run gives the `would` form of the same action.
pub publish_action_cases :
    (ours : List DaneTlsa) (certificate : Text) (mode : PublishMode)
    → ((dryrun : Bool)
        → (publish_action ours certificate mode dryrun ≡ already_published)
          ↔ Any (HoldsHash certificate) ours)
      × ((publish_action ours certificate mode false ≡ replaced)
          ↔ (¬ Any (HoldsHash certificate) ours × (mode ≡ replace) × Any IsDaneEe ours))
      × ((publish_action ours certificate mode false ≡ added)
          ↔ (¬ Any (HoldsHash certificate) ours × ¬ ((mode ≡ replace) × Any IsDaneEe ours)))
      × ((publish_action ours certificate mode true ≡ would_replace)
          ↔ (publish_action ours certificate mode false ≡ replaced))
      × ((publish_action ours certificate mode true ≡ would_add)
          ↔ (publish_action ours certificate mode false ≡ added))
publish_action_cases ours certificate mode =
    let held = any (is_current certificate) ours in
    let dane = any is_dane_ee_spki_sha256 ours in
    let (published, by_replace, by_add, would_r, would_a) = table_cases held dane mode in
    let is_held = any_current_iff certificate ours in
    let is_dane = any_dane_iff ours in
    let not_held = false_iff held is_held in
    rw publish_action-table (
      λ dryrun. rw publish_action-table (iff_trans (published dryrun) is_held),
      iff_trans by_replace (
        λ (n, m, d). (not_held.0 n, m, is_dane.0 d),
        λ (n, m, d). (not_held.1 n, m, is_dane.1 d),
      ),
      iff_trans by_add (
        λ (n, f). (not_held.0 n, λ (m, d). f (m, is_dane.1 d)),
        λ (n, f). (not_held.1 n, λ (m, d). f (m, is_dane.0 d)),
      ),
      rw publish_action-table would_r,
      rw publish_action-table would_a,
    )
