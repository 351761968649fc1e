-- ===== src/Publish/Cycle.antt =====
-- src/publish.rs: lemmas on a prune, and on a rollover followed by a prune.
use mathlib.Core.List.{Perm, perm_middle}
use mathlib.Core.List.Perm
use gentlsa.Prelude.{
  Text, List, [], ◌∷◌, ◌++◌, ◌≡◌, refl, ap, ◌∙◌, inl, inr, Bool, true, false, not, ◌||◌, Any, All,
  filter, arith, Bool-cases, filter_of_All, filter-All_test, filter-eq-nil_of_All, All-mono,
}
use gentlsa.Tlsa.{hashes_equal}
use gentlsa.Publish.{
  rollover, DaneTlsa, is_dane_ee_spki_sha256, publish_action, hash_matches, live_dane,
  rrset_after_publish, rrset_after_prune, is_stale, stale_dane,
}
use gentlsa.Publish.Action.{IsDaneEe, HoldsHash, is_dane_iff}
use gentlsa.Publish.Sets.{Any-append_left, publish_twice, rollover_keeps}

abbrev keeps : Text → DaneTlsa → Bool
keeps live_hash r = not (is_dane_ee_spki_sha256 r) || hash_matches r live_hash

keeps-not_stale : (live_hash : Text) (r : DaneTlsa) → is_stale live_hash r ≡ not (keeps live_hash r)
unfolding is_stale
keeps-not_stale live_hash r = ground arith

-- What stays and what is stale make up the whole set.
prune-perm :
    (ours : List DaneTlsa) (live_hash : Text)
    → Perm (rrset_after_prune ours live_hash ++ stale_dane ours live_hash) ours
unfolding rrset_after_prune stale_dane
prune-perm [] live_hash = Perm.refl []
prune-perm (r ∷ ours) live_hash = elim (Bool-cases (keeps live_hash r)) [
  | inl k ↦ rw (keeps-not_stale live_hash r, k) (Perm.cons r (prune-perm ours live_hash))
  | inr s ↦
      rw (keeps-not_stale live_hash r, s)
        (Perm.trans (perm_middle _ _) (Perm.cons r (prune-perm ours live_hash)))
]

-- A prune splits the set: what it keeps and what it lists as stale are together the records that
-- were there, as often. What it keeps has no stale record, and a second prune changes nothing.
pub prune_splits :
    (ours : List DaneTlsa) (live_hash : Text)
    → Perm (rrset_after_prune ours live_hash ++ stale_dane ours live_hash) ours
      × (stale_dane (rrset_after_prune ours live_hash) live_hash ≡ [])
      × (rrset_after_prune (rrset_after_prune ours live_hash) live_hash
          ≡ rrset_after_prune ours live_hash)
unfolding rrset_after_prune stale_dane
prune_splits ours live_hash =
    let kept = filter-All_test (keeps live_hash) ours in
    (
      unfold rrset_after_prune stale_dane in prune-perm ours live_hash,
      filter-eq-nil_of_All (is_stale live_hash) _ (
          All-mono (λ r. keeps live_hash r ≡ true) (λ r. is_stale live_hash r ≡ false) _
            (λ r k. keeps-not_stale live_hash r ∙ ap not k) kept),
      filter_of_All (keeps live_hash) _ kept,
    )

abbrev pub is_other : DaneTlsa → Bool
is_other r = not (is_dane_ee_spki_sha256 r)

holds-keeps : (live_hash : Text) (r : DaneTlsa) → HoldsHash live_hash r → keeps live_hash r ≡ true
unfolding hash_matches hashes_equal
holds-keeps live_hash r h = ground (arith, h.same)

prune-holds :
    (ours : List DaneTlsa) (live_hash : Text)
    → Any (HoldsHash live_hash) ours
    → Any (HoldsHash live_hash) (rrset_after_prune ours live_hash)
unfolding rrset_after_prune
prune-holds [] live_hash h = absurd h
prune-holds (r ∷ ours) live_hash (inl h) = rw (holds-keeps live_hash r h) (inl h)
prune-holds (r ∷ ours) live_hash (inr h) = elim (Bool-cases (keeps live_hash r)) [
  | inl k ↦ rw k (inr (prune-holds ours live_hash h))
  | inr s ↦ rw s (prune-holds ours live_hash h)
]

prune-others :
    (ours : List DaneTlsa) (live_hash : Text)
    → filter is_other (rrset_after_prune ours live_hash) ≡ filter is_other ours
unfolding rrset_after_prune
prune-others [] live_hash = refl
prune-others (r ∷ ours) live_hash = ground (arith, prune-others ours live_hash)

kept-HoldsHash :
    (live_hash : Text) (r : DaneTlsa)
    → keeps live_hash r ≡ true
    → IsDaneEe r
    → HoldsHash live_hash r
unfolding hash_matches hashes_equal
kept-HoldsHash live_hash r k d = record { dane = d; same = ground (arith, k, (is_dane_iff r).1 d) }

-- A prune keeps a record with the live hash if there was one, drops every 3 1 1 record with another
-- hash, and keeps all records of other types, in order.
pub prune_contents :
    (ours : List DaneTlsa) (live_hash : Text)
    → (Any (HoldsHash live_hash) ours
        → Any (HoldsHash live_hash) (rrset_after_prune ours live_hash))
      × All (λ r. IsDaneEe r → HoldsHash live_hash r) (rrset_after_prune ours live_hash)
      × (filter is_other (rrset_after_prune ours live_hash) ≡ filter is_other ours)
unfolding rrset_after_prune
prune_contents ours live_hash = (
  unfold rrset_after_prune in prune-holds ours live_hash,
  All-mono (λ r. keeps live_hash r ≡ true) (λ r. IsDaneEe r → HoldsHash live_hash r) _
      (kept-HoldsHash live_hash) (filter-All_test (keeps live_hash) ours),
  unfold rrset_after_prune in prune-others ours live_hash,
)

append-others :
    (ours : List DaneTlsa) (certificate : Text)
    → filter is_other (ours ++ live_dane certificate ∷ []) ≡ filter is_other ours
unfolding live_dane is_dane_ee_spki_sha256
append-others [] certificate = refl
append-others (r ∷ ours) certificate = ground (arith, append-others ours certificate)

-- The set that a rollover to a new hash publishes.
abbrev pub rolled : List DaneTlsa → Text → List DaneTlsa
rolled ours new = rrset_after_publish ours new (publish_action ours new rollover false)

rolled-old :
    (ours : List DaneTlsa) (old new : Text)
    → Any (HoldsHash old) ours
    → Any (HoldsHash old) (rolled ours new)
rolled-old ours old new h = elim (rollover_keeps ours new) [
  | inl (_, e) ↦ rw e h
  | inr (_, e) ↦ rw e (Any-append_left (HoldsHash old) ours _ h)
]

rolled-others :
    (ours : List DaneTlsa) (new : Text) → filter is_other (rolled ours new) ≡ filter is_other ours
rolled-others ours new = elim (rollover_keeps ours new) [
  | inl (_, e) ↦ rw e
  | inr (_, e) ↦ rw e (append-others ours new)
]

-- A key rollover never leaves the served key unpublished: behind the publish both the old hash and
-- the new one are there, and behind the prune at the new hash the new one is, no 3 1 1 record has
-- another hash, and the records of other types are those of the start.
pub rollover_cycle :
    (ours : List DaneTlsa) (old new : Text)
    → Any (HoldsHash old) ours
    → Any (HoldsHash old) (rolled ours new)
      × Any (HoldsHash new) (rolled ours new)
      × Any (HoldsHash new) (rrset_after_prune (rolled ours new) new)
      × All (λ r. IsDaneEe r → HoldsHash new r) (rrset_after_prune (rolled ours new) new)
      × (filter is_other (rrset_after_prune (rolled ours new) new) ≡ filter is_other ours)
rollover_cycle ours old new h =
    let (holds, _) = publish_twice ours new rollover rollover false in
    let (kept, only, others) = prune_contents (rolled ours new) new in
    (rolled-old ours old new h, holds, kept holds, only, others ∙ rolled-others ours new)
