-- ===== src/Publish/Sets.antt =====
-- src/publish.rs: lemmas on `rrset_after_publish`.
use gentlsa.Prelude.{
  Text, List, [], ◌∷◌, ◌++◌, ◌≡◌, refl, ap, sym, ◌∙◌, ◌⊎◌, inl, inr, Bool, true, false, Any, All,
  any, append_assoc, append-nil, Bool-cases, All-mono,
}
use gentlsa.Prelude.StrLaws.{eq_ignore_ascii_case-lower}
use gentlsa.Publish.{
  PublishMode, rollover, replace, already_published, replaced, DaneTlsa, is_current,
  is_dane_ee_spki_sha256, publish_action, live_dane, replace_loop, rrset_after_publish,
}
use gentlsa.Publish.Action.{
  IsDaneEe, HoldsHash, is_dane_iff, any_current_iff, any_dane_iff, publish_action_cases,
}

pub Any-append_right {ℓ} :
    {A : Type ℓ} (P : A → Type 0) (xs ys : List A) → Any P ys → Any P (xs ++ ys)
Any-append_right P [] ys h = h
Any-append_right P (x ∷ xs) ys h = inr (Any-append_right P xs ys h)

pub Any-append_left {ℓ} :
    {A : Type ℓ} (P : A → Type 0) (xs ys : List A) → Any P xs → Any P (xs ++ ys)
Any-append_left P [] ys h = absurd h
Any-append_left P (x ∷ xs) ys (inl h) = inl h
Any-append_left P (x ∷ xs) ys (inr h) = inr (Any-append_left P xs ys h)

pub live_dane-HoldsHash : (certificate : Text) → HoldsHash certificate (live_dane certificate)
unfolding live_dane
live_dane-HoldsHash certificate = record {
  dane = record { usage = refl; selector = refl; matching = refl };
  same = eq_ignore_ascii_case-lower certificate;
}

-- The loop behind its first replacement copies what is left.
replace_loop-done :
    (certificate : Text) (ours next : List DaneTlsa)
    → replace_loop certificate ours true next ≡ next ++ ours
unfolding replace_loop
replace_loop-done certificate [] next = sym (append-nil next)
replace_loop-done certificate (r ∷ ours) next =
    replace_loop-done certificate ours (next ++ r ∷ []) ∙ append_assoc next (r ∷ []) ours

replace_loop-first :
    (certificate : Text) (before : List DaneTlsa) (r : DaneTlsa) (after next : List DaneTlsa)
    → All (λ b. is_dane_ee_spki_sha256 b ≡ false) before
    → is_dane_ee_spki_sha256 r ≡ true
    → replace_loop certificate (before ++ r ∷ after) false next
      ≡ next ++ (before ++ live_dane certificate ∷ after)
unfolding replace_loop
replace_loop-first certificate [] r after next h d =
    rw (d, replace_loop) (replace_loop-done certificate after _ ∙ append_assoc next _ after)
replace_loop-first certificate (b ∷ before) r after next (hb, h) d =
    rw (hb, replace_loop)
      (replace_loop-first certificate before r after (next ++ b ∷ []) h d
        ∙ append_assoc next (b ∷ []) _)

-- The first 3 1 1 record of a list that has one.
first_dane :
    (ours : List DaneTlsa)
    → Any IsDaneEe ours
    → (before : List DaneTlsa) × (r : DaneTlsa) × (after : List DaneTlsa) × (ours
        ≡ before ++ r ∷ after)
      × All (λ b. is_dane_ee_spki_sha256 b ≡ false) before
      × (is_dane_ee_spki_sha256 r ≡ true)
first_dane [] h = absurd h
first_dane (x ∷ ours) h = elim (Bool-cases (is_dane_ee_spki_sha256 x)) [
  | inl d ↦ ([], x, ours, refl, tt, d)
  | inr d ↦
      let rest : Any IsDaneEe ours = elim h [
        | inl here ↦ absurd (cc (d, (is_dane_iff x).1 here))
        | inr later ↦ later
      ] in
      let (before, r, after, e, none_before, is_dane) = first_dane ours rest in
      (x ∷ before, r, after, ap (λ l. x ∷ l) e, (d, none_before), is_dane)
]

-- A replacement, made when the hash is not published and some 3 1 1 record is there, overwrites the
-- first 3 1 1 record with the live one and keeps every other record in its place.
pub replace_first :
    (ours : List DaneTlsa) (certificate : Text)
    → ¬ Any (HoldsHash certificate) ours
    → Any IsDaneEe ours
    → (before : List DaneTlsa) × (r : DaneTlsa) × (after : List DaneTlsa) × (ours
        ≡ before ++ r ∷ after)
      × All (λ b. ¬ IsDaneEe b) before
      × IsDaneEe r
      × (rrset_after_publish ours certificate (publish_action ours certificate replace false)
          ≡ before ++ live_dane certificate ∷ after)
unfolding rrset_after_publish
replace_first ours certificate fresh some_dane =
    let (before, r, after, e, none_before, is_dane) = first_dane ours some_dane in
    let action : publish_action ours certificate replace false ≡ replaced =
      (publish_action_cases ours certificate replace).1.1 (fresh, refl, some_dane) in
    let no_dane =
      All-mono (λ b. is_dane_ee_spki_sha256 b ≡ false) (λ b. ¬ IsDaneEe b) before
        (λ b f d. cc (f, (is_dane_iff b).1 d)) none_before in
    (
      before,
      r,
      after,
      e,
      no_dane,
      (is_dane_iff r).0 is_dane,
      rw (action, rrset_after_publish)
          (ap (λ l. replace_loop certificate l false []) e
            ∙ replace_loop-first certificate before r after [] none_before is_dane),
    )

not_held :
    (ours : List DaneTlsa) (certificate : Text)
    → any (is_current certificate) ours ≡ false
    → ¬ Any (HoldsHash certificate) ours
not_held ours certificate fresh h = cc (fresh, (any_current_iff certificate ours).1 h)

-- Nothing changes if the hash is published.
pub publish_unchanged :
    (ours : List DaneTlsa) (certificate : Text) (mode : PublishMode)
    → Any (HoldsHash certificate) ours
    → rrset_after_publish ours certificate (publish_action ours certificate mode false) ≡ ours
unfolding rrset_after_publish
publish_unchanged ours certificate mode h =
    rw (((publish_action_cases ours certificate mode).0 false).1 h, rrset_after_publish)

publish_appends :
    (ours : List DaneTlsa) (certificate : Text) (mode : PublishMode)
    → ¬ Any (HoldsHash certificate) ours
    → ¬ ((mode ≡ replace) × Any IsDaneEe ours)
    → rrset_after_publish ours certificate (publish_action ours certificate mode false)
      ≡ ours ++ live_dane certificate ∷ []
unfolding rrset_after_publish
publish_appends ours certificate mode fresh keep =
    rw ((publish_action_cases ours certificate mode).2.1 (fresh, keep), rrset_after_publish)

-- A rollover removes nothing: the set is unchanged if the hash is published, and else the live
-- record is appended to it.
pub rollover_keeps :
    (ours : List DaneTlsa) (certificate : Text)
    → (Any (HoldsHash certificate) ours
        × (rrset_after_publish ours certificate (publish_action ours certificate rollover false)
            ≡ ours))
      ⊎ (¬ Any (HoldsHash certificate) ours
          × (rrset_after_publish ours certificate (publish_action ours certificate rollover false)
              ≡ ours ++ live_dane certificate ∷ []))
rollover_keeps ours certificate = elim (Bool-cases (any (is_current certificate) ours)) [
  | inl held ↦
      let h = (any_current_iff certificate ours).0 held in
      inl (h, publish_unchanged ours certificate rollover h)
  | inr fresh ↦
      let f = not_held ours certificate fresh in
      inr (f, publish_appends ours certificate rollover f (λ (m, _). cc m))
]

module _ (ours : List DaneTlsa) (certificate : Text) where
  appended_holds : Any (HoldsHash certificate) (ours ++ live_dane certificate ∷ [])
  appended_holds =
      Any-append_right (HoldsHash certificate) ours _ (inl (live_dane-HoldsHash certificate))

  publish_holds :
      (mode : PublishMode)
      → Any
          (HoldsHash certificate)
          (rrset_after_publish ours certificate (publish_action ours certificate mode false))
  publish_holds rollover = elim (rollover_keeps ours certificate) [
    | inl (h, e) ↦ rw e h
    | inr (_, e) ↦ rw e appended_holds
  ]
  publish_holds replace = elim (Bool-cases (any (is_current certificate) ours)) [
    | inl held ↦
        let h = (any_current_iff certificate ours).0 held in
        rw (publish_unchanged ours certificate replace h) h
    | inr fresh ↦ elim (Bool-cases (any is_dane_ee_spki_sha256 ours)) [
      | inl d ↦
          let (before, _, after, _, _, _, e) =
            replace_first ours certificate (not_held ours certificate fresh)
              ((any_dane_iff ours).0 d) in
          rw e (
            Any-append_right (HoldsHash certificate) before _
              (inl (live_dane-HoldsHash certificate)))
      | inr none_dane ↦
          rw
            (publish_appends ours certificate replace (not_held ours certificate fresh)
              (λ (_, d). cc (none_dane, (any_dane_iff ours).1 d)))
            appended_holds
    ]
  ]

-- After a publish that is no dry run, in either mode, some record holds the hash; so publishing the
-- same hash again, in either mode and dry or not, finds it already published.
pub publish_twice :
    (ours : List DaneTlsa) (certificate : Text) (mode again : PublishMode) (dryrun : Bool)
    → Any
        (HoldsHash certificate)
        (rrset_after_publish ours certificate (publish_action ours certificate mode false))
      × (publish_action
            (rrset_after_publish ours certificate (publish_action ours certificate mode false))
            certificate
            again
            dryrun
          ≡ already_published)
publish_twice ours certificate mode again dryrun =
    let h = publish_holds ours certificate mode in
    (h, ((publish_action_cases _ certificate again).0 dryrun).1 h)
