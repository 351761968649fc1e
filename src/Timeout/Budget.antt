-- ===== src/Timeout/Budget.antt =====
-- src/timeout.rs: what is left of the budget in a run of waits and restarts.
use gentlsa.Prelude.{
  ℕ, ◌+◌, ◌-◌, ◌≡◌, inl, inr, ◌<◌, Bool-cases, ◌↔◌, refl, sym, ap, ◌∙◌, ltb, Option, some, some-inj,
  List, [], ◌∷◌, arith,
}
use gentlsa.Timeout.{State, from_secs, init, restart, leftover, remaining}

-- What happens behind `init`, the latest first.
pub data Step : Type 0 where
  waits : ℕ → Step
  rearms : Step

unfoldable pub clock : ℕ → List Step → ℕ
clock t [] = t
clock t (waits n ∷ steps) = n + clock t steps
clock t (rearms ∷ steps) = clock t steps

unfoldable pub budget : ℕ → ℕ → List Step → Option State
unfolding init restart
budget t secs [] = init t secs
budget t secs (waits n ∷ steps) = budget t secs steps
budget t secs (rearms ∷ steps) = restart (clock t steps) (budget t secs steps)

-- The time waited since the latest restart, or since the start.
unfoldable pub since : List Step → ℕ
since [] = 0
since (waits n ∷ steps) = n + since steps
since (rearms ∷ steps) = 0

budget-clock :
    (t secs : ℕ) (steps : List Step)
    → (start : ℕ) × (budget t secs steps ≡ some (record { start = start; limit = from_secs secs }))
      × (clock t steps ≡ since steps + start)
unfolding budget clock since init restart
budget-clock t secs [] = (t, refl, omega arith)
budget-clock t secs (waits n ∷ steps) =
    let (start, e, c) = budget-clock t secs steps in (start, e, omega (arith, c))
budget-clock t secs (rearms ∷ steps) =
    let (start, e, c) = budget-clock t secs steps in
    (clock t steps, ap (restart (clock t steps)) e, omega arith)

leftover_iff :
    (limit elapsed left : ℕ)
    → (leftover limit elapsed ≡ some left) ↔ ((0 < left) × (left + elapsed ≡ limit))
unfolding leftover
leftover_iff limit elapsed left = elim (Bool-cases (ltb elapsed limit)) [
  | inl t ↦ (
    λ e. let same = some-inj (limit - elapsed) left (rw (t) at e) in ground (arith, same),
    λ (p, q). ground (arith),
  )
  | inr f ↦ (λ e. ground (arith, e), λ (p, q). ground (arith))
]

-- In any run of waits and restarts behind `init`, time is left exactly when the time since the latest
-- restart is below the limit, and it is then the rest of it, never zero.
pub remaining_iff :
    (t secs left : ℕ) (steps : List Step)
    → (remaining (clock t steps) (budget t secs steps) ≡ some left)
      ↔ ((0 < left) × (left + since steps ≡ from_secs secs))
unfolding remaining
remaining_iff t secs left steps =
    let (start, e, c) = budget-clock t secs steps in
    let same : clock t steps - start ≡ since steps = omega (arith, c) in
    let now : remaining (clock t steps) (budget t secs steps)
        ≡ leftover (from_secs secs) (since steps) =
      ap (remaining (clock t steps)) e ∙ ap (leftover (from_secs secs)) same in
    let both = leftover_iff (from_secs secs) (since steps) left in
    (λ h. both.0 (sym now ∙ h), λ h. now ∙ both.1 h)
