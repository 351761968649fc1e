-- ===== src/Timeout/Tests.antt =====
-- A budget of 20 seconds that is re-armed after it was spent.
use gentlsa.Prelude.{◌+◌, ◌≡◌, ◌<◌, ◌↔◌, refl, none, some, List, [], ◌∷◌}
use gentlsa.Timeout.{from_secs, init, restart, limit_of, remaining}
use gentlsa.Timeout.Budget.{Step, waits, rearms, clock, budget, since, remaining_iff}

abbrev rearmed : List Step
rearmed = waits (from_secs 5) ∷ rearms ∷ waits (from_secs 40) ∷ []

remaining_iff_example :
    (remaining (clock 100 rearmed) (budget 100 20 rearmed) ≡ some (from_secs 15))
    ↔ ((0 < from_secs 15) × (from_secs 15 + since rearmed ≡ from_secs 20))
remaining_iff_example = remaining_iff 100 20 (from_secs 15) rearmed

left_15 : remaining (clock 100 rearmed) (budget 100 20 rearmed) ≡ some (from_secs 15)
unfolding remaining budget clock from_secs
left_15 = refl

spent : remaining (from_secs 40) (init 0 20) ≡ none
unfolding remaining init from_secs
spent = refl

no_init : limit_of (restart 7 none) ≡ from_secs 30
unfolding from_secs limit_of restart
no_init = refl
