-- ===== src/Report/Tests.antt =====
-- Outcomes and exit codes of small runs.
use gentlsa.Prelude.{◌≤◌, codes, [], ◌∷◌, ◌≡◌, ◌⊎◌, refl, false, some}
use gentlsa.Prelude.Int.{pos}
use gentlsa.Dns.{bogus}
use gentlsa.Report.{
  VerifyOutcome, outcome, apply_expiry, apply_dnssec, exit_rank, worst_verify_exit, mx,
}
use gentlsa.Report.Ranks.{folds_raise}

abbrev warning : VerifyOutcome
warning = outcome (codes "warning") (codes "WARNING - certificate expires today") 1

folds_raise_example :
    (exit_rank 1 ≤ exit_rank (apply_expiry warning (pos 0) false 14 7).exit)
    × (exit_rank 1 ≤ exit_rank (apply_dnssec warning (some bogus) mx).exit)
    × ((warning.exit ≡ 2) ⊎ (warning.exit ≡ 3)
        → (apply_expiry warning (pos 0) false 14 7 ≡ warning)
          × (apply_dnssec warning (some bogus) mx ≡ warning))
folds_raise_example = folds_raise warning (pos 0) false 14 7 (some bogus) mx

-- UNKNOWN does not mask a WARNING.
worst_is_warning : worst_verify_exit (3 ∷ 1 ∷ 0 ∷ []) ≡ 1
unfolding worst_verify_exit gentlsa.Dns.max_by_key exit_rank
worst_is_warning = refl

-- A bogus MX set turns a WARNING into CRITICAL.
bogus_is_critical : (apply_dnssec warning (some bogus) mx).exit ≡ 2
unfolding apply_dnssec gentlsa.Report.bogus_outcome
bogus_is_critical = refl
