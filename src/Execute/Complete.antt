-- ===== src/Execute/Complete.antt =====
-- src/main.rs, `execute_rollover`: runs whose steps succeed, to their end.
use mathlib.Core.Path.{subst}
use gentlsa.Prelude.{
  ◌≡◌, refl, sym, ap, ◌∙◌, inl, inr, Text, true, false, ◌&&◌, none, some, List, [], ◌∷◌,
  if◌then◌else◌, arith, eq_ignore_ascii_case, Bool-cases, drop,
}
use gentlsa.Cert.{Crypto}
use gentlsa.Rollover.{
  before_reload, before_prune, Phase, publish, wait, reload, prune, phases, JobPhase, publishing,
  waiting_reload, reloading, waiting_prune, pruning, start_index,
}
use gentlsa.Rollover.Job.{Job}
use gentlsa.Rollover.Store.{file}
use gentlsa.Rollover.StoreLaws.{file-removed}
use gentlsa.Execute.{RolloverArgs, removes, Trace, Env, stored}
use gentlsa.Execute.Phases.{
  Run, initial, execute_rollover, run_hash, run_phases, run_phase, prune_ports, prune_phase, finish,
  log, is_stopped, is_reload_phase, is_other_certificate, has_reload, start_of, file_hash,
}
use gentlsa.Execute.Progress.{
  Succeeds, IsGood, prune_ports-IsGood, publish-IsGood, wait-IsGood, reload-IsGood,
}

module _ (crypto : Crypto) (env : Env) (args : RolloverArgs) (ok' : Succeeds env args)
    (id : Text) where
  abbrev Good : Run → Type 0
  Good = IsGood crypto env args ok' id

  -- The run has ended well, and its last event removed the job.
  abbrev IsFinished : Run → Type 0
  IsFinished r = (is_stopped r ≡ false) × (rest : Trace) × (r.trace ≡ removes id ∷ rest)

  prune-IsFinished : (r : Run) → Good r → IsFinished (prune_phase crypto env args r)
  unfolding prune_phase finish log is_stopped
  prune-IsFinished r g =
      let r' = prune_ports crypto env args args.ports r in
      let g' = prune_ports-IsGood crypto env args ok' id args.ports r g in
      let done : IsFinished (if is_stopped r' then r' else finish crypto env args r'.job r') =
        subst (λ b. IsFinished (if b then r' else finish crypto env args r'.job r')) (sym g'.runs)
          (subst (λ j. IsFinished (finish crypto env args j r')) (sym g'.has_job)
            (rw (ok'.remove_ok r'.trace g'.job.id)
              (g'.runs, r'.trace, ap (λ x. removes x ∷ r'.trace) g'.same_id))) in
      subst
        (λ b.
          IsFinished
            (if b then r else (if is_stopped r' then r' else finish crypto env args r'.job r')))
        (sym ok'.real) done

  -- The phases but the prune.
  abbrev IsEarly : Phase → Type 0
  IsEarly prune = ⊥
  IsEarly publish = Unit
  IsEarly (wait _) = Unit
  IsEarly reload = Unit

  early-IsGood :
      (hash : Text) (p : Phase) (r : Run)
      → IsEarly p
      → Good r
      → Good (run_phase crypto env args hash p r)
  unfolding run_phase
  early-IsGood hash publish r e g = publish-IsGood crypto env args ok' id r g
  early-IsGood hash (wait reason) r e g = wait-IsGood crypto env args ok' id hash reason r g
  early-IsGood hash reload r e g = reload-IsGood crypto env args ok' id r g
  early-IsGood hash prune r e g = absurd e

  early-step :
      (hash : Text) (p : Phase) (ps : List Phase) (r : Run)
      → IsEarly p
      → Good r
      → ((r' : Run) → Good r' → IsFinished (run_phases crypto env args hash ps r'))
      → IsFinished (run_phases crypto env args hash (p ∷ ps) r)
  unfolding run_phases
  early-step hash p ps r e g f = elim (Bool-cases (r.skip_reload && is_reload_phase p)) [
    | inl s ↦ rw (g.runs, s, run_phases) (f r g)
    | inr s ↦ rw (g.runs, s, run_phases) (f _ (early-IsGood hash p r e g))
  ]

  prune-step :
      (hash : Text) (r : Run) → Good r → IsFinished (run_phases crypto env args hash (prune ∷ []) r)
  unfolding run_phases run_phase is_reload_phase
  prune-step hash r g = elim (Bool-cases r.skip_reload) [
    | inl s ↦ rw (g.runs, s, run_phases) (prune-IsFinished r g)
    | inr s ↦ rw (g.runs, s, run_phases) (prune-IsFinished r g)
  ]

  -- The phases that are left of a job.
  abbrev Ends : Text → List Phase → Type 0
  Ends hash ps = (r : Run) → Good r → IsFinished (run_phases crypto env args hash ps r)

  early-Ends :
      (hash : Text) (p : Phase) (ps : List Phase) → IsEarly p → Ends hash ps → Ends hash (p ∷ ps)
  early-Ends hash p ps e f r g = early-step hash p ps r e g f

  wait_prune-Ends : (hash : Text) → Ends hash (wait before_prune ∷ prune ∷ [])
  wait_prune-Ends hash = early-Ends hash (wait before_prune) _ tt (prune-step hash)

  reload-Ends : (hash : Text) → Ends hash (reload ∷ wait before_prune ∷ prune ∷ [])
  reload-Ends hash = early-Ends hash reload _ tt (wait_prune-Ends hash)

  all-Ends : (hash : Text) (phase : JobPhase) → Ends hash (drop (start_index phase) (phases true))
  unfolding start_index phases
  all-Ends hash pruning = prune-step hash
  all-Ends hash waiting_prune = wait_prune-Ends hash
  all-Ends hash reloading = reload-Ends hash
  all-Ends hash waiting_reload = early-Ends hash (wait before_reload) _ tt (reload-Ends hash)
  all-Ends hash publishing =
      early-Ends hash publish _ tt (early-Ends hash (wait before_reload) _ tt (reload-Ends hash))

module _ (crypto : Crypto) (env : Env) (args : RolloverArgs) (ok' : Succeeds env args) where
  run-ends :
      (t : Trace) (job : Job) (hash : Text)
      → file_hash crypto env args ≡ some hash
      → eq_ignore_ascii_case hash job.certificate ≡ true
      → execute_rollover crypto env args t (some job)
        ≡ run_phases crypto env args hash
            (drop (start_index job.phase) (phases true))
            (initial crypto env args t (some job))
  unfolding execute_rollover run_hash is_other_certificate start_of has_reload
  run-ends t job hash h same =
      rw (h, execute_rollover) (rw (same, run_hash) refl)
      ∙ ap
          (λ c.
            run_phases crypto env args hash (drop (start_index job.phase) (phases (has_reload c)))
              (initial crypto env args t (some job)))
          ok'.has_command

  -- A rollover with a reload, taken up at any phase of its job, ends with the exit code 0 and with
  -- no job left on disk, if each of its steps succeeds: the certificate is read and is the job's,
  -- each port is published and pruned, the reload runs, and the job file is written and removed.
  pub execute-completes :
      (t : Trace) (job : Job) (hash : Text)
      → file_hash crypto env args ≡ some hash
      → eq_ignore_ascii_case hash job.certificate ≡ true
      → ((execute_rollover crypto env args t (some job)).failed ≡ false)
        × ((execute_rollover crypto env args t (some job)).code ≡ 0)
        × (file (stored (execute_rollover crypto env args t (some job)).trace) job.id ≡ none)
  unfolding is_stopped initial stored
  execute-completes t job hash h same =
      let r = execute_rollover crypto env args t (some job) in
      let good : IsGood crypto env args ok' job.id (initial crypto env args t (some job)) = record {
        runs = refl;
        job = job;
        has_job = refl;
        same_id = refl;
      } in
      let done =
        all-Ends crypto env args ok' job.id hash job.phase (initial crypto env args t (some job))
          good in
      let (runs, rest, e) =
        subst (IsFinished crypto env args ok' job.id) (sym (run-ends t job hash h same)) done in
      (
        ground (arith, runs),
        ground (arith, runs),
        ap (λ x. file (stored x) job.id) e ∙ file-removed (stored rest) job.id,
      )
