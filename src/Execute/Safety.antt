-- ===== src/Execute/Safety.antt =====
-- src/main.rs, `execute_rollover`: the loop over the phases, and the order of events.
use mathlib.Core.Path.{subst}
use gentlsa.Prelude.{
  ◌≡◌, refl, sym, inl, inr, Text, Bool, true, false, ◌&&◌, some, List, [], ◌∷◌, arith, Bool-cases,
  Option-cases, drop,
}
use gentlsa.Cert.{Crypto}
use gentlsa.Rollover.{
  before_reload, before_prune, Phase, publish, wait, reload, prune, phases, JobPhase, publishing,
  waiting_reload, reloading, waiting_prune, pruning, start_index,
}
use gentlsa.Rollover.Job.{Job}
use gentlsa.Execute.{RolloverArgs, Trace, Env}
use gentlsa.Execute.Phases.{
  Run, is_stopped, run_phase, run_phases, is_reload_phase, initial, run_hash, execute_rollover,
  start_of, has_reload, is_other_certificate, fail_run, file_hash,
}
use gentlsa.Execute.Order.{InTime, IsReal, IsAt, HasStopped, SafeAt, Fits, Ordered}
use gentlsa.Execute.Steps.{publish-Goes}
use gentlsa.Execute.Waits.{wait_reload-Goes, wait_prune-Goes}
use gentlsa.Execute.Reloads.{reload-Goes, prune-Ordered}

module _ (crypto : Crypto) (env : Env) (args : RolloverArgs) (set : IsReal env args)
    (hash : Text) where
  -- The loop on a run that has stopped, on a phase that is skipped, and on one that is run.
  run-stopped :
      (ps : List Phase) (r : Run) → is_stopped r ≡ true → run_phases crypto env args hash ps r ≡ r
  unfolding run_phases
  run-stopped [] r e = refl
  run-stopped (p ∷ ps) r e = rw (e, run_phases) refl

  run-skipped :
      (p : Phase) (ps : List Phase) (r : Run)
      → is_stopped r ≡ false
      → (r.skip_reload && is_reload_phase p) ≡ true
      → run_phases crypto env args hash (p ∷ ps) r ≡ run_phases crypto env args hash ps r
  unfolding run_phases
  run-skipped p ps r e s = rw (e, s, run_phases) refl

  run-phase :
      (p : Phase) (ps : List Phase) (r : Run)
      → is_stopped r ≡ false
      → (r.skip_reload && is_reload_phase p) ≡ false
      → run_phases crypto env args hash (p ∷ ps) r
        ≡ run_phases crypto env args hash ps (run_phase crypto env args hash p r)
  unfolding run_phases
  run-phase p ps r e s = rw (e, s, run_phases) refl

  abbrev Done : List Phase → Run → Type 0
  Done ps r = Ordered env args (run_phases crypto env args hash ps r).trace

  stopped-Done : (ps : List Phase) (r : Run) → HasStopped env args r → Done ps r
  stopped-Done ps r s = subst (λ x. Ordered env args x.trace) (sym (run-stopped ps r s.0)) s.1

  phase-Done :
      (p : Phase) (ps : List Phase) (r : Run)
      → is_stopped r ≡ false
      → (r.skip_reload && is_reload_phase p) ≡ false
      → Done ps (run_phase crypto env args hash p r)
      → Done (p ∷ ps) r
  phase-Done p ps r e s d = subst (λ x. Ordered env args x.trace) (sym (run-phase p ps r e s)) d

  not_skipped :
      (b : Bool) (p : Phase) → is_reload_phase p ≡ false → (b && is_reload_phase p) ≡ false
  not_skipped b p e = ground (arith, e)

  not_skipping : (b : Bool) (p : Phase) → b ≡ false → (b && is_reload_phase p) ≡ false
  not_skipping b p e = ground (arith, e)

  skipping :
      (b : Bool) (p : Phase) → b ≡ true → is_reload_phase p ≡ true → (b && is_reload_phase p) ≡ true
  skipping b p e f = ground (arith, e, f)

  from_prune : (skip : Bool) (r : Run) → IsAt env args pruning skip r → Done (prune ∷ []) r
  unfolding is_reload_phase run_phases run_phase
  from_prune skip r a =
      phase-Done prune [] r a.runs (not_skipped r.skip_reload prune refl)
        (prune-Ordered crypto env args set skip r a)

  from_wait_prune :
      (skip : Bool) (r : Run)
      → IsAt env args waiting_prune skip r
      → Done (wait before_prune ∷ prune ∷ []) r
  unfolding is_reload_phase run_phase
  from_wait_prune skip r a =
      phase-Done (wait before_prune) (prune ∷ []) r a.runs
        (not_skipped r.skip_reload (wait before_prune) refl)
        (elim (wait_prune-Goes crypto env args set hash skip r a) [
          | inl s ↦ stopped-Done (prune ∷ []) _ s
          | inr b ↦ from_prune skip _ b
        ])

  abbrev behind_reload : List Phase
  behind_reload = wait before_prune ∷ prune ∷ []

  from_reload : (r : Run) → IsAt env args reloading false r → Done (reload ∷ behind_reload) r
  unfolding run_phase
  from_reload r a =
      phase-Done reload behind_reload r a.runs (not_skipping r.skip_reload reload a.skips)
        (elim (reload-Goes crypto env args set false r a) [
          | inl s ↦ stopped-Done behind_reload _ s
          | inr b ↦ from_wait_prune false _ b
        ])

  -- The service already presents the certificate: the reload is skipped.
  past_reload : (r : Run) → IsAt env args waiting_prune true r → Done (reload ∷ behind_reload) r
  unfolding is_reload_phase
  past_reload r a =
      subst (λ x. Ordered env args x.trace)
        (sym
          (run-skipped reload behind_reload r a.runs (skipping r.skip_reload reload a.skips refl)))
        (from_wait_prune true r a)

  from_wait_reload :
      (r : Run)
      → IsAt env args waiting_reload false r
      → Done (wait before_reload ∷ reload ∷ behind_reload) r
  unfolding run_phase
  from_wait_reload r a =
      phase-Done (wait before_reload) (reload ∷ behind_reload) r a.runs
        (not_skipping r.skip_reload (wait before_reload) a.skips)
        (elim (wait_reload-Goes crypto env args set hash r a) [
          | inl (inl s) ↦ stopped-Done (reload ∷ behind_reload) _ s
          | inl (inr b) ↦ from_reload _ b
          | inr (inl s) ↦ stopped-Done (reload ∷ behind_reload) _ s
          | inr (inr b) ↦ past_reload _ b
        ])

  from_publish :
      (r : Run)
      → IsAt env args publishing false r
      → Done (publish ∷ wait before_reload ∷ reload ∷ behind_reload) r
  unfolding is_reload_phase run_phase
  from_publish r a =
      phase-Done publish (wait before_reload ∷ reload ∷ behind_reload) r a.runs
        (not_skipped r.skip_reload publish refl)
        (elim (publish-Goes crypto env args set false r a) [
          | inl s ↦ stopped-Done (wait before_reload ∷ reload ∷ behind_reload) _ s
          | inr b ↦ from_wait_reload _ b
        ])

  -- From each phase of a job, the phases that are left.
  from_phase :
      (phase : JobPhase) (r : Run)
      → IsAt env args phase false r
      → Done (drop (start_index phase) (phases true)) r
  unfolding start_index phases
  from_phase publishing r a = from_publish r a
  from_phase waiting_reload r a = from_wait_reload r a
  from_phase reloading r a = from_reload r a
  from_phase waiting_prune r a = from_wait_prune false r a
  from_phase pruning r a = from_prune false r a

module _ (crypto : Crypto) (env : Env) (args : RolloverArgs) (set : IsReal env args) where
  -- A run of a job that is safe in a trace in order leaves a trace in order.
  pub execute-Ordered :
      (t : Trace) (job : Job)
      → Fits env args job
      → (InTime env args t → SafeAt env args job.phase t job)
      → Ordered env args t
      → Ordered env args (execute_rollover crypto env args t (some job)).trace
  unfolding execute_rollover run_hash initial fail_run start_of has_reload
  execute-Ordered t job f s o = elim (Option-cases (file_hash crypto env args)) [
    | inl e ↦ rw (e, execute_rollover) o
    | inr (hash, e) ↦
        rw (e, execute_rollover)
          (elim (Bool-cases (is_other_certificate (some job) hash)) [
            | inl d ↦ rw (d, run_hash) o
            | inr d ↦
                rw (d, run_hash)
                  (subst
                    (λ c.
                      Ordered env args
                        (run_phases crypto env args hash
                          (drop (start_index job.phase) (phases (has_reload c)))
                          (initial crypto env args t (some job))).trace)
                    (sym set.has_command)
                    (from_phase crypto env args set hash job.phase
                      (initial crypto env args t (some job))
                      (record {
                        job = job;
                        has_job = refl;
                        at_phase = refl;
                        fits = f;
                        safe = s;
                        skips = refl;
                        runs = unfold is_stopped in refl;
                        ordered = o;
                      })))
          ])
  ]
