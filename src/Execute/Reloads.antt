-- ===== src/Execute/Reloads.antt =====
-- src/main.rs, `execute_rollover`: the reload and the prune, and the order of events.
use mathlib.Core.Path.{subst}
use gentlsa.Prelude.{
  ℕ, ◌≡◌, refl, sym, ap, ◌∙◌, inl, inr, Bool, true, false, Option, none, some, List, [], ◌∷◌, ◌==◌,
  if◌then◌else◌, arith, Bool-cases, Option-cases,
}
use gentlsa.Cert.{Crypto}
use gentlsa.Rollover.{reloading, waiting_prune, pruning}
use gentlsa.Rollover.Job.{Job, mark_reloaded}
use gentlsa.Execute.{RolloverArgs, reloads, prunes, Env}
use gentlsa.Execute.Phases.{
  Run, log, fail_run, is_stopped, update_job, reload_phase, prune_ports, prune_phase, finish, ran,
  reload_failed,
}
use gentlsa.Execute.Order.{
  InTime, InTime-past, IsReal, IsAt, Goes, MayReload, MayPrune, Ordered, MayPrune-mono,
}
use gentlsa.Execute.Steps.{update-Goes, reloaded-Fits, reloaded-phase, reloaded-safe}

module _ (crypto : Crypto) (env : Env) (args : RolloverArgs) (set : IsReal env args) where
  reload-runs :
      (r : Run) (job : Job)
      → r.job ≡ some job
      → env.run_reload r.trace set.command ≡ true
      → reload_phase crypto env args args.reload r
        ≡ update_job crypto env args mark_reloaded
            (some job)
            (log (reloads true) (record r { reload_report = some ran }))
  unfolding reload_phase
  reload-runs r job e ok' =
      ap (λ c. reload_phase crypto env args c r) set.has_command
      ∙ (rw (set.real, ok', reload_phase) refl
          ∙ ap
              (λ j.
                update_job crypto env args mark_reloaded j
                  (log (reloads true) (record r { reload_report = some ran })))
              e)

  reload-fails :
      (r : Run)
      → env.run_reload r.trace set.command ≡ false
      → reload_phase crypto env args args.reload r
        ≡ log (reloads false) (record r { reload_report = some reload_failed; code = 1 })
  unfolding reload_phase
  reload-fails r no' =
      ap (λ c. reload_phase crypto env args c r) set.has_command
      ∙ rw (set.real, no', reload_phase) refl

  -- The reload: the second wait is next, or the run stops.
  pub reload-Goes :
      (skip : Bool) (r : Run)
      → IsAt env args reloading skip r
      → Goes env args waiting_prune skip (reload_phase crypto env args args.reload r)
  unfolding log is_stopped
  reload-Goes skip r a =
      let t = r.trace in
      let may : InTime env args t → MayReload env args t =
        λ i. let (p, h, b, ep) = a.safe i in (p, h, b) in
      elim (Bool-cases (env.run_reload t set.command)) [
        | inl e ↦
            let t' = reloads true ∷ t in
            let r' = log (reloads true) (record r { reload_report = some ran }) in
            subst (Goes env args waiting_prune skip) (sym (reload-runs r a.job a.has_job e)) (
              subst
                (λ b.
                  Goes env args waiting_prune b
                    (update_job crypto env args mark_reloaded (some a.job) r'))
                a.skips
                (update-Goes crypto env args set mark_reloaded a.job r' waiting_prune
                  (reloaded-phase crypto env args set a.job (env.clock t'))
                  (reloaded-Fits crypto env args set a.job (env.clock t') a.fits)
                  (λ i.
                    let (p, h, b, ep) =
                      a.safe (InTime-past env args set.lawful (reloads true) t i) in
                    reloaded-safe crypto env args set t' a.job p a.fits (inr h) ep (inl refl) i)
                  a.runs (may, a.ordered)))
        | inr e ↦
            subst (Goes env args waiting_prune skip) (sym (reload-fails r e))
              (inl (ground arith, (may, a.ordered)))
      ]

  prune_ports-Ordered :
      (ports : List ℕ) (r : Run)
      → (InTime env args r.trace → MayPrune env args r.trace)
      → Ordered env args r.trace
      → Ordered env args (prune_ports crypto env args ports r).trace
  unfolding prune_ports log fail_run
  prune_ports-Ordered [] r m o = o
  prune_ports-Ordered (port ∷ ports) r m o = elim (Option-cases (env.prune r.trace args port)) [
    | inl e ↦ rw (e, prune_ports) o
    | inr (code, e) ↦ elim (Bool-cases (code == 0)) [
      | inl z ↦
          rw (e, z, prune_ports)
            (prune_ports-Ordered ports (log (prunes port code) r)
              (λ i.
                MayPrune-mono env args set.lawful (prunes port code) r.trace
                  (m (InTime-past env args set.lawful (prunes port code) r.trace i)))
              (m, o))
      | inr z ↦ rw (e, z, prune_ports) (m, o)
    ]
  ]

  finish-Ordered :
      (job : Option Job) (r : Run)
      → Ordered env args r.trace
      → Ordered env args (finish crypto env args job r).trace
  unfolding finish log fail_run
  finish-Ordered none r o = o
  finish-Ordered (some job) r o = elim (Bool-cases (env.can_remove r.trace job.id)) [
    | inl e ↦ rw (e, finish) (tt, o)
    | inr e ↦ rw (e, finish) o
  ]

  behind-Ordered :
      (stops : Bool) (r : Run)
      → Ordered env args r.trace
      → Ordered env args (if stops then r else finish crypto env args r.job r).trace
  behind-Ordered true r o = o
  behind-Ordered false r o = finish-Ordered r.job r o

  -- The prune.
  pub prune-Ordered :
      (skip : Bool) (r : Run)
      → IsAt env args pruning skip r
      → Ordered env args (prune_phase crypto env args r).trace
  unfolding prune_phase is_stopped
  prune-Ordered skip r a =
      let r' = prune_ports crypto env args args.ports r in
      let behind = if is_stopped r' then r' else finish crypto env args r'.job r' in
      subst (λ b. Ordered env args (if b then r else behind).trace) (sym set.real)
        (behind-Ordered (is_stopped r') r' (prune_ports-Ordered args.ports r a.safe a.ordered))
