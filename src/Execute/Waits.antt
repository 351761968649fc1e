-- ===== src/Execute/Waits.antt =====
-- src/main.rs, `execute_rollover`: the waits, and the order of events.
use mathlib.Core.Path.{subst}
use gentlsa.Prelude.{
  ℕ, ◌+◌, ◌*◌, ◌-◌, ◌≤◌, ◌≡◌, refl, sym, ap, ◌∙◌, ◌⊎◌, inl, inr, Text, Bool, true, false, ◌&&◌,
  Option, some, ◌∷◌, arith, Bool-cases,
}
use gentlsa.Cert.{Crypto}
use gentlsa.Rollover.{
  WaitReason, before_reload, before_prune, waiting_reload, reloading, waiting_prune, pruning,
  remaining,
}
use gentlsa.Rollover.Job.{Job, mark_already_live, mark_waiting_reload, mark_ready_to_prune}
use gentlsa.Execute.{RolloverArgs, waits, live, Trace, Env, live_matches_file}
use gentlsa.Execute.Phases.{
  Run, log, is_stopped, update_job, wait_phase, waited, wait_of, is_before_reload,
}
use gentlsa.Execute.Order.{InTime-past, IsReal, IsAt, Goes, Fits}
use gentlsa.Execute.Steps.{update-Goes, reloaded-Fits, reloaded-phase, reloaded-safe}

module _ (crypto : Crypto) (env : Env) (args : RolloverArgs) (set : IsReal env args) where
  -- A sleep until a deadline lasts until then.
  sleeps :
      (reason : WaitReason) (t : Trace) (d : ℕ)
      → d ≤ env.clock (waits reason (remaining (some d) (env.clock t)) args.dryrun ∷ t)
  unfolding remaining
  sleeps reason t d =
      let s = d - env.clock t in
      let slept : env.clock t + s ≤ env.clock (waits reason s args.dryrun ∷ t) =
        subst (λ b. env.clock t + s ≤ env.clock (waits reason s b ∷ t)) (sym set.real)
          (set.lawful.clock_waits reason s t) in
      omega (arith, slept)

  deadline-passed :
      (reason : WaitReason) (t : Trace) (deadline : Option ℕ) (d : ℕ)
      → deadline ≡ some d
      → d ≤ env.clock (waits reason (remaining deadline (env.clock t)) args.dryrun ∷ t)
  deadline-passed reason t deadline d e =
      subst (λ x. d ≤ env.clock (waits reason (remaining x (env.clock t)) args.dryrun ∷ t)) (sym e)
        (sleeps reason t d)

  waiting-Fits : (job : Job) → Fits env args job → Fits env args (mark_waiting_reload job)
  unfolding mark_waiting_reload
  waiting-Fits job f = record { same_ttl = f.same_ttl; same_reload = f.same_reload }

  ready-Fits : (job : Job) → Fits env args job → Fits env args (mark_ready_to_prune job)
  unfolding mark_ready_to_prune
  ready-Fits job f = record { same_ttl = f.same_ttl; same_reload = f.same_reload }

  -- What a wait comes to where the service does not have the certificate, and where it has.
  wait-sleeps :
      (hash : Text) (reason : WaitReason) (r : Run) (job : Job)
      → r.job ≡ some job
      → (is_before_reload reason
          && live_matches_file crypto env r.trace args.zone args.ports args.hostname hash
              args.starttls)
        ≡ false
      → wait_phase crypto env args hash reason r
        ≡ update_job crypto env args (waited reason) (some job) (
            log
              (waits reason (wait_of reason (some job) (env.clock r.trace) args.ttl) args.dryrun)
              r)
  unfolding wait_phase
  wait-sleeps hash reason r job e n =
      rw (n, wait_phase) refl
      ∙ ap
          (λ j.
            update_job crypto env args (waited reason) j
              (log (waits reason (wait_of reason j (env.clock r.trace) args.ttl) args.dryrun) r))
          e

  wait-live :
      (hash : Text) (r : Run) (job : Job)
      → r.job ≡ some job
      → live_matches_file crypto env r.trace args.zone args.ports args.hostname hash args.starttls
        ≡ true
      → wait_phase crypto env args hash before_reload r
        ≡ update_job crypto env args mark_already_live
            (some job)
            (log live (record r { skip_reload = true }))
  unfolding wait_phase is_before_reload
  wait-live hash r job e n =
      rw (n, wait_phase) refl
      ∙ ap
          (λ j.
            update_job crypto env args mark_already_live j
              (log live (record r { skip_reload = true })))
          e

  -- The first wait: it sleeps, and the reload is next, or the service has the certificate already,
  -- and the second wait is next.
  pub wait_reload-Goes :
      (hash : Text) (r : Run)
      → IsAt env args waiting_reload false r
      → Goes env args reloading false (wait_phase crypto env args hash before_reload r)
        ⊎ Goes env args waiting_prune true (wait_phase crypto env args hash before_reload r)
  unfolding is_before_reload waited mark_already_live log is_stopped wait_of mark_waiting_reload
  wait_reload-Goes hash r a =
      let t = r.trace in
      elim (Bool-cases
        (live_matches_file crypto env t args.zone args.ports args.hostname hash args.starttls)) [
          | inl e ↦ inr (
              subst (Goes env args waiting_prune true) (sym (wait-live hash r a.job a.has_job e)) (
                update-Goes crypto env args set mark_already_live a.job
                  (log live (record r { skip_reload = true })) waiting_prune
                  (reloaded-phase crypto env args set a.job (env.clock (live ∷ t)))
                  (reloaded-Fits crypto env args set a.job (env.clock (live ∷ t)) a.fits)
                  (λ i.
                    let (p, h, er, ep) = a.safe (InTime-past env args set.lawful live t i) in
                    reloaded-safe crypto env args set (live ∷ t) a.job p a.fits (inr h) ep
                      (inr refl) i)
                  a.runs (tt, a.ordered)))
          | inr e ↦
              let s = remaining a.job.reload_after (env.clock t) in
              let w = waits before_reload s args.dryrun in
              inl (
                subst (Goes env args reloading false)
                  (sym (wait-sleeps hash before_reload r a.job a.has_job e))
                  (subst
                    (λ b.
                      Goes env args reloading b
                        (update_job crypto env args (waited before_reload) (some a.job) (log w r)))
                    a.skips
                    (update-Goes crypto env args set (waited before_reload) a.job (log w r)
                      reloading refl (waiting-Fits a.job a.fits)
                      (λ i.
                        let (p, h, er, ep) = a.safe (InTime-past env args set.lawful w t i) in
                        (
                          p,
                          inr h,
                          deadline-passed before_reload t a.job.reload_after (p + 2 * args.ttl) er,
                          ep,
                        ))
                      a.runs (tt, a.ordered))))
        ]

  -- The second wait: it sleeps until the prune may follow.
  pub wait_prune-Goes :
      (hash : Text) (skip : Bool) (r : Run)
      → IsAt env args waiting_prune skip r
      → Goes env args pruning skip (wait_phase crypto env args hash before_prune r)
  unfolding is_before_reload waited log is_stopped wait_of mark_ready_to_prune
  wait_prune-Goes hash skip r a =
      let t = r.trace in
      let s = remaining a.job.prune_after (env.clock t) in
      let w = waits before_prune s args.dryrun in
      subst (Goes env args pruning skip)
        (sym (wait-sleeps hash before_prune r a.job a.has_job refl))
        (subst
          (λ b.
            Goes env args pruning b
              (update_job crypto env args (waited before_prune) (some a.job) (log w r)))
          a.skips
          (update-Goes crypto env args set (waited before_prune) a.job (log w r) pruning refl
            (ready-Fits a.job a.fits)
            (λ i.
              let (d, ed, (p, h, b), (q, k, c)) = a.safe (InTime-past env args set.lawful w t i) in
              let slept = deadline-passed before_prune t a.job.prune_after d ed in
              ((p, inr h, omega (arith, b, slept)), (q, inr k, omega (arith, c, slept))))
            a.runs (tt, a.ordered)))
