-- ===== src/Execute/Progress.antt =====
-- src/main.rs, `execute_rollover`: the phases of runs whose steps succeed.
use mathlib.Core.Path.{subst}
use gentlsa.Prelude.{
  ℕ, ◌≡◌, refl, sym, ◌∙◌, Text, Bool, true, false, some, List, [], ◌∷◌, if◌then◌else◌,
}
use gentlsa.Cert.{Crypto}
use gentlsa.Rollover.{WaitReason, before_reload, before_prune}
use gentlsa.Rollover.Job.{
  Job, mark_published, mark_reloaded, mark_already_live, mark_waiting_reload, mark_ready_to_prune,
}
use gentlsa.Execute.{RolloverArgs, publishes, waits, live, reloads, prunes, Trace, published, Env}
use gentlsa.Execute.Phases.{
  Run, ran, publish_ports, publish_phase, wait_phase, reload_phase, prune_ports, update_job,
  persist, log, waited, wait_of, is_stopped,
}

-- The steps of the world succeed, in a run that is no dry run and has a command.
pub record Succeeds (env : Env) (args : RolloverArgs) : Type 0 where
  pub real : args.dryrun ≡ false
  pub command : Text
  pub has_command : args.reload ≡ some command
  pub publish_ok : (t : Trace) (port : ℕ) → env.publish_cert t args port ≡ some published
  pub reload_ok : (t : Trace) (c : Text) → env.run_reload t c ≡ true
  pub prune_ok : (t : Trace) (port : ℕ) → env.prune t args port ≡ some 0
  pub save_ok : (t : Trace) (job : Job) → env.can_save t job ≡ true
  pub remove_ok : (t : Trace) (id : Text) → env.can_remove t id ≡ true

module _ (crypto : Crypto) (env : Env) (args : RolloverArgs) (ok' : Succeeds env args)
    (id : Text) where
  -- The run goes on, with a job of this id.
  pub record IsGood (r : Run) : Type 0 where
    pub runs : is_stopped r ≡ false
    pub job : Job
    pub has_job : r.job ≡ some job
    pub same_id : job.id ≡ id

  pub update-IsGood :
      (mark : Job → ℕ → Job) (r : Run) (job : Job)
      → ((now : ℕ) → (mark job now).id ≡ id)
      → is_stopped r ≡ false
      → IsGood (update_job crypto env args mark (some job) r)
  unfolding update_job persist log is_stopped
  update-IsGood mark r job same run =
      rw (ok'.save_ok r.trace (mark job (env.clock r.trace)), persist)
        (record {
          runs = run;
          job = mark job (env.clock r.trace);
          has_job = refl;
          same_id = same (env.clock r.trace);
        })

  pub publish_ports-IsGood :
      (ports : List ℕ) (r : Run) → IsGood r → IsGood (publish_ports crypto env args ports r)
  unfolding publish_ports log is_stopped
  publish_ports-IsGood [] r g = g
  publish_ports-IsGood (port ∷ ports) r g =
      rw (ok'.publish_ok r.trace port, publish_ports)
        (publish_ports-IsGood ports (log (publishes port args.dryrun) r)
          (record { runs = g.runs; job = g.job; has_job = g.has_job; same_id = g.same_id }))

  pub prune_ports-IsGood :
      (ports : List ℕ) (r : Run) → IsGood r → IsGood (prune_ports crypto env args ports r)
  unfolding prune_ports log is_stopped
  prune_ports-IsGood [] r g = g
  prune_ports-IsGood (port ∷ ports) r g =
      rw (ok'.prune_ok r.trace port, prune_ports)
        (prune_ports-IsGood ports (log (prunes port 0) r)
          (record { runs = g.runs; job = g.job; has_job = g.has_job; same_id = g.same_id }))

  pub publish-IsGood : (r : Run) → IsGood r → IsGood (publish_phase crypto env args r)
  unfolding publish_phase mark_published
  publish-IsGood r g =
      let g' = publish_ports-IsGood args.ports r g in
      let r' = publish_ports crypto env args args.ports r in
      rw (g'.runs, publish_phase)
        (subst (λ j. IsGood (update_job crypto env args mark_published j r')) (sym g'.has_job)
          (update-IsGood mark_published r' g'.job (λ now. g'.same_id) g'.runs))

  waited-id : (reason : WaitReason) (job : Job) (now : ℕ) → (waited reason job now).id ≡ job.id
  unfolding waited mark_waiting_reload mark_ready_to_prune
  waited-id before_reload job now = refl
  waited-id before_prune job now = refl

  if-IsGood : (b : Bool) (r r' : Run) → IsGood r → IsGood r' → IsGood (if b then r else r')
  if-IsGood true r r' g g' = g
  if-IsGood false r r' g g' = g'

  pub wait-IsGood :
      (hash : Text) (reason : WaitReason) (r : Run)
      → IsGood r
      → IsGood (wait_phase crypto env args hash reason r)
  unfolding wait_phase log is_stopped mark_already_live mark_reloaded
  wait-IsGood hash reason r g =
      if-IsGood _ _ _
        (subst
          (λ j. IsGood (
            update_job crypto env args mark_already_live j
              (log live (record r { skip_reload = true }))))
          (sym g.has_job)
          (update-IsGood mark_already_live (log live (record r { skip_reload = true })) g.job
            (λ now. g.same_id) g.runs))
        (subst
          (λ j. IsGood (
            update_job crypto env args (waited reason) j (
              log (waits reason (wait_of reason r.job (env.clock r.trace) args.ttl) args.dryrun)
                r)))
          (sym g.has_job)
          (update-IsGood (waited reason)
            (log (waits reason (wait_of reason r.job (env.clock r.trace) args.ttl) args.dryrun) r)
            g.job (λ now. waited-id reason g.job now ∙ g.same_id) g.runs))

  pub reload-IsGood : (r : Run) → IsGood r → IsGood (reload_phase crypto env args args.reload r)
  unfolding reload_phase log is_stopped mark_reloaded
  reload-IsGood r g =
      subst (λ c. IsGood (reload_phase crypto env args c r)) (sym ok'.has_command)
        (if-IsGood args.dryrun _ _
          (record { runs = g.runs; job = g.job; has_job = g.has_job; same_id = g.same_id })
          (rw (ok'.reload_ok r.trace ok'.command) (
            subst
              (λ j. IsGood (
                update_job crypto env args mark_reloaded j
                  (log (reloads true) (record r { reload_report = some ran }))))
              (sym g.has_job)
              (update-IsGood mark_reloaded
                (log (reloads true) (record r { reload_report = some ran })) g.job
                (λ now. g.same_id) g.runs))))
