-- ===== src/Execute/DryRun.antt =====
-- src/main.rs, `execute_rollover`: a dry run of a pending job.
use gentlsa.Prelude.{
  ◌≡◌, refl, ap, ◌∙◌, Text, true, false, Option, none, some, [], ◌∷◌, eq_ignore_ascii_case,
}
use gentlsa.Cert.{Crypto}
use gentlsa.Rollover.{
  before_reload, before_prune, waiting_reload, pruning, reloading, phases, start_index, wait,
  reload, prune,
}
use gentlsa.Rollover.Job.{Job, mark_waiting_reload, mark_ready_to_prune}
use gentlsa.Execute.{RolloverArgs, Event, waits, saves, Trace, Env, live_matches_file}
use gentlsa.Execute.Phases.{
  Run, ReloadStatus, would_run, initial, execute_rollover, run_hash, run_phases, run_phase,
  wait_phase, reload_phase, prune_phase, update_job, persist, log, waited, wait_of, is_stopped,
  is_reload_phase, is_before_reload, is_other_certificate, has_reload, start_of, file_hash,
}

-- The arguments of a dry run.
abbrev pub dry : RolloverArgs → Text → RolloverArgs
dry args command = record args { dryrun = true; reload = some command }

abbrev pub pending : Job → Job
pending job = record job { phase = waiting_reload }

module _ (crypto : Crypto) (env : Env) (args : RolloverArgs) (command hash : Text) (job : Job) where
  -- The events of the two waits.
  abbrev pub first_wait : Trace → Event
  first_wait t = waits before_reload (wait_of before_reload (some job) (env.clock t) args.ttl) true

  abbrev pub behind_first : Trace → Trace
  behind_first t = saves (mark_waiting_reload job) ∷ first_wait t ∷ t

  abbrev pub second_wait : Trace → Event
  second_wait t =
      waits before_prune (wait_of before_prune (some job) (env.clock (behind_first t)) args.ttl)
        true

  -- The run behind each wait.
  abbrev after_wait : Trace → Job → Option ReloadStatus → Run
  after_wait t j report = record {
    trace = t;
    job = some j;
    code = 0;
    skip_reload = false;
    reload_report = report;
    failed = false;
  }

  starts :
      (t : Trace)
      → file_hash crypto env (dry args command) ≡ some hash
      → eq_ignore_ascii_case hash job.certificate ≡ true
      → execute_rollover crypto env (dry args command) t (some (pending job))
        ≡ run_phases crypto env
            (dry args command)
            hash
            (wait before_reload ∷ reload ∷ wait before_prune ∷ prune ∷ [])
            (after_wait t (pending job) none)
  unfolding execute_rollover run_hash is_other_certificate initial start_of has_reload phases
      start_index
  starts t h same = rw (h, execute_rollover) (rw (same, run_hash) refl)

  first-behind :
      (t : Trace)
      → live_matches_file crypto env t args.zone args.ports args.hostname hash args.starttls ≡ false
      → ((s : Trace) (j : Job) → env.can_save s j ≡ true)
      → wait_phase crypto env
          (dry args command)
          hash
          before_reload
          (after_wait t (pending job) none)
        ≡ after_wait (behind_first t) (mark_waiting_reload job) none
  unfolding wait_phase update_job persist log waited mark_waiting_reload wait_of is_before_reload
  first-behind t dead can =
      rw (dead, wait_phase) (rw (can (first_wait t ∷ t) (mark_waiting_reload job), persist) refl)

  second-behind :
      (t : Trace)
      → ((s : Trace) (j : Job) → env.can_save s j ≡ true)
      → wait_phase crypto env
          (dry args command)
          hash
          before_prune
          (after_wait (behind_first t) (mark_waiting_reload job) (some would_run))
        ≡ after_wait
            (saves (mark_ready_to_prune job) ∷ second_wait t ∷ behind_first t)
            (mark_ready_to_prune job)
            (some would_run)
  unfolding wait_phase update_job persist log waited mark_ready_to_prune mark_waiting_reload wait_of
      is_before_reload
  second-behind t can =
      rw (can (second_wait t ∷ behind_first t) (mark_ready_to_prune job), persist) refl

  -- A dry run of a job that waits for its reload saves the job as one that is ready for its prune:
  -- it neither sleeps nor reloads, but the two waits change the job file, first to the phase of the
  -- reload and then to that of the prune. The certificate is the job's, the service does not
  -- present it yet, and the file can be written.
  pub dry_run-advances :
      (t : Trace)
      → file_hash crypto env (dry args command) ≡ some hash
      → eq_ignore_ascii_case hash job.certificate ≡ true
      → live_matches_file crypto env t args.zone args.ports args.hostname hash args.starttls ≡ false
      → ((s : Trace) (j : Job) → env.can_save s j ≡ true)
      → ((execute_rollover crypto env (dry args command) t (some (pending job))).trace
          ≡ saves (mark_ready_to_prune job)
            ∷ second_wait t
            ∷ saves (mark_waiting_reload job)
            ∷ first_wait t
            ∷ t)
        × ((mark_waiting_reload job).phase ≡ reloading)
        × ((mark_ready_to_prune job).phase ≡ pruning)
  unfolding run_phases run_phase is_stopped is_reload_phase is_before_reload reload_phase
      prune_phase mark_waiting_reload mark_ready_to_prune
  dry_run-advances t h same dead can =
      let go = run_phases crypto env (dry args command) hash in
      (
        ap (λ r. r.trace) (starts t h same)
            ∙ (ap (λ r. (go (reload ∷ wait before_prune ∷ prune ∷ []) r).trace)
                  (first-behind t dead can)
                ∙ ap (λ r. (go (prune ∷ []) r).trace) (second-behind t can)),
        refl,
        refl,
      )
