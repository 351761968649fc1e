-- ===== src/Execute/Phases.antt =====
-- src/main.rs, `execute_rollover`: the phases, and the loop over them.
use gentlsa.Prelude.{
  ℕ, Text, Bool, true, false, not, ◌&&◌, ◌||◌, Option, none, some, List, [], ◌∷◌, ◌==◌,
  if◌then◌else◌, drop, eq_ignore_ascii_case,
}
use gentlsa.Cert.{Crypto, spki_sha256_hex}
use gentlsa.Rollover.{
  WaitReason, before_reload, before_prune, Phase, publish, wait, reload, prune, phases,
  wait_seconds, remaining, start_index, next_steps,
}
use gentlsa.Rollover.Job.{
  Job, mark_published, mark_reloaded, mark_already_live, mark_waiting_reload, mark_ready_to_prune,
}
use gentlsa.Execute.{
  RolloverArgs, Event, publishes, refuses, waits, live, reloads, prunes, saves, removes, Trace,
  published, not_managed, Env, live_matches_file,
}

pub data ReloadStatus : Type 0 where
  would_run ran reload_failed : ReloadStatus

-- The variables of `execute_rollover`; `failed` is set where it returns an error. Its lists of
-- reports are left out.
pub record Run : Type 0 where
  pub trace : Trace
  pub job : Option Job
  pub code : ℕ
  pub skip_reload : Bool
  pub reload_report : Option ReloadStatus
  pub failed : Bool

unfoldable pub log : Event → Run → Run
log e r = record r { trace = e ∷ r.trace }

unfoldable pub fail_run : Run → Run
fail_run r = record r { failed = true }

-- `args.reload.is_some()`.
unfoldable pub has_reload : Option Text → Bool
has_reload none = false
has_reload (some _) = true

unfoldable pub is_before_reload : WaitReason → Bool
is_before_reload before_reload = true
is_before_reload before_prune = false

-- The phases that a service which already presents the certificate skips.
unfoldable pub is_reload_phase : Phase → Bool
unfolding is_before_reload
is_reload_phase (wait reason) = is_before_reload reason
is_reload_phase reload = true
is_reload_phase _ = false

-- The seconds of a wait.
unfoldable pub wait_of : WaitReason → Option Job → ℕ → ℕ → ℕ
unfolding remaining wait_seconds
wait_of before_reload (some job) now ttl = remaining job.reload_after now
wait_of before_prune (some job) now ttl = remaining job.prune_after now
wait_of _ none now ttl = wait_seconds ttl

-- How the job changes behind a wait.
unfoldable pub waited : WaitReason → Job → ℕ → Job
unfolding mark_waiting_reload mark_ready_to_prune
waited before_reload job now = mark_waiting_reload job
waited before_prune job now = mark_ready_to_prune job

unfoldable pub start_of : Option Job → ℕ
unfolding start_index
start_of none = 0
start_of (some job) = start_index job.phase

unfoldable pub is_other_certificate : Option Job → Text → Bool
is_other_certificate none hash = false
is_other_certificate (some job) hash = not (eq_ignore_ascii_case hash job.certificate)

unfoldable pub is_stopped : Run → Bool
is_stopped r = r.failed || not (r.code == 0)

module _ (crypto : Crypto) (env : Env) (args : RolloverArgs) where
  -- `persist(Some(job))?`.
  unfoldable pub persist : Job → Run → Run
  unfolding log fail_run
  persist job r =
      if env.can_save r.trace job
      then log (saves job) (record r { job = some job })
      else fail_run (record r { job = some job })

  -- `if let Some(job) = job.as_mut() { job.mark(now_unix()); persist(Some(job))?; }`.
  unfoldable pub update_job : (Job → ℕ → Job) → Option Job → Run → Run
  unfolding persist
  update_job mark none r = r
  update_job mark (some job) r = persist (mark job (env.clock r.trace)) r

  unfoldable pub publish_ports : List ℕ → Run → Run
  unfolding log fail_run
  publish_ports [] r = r
  publish_ports (port ∷ ports) r = elim (env.publish_cert r.trace args port) [
    | none ↦ fail_run r
    | some published ↦ publish_ports ports (log (publishes port args.dryrun) r)
    | some not_managed ↦ log (refuses port) (record r { code = 1 })
  ]

  unfoldable pub publish_phase : Run → Run
  unfolding publish_ports is_stopped update_job mark_published
  publish_phase r =
      let r' = publish_ports args.ports r in
      if is_stopped r' then r' else update_job mark_published r'.job r'

  unfoldable pub wait_phase : Text → WaitReason → Run → Run
  unfolding is_before_reload live_matches_file update_job mark_already_live waited wait_of log
  wait_phase hash reason r =
      if is_before_reload reason
        && live_matches_file crypto env r.trace args.zone args.ports args.hostname hash
            args.starttls
      then update_job mark_already_live r.job (log live (record r { skip_reload = true }))
      else update_job (waited reason) r.job
          (log (waits reason (wait_of reason r.job (env.clock r.trace) args.ttl) args.dryrun) r)

  -- `expect` on a missing command panics.
  unfoldable pub reload_phase : Option Text → Run → Run
  unfolding log fail_run update_job mark_reloaded
  reload_phase none r = fail_run r
  reload_phase (some command) r =
      if args.dryrun
      then record r { reload_report = some would_run }
      else if env.run_reload r.trace command
      then update_job mark_reloaded r.job
          (log (reloads true) (record r { reload_report = some ran }))
      else log (reloads false) (record r { reload_report = some reload_failed; code = 1 })

  unfoldable pub prune_ports : List ℕ → Run → Run
  unfolding log fail_run
  prune_ports [] r = r
  prune_ports (port ∷ ports) r = elim (env.prune r.trace args port) [
    | none ↦ fail_run r
    | some code ↦ elim (code == 0) [
      | true ↦ prune_ports ports (log (prunes port code) r)
      | false ↦ log (prunes port code) (record r { code = code })
    ]
  ]

  unfoldable pub finish : Option Job → Run → Run
  unfolding log fail_run
  finish none r = r
  finish (some job) r = if env.can_remove r.trace job.id then log (removes job.id) r else fail_run r

  unfoldable pub prune_phase : Run → Run
  unfolding prune_ports is_stopped finish
  prune_phase r =
      if args.dryrun
      then r
      else (let r' = prune_ports args.ports r in if is_stopped r' then r' else finish r'.job r')

  unfoldable pub run_phase : Text → Phase → Run → Run
  unfolding publish_phase wait_phase reload_phase prune_phase
  run_phase hash publish r = publish_phase r
  run_phase hash (wait reason) r = wait_phase hash reason r
  run_phase hash reload r = reload_phase args.reload r
  run_phase hash prune r = prune_phase r

  unfoldable pub run_phases : Text → List Phase → Run → Run
  unfolding is_stopped is_reload_phase run_phase
  run_phases hash [] r = r
  run_phases hash (phase ∷ rest) r = elim (is_stopped r) [
    | true ↦ r
    | false ↦ elim (r.skip_reload && is_reload_phase phase) [
      | true ↦ run_phases hash rest r
      | false ↦ run_phases hash rest (run_phase hash phase r)
    ]
  ]

  unfoldable pub initial : Trace → Option Job → Run
  initial t job = record {
    trace = t;
    job = job;
    code = 0;
    skip_reload = false;
    reload_report = none;
    failed = false;
  }

  unfoldable pub run_hash : Trace → Option Job → Text → Run
  unfolding is_other_certificate initial fail_run run_phases start_of has_reload phases
  run_hash t job hash =
      if is_other_certificate job hash
      then fail_run (initial t job)
      else run_phases hash (drop (start_of job) (phases (has_reload args.reload))) (initial t job)

  unfoldable pub file_hash : Option Text
  unfolding spki_sha256_hex
  file_hash = elim (env.read_cert args.certfile) [
    | none ↦ none
    | some cert ↦ if env.is_json || env.print_info cert then spki_sha256_hex crypto cert else none
  ]

  unfoldable pub execute_rollover : Trace → Option Job → Run
  unfolding file_hash run_hash initial fail_run
  execute_rollover t job = elim file_hash [
    | none ↦ fail_run (initial t job)
    | some hash ↦ run_hash t job hash
  ]

  -- The command that is proposed for what is left to do.
  unfoldable pub is_reload_failure : Option ReloadStatus → Bool
  is_reload_failure (some reload_failed) = true
  is_reload_failure _ = false

  unfoldable pub advice : Run → Option Text
  unfolding is_reload_failure has_reload next_steps
  advice r =
      if (not (has_reload args.reload) && r.code == 0) || is_reload_failure r.reload_report
      then some (next_steps args.zone args.ports args.hostname args.kind args.ttl args.starttls)
      else none
