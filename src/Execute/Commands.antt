-- ===== src/Execute/Commands.antt =====
-- src/main.rs: the commands `rollover`, `rollover --schedule` and `rollover --resume`.
use gentlsa.Prelude.{
  ℕ, max, Text, Bool, true, false, not, ◌||◌, Option, none, some, List, [], ◌∷◌, if◌then◌else◌,
  eq_ignore_ascii_case, ◌>>=◌,
}
use gentlsa.Cert.{Crypto, spki_sha256_hex}
use gentlsa.Publish.Kind.{PublisherKind}
use gentlsa.Rollover.Job.{Job, new_job, job_kind}
use gentlsa.Rollover.Store.{load_job_in, load_jobs_in}
use gentlsa.Execute.{RolloverArgs, Trace, saves, Env, stored}
use gentlsa.Execute.Phases.{
  Run, fail_run, initial, has_reload, persist, execute_rollover, file_hash,
}

unfoldable pub job_of : RolloverArgs → Text → Job
unfolding new_job
job_of args hash =
    new_job args.certfile args.zone args.ports args.hostname args.kind args.reload args.ttl hash
      args.starttls

-- A pending job for the same certificate is taken up.
unfoldable pub take_up : Option Job → Job → Job
take_up none job = job
take_up (some existing) job =
    if eq_ignore_ascii_case existing.certificate job.certificate then existing else job

-- The arguments that a job is resumed with.
unfoldable pub resume_args : Job → PublisherKind → Bool → Bool → RolloverArgs
resume_args job kind info dryrun = record {
  certfile = job.certfile;
  zone = job.zone;
  ports = job.ports;
  hostname = job.hostname;
  info = info;
  kind = kind;
  reload = job.reload;
  ttl = job.ttl;
  dryrun = dryrun;
  starttls = job.starttls;
}

-- `failed` where `resume_cmd` returns an error.
pub record Resumed : Type 0 where
  pub trace : Trace
  pub code : ℕ
  pub failed : Bool

module _ (crypto : Crypto) (env : Env) where
  unfoldable pub cert_hash : Text → Option Text
  unfolding spki_sha256_hex
  cert_hash certfile = env.read_cert certfile >>= spki_sha256_hex crypto

  -- The lock, the save and the run.
  unfoldable pub start_job : RolloverArgs → Trace → Job → Run
  unfolding execute_rollover initial fail_run
  start_job args t job = elim (env.acquire t job.id) [
    | none ↦ fail_run (initial crypto env args t (some job))
    | some false ↦ fail_run (initial crypto env args t (some job))
    | some true ↦ elim (env.can_save t job) [
      | true ↦ execute_rollover crypto env args (saves job ∷ t) (some job)
      | false ↦ fail_run (initial crypto env args t (some job))
    ]
  ]

  unfoldable pub rollover_hash : RolloverArgs → Trace → Text → Run
  unfolding job_of take_up load_job_in start_job initial fail_run stored
  rollover_hash args t hash =
      let job = job_of args hash in
      elim (load_job_in (stored t) job.id) [
        | none ↦ fail_run (initial crypto env args t none)
        | some existing ↦ start_job args t (take_up existing job)
      ]

  unfoldable pub rollover_cmd : RolloverArgs → Trace → Run
  unfolding has_reload execute_rollover cert_hash rollover_hash initial fail_run
  rollover_cmd args t =
      if args.dryrun || not (has_reload args.reload)
      then execute_rollover crypto env args t none
      else elim (cert_hash args.certfile) [
        | none ↦ fail_run (initial crypto env args t none)
        | some hash ↦ rollover_hash args t hash
      ]

  -- The job file of a schedule; the `systemd` unit that is started resumes it.
  unfoldable pub schedule_cmd : RolloverArgs → Trace → Run
  unfolding has_reload file_hash job_of persist initial fail_run
  schedule_cmd args t =
      if not (has_reload args.reload)
      then fail_run (initial crypto env args t none)
      else elim (file_hash crypto env args) [
        | none ↦ fail_run (initial crypto env args t none)
        | some hash ↦
            if args.dryrun
            then initial crypto env args t none
            else persist crypto env args (job_of args hash) (initial crypto env args t none)
      ]

  -- The exit code behind a job: an error sets it to 1.
  unfoldable pub code_behind : ℕ → Run → ℕ
  code_behind code r = if r.failed then 1 else max code r.code

  -- The loop over the jobs, one job with its lock and its publisher first.
  unfoldable pub resume_job : Bool → Bool → Job → Trace → Option Run
  unfolding job_kind resume_args execute_rollover
  resume_job info dryrun job t = elim (job_kind job) [
    | none ↦ none
    | some kind ↦ some (execute_rollover crypto env (resume_args job kind info dryrun) t (some job))
  ]

  unfoldable pub resume_jobs : Bool → Bool → List Job → Trace → ℕ → Resumed
  unfolding resume_job code_behind
  resume_jobs info dryrun [] t code = record { trace = t; code = code; failed = false }
  resume_jobs info dryrun (job ∷ jobs) t code = elim (env.acquire t job.id) [
    | none ↦ record { trace = t; code = code; failed = true }
    | some false ↦ resume_jobs info dryrun jobs t code
    | some true ↦ elim (resume_job info dryrun job t) [
      | none ↦ record { trace = t; code = code; failed = true }
      | some r ↦ resume_jobs info dryrun jobs r.trace (code_behind code r)
    ]
  ]

  unfoldable pub resume_cmd : Option Text → Bool → Bool → Trace → Resumed
  unfolding load_jobs_in resume_jobs stored
  resume_cmd wanted info dryrun t = elim (load_jobs_in (stored t) wanted) [
    | none ↦ record { trace = t; code = 0; failed = true }
    | some jobs ↦ resume_jobs info dryrun jobs t 0
  ]
