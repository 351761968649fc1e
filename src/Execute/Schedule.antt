-- ===== src/Execute/Schedule.antt =====
-- src/main.rs, `resume_cmd`: the arguments that a job is resumed with.
use gentlsa.Prelude.{[], ℕ, Bool, ◌≡◌, refl, Text, some}
use gentlsa.Tlsa.Owner.{nonempty}
use gentlsa.Publish.RoundTrip.{from_name_iff}
use gentlsa.Rollover.Job.{
  new_job, job_kind, mark_published, mark_reloaded, mark_waiting_reload, mark_ready_to_prune,
}
use gentlsa.Execute.{RolloverArgs}
use gentlsa.Execute.Commands.{job_of, resume_args}

-- A resume of the job that a rollover or a schedule makes runs with the arguments of that command,
-- its publisher included, as the job is new and as it is behind all its marks; only an empty
-- hostname has become none, and `info` and `dryrun` are those of the resume, whatever the command's were.
pub resume-same :
    (args : RolloverArgs) (hash : Text) (p q : ℕ) (info dryrun : Bool)
    → (job_kind (job_of args hash) ≡ some args.kind)
      × (resume_args (job_of args hash) args.kind info dryrun
          ≡ record args { hostname = nonempty args.hostname; info = info; dryrun = dryrun })
      × (resume_args
            (mark_ready_to_prune
              (mark_reloaded (mark_waiting_reload (mark_published (job_of args hash) p)) q))
            args.kind
            info
            dryrun
          ≡ record args { hostname = nonempty args.hostname; info = info; dryrun = dryrun })
unfolding job_kind job_of new_job resume_args mark_published mark_reloaded mark_waiting_reload
    mark_ready_to_prune
resume-same args hash p q info dryrun = ((from_name_iff args.kind []).1, refl, refl)
