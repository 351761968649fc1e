-- ===== src/Execute/Tests.antt =====
-- A rollover of one port in a world where every step succeeds, and in a dry run.
use gentlsa.Prelude.{
  ℕ, ◌+◌, ◌≤◌, Text, codes, List, [], ◌∷◌, ◌≡◌, refl, Bool, true, false, Option, some, none, arith,
}
use gentlsa.Prelude.Int.{pos}
use gentlsa.Tlsa.Owner.{nonempty}
use gentlsa.Cert.{Crypto, Certificate}
use gentlsa.Publish.Kind.{route53}
use gentlsa.Rollover.{reloading, pruning}
use gentlsa.Rollover.Job.{
  Job, new_job, job_kind, mark_published, mark_reloaded, mark_waiting_reload, mark_ready_to_prune,
}
use gentlsa.Rollover.Store.{file}
use gentlsa.Execute.{
  RolloverArgs, Event, publishes, refuses, waits, live, reloads, prunes, saves, removes, Trace,
  published, Env, IsLawful, live_matches_file, stored,
}
use gentlsa.Execute.Phases.{Run, execute_rollover}
use gentlsa.Execute.Commands.{job_of, resume_args, rollover_cmd}
use gentlsa.Execute.Order.{IsReal, Ordered}
use gentlsa.Execute.Reach.{Reach, Reach-Ordered}
use gentlsa.Execute.DryRun.{dry, pending, first_wait, second_wait, dry_run-advances}
use gentlsa.Execute.Progress.{Succeeds}
use gentlsa.Execute.Complete.{execute-completes}
use gentlsa.Execute.Schedule.{resume-same}

abbrev plain : Crypto
plain = record {
  public_key = λ der. some der;
  sha256 = λ bytes. bytes;
  sha512 = λ bytes. bytes;
  hex_encode = λ bytes. bytes;
}

abbrev renewed : Certificate
renewed = record {
  der = codes "ab";
  chain_der = [];
  not_before_ts = pos 0;
  not_after_ts = pos 8640000;
}

-- The clock counts the seconds slept.
abbrev elapsed : Trace → ℕ
elapsed [] = 1000
elapsed (waits _ s false ∷ t) = elapsed t + s
elapsed (waits _ _ true ∷ t) = elapsed t
elapsed (publishes _ _ ∷ t) = elapsed t
elapsed (refuses _ ∷ t) = elapsed t
elapsed (live ∷ t) = elapsed t
elapsed (reloads _ ∷ t) = elapsed t
elapsed (prunes _ _ ∷ t) = elapsed t
elapsed (saves _ ∷ t) = elapsed t
elapsed (removes _ ∷ t) = elapsed t

abbrev world : Env
world = record {
  clock = elapsed;
  is_json = true;
  print_info = λ c. true;
  read_cert = λ path. some renewed;
  fetch_live = λ t host port starttls zone. none;
  publish_cert = λ t args port. some published;
  run_reload = λ t command. true;
  prune = λ t args port. some 0;
  can_save = λ t job. true;
  can_remove = λ t id. true;
  acquire = λ t id. some true;
}

elapsed_mono : (e : Event) (t : Trace) → elapsed t ≤ elapsed (e ∷ t)
elapsed_mono (waits _ s false) t = omega arith
elapsed_mono (waits _ s true) t = omega arith
elapsed_mono (publishes _ _) t = omega arith
elapsed_mono (refuses _) t = omega arith
elapsed_mono live t = omega arith
elapsed_mono (reloads _) t = omega arith
elapsed_mono (prunes _ _) t = omega arith
elapsed_mono (saves _) t = omega arith
elapsed_mono (removes _) t = omega arith

world-IsLawful : IsLawful world
world-IsLawful = record { clock_mono = elapsed_mono; clock_waits = λ reason s t. omega arith }

abbrev args : RolloverArgs
args = record {
  certfile = codes "c.pem";
  zone = codes "b.c";
  ports = 443 ∷ [];
  hostname = none;
  info = false;
  kind = route53;
  reload = some (codes "reload");
  ttl = 300;
  dryrun = false;
  starttls = none;
}

args-IsReal : IsReal world args
args-IsReal = record {
  lawful = world-IsLawful;
  real = refl;
  bound = omega arith;
  command = codes "reload";
  has_command = refl;
}

Reach-Ordered_example : Ordered world args (rollover_cmd plain world args []).trace
Reach-Ordered_example = Reach-Ordered plain world args args-IsReal (Reach.command Reach.boot)

-- The whole run: publish, two waits of 600 seconds and the reload between them, prune.
abbrev job : Job
job = job_of args (codes "ab")

args-Succeeds : Succeeds world args
args-Succeeds = record {
  real = refl;
  command = codes "reload";
  has_command = refl;
  publish_ok = λ t port. refl;
  reload_ok = λ t c. refl;
  prune_ok = λ t port. refl;
  save_ok = λ t j. refl;
  remove_ok = λ t id. refl;
}

execute-completes_example :
    ((execute_rollover plain world args [] (some job)).failed ≡ false)
    × ((execute_rollover plain world args [] (some job)).code ≡ 0)
    × (file (stored (execute_rollover plain world args [] (some job)).trace) job.id ≡ none)
unfolding job_of new_job gentlsa.Execute.Phases.file_hash gentlsa.Prelude.lower
execute-completes_example =
    execute-completes plain world args args-Succeeds [] job (codes "ab") refl refl

dry_run-advances_example :
    ((execute_rollover plain world (dry args (codes "reload")) [] (some (pending job))).trace
      ≡ saves (mark_ready_to_prune job)
        ∷ second_wait plain world args (codes "reload") (codes "ab") job []
        ∷ saves (mark_waiting_reload job)
        ∷ first_wait plain world args (codes "reload") (codes "ab") job []
        ∷ [])
    × ((mark_waiting_reload job).phase ≡ reloading)
    × ((mark_ready_to_prune job).phase ≡ pruning)
unfolding job_of new_job live_matches_file gentlsa.Execute.Phases.file_hash gentlsa.Prelude.lower
dry_run-advances_example =
    dry_run-advances plain world args (codes "reload") (codes "ab") job [] refl refl refl
      (λ s j. refl)

resume-same_example :
    (job_kind (job_of args (codes "ab")) ≡ some route53)
    × (resume_args (job_of args (codes "ab")) route53 true true
        ≡ record args { hostname = nonempty none; info = true; dryrun = true })
    × (resume_args
          (mark_ready_to_prune (
            mark_reloaded
              (mark_waiting_reload (mark_published (job_of args (codes "ab")) 1000))
              1600))
          route53
          true
          true
        ≡ record args { hostname = nonempty none; info = true; dryrun = true })
resume-same_example = resume-same args (codes "ab") 1000 1600 true true

lasts : elapsed (rollover_cmd plain world args []).trace ≡ 2200
unfolding rollover_cmd gentlsa.Prelude.trim_end_by gentlsa.Prelude.Decimal.to_string
    gentlsa.Prelude.lower
lasts = refl
