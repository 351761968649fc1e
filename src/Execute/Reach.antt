-- ===== src/Execute/Reach.antt =====
-- src/main.rs: the histories of one rollover, with its commands, its resumes, and a crash at any event.
use mathlib.Core.Path.{subst}
use gentlsa.Prelude.{
  ◌≡◌, refl, sym, ap, ◌∙◌, inl, inr, Text, Bool, true, false, not, ◌||◌, Option, none, some, [],
  ◌∷◌, if◌then◌else◌, arith, Bool-cases, Option-cases, eq_ignore_ascii_case,
}
use gentlsa.Cert.{Crypto}
use gentlsa.Rollover.Job.{Job, new_job}
use gentlsa.Rollover.Store.{load_job_in}
use gentlsa.Execute.{RolloverArgs, Event, saves, Trace, Env, stored}
use gentlsa.Execute.Phases.{
  Run, initial, execute_rollover, fail_run, file_hash, persist, log, has_reload,
}
use gentlsa.Execute.Commands.{
  job_of, take_up, cert_hash, start_job, rollover_hash, rollover_cmd, schedule_cmd,
}
use gentlsa.Execute.Order.{IsReal, InTime, InTime-past, SafeAt, Fits, Fine, Ordered, SafeAt-mono}
use gentlsa.Execute.Safety.{execute-Ordered}
use gentlsa.Execute.Crash.{WasSaved, loaded-WasSaved}

-- The traces that a rollover can leave. A run that crashes has got as far as some event of it.
pub data Reach (crypto : Crypto) (env : Env) (args : RolloverArgs) : Trace → Type 0 where
  boot : Reach crypto env args []
  command :
      {t : Trace}
      → Reach crypto env args t
      → Reach crypto env args (rollover_cmd crypto env args t).trace
  schedule :
      {t : Trace}
      → Reach crypto env args t
      → Reach crypto env args (schedule_cmd crypto env args t).trace
  resume :
      {t : Trace} (id : Text) (job : Job)
      → Reach crypto env args t
      → load_job_in (stored t) id ≡ some (some job)
      → Reach crypto env args (execute_rollover crypto env args t (some job)).trace
  crash : {t : Trace} (e : Event) → Reach crypto env args (e ∷ t) → Reach crypto env args t

module _ (crypto : Crypto) (env : Env) (args : RolloverArgs) (set : IsReal env args) where
  -- The job may run from this trace.
  abbrev IsReady : Job → Trace → Type 0
  IsReady job t = Fits env args job × (InTime env args t → SafeAt env args job.phase t job)

  saved-IsReady : (t : Trace) (job : Job) → Ordered env args t → WasSaved job t → IsReady job t
  saved-IsReady [] job o m = absurd m
  saved-IsReady (e ∷ t) job (f, o) (inl s) =
      let ready : IsReady job t = subst (λ x. Fine env args x t) s f in
      (
        ready.0,
        λ i.
            SafeAt-mono env args set.lawful e t job.phase job
              (ready.1 (InTime-past env args set.lawful e t i)),
      )
  saved-IsReady (e ∷ t) job (f, o) (inr m) =
      let ready = saved-IsReady t job o m in
      (
        ready.0,
        λ i.
            SafeAt-mono env args set.lawful e t job.phase job
              (ready.1 (InTime-past env args set.lawful e t i)),
      )

  new-IsReady : (hash : Text) (t : Trace) → IsReady (job_of args hash) t
  unfolding job_of new_job
  new-IsReady hash t = (record { same_ttl = refl; same_reload = refl }, λ i. tt)

  start-Ordered :
      (t : Trace) (job : Job)
      → IsReady job t
      → Ordered env args t
      → Ordered env args (start_job crypto env args t job).trace
  unfolding start_job initial fail_run
  start-Ordered t job ready o = elim (Option-cases (env.acquire t job.id)) [
    | inl e ↦ rw (e, start_job) o
    | inr (false, e) ↦ rw (e, start_job) o
    | inr (true, e) ↦ elim (Bool-cases (env.can_save t job)) [
      | inr s ↦ rw (e, s, start_job) o
      | inl s ↦
          rw (e, s, start_job)
            (execute-Ordered crypto env args set (saves job ∷ t) job ready.0
              (λ i.
                SafeAt-mono env args set.lawful (saves job) t job.phase job
                  (ready.1 (InTime-past env args set.lawful (saves job) t i)))
              (ready, o))
    ]
  ]

  take_up-IsReady :
      (existing : Option Job) (job : Job) (t : Trace)
      → ((j : Job) → existing ≡ some j → IsReady j t)
      → IsReady job t
      → IsReady (take_up existing job) t
  unfolding take_up
  take_up-IsReady none job t old new = new
  take_up-IsReady (some j) job t old new =
      elim (Bool-cases (eq_ignore_ascii_case j.certificate job.certificate)) [
        | inl e ↦ rw (e, take_up) (old j refl)
        | inr e ↦ rw (e, take_up) new
      ]

  hash-Ordered :
      (hash : Text) (t : Trace)
      → Ordered env args t
      → Ordered env args (rollover_hash crypto env args t hash).trace
  unfolding rollover_hash initial fail_run
  hash-Ordered hash t o = elim (Option-cases (load_job_in (stored t) (job_of args hash).id)) [
    | inl e ↦ rw (e, rollover_hash) o
    | inr (existing, e) ↦
        rw (e, rollover_hash)
          (start-Ordered t (take_up existing (job_of args hash))
            (take_up-IsReady existing (job_of args hash) t
              (λ j s.
                saved-IsReady t j o
                  (loaded-WasSaved t (job_of args hash).id j (e ∙ ap (λ x. some x) s)))
              (new-IsReady hash t))
            o)
  ]

  -- Behind the guard of the command.
  abbrev behind_hash : Trace → Option Text → Run
  behind_hash t none = fail_run (initial crypto env args t none)
  behind_hash t (some hash) = rollover_hash crypto env args t hash

  command-real :
      (t : Trace)
      → rollover_cmd crypto env args t ≡ behind_hash t (cert_hash crypto env args.certfile)
  unfolding rollover_cmd has_reload
  command-real t =
      let guard : (args.dryrun || not (has_reload args.reload)) ≡ false =
        ground (arith, set.real, ap has_reload set.has_command) in
      ap
        (λ b.
          if b
          then execute_rollover crypto env args t none
          else behind_hash t (cert_hash crypto env args.certfile))
        guard

  behind-Ordered :
      (t : Trace) (hash : Option Text)
      → Ordered env args t
      → Ordered env args (behind_hash t hash).trace
  unfolding initial fail_run
  behind-Ordered t none o = o
  behind-Ordered t (some hash) o = hash-Ordered hash t o

  command-Ordered :
      (t : Trace) → Ordered env args t → Ordered env args (rollover_cmd crypto env args t).trace
  command-Ordered t o =
      subst (λ r. Ordered env args r.trace) (sym (command-real t))
        (behind-Ordered t (cert_hash crypto env args.certfile) o)

  if-Ordered :
      (b : Bool) (r r' : Run)
      → Ordered env args r.trace
      → Ordered env args r'.trace
      → Ordered env args (if b then r else r').trace
  if-Ordered true r r' o o' = o
  if-Ordered false r r' o o' = o'

  persist-Ordered :
      (t : Trace) (job : Job)
      → IsReady job t
      → Ordered env args t
      → Ordered env args (persist crypto env args job (initial crypto env args t none)).trace
  unfolding persist initial fail_run log
  persist-Ordered t job ready o = if-Ordered (env.can_save t job) _ _ (ready, o) o

  schedule-Ordered :
      (t : Trace) → Ordered env args t → Ordered env args (schedule_cmd crypto env args t).trace
  unfolding schedule_cmd initial fail_run
  schedule-Ordered t o =
      if-Ordered (not (has_reload args.reload)) _ _ o
        (elim (Option-cases (file_hash crypto env args)) [
          | inl e ↦ rw e o
          | inr (hash, e) ↦ rw e (
              if-Ordered args.dryrun _ _ o
                (persist-Ordered t (job_of args hash) (new-IsReady hash t) o))
        ])

  -- In every history of a rollover that is no dry run, whatever its commands, resumes and crashes,
  -- and while the clock is far from the end of `u64`: the service is only reloaded when each port was
  -- published, and two TTLs have passed since; and a port is only pruned when, besides, four TTLs
  -- have passed since that publication and two since the service was reloaded, or was seen to
  -- present the new certificate.
  pub Reach-Ordered : {t : Trace} → Reach crypto env args t → Ordered env args t
  Reach-Ordered boot = tt
  Reach-Ordered (command {t} h) = command-Ordered t (Reach-Ordered h)
  Reach-Ordered (schedule {t} h) = schedule-Ordered t (Reach-Ordered h)
  Reach-Ordered (resume {t} id job h e) =
      let o = Reach-Ordered h in
      let ready = saved-IsReady t job o (loaded-WasSaved t id job e) in
      execute-Ordered crypto env args set t job ready.0 ready.1 o
  Reach-Ordered (crash {t} e h) = (Reach-Ordered h).1
