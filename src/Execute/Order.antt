-- ===== src/Execute/Order.antt =====
-- src/main.rs, `execute_rollover`: what has to be behind a reload and behind a prune (RFC 7671,
-- section 8.1).
use gentlsa.Prelude.{
  ℕ, Text, ◌+◌, ◌*◌, ◌≤◌, ◌≡◌, ◌⊎◌, inl, inr, Bool, true, false, some, List, [], ◌∷◌, All, Any,
  arith,
}
use gentlsa.Rollover.{
  u32_max, u64_max, JobPhase, publishing, waiting_reload, reloading, waiting_prune, pruning,
}
use gentlsa.Rollover.Job.{Job}
use gentlsa.Execute.Phases.{Run, is_stopped}
use gentlsa.Execute.{
  RolloverArgs, Event, publishes, refuses, waits, live, reloads, prunes, saves, removes, Trace, Env,
  IsLawful,
}

-- The trace was once, now or at an earlier event, one with the property.
abbrev pub Sometime : (Trace → Type 0) → Trace → Type 0
Sometime P [] = P []
Sometime P (e ∷ t) = P (e ∷ t) ⊎ Sometime P t

pub Sometime-now : (P : Trace → Type 0) (t : Trace) → P t → Sometime P t
Sometime-now P [] h = h
Sometime-now P (e ∷ t) h = inl h

-- Every port is published, and not in a dry run.
abbrev pub AllPublished : List ℕ → Trace → Type 0
AllPublished ports t = All (λ port. Any (λ e. e ≡ publishes port false) t) ports

-- The service has just been reloaded, or been seen to present the new certificate.
abbrev pub IsServed : Trace → Type 0
IsServed [] = ⊥
IsServed (e ∷ t) = (e ≡ reloads true) ⊎ (e ≡ live)

module _ (env : Env) (args : RolloverArgs) where
  -- The clock is far from the end of `u64`.
  abbrev pub InTime : Trace → Type 0
  InTime t = env.clock t + 4 * u32_max ≤ u64_max

  -- Published, or served, at a time no later than this.
  abbrev pub PublishedAt : ℕ → Trace → Type 0
  PublishedAt p t = Sometime (λ s. AllPublished args.ports s × (env.clock s ≤ p)) t

  abbrev pub ServedAt : ℕ → Trace → Type 0
  ServedAt q t = Sometime (λ s. IsServed s × (env.clock s ≤ q)) t

  -- Two TTLs are behind the publication.
  abbrev pub MayReload : Trace → Type 0
  MayReload t = (p : ℕ) × PublishedAt p t × (p + 2 * args.ttl ≤ env.clock t)

  -- Four TTLs are behind the publication, and two behind the time that the new certificate is
  -- served since.
  abbrev pub MayPrune : Trace → Type 0
  MayPrune t =
      ((p : ℕ) × PublishedAt p t × (p + 4 * args.ttl ≤ env.clock t))
      × ((q : ℕ) × ServedAt q t × (q + 2 * args.ttl ≤ env.clock t))

  -- What a job's phase stands for.
  abbrev pub SafeAt : JobPhase → Trace → Job → Type 0
  SafeAt publishing t job = Unit
  SafeAt waiting_reload t job =
      (p : ℕ) × PublishedAt p t
      × (job.reload_after ≡ some (p + 2 * args.ttl))
      × (job.prune_after ≡ some (p + 4 * args.ttl))
  SafeAt reloading t job =
      (p : ℕ) × PublishedAt p t
      × (p + 2 * args.ttl ≤ env.clock t)
      × (job.prune_after ≡ some (p + 4 * args.ttl))
  SafeAt waiting_prune t job =
      (d : ℕ) × (job.prune_after ≡ some d)
      × ((p : ℕ) × PublishedAt p t × (p + 4 * args.ttl ≤ d))
      × ((q : ℕ) × ServedAt q t × (q + 2 * args.ttl ≤ d))
  SafeAt pruning t job = MayPrune t

  -- The job is one of these arguments.
  pub record Fits (job : Job) : Type 0 where
    pub same_ttl : job.ttl ≡ args.ttl
    pub same_reload : job.reload ≡ args.reload

  -- What holds of the trace before an event: no reload, no prune and no saved job comes too early.
  abbrev pub Fine : Event → Trace → Type 0
  Fine (saves job) t = Fits job × (InTime t → SafeAt job.phase t job)
  Fine (reloads _) t = InTime t → MayReload t
  Fine (prunes _ _) t = InTime t → MayPrune t
  Fine (publishes _ _) t = Unit
  Fine (refuses _) t = Unit
  Fine (waits _ _ _) t = Unit
  Fine live t = Unit
  Fine (removes _) t = Unit

  -- Each event is fine after those before it.
  abbrev pub Ordered : Trace → Type 0
  Ordered [] = Unit
  Ordered (e ∷ t) = Fine e t × Ordered t

  module _ (lawful : IsLawful env) where
    pub InTime-past : (e : Event) (t : Trace) → InTime (e ∷ t) → InTime t
    InTime-past e t i = omega (arith, i, lawful.clock_mono e t)

    pub MayReload-mono : (e : Event) (t : Trace) → MayReload t → MayReload (e ∷ t)
    MayReload-mono e t (p, h, b) = (p, inr h, omega (arith, b, lawful.clock_mono e t))

    pub MayPrune-mono : (e : Event) (t : Trace) → MayPrune t → MayPrune (e ∷ t)
    MayPrune-mono e t ((p, h, b), (q, k, c)) = (
      (p, inr h, omega (arith, b, lawful.clock_mono e t)),
      (q, inr k, omega (arith, c, lawful.clock_mono e t)),
    )

    -- What a phase stands for stays so.
    pub SafeAt-mono :
        (e : Event) (t : Trace) (phase : JobPhase) (job : Job)
        → SafeAt phase t job
        → SafeAt phase (e ∷ t) job
    SafeAt-mono e t publishing job h = h
    SafeAt-mono e t waiting_reload job (p, h, r, s) = (p, inr h, r, s)
    SafeAt-mono e t reloading job (p, h, b, r) =
        (p, inr h, omega (arith, b, lawful.clock_mono e t), r)
    SafeAt-mono e t waiting_prune job (d, r, (p, h, b), (q, k, c)) =
        (d, r, (p, inr h, b), (q, inr k, c))
    SafeAt-mono e t pruning job h = MayPrune-mono e t h

  -- A run that is no dry run, of a command that reloads.
  pub record IsReal : Type 0 where
    pub lawful : IsLawful env
    pub real : args.dryrun ≡ false
    pub bound : args.ttl ≤ u32_max
    pub command : Text
    pub has_command : args.reload ≡ some command

  -- The run goes on, with a job at this phase and this `skip_reload`.
  pub record IsAt (phase : JobPhase) (skip : Bool) (r : Run) : Type 0 where
    pub job : Job
    pub has_job : r.job ≡ some job
    pub at_phase : job.phase ≡ phase
    pub fits : Fits job
    pub safe : InTime r.trace → SafeAt phase r.trace job
    pub skips : r.skip_reload ≡ skip
    pub runs : is_stopped r ≡ false
    pub ordered : Ordered r.trace

  -- The run stops, with a trace in order.
  abbrev pub HasStopped : Run → Type 0
  HasStopped r = (is_stopped r ≡ true) × Ordered r.trace

  abbrev pub Goes : JobPhase → Bool → Run → Type 0
  Goes phase skip r = HasStopped r ⊎ IsAt phase skip r
