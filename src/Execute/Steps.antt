-- ===== src/Execute/Steps.antt =====
-- src/main.rs, `execute_rollover`: the publish, and the order of events.
use mathlib.Core.Path.{subst}
use gentlsa.Prelude.{
  ℕ, ◌+◌, ◌*◌, ◌≤◌, ◌≡◌, refl, sym, ap, ◌∙◌, ◌⊎◌, inl, inr, Bool, false, some, List, [], ◌∷◌, Any,
  arith, Bool-cases, Option-cases,
}
use gentlsa.Cert.{Crypto}
use gentlsa.Rollover.{JobPhase, publishing, waiting_reload, waiting_prune}
use gentlsa.Rollover.Job.{Job, mark_published, mark_reloaded, phase_behind_publish}
use gentlsa.Rollover.JobLaws.{InRange, reload_after-eq, prune_after-eq, reloaded-deadline}
use gentlsa.Execute.{RolloverArgs, Event, publishes, saves, Trace, published, not_managed, Env}
use gentlsa.Execute.Phases.{
  Run, log, fail_run, is_stopped, persist, update_job, publish_ports, publish_phase,
}
use gentlsa.Execute.Order.{
  InTime, InTime-past, IsReal, IsAt, HasStopped, Goes, Sometime-now, AllPublished, IsServed,
  PublishedAt, ServedAt, SafeAt, Fits, Ordered, SafeAt-mono,
}

module _ (crypto : Crypto) (env : Env) (args : RolloverArgs) (set : IsReal env args) where
  -- A mark: the new job is one of these arguments and safe in its new phase.
  pub update-Goes :
      (mark : Job → ℕ → Job) (job : Job) (r : Run) (phase : JobPhase)
      → (mark job (env.clock r.trace)).phase ≡ phase
      → Fits env args (mark job (env.clock r.trace))
      → (InTime env args r.trace → SafeAt env args phase r.trace (mark job (env.clock r.trace)))
      → is_stopped r ≡ false
      → Ordered env args r.trace
      → Goes env args phase r.skip_reload (update_job crypto env args mark (some job) r)
  unfolding update_job persist log fail_run is_stopped
  update-Goes mark job r phase ph f s run o =
      let new = mark job (env.clock r.trace) in
      elim (Bool-cases (env.can_save r.trace new)) [
        | inr e ↦ rw (e, persist) (inl (refl, o))
        | inl e ↦
            rw (e, persist)
              (inr (record {
                job = new;
                has_job = refl;
                at_phase = ph;
                fits = f;
                safe = λ i.
                    SafeAt-mono env args set.lawful (saves new) r.trace phase new
                      (s (InTime-past env args set.lawful (saves new) r.trace i));
                skips = refl;
                runs = run;
                ordered = (
                  (
                    f,
                    subst (λ x. InTime env args r.trace → SafeAt env args x r.trace new) (sym ph) s,
                  ),
                  o,
                );
              }))
      ]

  -- The loop over the ports has not stopped: all are published, and no event is lost.
  record HasPublished (ports : List ℕ) (r r' : Run) : Type 0 where
    runs : is_stopped r' ≡ false
    same_job : r'.job ≡ r.job
    same_skip : r'.skip_reload ≡ r.skip_reload
    all : AllPublished ports r'.trace
    keeps : (e : Event) → Any (λ x. x ≡ e) r.trace → Any (λ x. x ≡ e) r'.trace
    ordered : Ordered env args r'.trace

  publish_ports-lem :
      (ports : List ℕ) (r : Run)
      → is_stopped r ≡ false
      → Ordered env args r.trace
      → HasStopped env args (publish_ports crypto env args ports r)
        ⊎ HasPublished ports r (publish_ports crypto env args ports r)
  unfolding publish_ports log fail_run is_stopped
  publish_ports-lem [] r run o = inr (record {
    runs = run;
    same_job = refl;
    same_skip = refl;
    all = tt;
    keeps = λ e h. h;
    ordered = o;
  })
  publish_ports-lem (port ∷ ports) r run o =
      elim (Option-cases (env.publish_cert r.trace args port)) [
        | inl e ↦ rw (e, publish_ports) (inl (refl, o))
        | inr (not_managed, e) ↦ rw (e, publish_ports) (inl (ground arith, (tt, o)))
        | inr (published, e) ↦
            let next = log (publishes port args.dryrun) r in
            rw (e, publish_ports)
              (elim (publish_ports-lem ports next run (tt, o)) [
                | inl s ↦ inl s
                | inr h ↦ inr (record {
                  runs = h.runs;
                  same_job = h.same_job;
                  same_skip = h.same_skip;
                  all =
                      (h.keeps (publishes port false) (inl (ap (publishes port) set.real)), h.all);
                  keeps = λ e' m. h.keeps e' (inr m);
                  ordered = h.ordered;
                })
              ])
      ]

  range :
      (t : Trace) (job : Job)
      → Fits env args job
      → InTime env args t
      → InRange (env.clock t) job.ttl
  range t job f i = (omega (arith, set.bound, f.same_ttl), i)

  published-phase :
      (job : Job) (now : ℕ) → Fits env args job → (mark_published job now).phase ≡ waiting_reload
  unfolding mark_published phase_behind_publish
  published-phase job now f = rw (f.same_reload ∙ set.has_command, phase_behind_publish) refl

  published-Fits :
      (job : Job) (now : ℕ) → Fits env args job → Fits env args (mark_published job now)
  unfolding mark_published
  published-Fits job now f = record { same_ttl = f.same_ttl; same_reload = f.same_reload }

  published-reload :
      (t : Trace) (job : Job)
      → Fits env args job
      → InTime env args t
      → (mark_published job (env.clock t)).reload_after ≡ some (env.clock t + 2 * args.ttl)
  published-reload t job f i =
      reload_after-eq job (env.clock t) (range t job f i)
      ∙ ap (λ n. some (env.clock t + 2 * n)) f.same_ttl

  published-prune :
      (t : Trace) (job : Job)
      → Fits env args job
      → InTime env args t
      → (mark_published job (env.clock t)).prune_after ≡ some (env.clock t + 4 * args.ttl)
  published-prune t job f i =
      prune_after-eq job (env.clock t) (range t job f i)
      ∙ ap (λ n. some (env.clock t + 4 * n)) f.same_ttl

  -- Publish: behind it the job waits for the reload.
  pub publish-Goes :
      (skip : Bool) (r : Run)
      → IsAt env args publishing skip r
      → Goes env args waiting_reload skip (publish_phase crypto env args r)
  unfolding publish_phase
  publish-Goes skip r a = elim (publish_ports-lem args.ports r a.runs a.ordered) [
    | inl s ↦ rw (s.0, publish_phase) (inl s)
    | inr h ↦
        let r' = publish_ports crypto env args args.ports r in
        let t = r'.trace in
        let p = env.clock t in
        let once : PublishedAt env args p t =
          Sometime-now (λ s. AllPublished args.ports s × (env.clock s ≤ p)) t
            (h.all, omega arith) in
        rw (h.runs, publish_phase)
          (rw (h.same_job ∙ a.has_job) (
            subst
              (λ b.
                Goes env args waiting_reload b
                  (update_job crypto env args mark_published (some a.job) r'))
              (h.same_skip ∙ a.skips)
              (update-Goes mark_published a.job r' waiting_reload (published-phase a.job p a.fits)
                (published-Fits a.job p a.fits)
                (λ i.
                  (p, once, published-reload t a.job a.fits i, published-prune t a.job a.fits i))
                h.runs h.ordered)))
  ]

  pub reloaded-Fits :
      (job : Job) (now : ℕ) → Fits env args job → Fits env args (mark_reloaded job now)
  unfolding mark_reloaded
  reloaded-Fits job now f = record { same_ttl = f.same_ttl; same_reload = f.same_reload }

  pub reloaded-phase : (job : Job) (now : ℕ) → (mark_reloaded job now).phase ≡ waiting_prune
  unfolding mark_reloaded
  reloaded-phase job now = refl

  -- A job whose deadline for the prune is four TTLs behind the publication, reloaded now.
  pub reloaded-safe :
      (t : Trace) (job : Job) (p : ℕ)
      → Fits env args job
      → PublishedAt env args p t
      → job.prune_after ≡ some (p + 4 * args.ttl)
      → IsServed t
      → InTime env args t
      → SafeAt env args waiting_prune t (mark_reloaded job (env.clock t))
  reloaded-safe t job p f h e s i =
      let q = env.clock t in
      let (d, ed, b, k) = reloaded-deadline job q (range t job f i) in
      let now : ServedAt env args q t =
        Sometime-now (λ x. IsServed x × (env.clock x ≤ q)) t (s, omega arith) in
      (d, ed, (p, h, k _ e), (q, now, omega (arith, b, f.same_ttl)))
