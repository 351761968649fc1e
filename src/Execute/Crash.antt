-- ===== src/Execute/Crash.antt =====
-- src/rollover.rs: a job that is loaded, and the trace that saved it.
use gentlsa.Prelude.{
  some-inj, ◌≡◌, sym, ap, ◌∙◌, ◌⊎◌, inl, inr, Text, Option, none, some, [], ◌∷◌, ◌==◌, Any, arith,
  Bool-cases, text_eq,
}
use gentlsa.Prelude.StrLaws.{text_eq_iff}
use gentlsa.Rollover.Job.{Job, job_version, valid_job_id}
use gentlsa.Rollover.Store.{Dir, file, remove_job_in, save_job_in, read_job, load_job_in}
use gentlsa.Rollover.StoreLaws.{file-removed, file-removed_other}
use gentlsa.Execute.{
  publishes, refuses, waits, live, reloads, prunes, saves, removes, Trace, stored,
}

-- A loaded job was saved.
abbrev pub WasSaved : Job → Trace → Type 0
WasSaved job t = Any (λ e. e ≡ saves job) t

file-saved :
    (dir : Dir) (saved job : Job) (id : Text)
    → file (save_job_in dir saved) id ≡ some (some job)
    → (saved ≡ job) ⊎ (file dir id ≡ some (some job))
unfolding save_job_in file
file-saved dir saved job id e = elim (Bool-cases (text_eq saved.id id)) [
  | inl s ↦ inl (some-inj saved job (some-inj (some saved) (some job) (rw (s, file) at e)))
  | inr s ↦ inr (sym (file-removed_other dir saved.id id s) ∙ (rw (s, file) at e))
]

file-kept :
    (dir : Dir) (id' id : Text) (job : Job)
    → file (remove_job_in dir id') id ≡ some (some job)
    → file dir id ≡ some (some job)
file-kept dir id' id job e = elim (Bool-cases (text_eq id' id)) [
  | inl s ↦
      let same = (text_eq_iff id' id).0 s in
      ground (arith, sym (file-removed dir id') ∙ (ap (file (remove_job_in dir id')) same ∙ e))
  | inr s ↦ sym (file-removed_other dir id' id s) ∙ e
]

file-WasSaved :
    (t : Trace) (id : Text) (job : Job) → file (stored t) id ≡ some (some job) → WasSaved job t
unfolding stored
file-WasSaved [] id job e = unfold file in (ground (arith, e))
file-WasSaved (saves saved ∷ t) id job e = elim (file-saved (stored t) saved job id e) [
  | inl s ↦ inl (ap saves s)
  | inr k ↦ inr (file-WasSaved t id job k)
]
file-WasSaved (removes id' ∷ t) id job e =
    inr (file-WasSaved t id job (file-kept (stored t) id' id job e))
file-WasSaved (publishes _ _ ∷ t) id job e = inr (file-WasSaved t id job e)
file-WasSaved (refuses _ ∷ t) id job e = inr (file-WasSaved t id job e)
file-WasSaved (waits _ _ _ ∷ t) id job e = inr (file-WasSaved t id job e)
file-WasSaved (live ∷ t) id job e = inr (file-WasSaved t id job e)
file-WasSaved (reloads _ ∷ t) id job e = inr (file-WasSaved t id job e)
file-WasSaved (prunes _ _ ∷ t) id job e = inr (file-WasSaved t id job e)

read-file :
    (f : Option (Option Job)) (job : Job) → read_job f ≡ some (some job) → f ≡ some (some job)
unfolding read_job
read-file none job e = ground (arith, e)
read-file (some none) job e = ground (arith, e)
read-file (some (some j)) job e = elim (Bool-cases (j.version == job_version)) [
  | inl v ↦ rw v at e
  | inr v ↦ ground (arith, rw v at e)
]

pub loaded-WasSaved :
    (t : Trace) (id : Text) (job : Job)
    → load_job_in (stored t) id ≡ some (some job)
    → WasSaved job t
unfolding load_job_in
loaded-WasSaved t id job e = elim (Bool-cases (valid_job_id id)) [
  | inl v ↦ file-WasSaved t id job (read-file (file (stored t) id) job (rw (v, load_job_in) at e))
  | inr v ↦ ground (arith, rw (v, load_job_in) at e)
]
