-- ===== src/Rollover/StoreLaws.antt =====
-- src/rollover.rs: lemmas on the files behind `save_job_in` and `remove_job_in`, and on what
-- `load_job_in` reads of them.
use gentlsa.Prelude.{
  ◌≡◌, inl, inr, refl, ap, ◌∙◌, Text, true, false, none, some, [], ◌∷◌, text_eq, Bool-cases,
}
use gentlsa.Prelude.StrLaws.{text_eq_iff}
use gentlsa.Rollover.Job.{Job, job_version, valid_job_id}
use gentlsa.Rollover.Store.{Dir, file, remove_job_in, save_job_in, read_job, load_job_in}

text_eq_refl : (s : Text) → text_eq s s ≡ true
text_eq_refl s = (text_eq_iff s s).1 refl

pub file-removed : (dir : Dir) (id : Text) → file (remove_job_in dir id) id ≡ none
unfolding file remove_job_in
file-removed [] id = refl
file-removed (f ∷ dir) id = elim (Bool-cases (text_eq f.0 id)) [
  | inl e ↦ rw e (file-removed dir id)
  | inr e ↦ rw e (rw (e, file) (file-removed dir id))
]

pub file-removed_other :
    (dir : Dir) (id other : Text)
    → text_eq id other ≡ false
    → file (remove_job_in dir id) other ≡ file dir other
unfolding file remove_job_in
file-removed_other [] id other ne = refl
file-removed_other (f ∷ dir) id other ne = elim (Bool-cases (text_eq f.0 id)) [
  | inl e ↦
      let same = (text_eq_iff f.0 id).0 e in
      let ne' : text_eq f.0 other ≡ false = ap (λ x. text_eq x other) same ∙ ne in
      rw (e, ne', file) (file-removed_other dir id other ne)
  | inr e ↦ elim (Bool-cases (text_eq f.0 other)) [
    | inl o ↦ rw (e, o, file) refl
    | inr o ↦ rw (e, o, file) (file-removed_other dir id other ne)
  ]
]

pub load_saved :
    (dir : Dir) (job : Job)
    → valid_job_id job.id ≡ true
    → job.version ≡ job_version
    → load_job_in (save_job_in dir job) job.id ≡ some (some job)
unfolding load_job_in save_job_in file read_job
load_saved dir job v k = rw (v, text_eq_refl job.id, k) refl

pub load_saved_other :
    (dir : Dir) (job : Job) (other : Text)
    → text_eq job.id other ≡ false
    → load_job_in (save_job_in dir job) other ≡ load_job_in dir other
unfolding load_job_in save_job_in file
load_saved_other dir job other ne = rw (ne, file-removed_other dir job.id other ne) refl
