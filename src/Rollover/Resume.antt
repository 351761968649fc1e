-- ===== src/Rollover/Resume.antt =====
-- src/rollover.rs: lemmas on `load_jobs_in`.
use gentlsa.Prelude.{
  ◌≡◌, inl, inr, refl, sym, ap, ◌∙◌, Text, codes, Bool, true, false, Option, none, some, List, [],
  ◌∷◌, filter, text_eq, arith, All, Any, Bool-cases, Option-cases, ◌>>=◌, filter-All_test,
}
use gentlsa.Prelude.StrLaws.{text_eq_iff}
use gentlsa.Dns.Mx.{text_le}
use gentlsa.Rollover.Job.{Job, job_version, valid_job_id, is_id_char}
use gentlsa.Rollover.Store.{
  Dir, remove_job_in, save_job_in, load_job_in, load_jobs_in, load_entries, push_loaded, insert_job,
  sort_jobs, job_matches, given, some_jobs, select_jobs,
}
use gentlsa.Rollover.StoreLaws.{load_saved_other, load_saved}

abbrev pub IsJob : Job → Job → Type 0
IsJob job j = j ≡ job

insert-self :
    (P : Job → Type 0) (x : Job) (ys : List Job) → Any P (x ∷ ys) → Any P (insert_job x ys)
unfolding insert_job
insert-self P x [] h = h
insert-self P x (y ∷ ys) h = elim (Bool-cases (text_le x.id y.id)) [
  | inl e ↦ rw (e, insert_job) h
  | inr e ↦
      rw (e, insert_job)
        (elim h [
          | inl px ↦ inr (insert-self P x ys (inl px))
          | inr (inl py) ↦ inl py
          | inr (inr pys) ↦ inr (insert-self P x ys (inr pys))
        ])
]

sort-Any : (P : Job → Type 0) (xs : List Job) → Any P xs → Any P (sort_jobs xs)
unfolding sort_jobs
sort-Any P [] h = h
sort-Any P (x ∷ xs) (inl h) = insert-self P x (sort_jobs xs) (inl h)
sort-Any P (x ∷ xs) (inr h) = insert-self P x (sort_jobs xs) (inr (sort-Any P xs h))

filter-Any :
    (P : Job → Type 0) (p : Job → Bool) (xs : List Job)
    → ((x : Job) → P x → p x ≡ true)
    → Any P xs
    → Any P (filter p xs)
filter-Any P p [] f h = h
filter-Any P p (x ∷ xs) f (inl h) = rw (f x h) (inl h)
filter-Any P p (x ∷ xs) f (inr h) = elim (Bool-cases (p x)) [
  | inl e ↦ rw e (inr (filter-Any P p xs f h))
  | inr e ↦ rw e (filter-Any P p xs f h)
]

some_jobs-Any : (P : Job → Type 0) (xs : List Job) → Any P xs → some_jobs xs ≡ some xs
unfolding some_jobs
some_jobs-Any P [] h = absurd h
some_jobs-Any P (x ∷ xs) h = refl

star-invalid : valid_job_id (codes "*") ≡ false
unfolding valid_job_id is_id_char
star-invalid = refl

text_eq_sym_false : (s t : Text) → text_eq s t ≡ false → text_eq t s ≡ false
text_eq_sym_false s t e = elim (Bool-cases (text_eq t s)) [
  | inr f ↦ f
  | inl f ↦ ground (arith, e, (text_eq_iff s t).1 (sym ((text_eq_iff t s).0 f)))
]

job_matches_self : (job : Job) (x : Job) → x ≡ job → job_matches job.id x ≡ true
unfolding job_matches
job_matches_self job x e =
    let same : text_eq x.id job.id ≡ true = (text_eq_iff x.id job.id).1 (ap (λ j. j.id) e) in
    ground (arith, same)

-- A valid id is no `*`.
valid-given : (id : Text) → valid_job_id id ≡ true → given (some id) ≡ some id
unfolding given
valid-given id v = elim (Bool-cases (text_eq id (codes "*"))) [
  | inl e ↦
      let same = (text_eq_iff id (codes "*")).0 e in
      let bad : valid_job_id (codes "*") ≡ true = ap valid_job_id (sym same) ∙ v in
      ground (arith, bad, star-invalid)
  | inr e ↦ rw (e, given) refl
]

-- The steps of the loop.
load-skip :
    (dir : Dir) (f : Text × Option Job) (rest : Dir)
    → valid_job_id f.0 ≡ false
    → load_entries dir (f ∷ rest) ≡ load_entries dir rest
unfolding load_entries
load-skip dir f rest v = rw (v, load_entries) refl

load-step :
    (dir : Dir) (f : Text × Option Job) (rest : Dir)
    → valid_job_id f.0 ≡ true
    → load_entries dir (f ∷ rest) ≡ push_loaded (load_job_in dir f.0) (load_entries dir rest)
unfolding load_entries
load-step dir f rest v = rw (v, load_entries) refl

load-fail :
    (dir : Dir) (f : Text × Option Job) (rest : Dir)
    → valid_job_id f.0 ≡ true
    → load_job_in dir f.0 ≡ none
    → load_entries dir (f ∷ rest) ≡ none
unfolding push_loaded
load-fail dir f rest v e =
    load-step dir f rest v ∙ ap (λ o. push_loaded o (load_entries dir rest)) e

load-gone :
    (dir : Dir) (f : Text × Option Job) (rest : Dir)
    → valid_job_id f.0 ≡ true
    → load_job_in dir f.0 ≡ some none
    → load_entries dir (f ∷ rest) ≡ load_entries dir rest
unfolding push_loaded
load-gone dir f rest v e =
    load-step dir f rest v ∙ ap (λ o. push_loaded o (load_entries dir rest)) e

load-job :
    (dir : Dir) (f : Text × Option Job) (rest : Dir) (job : Job)
    → valid_job_id f.0 ≡ true
    → load_job_in dir f.0 ≡ some (some job)
    → load_entries dir (f ∷ rest) ≡ (load_entries dir rest >>= λ js. some (job ∷ js))
unfolding push_loaded
load-job dir f rest job v e =
    load-step dir f rest v ∙ ap (λ o. push_loaded o (load_entries dir rest)) e

-- An entry loads for a directory if the whole does.
abbrev Loads : Dir → Dir → Type 0
Loads dir rest = (js : List Job) × (load_entries dir rest ≡ some js)

Loads-tail :
    (dir : Dir) (f : Text × Option Job) (rest : Dir) → Loads dir (f ∷ rest) → Loads dir rest
Loads-tail dir f rest (js, e) = elim (Option-cases (load_entries dir rest)) [
  | inr s ↦ s
  | inl n ↦ elim (Bool-cases (valid_job_id f.0)) [
    | inr v ↦ (js, sym (load-skip dir f rest v) ∙ e)
    | inl v ↦ elim (Option-cases (load_job_in dir f.0)) [
      | inl m ↦ ground (arith, sym (load-fail dir f rest v m) ∙ e)
      | inr (none, m) ↦ (js, sym (load-gone dir f rest v m) ∙ e)
      | inr (some j, m) ↦
          let bad = sym (load-job dir f rest j v m) ∙ e in
          ground (arith, ap (λ o. o >>= λ js. some (j ∷ js)) (sym n) ∙ bad)
    ]
  ]
]

-- The entry itself does not fail, for any directory that loads it alike.
Loads-cons :
    (dir : Dir) (f : Text × Option Job) (rest : Dir)
    → ((valid_job_id f.0 ≡ true) → (o : Option Job) × (load_job_in dir f.0 ≡ some o))
    → Loads dir rest
    → Loads dir (f ∷ rest)
Loads-cons dir f rest ok' (js, e) = elim (Bool-cases (valid_job_id f.0)) [
  | inr v ↦ (js, load-skip dir f rest v ∙ e)
  | inl v ↦
      let (o, m) = ok' v in
      elim (Option-cases o) [
        | inl n ↦ (js, load-gone dir f rest v (m ∙ ap (λ x. some x) n) ∙ e)
        | inr (j, n) ↦ (
          j ∷ js,
          load-job dir f rest j v (m ∙ ap (λ x. some x) n) ∙ ap (λ o. o >>= λ ks. some (j ∷ ks)) e,
        )
      ]
]

Loads-head :
    (dir : Dir) (f : Text × Option Job) (rest : Dir)
    → Loads dir (f ∷ rest)
    → valid_job_id f.0 ≡ true
    → (o : Option Job) × (load_job_in dir f.0 ≡ some o)
Loads-head dir f rest (js, e) v = elim (Option-cases (load_job_in dir f.0)) [
  | inl m ↦ ground (arith, sym (load-fail dir f rest v m) ∙ e)
  | inr s ↦ s
]

-- The entries but the saved one load as before.
Loads-rest :
    (dir : Dir) (job : Job) (rest : Dir)
    → Loads dir rest
    → Loads (save_job_in dir job) (remove_job_in rest job.id)
unfolding remove_job_in
Loads-rest dir job [] l = (unfold load_entries in ([], refl))
Loads-rest dir job (f ∷ rest) l =
    let below = Loads-rest dir job rest (Loads-tail dir f rest l) in
    elim (Bool-cases (text_eq f.0 job.id)) [
      | inl e ↦ rw e below
      | inr e ↦
          let ne : text_eq job.id f.0 ≡ false = text_eq_sym_false f.0 job.id e in
          rw e (
            Loads-cons (save_job_in dir job) f (remove_job_in rest job.id)
              (λ v.
                let (o, m) = Loads-head dir f rest l v in (o, load_saved_other dir job f.0 ne ∙ m))
              below)
    ]

-- A job of a valid id and the current version that was saved in a directory whose files load is
-- among the jobs that a resume of all, and a resume by this id, loads.
pub saved-resumes :
    (dir : Dir) (job : Job) (js : List Job)
    → valid_job_id job.id ≡ true
    → job.version ≡ job_version
    → load_entries dir dir ≡ some js
    → ((ks : List Job) × (load_jobs_in (save_job_in dir job) none ≡ some ks) × Any (IsJob job) ks)
      × ((ks : List Job) × (load_jobs_in (save_job_in dir job) (some job.id) ≡ some ks)
          × Any (IsJob job) ks
          × All (λ k. job_matches job.id k ≡ true) ks)
unfolding load_jobs_in sort_jobs
saved-resumes dir job js v k e =
    let (ks, el) = Loads-rest dir job dir (js, e) in
    let new = save_job_in dir job in
    let found : load_entries new new ≡ some (job ∷ ks) =
      unfold save_job_in in
      (load-job new (job.id, some job) (remove_job_in dir job.id) job v (load_saved dir job v k)
        ∙ ap (λ o. o >>= λ ks. some (job ∷ ks)) el) in
    let all' = sort-Any (IsJob job) (job ∷ ks) (inl refl) in
    let picked =
      filter-Any (IsJob job) (job_matches job.id) (sort_jobs (job ∷ ks)) (job_matches_self job)
        all' in
    (
      (sort_jobs (job ∷ ks), rw (found, load_jobs_in) (unfold given select_jobs in refl), all'),
      (
        filter (job_matches job.id) (sort_jobs (job ∷ ks)),
        rw (found, load_jobs_in)
            (rw (valid-given job.id v) (rw (v, select_jobs) (some_jobs-Any (IsJob job) _ picked))),
        picked,
        filter-All_test (job_matches job.id) (sort_jobs (job ∷ ks)),
      ),
    )
