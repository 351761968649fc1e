-- ===== src/Rollover/Store.antt =====
-- src/rollover.rs: the directory of the pending jobs. It is the list of its `.json` files, each by
-- its stem with what `serde_json` reads from it. A save is one step, since the file is written under
-- another name and then renamed: `save_job_in` and `remove_job_in` are what is in the directory behind
-- a save and a removal that succeed. Whether they do is `can_save` and `can_remove` of the environment
-- of Execute. The directory is there: `state_dir` makes it.
use gentlsa.Prelude.{
  Text, codes, Bool, not, ◌||◌, Option, none, some, List, [], ◌∷◌, ◌++◌, ◌==◌, if◌then◌else◌,
  filter, text_eq, eq_ignore_ascii_case, starts_with, ◌>>=◌,
}
use gentlsa.Dns.Mx.{text_le}
use gentlsa.Rollover.Job.{Job, job_version, valid_job_id}

-- `none` is a file that does not parse.
abbrev pub Dir : Type 0
Dir = List (Text × Option Job)

unfoldable pub file : Dir → Text → Option (Option Job)
file [] id = none
file (f ∷ dir) id = if text_eq f.0 id then some f.1 else file dir id

unfoldable pub remove_job_in : Dir → Text → Dir
remove_job_in dir id = filter (λ f. not (text_eq f.0 id)) dir

unfoldable pub save_job_in : Dir → Job → Dir
unfolding remove_job_in
save_job_in dir job = (job.id, some job) ∷ remove_job_in dir job.id

-- What `load_job_in` makes of a file: outer `none` where it fails.
unfoldable pub read_job : Option (Option Job) → Option (Option Job)
read_job none = some none
read_job (some none) = none
read_job (some (some job)) = if job.version == job_version then some (some job) else none

unfoldable pub load_job_in : Dir → Text → Option (Option Job)
unfolding valid_job_id file read_job
load_job_in dir id = if valid_job_id id then read_job (file dir id) else none

-- `if let Some(job) = load_job_in(dir, stem)? { jobs.push(job); }`, with the other jobs.
unfoldable pub push_loaded : Option (Option Job) → Option (List Job) → Option (List Job)
push_loaded none jobs = none
push_loaded (some none) jobs = jobs
push_loaded (some (some job)) jobs = jobs >>= λ js. some (job ∷ js)

-- The loop over the entries.
unfoldable pub load_entries : Dir → Dir → Option (List Job)
unfolding load_job_in valid_job_id push_loaded
load_entries dir [] = some []
load_entries dir (f ∷ rest) =
    let jobs = load_entries dir rest in
    if valid_job_id f.0 then push_loaded (load_job_in dir f.0) jobs else jobs

-- `sort_by` on the ids.
unfoldable pub insert_job : Job → List Job → List Job
unfolding text_le
insert_job x [] = x ∷ []
insert_job x (y ∷ ys) = if text_le x.id y.id then x ∷ y ∷ ys else y ∷ insert_job x ys

unfoldable pub sort_jobs : List Job → List Job
unfolding insert_job
sort_jobs [] = []
sort_jobs (x ∷ xs) = insert_job x (sort_jobs xs)

unfoldable pub job_matches : Text → Job → Bool
unfolding starts_with
job_matches wanted job =
    text_eq job.id wanted
    || (eq_ignore_ascii_case job.zone wanted || starts_with (wanted ++ codes "_") job.id)

-- A filter of `*` is none.
unfoldable pub given : Option Text → Option Text
given none = none
given (some wanted) = if text_eq wanted (codes "*") then none else some wanted

-- `bail!` where no job matches.
unfoldable pub some_jobs : List Job → Option (List Job)
some_jobs [] = none
some_jobs (job ∷ jobs) = some (job ∷ jobs)

unfoldable pub select_jobs : List Job → Option Text → Option (List Job)
unfolding valid_job_id job_matches some_jobs
select_jobs jobs none = some jobs
select_jobs jobs (some wanted) =
    if valid_job_id wanted then some_jobs (filter (job_matches wanted) jobs) else none

unfoldable pub load_jobs_in : Dir → Option Text → Option (List Job)
unfolding load_entries sort_jobs given select_jobs
load_jobs_in dir wanted =
    load_entries dir dir >>= λ jobs. select_jobs (sort_jobs jobs) (given wanted)
