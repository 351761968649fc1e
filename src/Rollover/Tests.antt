-- ===== src/Rollover/Tests.antt =====
-- A job, its file and its lock.
use gentlsa.Prelude.{
  ℕ, ◌+◌, ◌*◌, ◌≤◌, Text, codes, List, [], ◌∷◌, ◌≡◌, ◌≢◌, ◌⊎◌, refl, Bool, true, false, not, ◌&&◌,
  ltb, Option, some, none, All, Any, arith, contains,
}
use gentlsa.Prelude.Decimal.{to_string}
use gentlsa.Publish.Kind.{cloudflare}
use gentlsa.Publish.Names.{byte_len}
use gentlsa.Rollover.Job.{Job, new_job, job_id, valid_job_id, mark_published, mark_reloaded}
use gentlsa.Rollover.JobLaws.{InRange, valid-job_id, deadlines}
use gentlsa.Rollover.Store.{save_job_in, load_jobs_in, job_matches, load_entries}
use gentlsa.Rollover.Resume.{IsJob, saved-resumes}
use gentlsa.Rollover.Lock.{System}

abbrev job : Job
job =
    record (new_job (codes "c.pem") (codes "b.c.") (443 ∷ 25 ∷ []) (some (codes "www")) cloudflare
      (some (codes "r")) 300 (codes "aa") none) { id = codes "www.b.c_443-25" }

id_of_job : job_id (codes "b.c.") (some (codes "www")) (443 ∷ 25 ∷ []) ≡ codes "www.b.c_443-25"
unfolding job_id gentlsa.Prelude.trim_end_by to_string
id_of_job = refl

valid-job_id_example : valid_job_id (job_id (codes "b..c") none (443 ∷ [])) ≡ (
    ltb (byte_len (job_id (codes "b..c") none (443 ∷ []))) 200
    && not (contains (codes "..") (job_id (codes "b..c") none (443 ∷ []))))
valid-job_id_example = valid-job_id (codes "b..c") none (443 ∷ [])

in_range : (n : ℕ) → n ≤ 2000000000 → InRange n 300
in_range n h = (omega arith, omega (arith, h))

deadlines_example :
    ((mark_published job 1000).reload_after ≡ some (1000 + 2 * 300))
    × ((d : ℕ) × ((mark_reloaded (mark_published job 1000) 1700).prune_after ≡ some d)
        × (1700 + 2 * 300 ≤ d)
        × (1000 + 4 * 300 ≤ d))
unfolding new_job
deadlines_example =
    deadlines job 1000 1700 (in_range 1000 (omega arith)) (in_range 1700 (omega arith))

valid : valid_job_id job.id ≡ true
unfolding valid_job_id
valid = refl

saved-resumes_example :
    ((ks : List Job) × (load_jobs_in (save_job_in [] job) none ≡ some ks) × Any (IsJob job) ks)
    × ((ks : List Job) × (load_jobs_in (save_job_in [] job) (some job.id) ≡ some ks)
        × Any (IsJob job) ks
        × All (λ k. job_matches job.id k ≡ true) ks)
unfolding new_job load_entries
saved-resumes_example = saved-resumes [] job [] valid refl refl

-- The owner of the lock does not run.
abbrev sys : System
sys = record {
  running = λ pid. false;
  pid = 7;
  makes_dir = true;
  removes = true;
  creates = true;
  writes = true;
}
