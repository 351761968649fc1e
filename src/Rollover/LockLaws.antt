-- ===== src/Rollover/LockLaws.antt =====
-- src/rollover.rs: lemmas on `acquire_in`.
use gentlsa.Prelude.{◌≡◌, ◌≢◌, Text, true, none, some}
use gentlsa.Rollover.Job.{valid_job_id}
use gentlsa.Rollover.Lock.{LockDir, System, Acquired, locked, lock_is_stale}

-- The lock is there to be taken: no one has it, or it is stale and can be removed.
abbrev pub IsFree : System → LockDir → Type 0
IsFree sys none = Unit
IsFree sys (some owner) = (lock_is_stale sys owner ≡ true) × (sys.removes ≡ true)

-- What `acquire` goes by: a valid id and a directory.
abbrev pub CanTry : System → Text → Type 0
CanTry sys id = (valid_job_id id ≡ true) × (sys.makes_dir ≡ true)

-- The two answers without a lock that is made.
abbrev IsLeft : Acquired × LockDir → LockDir → Type 0
IsLeft r lock = (r.0 ≢ locked) × (r.1 ≡ lock)
