-- ===== src/Rollover/Lock.antt =====
-- src/rollover.rs: the lock of a job, a directory that holds the pid of its owner.
use gentlsa.Prelude.{
  ℕ, zero, suc, Text, Bool, true, false, not, Option, none, some, ◌==◌, if◌then◌else◌, trim,
}
use gentlsa.Prelude.Decimal.{parse_uint, to_string}
use gentlsa.Rollover.{u32_max}
use gentlsa.Rollover.Job.{valid_job_id}

-- The lock directory, with the text of its `pid` file if that can be read.
abbrev pub LockDir : Type 0
LockDir = Option (Option Text)

-- The system: which pids are running, the pid of this process, and whether the directory of the jobs
-- can be made, a stale lock removed, a lock made where there is none, and its `pid` file written.
pub record System : Type 0 where
  pub running : ℕ → Bool
  pub pid : ℕ
  pub makes_dir : Bool
  pub removes : Bool
  pub creates : Bool
  pub writes : Bool

pub data Acquired : Type 0 where
  locked busy invalid failed : Acquired

unfoldable pub pid_is_running : System → ℕ → Bool
pid_is_running sys pid = if pid == 0 then false else sys.running pid

unfoldable pub pid_is_stale : System → Option ℕ → Bool
unfolding pid_is_running
pid_is_stale sys none = true
pid_is_stale sys (some pid) = not (pid_is_running sys pid)

unfoldable pub lock_is_stale : System → Option Text → Bool
unfolding pid_is_stale
lock_is_stale sys none = true
lock_is_stale sys (some data') = pid_is_stale sys (parse_uint u32_max (trim data'))

-- The two steps of making a lock. Between them, and where the second fails, the directory holds no
-- pid: another process then sees `some none`.
unfoldable pub write_pid : System → Acquired × LockDir
write_pid sys =
    if sys.writes then (locked, some (some (to_string sys.pid))) else (failed, some none)

unfoldable pub create_lock : System → Acquired × LockDir
unfolding write_pid
create_lock sys = if sys.creates then write_pid sys else (failed, none)

-- The loop of at most `attempts` rounds, and the directory behind it.
unfoldable pub try_lock : System → ℕ → LockDir → Acquired × LockDir
unfolding lock_is_stale create_lock
try_lock sys zero lock = (busy, lock)
try_lock sys (suc attempts) none = create_lock sys
try_lock sys (suc attempts) (some owner) = elim (lock_is_stale sys owner) [
  | true ↦ try_lock sys attempts (if sys.removes then none else some owner)
  | false ↦ (busy, some owner)
]

unfoldable pub acquire_in : System → Text → LockDir → Acquired × LockDir
unfolding valid_job_id try_lock
acquire_in sys id lock =
    if valid_job_id id
    then if sys.makes_dir then try_lock sys 3 lock else (failed, lock)
    else (invalid, lock)

-- `Drop` of the guard.
unfoldable pub release : Acquired → LockDir → LockDir
release locked lock = none
release _ lock = lock
