-- ===== src/Timeout.antt =====
-- src/timeout.rs: the time budget of a network operation. Durations and instants are in nanoseconds,
-- the clock is an argument, and the state that the source keeps under a lock is passed along.
pub mod Budget
pub mod Tests
use gentlsa.Prelude.{ℕ, ◌*◌, ◌-◌, ltb, if◌then◌else◌, Option, none, some}

pub record State : Type 0 where
  pub start : ℕ
  pub limit : ℕ

-- `Duration::from_secs`.
unfoldable pub from_secs : ℕ → ℕ
from_secs secs = secs * 1000000000

abbrev pub default_secs : ℕ
default_secs = 30

unfoldable pub init : ℕ → ℕ → Option State
init now secs = some (record { start = now; limit = from_secs secs })

unfoldable pub restart : ℕ → Option State → Option State
restart now none = none
restart now (some state) = some (record state { start = now })

unfoldable pub limit_of : Option State → ℕ
limit_of none = from_secs default_secs
limit_of (some state) = state.limit

-- `checked_sub`, and no time left is none.
unfoldable pub leftover : ℕ → ℕ → Option ℕ
leftover limit elapsed = if ltb elapsed limit then some (limit - elapsed) else none

-- `none` where the source fails with a time-out. `elapsed` is 0 where the clock goes back.
unfoldable pub remaining : ℕ → Option State → Option ℕ
unfolding leftover
remaining now none = some (from_secs default_secs)
remaining now (some state) = leftover state.limit (now - state.start)
