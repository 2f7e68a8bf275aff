-- ===== src/Schedule.antt =====
-- Host-driven scheduling of guest threads: crates/oracle-core/src/schedule.rs.
-- What runs under the scheduler's lock is one function here: `acquire` is an entry, passes of its
-- loop (each under the lock, the time of the clock as an argument), and the end of the wait.
mod Tests
pub mod Turns
use wa_wasm_oracle.Prelude.{
  ℕ, suc, ◌+◌, ◌-◌, Bool, true, false, ◌||◌, ◌&&◌, not, Option, none, some, ◌==◌, if◌then◌else◌,
}

pub record Scheduler : Type 0 where
  pub holder : Option ℕ
  pub waiting : ℕ
  pub forced : ℕ
  pub enabled : Bool
  pub strict : Bool

abbrev pub idle_scheduler : Scheduler
idle_scheduler = record { holder = none; waiting = 0; forced = 0; enabled = false; strict = false }

unfoldable pub enable : Scheduler → Scheduler
enable s = record s { enabled = true }

unfoldable pub demand_strict : Scheduler → Scheduler
demand_strict s = record s { strict = true }

-- `TURN_TIMEOUT` and `STRICT_TIMEOUT`, in milliseconds.
unfoldable pub turn_timeout : Scheduler → ℕ
turn_timeout s = if s.strict then 25 else 5000

-- `acquire` up to its loop, at a time: `none` where it returns at once, since scheduling is off, and
-- otherwise its deadline.
unfoldable pub begin_acquire : ℕ → Scheduler → Option (ℕ × Scheduler)
unfolding turn_timeout
begin_acquire now s =
    if s.enabled then some (now + turn_timeout s, record s { waiting = s.waiting + 1 }) else none

abbrev pub take_turn : ℕ → Scheduler → Scheduler
take_turn thread s = record s { holder = some thread; waiting = s.waiting - 1 }

-- One pass of the loop of `acquire` at a time; `none` where the thread waits on.
unfoldable pub poll_turn : ℕ → ℕ → ℕ → Scheduler → Option Scheduler
poll_turn thread deadline now s = elim (s.holder) [
  | none ↦ some (take_turn thread s)
  | some holder ↦
      if holder == thread
      then some (take_turn thread s)
      else if deadline - now == 0
      then some (take_turn thread (record s { forced = s.forced + 1 }))
      else none
]

abbrev pub held_by : ℕ → Option ℕ → Bool
held_by thread none = false
held_by thread (some holder) = holder == thread

unfoldable pub release : ℕ → Scheduler → Scheduler
release thread s = if s.enabled && held_by thread s.holder then record s { holder = none } else s

-- Whether a host call hands the turn on: `yield_point` returns at once where this is false, and
-- releases and acquires the turn where it is true.
unfoldable pub yields : Scheduler → Bool
yields s = not (not s.enabled || s.waiting == 0)
