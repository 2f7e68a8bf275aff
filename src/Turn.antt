-- ===== src/Turn.antt =====
-- Taking and handing on the turn in the middle of a thread's work: `acquire`, `release` and
-- `yield_point` of crates/oracle-core/src/schedule.rs on the state that the threads share. What the
-- other threads do while one waits, and the clock, are parameters.
pub mod Laws
mod Tests
use wa_wasm_oracle.Prelude.{ℕ, Bool, true, false, List, [], ◌∷◌, Option, none, some, if◌then◌else◌}
use wa_wasm_oracle.Schedule as Schedule
use wa_wasm_oracle.Schedule.{Scheduler, begin_acquire, poll_turn, yields}
use wa_wasm_oracle.State.{HostState}

-- `clock` is the time, in milliseconds, when a thread asks for a turn. `looks` are the passes of its
-- loop before the deadline: the time of each, and what the others do from there to the next pass. The
-- wait is timed, so a thread that none of them gave the turn looks at its deadline. `meanwhile` is what
-- the others do where a thread that yields has given its turn up and not yet asked for the next.
pub record Waits : Type 0 where
  pub clock : HostState → ℕ
  pub looks : HostState → List (ℕ × (HostState → HostState))
  pub meanwhile : HostState → HostState

abbrev pub with_scheduler : Scheduler → HostState → HostState
with_scheduler s h = record h { shared = record h.shared { scheduler = s } }

abbrev pub if_granted : Option Scheduler → HostState → HostState
if_granted (some s) h = with_scheduler s h
if_granted none h = h

unfoldable pub wait_turn : ℕ → ℕ → List (ℕ × (HostState → HostState)) → HostState → HostState
unfolding poll_turn
wait_turn thread deadline [] h =
    if_granted (poll_turn thread deadline deadline h.shared.scheduler) h
wait_turn thread deadline ((now, others) ∷ looks) h =
    elim (poll_turn thread deadline now h.shared.scheduler) [
      | some s ↦ with_scheduler s h
      | none ↦ wait_turn thread deadline looks (others h)
    ]

unfoldable pub acquire : Waits → ℕ → HostState → HostState
unfolding begin_acquire wait_turn
acquire w thread h = elim (begin_acquire (w.clock h) h.shared.scheduler) [
  | none ↦ h
  | some (deadline, s) ↦ let g = with_scheduler s h in wait_turn thread deadline (w.looks g) g
]

unfoldable pub release : ℕ → HostState → HostState
unfolding Schedule.release
release thread h = with_scheduler (Schedule.release thread h.shared.scheduler) h

unfoldable pub yield_point : Waits → ℕ → HostState → HostState
unfolding acquire release yields
yield_point w thread h =
    if yields h.shared.scheduler then acquire w thread (w.meanwhile (release thread h)) else h
