-- ===== src/Schedule/Tests.antt =====
-- A run of two threads under the scheduler.
use wa_wasm_oracle.Prelude.{ℕ, ◌≡◌, refl, some, none, true, false}
use wa_wasm_oracle.Schedule.{Scheduler, begin_acquire, enable, poll_turn, take_turn, turn_timeout}
use wa_wasm_oracle.Schedule.Turns.{
  IsWaiting, Steps, World, acquiring, done, enters, move, one_runner, start, step, takes, with_turn,
  without_turn,
}

abbrev first : ℕ
first = 1

-- Thread 1 has the turn, and thread 2 waits for it.
abbrev one_waits : Scheduler
one_waits = record { holder = none; waiting = 1; forced = 0; enabled = true; strict = false }

abbrev entered_once : World
entered_once = record { scheduler = one_waits; phase = move 1 (acquiring 5000) start.phase }

abbrev granted : World
granted = record { scheduler = take_turn 1 one_waits; phase = move 1 with_turn entered_once.phase }

abbrev contended : World
contended = record {
  scheduler = record { holder = some 1; waiting = 1; forced = 0; enabled = true; strict = false };
  phase = move 2 (acquiring 5007) granted.phase;
}

has_not_asked : ¬ IsWaiting without_turn
has_not_asked (d, e) = cc

start-contended : Steps start contended
unfolding begin_acquire poll_turn enable turn_timeout
start-contended =
    step start entered_once contended (enters start 1 0 5000 one_waits has_not_asked refl) (
      step entered_once granted contended (takes entered_once 1 3 5000 granted.scheduler refl refl)
        (step granted contended contended
          (enters granted 2 7 5007 contended.scheduler has_not_asked refl) (done contended)))

one_runner_example : first ≡ first
one_runner_example = one_runner contended first first start-contended refl refl refl
