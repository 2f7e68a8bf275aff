-- ===== src/Schedule/Turns.antt =====
-- Which threads hold a turn of the scheduler: crates/oracle-core/src/schedule.rs.
use wa_wasm_oracle.Prelude.{ℕ, ◌≡◌, refl, true, some, arith, ◌==◌, ==_iff, if◌then◌else◌}
use wa_wasm_oracle.Schedule.{
  Scheduler, idle_scheduler, enable, demand_strict, begin_acquire, poll_turn, release,
}

-- Where a guest thread is: without a turn, inside `acquire` with its deadline, or between the return
-- of `acquire` and its next `release`. A thread without a turn may be in guest code too: a module's
-- start function, `_emscripten_thread_exit` and `call_func` run without one.
pub data Phase : Type 0 where
  without_turn : Phase
  acquiring : ℕ → Phase
  with_turn : Phase

pub record World : Type 0 where
  pub scheduler : Scheduler
  pub phase : ℕ → Phase

abbrev pub move : ℕ → Phase → (ℕ → Phase) → ℕ → Phase
move thread p phases t = if t == thread then p else phases t

abbrev pub IsWaiting : Phase → Type 0
IsWaiting p = (deadline : ℕ) × (p ≡ acquiring deadline)

-- One thread does one step; any thread may be the next, at any time. A thread outside `acquire` may
-- ask for a turn or give one up, whether it has one or not, as the host calls of guest code without a
-- turn do. A yield is a `leaves` and then an `enters`: other threads can come between the two.
pub data Step : World → World → Type 0 where
  enters :
      (w : World) (t now deadline : ℕ) (s : Scheduler)
      → ¬ IsWaiting (w.phase t)
      → begin_acquire now w.scheduler ≡ some (deadline, s)
      → Step w (record { scheduler = s; phase = move t (acquiring deadline) w.phase })
  takes :
      (w : World) (t now deadline : ℕ) (s : Scheduler)
      → w.phase t ≡ acquiring deadline
      → poll_turn t deadline now w.scheduler ≡ some s
      → Step w (record { scheduler = s; phase = move t with_turn w.phase })
  leaves :
      (w : World) (t : ℕ)
      → ¬ IsWaiting (w.phase t)
      → Step w (record { scheduler = release t w.scheduler; phase = move t without_turn w.phase })
  demands : (w : World) → Step w (record { scheduler = demand_strict w.scheduler; phase = w.phase })

pub data Steps : World → World → Type 0 where
  done : (w : World) → Steps w w
  step : (w w' w'' : World) → Step w w' → Steps w' w'' → Steps w w''

abbrev pub start : World
start = record { scheduler = enable idle_scheduler; phase = λ t. without_turn }

-- While no turn was forced, a thread with a turn is the holder.
abbrev pub IsExclusive : World → Type 0
IsExclusive w =
    (w.scheduler.enabled ≡ true)
    × (w.scheduler.forced ≡ 0 → (t : ℕ) → w.phase t ≡ with_turn → w.scheduler.holder ≡ some t)

Step-IsExclusive : (w w' : World) → Step w w' → IsExclusive w → IsExclusive w'
unfolding begin_acquire poll_turn release demand_strict
Step-IsExclusive _ _ (enters w t now d s out begun) (on, one) =
    (ground (arith, on, begun), λ nf u at. ground (arith, one _ u, at, on, begun, nf))
Step-IsExclusive _ _ (takes w t now d s at got) (on, one) =
    (ground (arith, on, got), λ nf u at'. ground (arith, one _ u, got, nf, at', ==_iff u t))
Step-IsExclusive _ _ (leaves w t out) (on, one) =
    (ground (arith, on), λ nf u at'. ground (arith, one _ u, nf, at', ==_iff u t))
Step-IsExclusive _ _ (demands w) (on, one) = (on, one)

start-IsExclusive : IsExclusive start
unfolding enable
start-IsExclusive = (refl, λ nf t at. ground (arith, at))

Steps-IsExclusive : (w w' : World) → Steps w w' → IsExclusive w → IsExclusive w'
Steps-IsExclusive _ _ (done w) v = v
Steps-IsExclusive _ _ (step w m w' s ss) v = Steps-IsExclusive m w' ss (Step-IsExclusive w m s v)

-- Unless a turn was forced, at most one guest thread is between the return of `acquire` and its next
-- `release` at any time, whatever the order in which threads ask for the turn, wait, get it, yield
-- and give it up, with a turn or without, and whenever strict turns are demanded. Guest code that
-- runs without a turn is not counted.
pub one_runner :
    (w : World) (t u : ℕ)
    → Steps start w
    → w.scheduler.forced ≡ 0
    → w.phase t ≡ with_turn
    → w.phase u ≡ with_turn
    → t ≡ u
one_runner w t u steps none_forced at au =
    let (on, one) = Steps-IsExclusive start w steps start-IsExclusive in
    ground (arith, one none_forced t at, one none_forced u au)
