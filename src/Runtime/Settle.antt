-- ===== src/Runtime/Settle.antt =====
-- `Runtime::quiesce` and `Runtime::settle` of crates/oracle-core/src/runtime.rs, the loop that drains
-- the main thread's queue until the threads are idle, and `wait_until_idle` of shared.rs. Times are in
-- nanoseconds. What the other threads do while the host waits, and how long the guest's part of a
-- drain takes, are parameters.
pub mod Laws
use wa_wasm_oracle.Prelude.{
  ℕ, zero, suc, ◌+◌, ◌-◌, ◌/◌, Bool, true, false, ◌&&◌, List, [], ◌∷◌, Option, none, some, ◌==◌,
  ltb, leb, min, if◌then◌else◌,
}
use wa_wasm_oracle.Exports.{Instance}
use wa_wasm_oracle.Runtime.{process_queued_calls}
use wa_wasm_oracle.State.{HostState}
use wa_wasm_oracle.Turn.{Waits}

abbrev pub tick : ℕ
tick = 20000000

-- The host's clock, and the state of its main thread.
pub record World : Type 0 where
  pub time : ℕ
  pub host : HostState

abbrev pub live_threads : World → ℕ
live_threads w = w.host.shared.live

-- The loop of `wait_until_idle`: each wake of its condition variable is how long it took and what the
-- others did till then. Behind the last, nobody wakes the host before its time is over.
unfoldable pub wait_until_idle : ℕ → List (ℕ × (HostState → HostState)) → World → World × Bool
wait_until_idle deadline [] w =
    if live_threads w == 0
    then (w, true)
    else if deadline - w.time == 0
    then (w, false)
    else (record w { time = deadline }, false)
wait_until_idle deadline ((elapsed, others) ∷ wakes) w =
    let remaining = deadline - w.time in
    let woken : World = record { time = w.time + elapsed; host = others w.host } in
    let later = wait_until_idle deadline wakes woken in
    if live_threads w == 0
    then (w, true)
    else if remaining == 0
    then (w, false)
    else if leb remaining elapsed && ltb 0 (live_threads woken)
    then (woken, false)
    else later

module _ (instance_ : Instance) (waits : Waits) (cost : HostState → ℕ)
    (wakes : World → List (ℕ × (HostState → HostState))) where
  unfoldable pub drain : World → World
  unfolding process_queued_calls
  drain w = record {
    time = w.time + cost w.host;
    host = (process_queued_calls instance_ waits w.host).0;
  }

  unfoldable pub quiesce : ℕ → World → World × Bool
  unfolding wait_until_idle
  quiesce timeout w = wait_until_idle (w.time + timeout) (wakes w) w

  unfoldable pub settle_loop : ℕ → ℕ → World → Option (World × Bool)
  unfolding drain quiesce
  settle_loop zero deadline w = none
  settle_loop (suc fuel) deadline w =
      let drained = drain w in
      let remaining = deadline - drained.time in
      let waited = quiesce (min tick remaining) drained in
      elim (remaining == 0) [
        | true ↦ some (drained, false)
        | false ↦ elim (waited.1) [
          | true ↦ some (drain waited.0, true)
          | false ↦ settle_loop fuel deadline waited.0
        ]
      ]

  unfoldable pub settle : ℕ → World → Option (World × Bool)
  unfolding settle_loop
  settle timeout w = settle_loop (timeout / tick + 2) (w.time + timeout) w
