-- ===== src/Runtime/Settle/Laws.antt =====
-- The loop of `settle` ends, and what its answers mean.
use wa_wasm_oracle.Prelude.{
  ℕ, zero, suc, ◌+◌, ◌-◌, ◌*◌, ◌/◌, ◌≡◌, ◌≤◌, ◌<◌, refl, sym, subst, arith, Bool, true, false, List,
  [], ◌∷◌, Option, some, ◌==◌, min,
}
use wa_wasm_oracle.Exports.{Instance}
use wa_wasm_oracle.Runtime.Settle.{
  World, live_threads, tick, wait_until_idle, drain, quiesce, settle_loop, settle,
}
use wa_wasm_oracle.State.{HostState}
use wa_wasm_oracle.Turn.{Waits}

-- A wait answers whether all threads have ended, and only at its deadline that they have not.
abbrev pub Waited : ℕ → World × Bool → Type 0
Waited deadline (w, true) = live_threads w ≡ 0
Waited deadline (w, false) = deadline ≤ w.time

wait_until_idle-Waited :
    (deadline : ℕ) (wakes : List (ℕ × (HostState → HostState))) (w : World)
    → Waited deadline (wait_until_idle deadline wakes w)
unfolding wait_until_idle
wait_until_idle-Waited deadline [] w = ground arith
wait_until_idle-Waited deadline ((elapsed, others) ∷ wakes) w = ground (
  arith,
  wait_until_idle-Waited deadline wakes (record { time = w.time + elapsed; host = others w.host }),
)

module _ (instance_ : Instance) (waits : Waits) (cost : HostState → ℕ)
    (wakes : World → List (ℕ × (HostState → HostState))) where
  abbrev drained_from : World → World
  drained_from = drain instance_ waits cost wakes

  abbrev waited_for : ℕ → World → World × Bool
  waited_for = quiesce instance_ waits cost wakes

  abbrev looped : ℕ → ℕ → World → Option (World × Bool)
  looped = settle_loop instance_ waits cost wakes

  -- An answer of true comes right behind a last drain that found no thread alive; an answer of false
  -- comes behind a drain too, at the deadline.
  abbrev pub Settled : ℕ → World → Bool → Type 0
  Settled deadline w true =
      (idle : World) × (live_threads idle ≡ 0) × (w ≡ drain instance_ waits cost wakes idle)
  Settled deadline w false =
      (before : World) × (w ≡ drain instance_ waits cost wakes before) × (deadline ≤ w.time)

  abbrev pub Ends : ℕ → Option (World × Bool) → Type 0
  Ends deadline o = (w : World) × (r : Bool) × (o ≡ some (w, r)) × Settled deadline w r

  drain_forward : (w : World) → w.time ≤ (drained_from w).time
  unfolding drain
  drain_forward w = omega arith

  quiesce-Waited : (timeout : ℕ) (w : World) → Waited (w.time + timeout) (waited_for timeout w)
  unfolding quiesce
  quiesce-Waited timeout w = wait_until_idle-Waited (w.time + timeout) (wakes w) w

  -- One round: it ends the loop, or the time that is left has become a tick shorter.
  settle_round :
      (fuel deadline : ℕ) (w : World)
      → deadline - w.time ≤ fuel * tick
      → ((v : World)
          → 1 ≤ fuel
          → deadline - v.time ≤ (fuel - 1) * tick
          → Ends deadline (looped fuel deadline v))
      → Ends deadline (looped (suc fuel) deadline w)
  unfolding settle_loop
  settle_round fuel deadline w enough more =
      on (remaining == 0) (λ b. ground arith) (λ b. ground arith)
    where
      drained : World
      drained = drained_from w

      remaining : ℕ
      remaining = deadline - drained.time

      waited : World × Bool
      waited = waited_for (min tick remaining) drained

      waits_on :
          0 < remaining
          → (y : Bool) → Waited (drained.time + min tick remaining) (waited.0, y)
          → Ends deadline (elim y [
            | true ↦ some (drained_from waited.0, true)
            | false ↦ looped fuel deadline waited.0
          ])
      waits_on left true idle = (drained_from waited.0, true, refl, (waited.0, idle, refl))
      waits_on left false late =
          let f = drain_forward w in more waited.0 (omega arith) (omega arith)

      on :
          (x : Bool)
          → (x ≡ true → remaining ≡ 0)
          → (x ≡ false → 0 < remaining)
          → Ends deadline (elim x [
            | true ↦ some (drained, false)
            | false ↦ elim (waited.1) [
              | true ↦ some (drained_from waited.0, true)
              | false ↦ looped fuel deadline waited.0
            ]
          ])
      on true none_left left =
          let h = none_left refl in (drained, false, refl, (w, refl, omega arith))
      on false none_left left =
          waits_on (left refl) waited.1 (quiesce-Waited (min tick remaining) drained)

  settle_loop-Ends :
      (fuel deadline : ℕ) (w : World)
      → deadline - w.time ≤ fuel * tick
      → Ends deadline (looped (suc fuel) deadline w)
  settle_loop-Ends zero deadline w enough =
      settle_round zero deadline w enough (λ v some_fuel few. absurd (omega arith))
  settle_loop-Ends (suc n) deadline w enough =
      settle_round (suc n) deadline w enough
        (λ v some_fuel few. settle_loop-Ends n deadline v (omega arith))

  -- `settle` ends, within as many rounds as its time has ticks and two more, whatever the other
  -- threads do while it waits and however long the guest's calls take. Where it answers true, the
  -- queue was drained once more from a state in which no spawned thread was alive; where it answers
  -- false, the queue was drained last and the deadline has come.
  pub settle-Ends :
      (timeout : ℕ) (w : World)
      → Ends (w.time + timeout) (settle instance_ waits cost wakes timeout w)
  unfolding settle
  settle-Ends timeout w =
      let e : timeout / tick + 2 ≡ suc (timeout / tick + 1) = omega arith in
      subst (λ (n : ℕ). Ends (w.time + timeout) (looped n (w.time + timeout) w)) (sym e)
        (settle_loop-Ends (timeout / tick + 1) (w.time + timeout) w (omega arith))
