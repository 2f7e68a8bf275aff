-- ===== src/Emscripten/Random.antt =====
-- The two imports that hand out random bytes.
use wa_wasm_oracle.Prelude.{ℕ, ◌≡◌, ◌<◌, ◌^◌, refl, ap, sym, subst, arith, List, [], ◌∷◌}
use wa_wasm_oracle.Prelude.Int.{pos}
use wa_wasm_oracle.Prelude.Result.{Result, ok, err}
use wa_wasm_oracle.Exports.{Instance, sync_memory}
use wa_wasm_oracle.Emscripten.{env, fill_random, getentropy, get_random_bytes_js}
use wa_wasm_oracle.Prelude.Text.{codes}
use wa_wasm_oracle.Memory.{MemError, read}
use wa_wasm_oracle.Memory.Laws.{read-write_same}
use wa_wasm_oracle.Random.{random_bytes}
use wa_wasm_oracle.Random.Laws.{random_bytes_lem}
use wa_wasm_oracle.State.{HostState, write_memory, take_random, record_call}
use wa_wasm_oracle.State.Laws.{write_memory-success}

sync_memory-rng : (instance_ : Instance) (h : HostState) → (sync_memory instance_ h).rng ≡ h.rng
unfolding sync_memory
sync_memory-rng instance_ h = ground arith

-- What `fill_random` leaves: the generator behind the bytes it drew, and the bytes, if it succeeds.
abbrev Filled : ℕ → ℕ → ℕ → HostState × Result MemError (Unit {0}) → Type 0
Filled buf len rng (h, r) =
    r ≡ ok tt
    → (read h.guest buf len ≡ ok (random_bytes len rng).1) × (h.rng ≡ (random_bytes len rng).0)

fill_random-Filled :
    (buf len : ℕ) (h : HostState) → h.rng < 2 ^ 64 → Filled buf len h.rng (fill_random buf len h)
unfolding fill_random
fill_random-Filled buf len h small = from (write_memory buf drawn.1 drawn.0) refl
  where
    drawn : HostState × List ℕ
    drawn = take_random len (record_call env (codes "fill_random") (pos buf ∷ pos len ∷ []) h)

    from :
        (r : Result MemError HostState)
        → write_memory buf drawn.1 drawn.0 ≡ r
        → Filled buf len h.rng (elim r [ ok w ↦ (w, ok tt) | err e ↦ (drawn.0, err e) ])
    from (err e) is g = cc
    from (ok w) is g =
        let (kept, written) = write_memory-success buf drawn.1 drawn.0 w is in
        let (count, all, moved) = random_bytes_lem len h.rng small in
        let back = read-write_same drawn.0.guest w.guest buf drawn.1 written in
        (
          subst (λ (n : ℕ). read w.guest buf n ≡ ok (random_bytes len h.rng).1) count back,
          ap (λ (x : HostState). x.rng) kept,
        )

module _ (instance_ : Instance) where
  -- `get_random_bytes_js` takes the length first and the buffer second, and with these swapped it
  -- has the very effect that `getentropy` has on the state. Where `getentropy` answers 0, the
  -- buffer holds exactly the next bytes of the thread's generator, which has moved on behind them.
  pub getentropy-fills :
      (buf len : ℕ) (h : HostState)
      → h.rng < 2 ^ 64
      → (get_random_bytes_js instance_ len buf h ≡ (getentropy instance_ buf len h).0)
        × ((getentropy instance_ buf len h).1 ≡ pos 0
            → (read (getentropy instance_ buf len h).0.guest buf len
                ≡ ok (random_bytes len h.rng).1)
              × ((getentropy instance_ buf len h).0.rng ≡ (random_bytes len h.rng).0))
  unfolding getentropy get_random_bytes_js
  getentropy-fills buf len h small = (refl, filled)
    where
      synced : HostState
      synced = sync_memory instance_ h

      same : synced.rng ≡ h.rng
      same = sync_memory-rng instance_ h

      success :
          (r : Result MemError (Unit {0}))
          → elim r [ ok u ↦ pos 0 | err e ↦ pos 28 ] ≡ pos 0
          → r ≡ ok tt
      success (ok tt) e = refl
      success (err x) e = absurd (ground arith)

      filled :
          elim (fill_random buf len synced).1 [ ok u ↦ pos 0 | err e ↦ pos 28 ] ≡ pos 0
          → (read (fill_random buf len synced).0.guest buf len ≡ ok (random_bytes len h.rng).1)
            × ((fill_random buf len synced).0.rng ≡ (random_bytes len h.rng).0)
      filled e =
          subst (λ (n : ℕ). Filled buf len n (fill_random buf len synced)) same
            (fill_random-Filled buf len synced (subst (λ (n : ℕ). n < 2 ^ 64) (sym same) small))
            (success (fill_random buf len synced).1 e)
