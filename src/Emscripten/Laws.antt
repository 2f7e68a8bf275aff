-- ===== src/Emscripten/Laws.antt =====
-- Growing the heap.
use wa_wasm_oracle.Prelude.{ℕ, ◌+◌, ◌*◌, ◌≡◌, ◌≤◌, ◌<◌, ◌⊎◌, List, some}
use wa_wasm_oracle.Prelude.Int.{ℤ, pos}
use wa_wasm_oracle.Prelude.Result.{Result, ok, err}
use wa_wasm_oracle.Emscripten.Heap.{page}
use wa_wasm_oracle.Memory.{Mem}
use wa_wasm_oracle.State.{HostState}

module _ (grow : ℕ → Mem → Result (List ℕ) Mem)
    (grown : (delta : ℕ) (m m' : Mem)
      → grow delta m ≡ ok m'
      → m'.size ≡ m.size + delta * page) where
  -- What an answer of 1 and of 0 stand for: the memory had the bytes, or it was grown by the whole
  -- pages that were missing and no more; or `grow` was asked for those pages and refused.
  abbrev pub Answers : ℕ → Mem → HostState × ℤ → Type 0
  Answers bytes m r =
      ((r.1 ≡ pos 1) × (r.0.guest.memory ≡ some m) × (bytes ≤ m.size))
      ⊎ (((delta : ℕ) × (m' : Mem) × (grow delta m ≡ ok m')
            × (r.1 ≡ pos 1)
            × (r.0.guest.memory ≡ some m')
            × (m.size < bytes)
            × (bytes ≤ m'.size)
            × (m'.size < bytes + page))
          ⊎ ((delta : ℕ) × (e : List ℕ) × (grow delta m ≡ err e)
              × (r.1 ≡ pos 0)
              × (r.0.guest.memory ≡ some m)
              × (bytes ≤ m.size + delta * page)
              × (m.size + delta * page < bytes + page)
              × (m.size < bytes)))
