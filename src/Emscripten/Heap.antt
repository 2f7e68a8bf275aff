-- ===== src/Emscripten/Heap.antt =====
-- Guest memory that grows and is mapped: `emscripten_resize_heap` and `_mmap_js` of
-- crates/oracle-core/src/emscripten.rs.
use wa_wasm_oracle.Prelude.{
  ℕ, ◌+◌, ◌-◌, ◌*◌, ◌/◌, ◌%◌, ◌^◌, List, [], ◌∷◌, ◌++◌, none, some, leb, ◌==◌, if◌then◌else◌,
  replicate,
}
use wa_wasm_oracle.Prelude.Int.{ℤ, pos, negsuc}
use wa_wasm_oracle.Prelude.Result.{Result, ok, err}
use wa_wasm_oracle.Prelude.Sort.{decimal}
use wa_wasm_oracle.Prelude.Text.{codes}
use wa_wasm_oracle.Prelude.Words.{le_bytes, signed32}
use wa_wasm_oracle.Abi.Render.{signed_decimal}
use wa_wasm_oracle.Exports.{Instance, func, sync_memory}
use wa_wasm_oracle.Memory.{Mem}
use wa_wasm_oracle.State.{HostState, log, write_memory}
use wa_wasm_oracle.Vals.{Val, i32}
use wa_wasm_oracle.Emscripten.{HostError, trap, memory_error, panicked}

abbrev pub page : ℕ
page = 65536

abbrev pub div_ceil : ℕ → ℕ → ℕ
div_ceil a b = (a + (b - 1)) / b

-- `memory.grow(delta)` of the shared memory: the memory after it, or the message of the refusal.
module _ (grow : ℕ → Mem → Result (List ℕ) Mem) where
  abbrev pub refused : ℕ → ℕ → List ℕ → List ℕ
  refused current wanted error =
      codes "emscripten_resize_heap: "
      ++ (decimal current
          ++ (codes " -> " ++ (decimal wanted ++ (codes " pages refused: " ++ error))))

  abbrev pub grow_to : ℕ → Mem → HostState → HostState × ℤ
  grow_to wanted m h =
      let current = m.size / page in
      if leb wanted current then (h, pos 1) else elim (grow (wanted - current) m) [
        | ok m' ↦ (record h { guest = record h.guest { memory = some m' } }, pos 1)
        | err error ↦ (log (refused current wanted error) h, pos 0)
      ]

  -- A negative request is refused.
  unfoldable pub emscripten_resize_heap : ℤ → HostState → HostState × ℤ
  emscripten_resize_heap requested h = elim (h.guest.memory) [
    | none ↦ (log (codes "emscripten_resize_heap: module has no shared memory") h, pos 0)
    | some m ↦ elim requested [
      | pos bytes ↦ grow_to (div_ceil bytes page) m h
      | negsuc n ↦ (h, pos 0)
    ]
  ]

-- `state.write(…)?` in front of the rest.
abbrev pub write_then :
    ℕ
    → List ℕ
    → HostState
    → (HostState → HostState × Result HostError ℤ)
    → HostState × Result HostError ℤ
write_then ptr bytes h next = elim (write_memory ptr bytes h) [
  | ok h' ↦ next h'
  | err e ↦ (h, err (memory_error e))
]

-- `(len + PAGE - 1) & !(PAGE - 1)`
abbrev pub fixed_length : ℕ → ℕ
fixed_length len = (len + (page - 1)) % 2 ^ 32 / page * page

module _ (instance_ : Instance) where
  abbrev pub enomem : ℤ
  enomem = negsuc 47

  abbrev pub memalign_names : List (List ℕ)
  memalign_names =
      codes "emscripten_builtin_memalign" ∷ codes "memalign" ∷ codes "aligned_alloc" ∷ []

  -- The three writes, each of which stays if a later one fails. A size of 2^31 or more is negative,
  -- and its buffer cannot be allocated.
  abbrev pub map_pages : ℕ → ℕ → ℕ → ℕ → HostState → HostState × Result HostError ℤ
  map_pages size ptr allocated addr h =
      if leb (2 ^ 31) size
      then (h, err panicked)
      else write_then ptr (replicate size 0) h λ h1.
        write_then addr (le_bytes 4 ptr) h1
          λ h2. write_then allocated (le_bytes 4 1) h2 λ h3. (h3, ok (pos 0))

  abbrev pub no_memory_for : ℕ → List ℕ
  no_memory_for size =
      codes "_mmap_js: no memory for " ++ (signed_decimal (signed32 size) ++ codes " bytes")

  abbrev pub map_at : ℕ → ℕ → ℕ → List Val → HostState → HostState × Result HostError ℤ
  map_at size allocated addr (i32 ptr ∷ out) h =
      if ptr == 0
      then (log (no_memory_for size) h, ok enomem)
      else map_pages size ptr allocated addr h
  map_at size allocated addr _ h = (h, ok enomem)

  abbrev pub after_memalign :
      ℕ → ℕ → ℕ → HostState × Result (List ℕ) (List Val) → HostState × Result HostError ℤ
  after_memalign size allocated addr (h, ok out) =
      map_at size allocated addr out (sync_memory instance_ h)
  after_memalign size allocated addr (h, err error) = (h, err (trap error))

  unfoldable pub mmap_js : ℕ → ℕ → ℕ → HostState → HostState × Result HostError ℤ
  mmap_js len allocated addr h =
      let h' = sync_memory instance_ h in
      elim (func instance_ memalign_names h') [
        | err error ↦ (h', err (trap error))
        | ok memalign ↦
            after_memalign (fixed_length len) allocated addr
              (memalign.call (i32 page ∷ i32 (fixed_length len) ∷ []) h')
      ]
