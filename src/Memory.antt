-- ===== src/Memory.antt =====
-- Guest linear memory as the host sees it: `read`, `write`, `read_u32` and `read_cstr` of
-- crates/oracle-core/src/state.rs. A shared memory is tried first; without one, the window on an
-- ordinary exported memory that `sync_memory` refreshed.
pub mod Laws
pub mod Parts
pub mod Strings
mod Tests
use wa_wasm_oracle.Prelude.{
  ℕ, zero, suc, ◌+◌, ◌-◌, ◌^◌, ◌≡◌, List, [], ◌∷◌, Option, none, some, ltb, ◌==◌, if◌then◌else◌,
  length, take, ◌≤◌,
}
use wa_wasm_oracle.Prelude.Result.{Result, ok, err, ◌>>=◌}
use wa_wasm_oracle.Prelude.Words.{of_le_bytes}
use wa_wasm_oracle.Prelude.Text.{position, from_utf8_lossy}

-- The bytes that a memory maps: addresses below `size`.
pub record Mem : Type 0 where
  pub size : ℕ
  pub cell : ℕ → ℕ

-- The fields `memory` (shared) and `linear` (window) of `HostState`.
pub record Guest : Type 0 where
  pub memory : Option Mem
  pub linear : Option Mem

pub data MemError : Type 0 where
  overflows out_of_bounds unavailable : MemError

abbrev pub usize_max : ℕ
usize_max = 2 ^ 64 - 1

-- Shut, since a length may be 4096.
unfoldable pub cells : (ℕ → ℕ) → ℕ → ℕ → List ℕ
cells f p zero = []
cells f p (suc n) = f p ∷ cells f (suc p) n

abbrev pub put : (ℕ → ℕ) → ℕ → ℕ → ℕ → ℕ
put f p v q = if p == q then v else f q

abbrev pub put_all : (ℕ → ℕ) → ℕ → List ℕ → ℕ → ℕ
put_all f p [] = f
put_all f p (b ∷ bs) = put_all (put f p b) (suc p) bs

-- `data[start..end]` of one mapping, with its bounds check.
abbrev pub read_mapped : Mem → ℕ → ℕ → Result MemError (List ℕ)
read_mapped m start len =
    if ltb m.size (start + len) then err out_of_bounds else ok (cells m.cell start len)

abbrev pub write_mapped : Mem → ℕ → List ℕ → Result MemError Mem
write_mapped m start bytes =
    if ltb m.size (start + length bytes)
    then err out_of_bounds
    else ok (record m { cell = put_all m.cell start bytes })

unfoldable pub read : Guest → ℕ → ℕ → Result MemError (List ℕ)
read g ptr len = if ltb usize_max (ptr + len) then err overflows else elim (g.memory) [
  | some m ↦ read_mapped m ptr len
  | none ↦ elim (g.linear) [ none ↦ err unavailable | some w ↦ read_mapped w ptr len ]
]

unfoldable pub write : Guest → ℕ → List ℕ → Result MemError Guest
write g ptr bytes = if ltb usize_max (ptr + length bytes) then err overflows else elim (g.memory) [
  | some m ↦ write_mapped m ptr bytes >>= λ m'. ok (record g { memory = some m' })
  | none ↦ elim (g.linear) [
    | none ↦ err unavailable
    | some w ↦ write_mapped w ptr bytes >>= λ w'. ok (record g { linear = some w' })
  ]
]

-- `u32::from_le_bytes` of four bytes.
unfoldable pub read_u32 : Guest → ℕ → Result MemError ℕ
read_u32 g ptr = do bytes ← read g ptr 4; ok (of_le_bytes bytes)

abbrev pub max_cstr : ℕ
max_cstr = 4096

abbrev pub short_cstr : ℕ
short_cstr = 256

-- `or_else`: the second read answers if the first one fails.
abbrev pub or_else : Result MemError (List ℕ) → Result MemError (List ℕ) → Result MemError (List ℕ)
or_else (ok a) r = ok a
or_else (err e) r = r

-- The bytes before the first NUL; none at all if the bytes read hold no NUL.
abbrev pub until_nul : List ℕ → List ℕ
until_nul bytes = elim (position (λ b. b == 0) bytes) [ some end ↦ take end bytes | none ↦ [] ]

unfoldable pub read_cstr : Guest → ℕ → Result MemError (List ℕ)
read_cstr g ptr = if ptr == 0 then ok [] else (do
  bytes ← or_else (read g ptr max_cstr) (read g ptr short_cstr)
  ok (from_utf8_lossy (until_nul bytes)))

-- The mapping that an access uses, and the predicate of its bounds check.
abbrev pub mapped : Guest → Option Mem
mapped g = elim (g.memory) [ some m ↦ some m | none ↦ g.linear ]

-- `len` bytes at `ptr` lie in the mapping.
abbrev pub InBounds : Guest → ℕ → ℕ → Type 0
InBounds g ptr len =
    (m : Mem) × (mapped g ≡ some m) × (ptr + len ≤ m.size) × (ptr + len ≤ usize_max)
