-- ===== src/Prelude/Words.antt =====
-- Machine words as native numbers, little-endian bytes, and the shifts of the sources.
use wa_wasm_oracle.Prelude.{
  ℕ, zero, suc, ◌+◌, ◌-◌, ◌*◌, ◌/◌, ◌%◌, ◌^◌, ◌<◌, ◌≡◌, refl, arith, List, [], ◌∷◌, ltb,
  if◌then◌else◌, length,
}
use wa_wasm_oracle.Prelude.Int.{ℤ, pos, negsuc}

-- `x as u32`, `x as u64` and the wrapping sums of release builds.
abbrev pub u32 : ℕ → ℕ
u32 n = n % 2 ^ 32

abbrev pub u64 : ℕ → ℕ
u64 n = n % 2 ^ 64

abbrev pub add32 : ℕ → ℕ → ℕ
add32 a b = (a + b) % 2 ^ 32

abbrev pub add64 : ℕ → ℕ → ℕ
add64 a b = (a + b) % 2 ^ 64

-- The integer that a 32-bit or 64-bit pattern stands for as `i32` or `i64`.
abbrev pub signed32 : ℕ → ℤ
signed32 w = if ltb w (2 ^ 31) then pos w else negsuc (2 ^ 32 - w - 1)

abbrev pub signed64 : ℕ → ℤ
signed64 w = if ltb w (2 ^ 63) then pos w else negsuc (2 ^ 64 - w - 1)

-- The pattern of an integer, cut to 32 or 64 bits (`as u32`, `as i32 as u32`, `as u64`).
abbrev pub pattern32 : ℤ → ℕ
pattern32 (pos n) = n % 2 ^ 32
pattern32 (negsuc n) = 2 ^ 32 - 1 - n % 2 ^ 32

abbrev pub pattern64 : ℤ → ℕ
pattern64 (pos n) = n % 2 ^ 64
pattern64 (negsuc n) = 2 ^ 64 - 1 - n % 2 ^ 64

-- `to_le_bytes` of a value of `width` bytes, and `from_le_bytes`.
abbrev pub le_bytes : ℕ → ℕ → List ℕ
le_bytes zero v = []
le_bytes (suc width) v = v % 256 ∷ le_bytes width (v / 256)

abbrev pub of_le_bytes : List ℕ → ℕ
of_le_bytes [] = 0
of_le_bytes (b ∷ bs) = b + 256 * of_le_bytes bs

pub length-le_bytes : (width v : ℕ) → length (le_bytes width v) ≡ width
length-le_bytes zero v = refl
length-le_bytes (suc width) v = omega (arith, length-le_bytes width (v / 256))

pub of_le_bytes-le_bytes_4 : (v : ℕ) → v < 2 ^ 32 → of_le_bytes (le_bytes 4 v) ≡ v
of_le_bytes-le_bytes_4 v h = omega arith

pub of_le_bytes-le_bytes_8 : (v : ℕ) → v < 2 ^ 64 → of_le_bytes (le_bytes 8 v) ≡ v
of_le_bytes-le_bytes_8 v h = omega arith

-- A negative or positive `i32` comes back from its pattern.
pub signed32-pattern32_neg : (n : ℕ) → n < 2 ^ 31 → signed32 (pattern32 (negsuc n)) ≡ negsuc n
signed32-pattern32_neg n h = ground arith

pub signed32-pattern32_pos : (n : ℕ) → n < 2 ^ 31 → signed32 (pattern32 (pos n)) ≡ pos n
signed32-pattern32_pos n h = ground arith
