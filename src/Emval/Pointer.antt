-- ===== src/Emval/Pointer.antt =====
-- `read_through_pointer` of crates/oracle-core/src/emval.rs: how many bytes a registered type has
-- behind a pointer, and what value they are.
use wa_wasm_oracle.Prelude.{
  ℕ, ◌-◌, ◌*◌, ◌/◌, ◌%◌, ◌^◌, ◌<◌, ◌≡◌, ◌⊎◌, inl, inr, Bool, true, false, not, List, [], ◌∷◌,
  Option, none, some, arith, subst, sym, ltb, ◌==◌, if◌then◌else◌, ◌||◌,
}
use wa_wasm_oracle.Prelude.Int.{ℤ, pos, negsuc}
use wa_wasm_oracle.Prelude.Result.{ok, err, ◌>>=◌, to_option}
use wa_wasm_oracle.Prelude.Text.{codes, bytes_eq, from_utf8_lossy}
use wa_wasm_oracle.Prelude.Words.{add32, signed64, of_le_bytes}
use wa_wasm_oracle.Memory.{Guest, read, read_u32}
use wa_wasm_oracle.Values.{Value, bool, int, double, str, Floats}

-- `>>` on `i64`, which rounds down.
abbrev pub shift_right : ℤ → ℕ → ℤ
shift_right (pos n) s = pos (n / 2 ^ s)
shift_right (negsuc n) s = negsuc (n / 2 ^ s)

-- `((raw << shift) as i64) >> shift` with the shift that the width leaves in 64 bits.
unfoldable pub sign_extend : ℕ → ℕ → ℤ
sign_extend width raw =
    let shift = 64 - width * 8 in shift_right (signed64 ((raw * 2 ^ shift) % 2 ^ 64)) shift

-- `read_int`
unfoldable pub read_int : Guest → ℕ → ℕ → Bool → Option Value
unfolding sign_extend
read_int g ptr width signed = elim (read g ptr width) [
  | err e ↦ none
  | ok bytes ↦
      let raw = of_le_bytes bytes in
      some (int (if signed then sign_extend width raw else signed64 raw))
]

abbrev pub read_bool : Guest → ℕ → Option Value
read_bool g ptr = elim (read g ptr 1) [
  | ok (b ∷ bs) ↦ some (bool (not (b == 0)))
  | ok [] ↦ none
  | err e ↦ none
]

abbrev pub read_string : Guest → ℕ → Option Value
read_string g ptr = to_option (
    read_u32 g ptr >>= λ block. read_u32 g block >>= λ len.
    read g (add32 block 4) len >>= λ bytes. ok (str (from_utf8_lossy bytes)))

-- The arms of `match type_name`.
pub data Reader : Type 0 where
  as_bool as_float as_double as_string unreadable : Reader
  as_int : ℕ → Bool → Reader

abbrev pub is_one_of : List ℕ → List ℕ → List ℕ → Bool
is_one_of name a b = bytes_eq name a || bytes_eq name b

unfoldable pub reader_of : List ℕ → Reader
reader_of name =
    if bytes_eq name (codes "bool")
    then as_bool
    else if is_one_of name (codes "char") (codes "signed char")
    then as_int 1 true
    else if bytes_eq name (codes "unsigned char")
    then as_int 1 false
    else if bytes_eq name (codes "short")
    then as_int 2 true
    else if bytes_eq name (codes "unsigned short")
    then as_int 2 false
    else if is_one_of name (codes "int") (codes "long")
    then as_int 4 true
    else if is_one_of name (codes "unsigned int") (codes "unsigned long")
    then as_int 4 false
    else if is_one_of name (codes "int64_t") (codes "long long")
    then as_int 8 true
    else if is_one_of name (codes "uint64_t") (codes "unsigned long long")
    then as_int 8 false
    else if bytes_eq name (codes "float")
    then as_float
    else if bytes_eq name (codes "double")
    then as_double
    else if is_one_of name (codes "std::string") (codes "std::basic_string<unsigned char>")
    then as_string
    else unreadable

module _ (floats : Floats) where
  unfoldable pub read_as : Reader → Guest → ℕ → Option Value
  unfolding read_int
  read_as as_bool g ptr = read_bool g ptr
  read_as (as_int width signed) g ptr = read_int g ptr width signed
  read_as as_float g ptr = elim (read g ptr 4) [
    | ok bytes ↦ some (double (floats.widen (of_le_bytes bytes)))
    | err e ↦ none
  ]
  read_as as_double g ptr = elim (read g ptr 8) [
    | ok bytes ↦ some (double (of_le_bytes bytes))
    | err e ↦ none
  ]
  read_as as_string g ptr = read_string g ptr
  read_as unreadable g ptr = none

  unfoldable pub read_through_pointer : Guest → List ℕ → ℕ → Option Value
  unfolding read_as reader_of
  read_through_pointer g type_name ptr = read_as (reader_of type_name) g ptr

-- The two's complement integer of a pattern of `width` bytes.
abbrev pub twos_complement : ℕ → ℕ → ℤ
twos_complement width raw =
    if ltb raw (2 ^ (8 * width - 1)) then pos raw else negsuc (2 ^ (8 * width) - raw - 1)

abbrev Extends : ℕ → ℕ → Type 0
Extends raw width = raw < 2 ^ (8 * width) → sign_extend width raw ≡ twos_complement width raw

-- For the widths 1, 2, 4 and 8, the two shifts of `read_int` give the two's complement integer of
-- the bytes.
pub sign_extend_lem :
    (width raw : ℕ)
    → (width ≡ 1) ⊎ ((width ≡ 2) ⊎ ((width ≡ 4) ⊎ (width ≡ 8)))
    → raw < 2 ^ (8 * width)
    → sign_extend width raw ≡ twos_complement width raw
unfolding sign_extend
sign_extend_lem width raw (inl e) = subst (Extends raw) (sym e) (λ h. ground arith)
sign_extend_lem width raw (inr (inl e)) = subst (Extends raw) (sym e) (λ h. ground arith)
sign_extend_lem width raw (inr (inr (inl e))) = subst (Extends raw) (sym e) (λ h. ground arith)
sign_extend_lem width raw (inr (inr (inr e))) = subst (Extends raw) (sym e) (λ h. ground arith)
