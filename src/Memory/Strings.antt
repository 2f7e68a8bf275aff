-- ===== src/Memory/Strings.antt =====
-- `read_cstr` on strings that end, on strings that do not, and near the end of memory.
use wa_wasm_oracle.Prelude.{
  ℕ, zero, suc, ◌+◌, ◌-◌, ◌^◌, ◌≤◌, ◌<◌, ◌≡◌, refl, ap, ◌≢◌, List, [], ◌∷◌, ◌++◌, none, some, arith,
  length, dec_le, take, ◌==◌, All, length-append,
}
use native.Mathlib.Nat.{zero-add, add-zero}
use mathlib.Core.List.{append_assoc}
use wa_wasm_oracle.Prelude.Result.{ok, err}
use wa_wasm_oracle.Prelude.Text.{position, IsAscii, from_utf8_lossy, from_utf8_lossy-ascii}
use wa_wasm_oracle.Memory.{
  Mem, Guest, out_of_bounds, usize_max, cells, put_all, read, write, read_cstr, mapped, until_nul,
}
use wa_wasm_oracle.Memory.Laws.{write_inversion, read-eq-view, cells-put_all_same}

-- No byte of a C string's text is NUL.
abbrev pub HasNoNul : List ℕ → Type 0
HasNoNul = All (λ b. b ≢ 0)

take-append {ℓ} : {A : Type ℓ} (xs ys : List A) → take (length xs) (xs ++ ys) ≡ xs
take-append [] ys = refl
take-append (x ∷ xs) ys = ap (λ t. x ∷ t) (take-append xs ys)

position-nul :
    (text rest : List ℕ)
    → HasNoNul text
    → position (λ b. b == 0) (text ++ (0 ∷ rest)) ≡ some (length text)
unfolding position
position-nul [] rest h = refl
position-nul (b ∷ text) rest h = ground (arith, position-nul text rest)

position-no_nul : (text : List ℕ) → HasNoNul text → position (λ b. b == 0) text ≡ none
unfolding position
position-no_nul [] h = refl
position-no_nul (b ∷ text) h = ground (arith, position-no_nul text)

until_nul-append : (text rest : List ℕ) → HasNoNul text → until_nul (text ++ (0 ∷ rest)) ≡ text
until_nul-append text rest h =
    rw (position-nul text rest h, until_nul) (take-append text (0 ∷ rest))

cells-add : (f : ℕ → ℕ) (p a b : ℕ) → cells f p (a + b) ≡ cells f p a ++ cells f (p + a) b
unfolding cells
cells-add f p zero b = rw (zero-add, add-zero)
cells-add f p (suc a) b =
    let e : suc a + b ≡ suc (a + b) = omega arith in
    let e' : p + suc a ≡ suc p + a = omega arith in
    rw (e, e') (ap (λ t. f p ∷ t) (cells-add f (suc p) a b))

-- A `read` of a span inside the mapping returns its cells.
read-cells :
    (g : Guest) (ptr n : ℕ) (m : Mem)
    → mapped g ≡ some m
    → ptr + n ≤ m.size
    → ptr + n ≤ usize_max
    → read g ptr n ≡ ok (cells m.cell ptr n)
read-cells g ptr n m mp fits small = rw (read-eq-view g ptr n, mp) (ground arith)

-- A `read` that leaves the mapping fails.
read-outside :
    (g : Guest) (ptr n : ℕ) (m : Mem)
    → mapped g ≡ some m
    → m.size < ptr + n
    → ptr + n ≤ usize_max
    → read g ptr n ≡ err out_of_bounds
read-outside g ptr n m mp out small = rw (read-eq-view g ptr n, mp) (ground arith)

-- A written text with its NUL is found in any longer run of cells.
until_nul-written :
    (f : ℕ → ℕ) (p n : ℕ) (text : List ℕ)
    → HasNoNul text
    → length text < n
    → until_nul (cells (put_all f p (text ++ (0 ∷ []))) p n) ≡ text
until_nul-written f p n text clean short =
    let whole = text ++ (0 ∷ []) in
    let g = put_all f p whole in
    let e : n ≡ length whole + (n - length whole) = omega (arith, length-append text (0 ∷ [])) in
    rw
      (
        e,
        cells-add g p (length whole) (n - length whole),
        cells-put_all_same f p whole,
        append_assoc text (0 ∷ []) (cells g (p + length whole) (n - length whole)),
      )
      (until_nul-append text (cells g (p + length whole) (n - length whole)) clean)

-- Either read of `read_cstr` answers, and both find the text.
read_cstr-cells :
    (g : Guest) (ptr : ℕ) (m : Mem) (text : List ℕ)
    → ptr ≢ 0
    → ptr < 2 ^ 32
    → mapped g ≡ some m
    → ptr + 256 ≤ m.size
    → IsAscii text
    → until_nul (cells m.cell ptr 4096) ≡ text
    → until_nul (cells m.cell ptr 256) ≡ text
    → read_cstr g ptr ≡ ok text
unfolding read_cstr
read_cstr-cells g ptr m text nz small mp room ascii long short = elim (dec_le (ptr + 4096) m.size) [
  | yes p ↦ ground (
    arith,
    read-cells g ptr 4096 m mp p (omega arith),
    ap from_utf8_lossy long,
    from_utf8_lossy-ascii text ascii,
  )
  | no p ↦ ground (
    arith,
    read-outside g ptr 4096 m mp (omega arith) (omega arith),
    read-cells g ptr 256 m mp room (omega arith),
    ap from_utf8_lossy short,
    from_utf8_lossy-ascii text ascii,
  )
]

-- ASCII text without a NUL, written with a NUL behind it at a non-zero address below 2^32, reads
-- back as a C string, if it is shorter than 256 bytes and 256 bytes from its start are mapped.
pub read_cstr-write :
    (g g' : Guest) (ptr : ℕ) (text : List ℕ) (m : Mem)
    → ptr ≢ 0
    → ptr < 2 ^ 32
    → IsAscii text
    → HasNoNul text
    → length text < 256
    → mapped g ≡ some m
    → ptr + 256 ≤ m.size
    → write g ptr (text ++ (0 ∷ [])) ≡ ok g'
    → read_cstr g' ptr ≡ ok text
read_cstr-write g g' ptr text m nz small ascii clean short mp room e =
    let (m', mp', fits, small', after) = write_inversion g g' ptr (text ++ (0 ∷ [])) e in
    let same_size : m'.size ≡ m.size = ground arith in
    read_cstr-cells g' ptr _ text nz small after (rw same_size room) ascii
      (until_nul-written m'.cell ptr 4096 text clean (omega arith))
      (until_nul-written m'.cell ptr 256 text clean short)

-- A string whose first 4096 bytes are mapped and hold no NUL reads as the empty string.
pub read_cstr_unterminated :
    (g : Guest) (ptr : ℕ) (m : Mem)
    → ptr < 2 ^ 32
    → mapped g ≡ some m
    → ptr + 4096 ≤ m.size
    → HasNoNul (cells m.cell ptr 4096)
    → read_cstr g ptr ≡ ok []
unfolding read_cstr
read_cstr_unterminated g ptr m small mp room clean = ground (
  arith,
  read-cells g ptr 4096 m mp room (omega arith),
  position-no_nul (cells m.cell ptr 4096) clean,
  from_utf8_lossy-ascii [] tt,
)
