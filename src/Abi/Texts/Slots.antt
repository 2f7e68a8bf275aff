-- ===== src/Abi/Texts/Slots.antt =====
-- The words of a module's data that point to an address.
use wa_wasm_oracle.Prelude.{
  ℕ, zero, suc, ◌+◌, ◌-◌, ◌%◌, ◌^◌, ◌≡◌, ◌≤◌, ◌<◌, refl, ap, ap₂, sym, ◌∙◌, arith, Bool, true,
  false, ◌&&◌, ◌||◌, List, [], ◌∷◌, leb, ◌==◌, if◌then◌else◌, length, take, drop, All, length-drop,
}
use wa_wasm_oracle.Prelude.Text.{bytes_eq}
use wa_wasm_oracle.Prelude.Words.{add32, le_bytes}
use wa_wasm_oracle.Abi.Scan.{contains}
use wa_wasm_oracle.Abi.Texts.{slots_in, pad_to_word, find_pointer_slots}
use wa_wasm_oracle.Abi.Search.Laws.{contains-append}

-- Four bytes of a segment, word-aligned in memory, are the needle.
abbrev pub four_at : List ℕ → ℕ → List ℕ → Bool
four_at bytes n needle = bytes_eq (take 4 (drop n bytes)) needle

abbrev pub points_at : ℕ → ℕ → List ℕ → List ℕ → Bool
points_at s base bytes needle =
    leb base s
    && ((s % 4 == 0) && (leb (s - base + 4) (length bytes) && four_at bytes (s - base) needle))

-- A word at `p`, or a later one.
points_split :
    (s p next len : ℕ) (q x y : Bool)
    → next ≡ p + 4
    → p % 4 ≡ 0
    → (s ≡ p → x ≡ q)
    → (next ≤ s → x ≡ y)
    → (q && (p == s)) || (leb next s && ((s % 4 == 0) && (leb (s - next + 4) len && y)))
      ≡ leb p s && ((s % 4 == 0) && (leb (s - p + 4) (len + 4) && x))
points_split s p next len q x y e aligned here ahead = ground arith

contains-if :
    (s a : ℕ) (q : Bool) (more : List ℕ)
    → contains s (if q then a ∷ more else more) ≡ (q && (a == s)) || contains s more
contains-if s a true more = ground arith
contains-if s a false more = refl

contains-slots_in :
    (s base : ℕ) (needle : List ℕ) (offset : ℕ) (bytes : List ℕ)
    → (base + offset) % 4 ≡ 0
    → base + offset + length bytes ≤ 2 ^ 32
    → contains s (slots_in base needle offset bytes) ≡ points_at s (base + offset) bytes needle
contains-slots_in s base needle offset (a ∷ b ∷ c ∷ d ∷ bytes) aligned fits =
    contains-if s (add32 base offset) (bytes_eq (a ∷ b ∷ c ∷ d ∷ []) needle)
      (slots_in base needle (offset + 4) bytes)
    ∙ ap (λ more. (bytes_eq (a ∷ b ∷ c ∷ d ∷ []) needle && (add32 base offset == s)) || more)
        (contains-slots_in s base needle (offset + 4) bytes (omega arith) (omega arith))
    ∙ ap
        (λ (n : ℕ).
          (bytes_eq (a ∷ b ∷ c ∷ d ∷ []) needle && (n == s))
          || points_at s (base + (offset + 4)) bytes needle)
        small
    ∙ points_split s (base + offset) (base + (offset + 4)) (length bytes) _ _ _ (omega arith)
        aligned here ahead
    ∙ ap
        (λ (n : ℕ).
          leb (base + offset) s
          && ((s % 4 == 0)
              && (leb (s - (base + offset) + 4) n
                  && four_at (a ∷ b ∷ c ∷ d ∷ bytes) (s - (base + offset)) needle)))
        (omega arith)
  where
    small : add32 base offset ≡ base + offset
    small = omega arith

    here :
        s ≡ base + offset
        → four_at (a ∷ b ∷ c ∷ d ∷ bytes) (s - (base + offset)) needle
          ≡ bytes_eq (a ∷ b ∷ c ∷ d ∷ []) needle
    here h =
        let e : s - (base + offset) ≡ 0 = omega arith in
        ap (λ (n : ℕ). four_at (a ∷ b ∷ c ∷ d ∷ bytes) n needle) e

    ahead :
        base + (offset + 4) ≤ s
        → four_at (a ∷ b ∷ c ∷ d ∷ bytes) (s - (base + offset)) needle
          ≡ four_at bytes (s - (base + (offset + 4))) needle
    ahead h =
        let e : s - (base + offset) ≡ suc (suc (suc (suc (s - (base + (offset + 4)))))) =
          omega arith in
        ap (λ (n : ℕ). four_at (a ∷ b ∷ c ∷ d ∷ bytes) n needle) e
contains-slots_in s base needle offset _ aligned fits = ground arith

drop-nothing : (n : ℕ) → drop {A = ℕ} n [] ≡ []
drop-nothing zero = refl
drop-nothing (suc n) = refl

drop-drop : (m n : ℕ) (xs : List ℕ) → drop n (drop m xs) ≡ drop (m + n) xs
drop-drop zero n xs = let e : n ≡ 0 + n = omega arith in ap (λ (k : ℕ). drop k xs) e
drop-drop (suc m) n [] = drop-nothing n ∙ sym (drop-nothing (suc m + n))
drop-drop (suc m) n (x ∷ xs) =
    let e : suc (m + n) ≡ suc m + n = omega arith in
    drop-drop m n xs ∙ ap (λ (k : ℕ). drop k (x ∷ xs)) e

-- Nothing aligned lies in the padding.
points_shift :
    (s base pad len rest : ℕ) (x y : Bool)
    → pad < 4
    → (base + pad) % 4 ≡ 0
    → rest ≡ len - pad
    → (base + pad ≤ s → x ≡ y)
    → leb (base + pad) s && ((s % 4 == 0) && (leb (s - (base + pad) + 4) rest && x))
      ≡ leb base s && ((s % 4 == 0) && (leb (s - base + 4) len && y))
points_shift s base pad len rest x y small aligned e same = ground arith

segment_slots :
    (s base : ℕ) (needle contents : List ℕ)
    → base + length contents ≤ 2 ^ 32
    → contains s (slots_in base needle (pad_to_word base) (drop (pad_to_word base) contents))
      ≡ points_at s base contents needle
segment_slots s base needle contents fits =
    contains-slots_in s base needle (pad_to_word base) (drop (pad_to_word base) contents)
      (omega arith) (omega (arith, length-drop (pad_to_word base) contents))
    ∙ points_shift s base (pad_to_word base) (length contents)
        (length (drop (pad_to_word base) contents)) _ _ (omega arith) (omega arith)
        (length-drop (pad_to_word base) contents) same
  where
    same :
        base + pad_to_word base ≤ s
        → four_at (drop (pad_to_word base) contents) (s - (base + pad_to_word base)) needle
          ≡ four_at contents (s - base) needle
    same h =
        let e : pad_to_word base + (s - (base + pad_to_word base)) ≡ s - base = omega arith in
        ap (λ bytes. bytes_eq (take 4 bytes) needle)
          (drop-drop (pad_to_word base) (s - (base + pad_to_word base)) contents
            ∙ ap (λ (n : ℕ). drop n contents) e)

abbrev pub points_in : ℕ → List (ℕ × List ℕ) → List ℕ → Bool
points_in s [] needle = false
points_in s ((base, contents) ∷ segments) needle =
    points_at s base contents needle || points_in s segments needle

-- The pointer slots that are found for an address are exactly the word-aligned addresses at which
-- a segment holds the address as four little-endian bytes. This is for segments that end at the
-- last 32-bit address.
pub find_pointer_slots-exact :
    (segments : List (ℕ × List ℕ)) (target s : ℕ)
    → All (λ g. g.0 + length g.1 ≤ 2 ^ 32) segments
    → contains s (find_pointer_slots segments target) ≡ points_in s segments (le_bytes 4 target)
unfolding find_pointer_slots
find_pointer_slots-exact [] target s fits = refl
find_pointer_slots-exact ((base, contents) ∷ segments) target s (fit, fits) =
    contains-append s
      (slots_in base (le_bytes 4 target) (pad_to_word base) (drop (pad_to_word base) contents))
      (find_pointer_slots segments target)
    ∙ ap₂ ◌||◌ (segment_slots s base (le_bytes 4 target) contents fit)
        (find_pointer_slots-exact segments target s fits)
