-- ===== src/Prelude/Bytes.antt =====
-- Byte lists index by index: what `take`, `drop`, `replicate` and `++` hold at each position.
use wa_wasm_oracle.Prelude.{
  ℕ, zero, suc, ◌+◌, ◌-◌, ◌≤◌, ◌<◌, ◌≡◌, refl, ap, ap₂, List, [], ◌∷◌, ◌++◌, arith, length, take,
  drop, replicate, get_or, ltb, if◌then◌else◌, ◌∙◌,
}

pub get_or-append :
    (xs ys : List ℕ) (i : ℕ)
    → get_or (xs ++ ys) i 0
      ≡ (if ltb i (length xs) then get_or xs i 0 else get_or ys (i - length xs) 0)
get_or-append [] ys i = ground (arith, ap (λ (n : ℕ). get_or ys n 0) (sub_nothing i))
  where
    sub_nothing : (n : ℕ) → n - 0 ≡ n
    sub_nothing n = omega arith
get_or-append (x ∷ xs) ys zero = ground arith
get_or-append (x ∷ xs) ys (suc i) =
    ground (arith, get_or-append xs ys i, ap (λ (n : ℕ). get_or ys n 0) (sub_suc i))
  where
    sub_suc : (n : ℕ) → suc n - suc (length xs) ≡ n - length xs
    sub_suc n = omega arith

pub get_or-replicate : (n i : ℕ) → get_or (replicate {A = ℕ} n 0) i 0 ≡ zero
get_or-replicate zero i = refl
get_or-replicate (suc n) zero = refl
get_or-replicate (suc n) (suc i) = get_or-replicate n i

pub get_or-take : (n : ℕ) (xs : List ℕ) (i : ℕ) → i < n → get_or (take n xs) i 0 ≡ get_or xs i 0
get_or-take zero xs i h = absurd (omega arith)
get_or-take (suc n) [] i h = refl
get_or-take (suc n) (x ∷ xs) zero h = refl
get_or-take (suc n) (x ∷ xs) (suc i) h = get_or-take n xs i (omega arith)

pub get_or-drop : (n : ℕ) (xs : List ℕ) (i : ℕ) → get_or (drop n xs) i 0 ≡ get_or xs (n + i) 0
get_or-drop zero xs i = let e : i ≡ 0 + i = omega arith in ap (λ (k : ℕ). get_or xs k 0) e
get_or-drop (suc n) [] i = refl
get_or-drop (suc n) (x ∷ xs) i =
    let e : suc (n + i) ≡ suc n + i = omega arith in
    get_or-drop n xs i ∙ ap (λ (k : ℕ). get_or (x ∷ xs) k 0) e

pub get_or-outside : (xs : List ℕ) (i : ℕ) → length xs ≤ i → get_or xs i 0 ≡ 0
get_or-outside [] i h = refl
get_or-outside (x ∷ xs) zero h = absurd (omega arith)
get_or-outside (x ∷ xs) (suc i) h = get_or-outside xs i (omega arith)

-- Two byte lists of one length with the same byte at each position are equal.
pub bytes_ext :
    (xs ys : List ℕ)
    → length xs ≡ length ys
    → ((i : ℕ) → i < length xs → get_or xs i 0 ≡ get_or ys i 0)
    → xs ≡ ys
bytes_ext [] [] e h = refl
bytes_ext [] (y ∷ ys) e h = absurd (omega arith)
bytes_ext (x ∷ xs) [] e h = absurd (omega arith)
bytes_ext (x ∷ xs) (y ∷ ys) e h =
    ap₂ ◌∷◌ (h 0 (omega arith)) (bytes_ext xs ys (omega arith) (λ i lt. h (suc i) (omega arith)))
