-- ===== src/Runs/Laws.antt =====
-- What the scans for printable runs find.
use wa_wasm_oracle.Prelude.{
  ℕ, zero, suc, ◌+◌, ◌≤◌, ◌≡◌, refl, ap, ◌∙◌, sym, true, List, [], ◌∷◌, ◌++◌, map, arith, length,
  take, drop, All, if◌then◌else◌,
}
use wa_wasm_oracle.Prelude.Text.{is_printable}
use wa_wasm_oracle.Runs.{
  split_from, split_lines, DataString, collect_from, collect_strings, min_line, is_empty,
}

-- A line that `split_lines` can find: printable bytes, enough of them.
abbrev pub IsLine : List ℕ → Type 0
IsLine line = (min_line ≤ length line) × All (λ b. is_printable b ≡ true) line

++_step : (xs : List ℕ) (b : ℕ) (ys : List ℕ) → (xs ++ (b ∷ [])) ++ ys ≡ xs ++ (b ∷ ys)
++_step [] b ys = refl
++_step (x ∷ xs) b ys = ap (λ (zs : List ℕ). x ∷ zs) (++_step xs b ys)

All-append :
    (xs : List ℕ) (b : ℕ)
    → All (λ b. is_printable b ≡ true) xs
    → is_printable b ≡ true
    → All (λ b. is_printable b ≡ true) (xs ++ (b ∷ []))
All-append [] b h p = (p, tt)
All-append (x ∷ xs) b (h, hs) p = (h, All-append xs b hs p)

split_from-IsLine :
    (current raw : List ℕ)
    → All (λ b. is_printable b ≡ true) current
    → All IsLine (split_from current raw)
unfolding split_from
split_from-IsLine current [] h = ground (arith, h)
split_from-IsLine current (byte ∷ raw) h = ground (
  arith,
  split_from-IsLine (current ++ (byte ∷ [])) raw,
  split_from-IsLine [] raw tt,
  All-append current byte h,
  h,
)

collect_from-split_from :
    (segment offset start : ℕ) (current bytes : List ℕ)
    → map (λ (s : DataString). s.value) (collect_from segment min_line offset start current bytes)
      ≡ split_from current bytes
unfolding collect_from split_from
collect_from-split_from segment offset start current [] = ground arith
collect_from-split_from segment offset start current (byte ∷ bytes) =
    let start' = if is_empty current then offset else start in
    ground (
      arith,
      collect_from-split_from segment (offset + 1) start' (current ++ (byte ∷ [])) bytes,
      collect_from-split_from segment (offset + 1) start [] bytes,
    )

-- The two scans find the same runs.
pub collect_strings-split_lines :
    (segment : ℕ) (bytes : List ℕ)
    → map (λ (s : DataString). s.value) (collect_strings segment bytes min_line) ≡ split_lines bytes
unfolding collect_strings split_lines
collect_strings-split_lines segment bytes = collect_from-split_from segment 0 0 [] bytes

-- The lines, each with a byte behind it that is not printable.
abbrev pub terminated : ℕ → List (List ℕ) → List ℕ
terminated sep [] = []
terminated sep (line ∷ lines) = line ++ (sep ∷ terminated sep lines)

drop_suc :
    (n : ℕ) (whole : List ℕ) (b : ℕ) (rest : List ℕ)
    → drop n whole ≡ b ∷ rest
    → drop (n + 1) whole ≡ rest
drop_suc zero [] b rest e = ground arith
drop_suc zero (x ∷ whole) b rest e = ground (arith, e)
drop_suc (suc n) [] b rest e = ground arith
drop_suc (suc n) (x ∷ whole) b rest e =
    let next : suc n + 1 ≡ suc (n + 1) = omega arith in
    ap (λ (k : ℕ). drop k (x ∷ whole)) next ∙ drop_suc n whole b rest e

take-++ : (xs ys : List ℕ) → take (length xs) (xs ++ ys) ≡ xs
take-++ [] ys = refl
take-++ (x ∷ xs) ys = ap (λ (zs : List ℕ). x ∷ zs) (take-++ xs ys)

-- The run that the loop holds stands at its start.
abbrev Held : List ℕ → ℕ → List ℕ → List ℕ → Type 0
Held whole start [] rest = Unit
Held whole start (b ∷ current) rest = drop start whole ≡ b ∷ (current ++ rest)

abbrev pub IsPlaced : List ℕ → DataString → Type 0
IsPlaced whole s = take (length s.value) (drop s.offset whole) ≡ s.value

Held-IsPlaced :
    (whole : List ℕ) (segment start : ℕ) (current rest : List ℕ)
    → Held whole start current rest
    → IsPlaced whole (record { segment = segment; offset = start; value = current })
Held-IsPlaced whole segment start [] rest h = refl
Held-IsPlaced whole segment start (b ∷ current) rest h =
    ap (λ (bs : List ℕ). take (suc (length current)) bs) h ∙ take-++ (b ∷ current) rest

Held-longer :
    (whole : List ℕ) (offset start : ℕ) (current : List ℕ) (byte : ℕ) (bytes : List ℕ)
    → Held whole start current (byte ∷ bytes)
    → drop offset whole ≡ byte ∷ bytes
    → Held whole (if is_empty current then offset else start) (current ++ (byte ∷ [])) bytes
Held-longer whole offset start [] byte bytes h e = e
Held-longer whole offset start (b ∷ current) byte bytes h e =
    h ∙ ap (λ (bs : List ℕ). b ∷ bs) (sym (++_step current byte bytes))

collect_from-IsPlaced :
    (whole : List ℕ) (segment min_run offset start : ℕ) (current bytes : List ℕ)
    → Held whole start current bytes
    → drop offset whole ≡ bytes
    → All (IsPlaced whole) (collect_from segment min_run offset start current bytes)
unfolding collect_from
collect_from-IsPlaced whole segment min_run offset start current [] h e =
    ground (arith, Held-IsPlaced whole segment start current [] h)
collect_from-IsPlaced whole segment min_run offset start current (byte ∷ bytes) h e =
    let start' = if is_empty current then offset else start in
    ground (
      arith,
      Held-IsPlaced whole segment start current (byte ∷ bytes) h,
      collect_from-IsPlaced whole segment min_run (offset + 1) start' (current ++ (byte ∷ [])) bytes
          (Held-longer whole offset start current byte bytes h e)
          (drop_suc offset whole byte bytes e),
      collect_from-IsPlaced whole segment min_run (offset + 1) start [] bytes tt
          (drop_suc offset whole byte bytes e),
    )

-- Each string that `collect_strings` reports stands in the segment at the offset reported with it.
pub collect_strings-IsPlaced :
    (segment : ℕ) (bytes : List ℕ) (min_run : ℕ)
    → All (IsPlaced bytes) (collect_strings segment bytes min_run)
unfolding collect_strings
collect_strings-IsPlaced segment bytes min_run =
    collect_from-IsPlaced bytes segment min_run 0 0 [] bytes tt refl
