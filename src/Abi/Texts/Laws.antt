-- ===== src/Abi/Texts/Laws.antt =====
-- Where a string starts.
use wa_wasm_oracle.Prelude.{
  ℕ, suc, ◌+◌, ◌-◌, ◌≡◌, ◌≤◌, ◌<◌, ◌⊎◌, inl, inr, refl, ap, sym, ◌∙◌, arith, Bool, true, false,
  List, [], ◌∷◌, if◌then◌else◌, length, take, drop, get_or, All, length-take,
}
use wa_wasm_oracle.Prelude.Bytes.{get_or-take}
use wa_wasm_oracle.Prelude.Text.{is_printable}
use wa_wasm_oracle.Abi.Texts.{last_break, string_start}

abbrev pub AllPrintable : List ℕ → Type 0
AllPrintable = All (λ b. is_printable b ≡ true)

-- Either nothing breaks the run, or the last break is known.
LastBreak : List ℕ → ℕ → ℕ → ℕ → Type 0
LastBreak bs i best r =
    ((r ≡ best) × AllPrintable bs)
    ⊎ ((k : ℕ) × (r ≡ suc (i + k))
        × (k < length bs)
        × (is_printable (get_or bs k 0) ≡ false)
        × AllPrintable (drop (suc k) bs))

last_break-LastBreak : (bs : List ℕ) (i best : ℕ) → LastBreak bs i best (last_break bs i best)
unfolding LastBreak
last_break-LastBreak [] i best = inl (refl, tt)
last_break-LastBreak (b ∷ bs) i best = on (last_break-LastBreak bs (suc i)) (is_printable b) refl
  where
    on :
        ((d : ℕ) → LastBreak bs (suc i) d (last_break bs (suc i) d))
        → (x : Bool) → is_printable b ≡ x
        → LastBreak (b ∷ bs) i best (last_break bs (suc i) (if x then best else suc i))
    on later true p = elim (later best) [
      | inl (e, all) ↦ inl (e, (p, all))
      | inr (k, e, lt, broken, all) ↦ inr (suc k, omega (arith, e), omega arith, broken, all)
    ]
    on later false p = elim (later (suc i)) [
      | inl (e, all) ↦ inr (0, omega (arith, e), omega arith, p, all)
      | inr (k, e, lt, broken, all) ↦ inr (suc k, omega (arith, e), omega arith, broken, all)
    ]

-- A string that a match is part of starts at or in front of the match, everything from its start
-- to the match is printable, and it cannot start any earlier: it starts with the segment or behind
-- a byte that is not printable.
pub string_start_lem :
    (contents : List ℕ) (offset : ℕ)
    → (string_start contents offset ≤ offset)
      × AllPrintable (drop (string_start contents offset) (take offset contents))
      × ((string_start contents offset ≡ 0)
          ⊎ (is_printable (get_or contents (string_start contents offset - 1) 0) ≡ false))
unfolding string_start LastBreak
string_start_lem contents offset =
    from (last_break (take offset contents) 0 0) (last_break-LastBreak (take offset contents) 0 0)
  where
    Start : ℕ → Type 0
    Start r =
        (r ≤ offset)
        × AllPrintable (drop r (take offset contents))
        × ((r ≡ 0) ⊎ (is_printable (get_or contents (r - 1) 0) ≡ false))

    from : (r : ℕ) → LastBreak (take offset contents) 0 0 r → Start r
    from r (inl (e, all)) = rw e (omega arith, all, inl refl)
    from r (inr (k, e, lt, broken, all)) =
        let e' : r ≡ suc k = omega (arith, e) in
        let small : k < offset = omega (arith, length-take offset contents) in
        let back : suc k - 1 ≡ k = omega arith in
        rw e' (
          small,
          all,
          inr (
              ap (λ (n : ℕ). is_printable (get_or contents n 0)) back
              ∙ ap is_printable (sym (get_or-take offset contents k small))
              ∙ broken),
        )
