-- ===== src/Wasi/Reads.antt =====
-- What `fd_read` and `fd_seek` do: crates/oracle-core/src/wasi.rs.
use wa_wasm_oracle.Prelude.{
  ℕ, ◌+◌, ◌-◌, ◌^◌, ◌≤◌, ◌<◌, ◌≡◌, ◌⊎◌, refl, ap, ◌∙◌, sym, Bool, true, false, List, [], ◌∷◌, arith,
  length, take, length-take, length-drop, drop, min, leb, inl, inr,
}
use wa_wasm_oracle.Prelude.Int.{ℤ, ◌+ℤ◌, pos_part, neg_part}
use wa_wasm_oracle.Prelude.Result.{Result, ok, err}
use wa_wasm_oracle.Prelude.Words.{u32, add32}
use wa_wasm_oracle.State.Laws.{write_memory-success}
use wa_wasm_oracle.Memory.{Guest, MemError, read}
use wa_wasm_oracle.Memory.Laws.{read-write_same, read-write_disjoint}
use wa_wasm_oracle.State.{HostState, write_memory}
use wa_wasm_oracle.Wasi.Calls.{finished, scatter, seek_position}

-- The two ways a step of the loop goes on to `finished`.
scatter-step :
    (contents : List ℕ) (offset total p len : ℕ) (vs : List (ℕ × ℕ)) (h h' : HostState)
    (offset' total' : ℕ)
    → scatter contents offset total ((p, len) ∷ vs) h ≡ finished h' offset' total'
    → ((length contents ≤ offset) × (h' ≡ h) × (offset' ≡ offset) × (total' ≡ total))
      ⊎ ((h₁ : HostState) × (offset < length contents)
          × (write_memory p (take (min len (length contents - offset)) (drop offset contents)) h
              ≡ ok h₁)
          × (scatter contents
                (offset + min len (length contents - offset))
                (add32 total (u32 (min len (length contents - offset))))
                vs
                h₁
              ≡ finished h' offset' total'))
scatter-step contents offset total p len vs h h' offset' total' e =
    from (leb (length contents) offset) refl
      (write_memory p (take (min len (length contents - offset)) (drop offset contents)) h) refl
  where
    from :
        (b : Bool)
        → leb (length contents) offset ≡ b
        → (r : Result MemError HostState)
        → write_memory p (take (min len (length contents - offset)) (drop offset contents)) h ≡ r
        → ((length contents ≤ offset) × (h' ≡ h) × (offset' ≡ offset) × (total' ≡ total))
          ⊎ ((h₁ : HostState) × (offset < length contents)
              × (write_memory p (take (min len (length contents - offset)) (drop offset contents)) h
                  ≡ ok h₁)
              × (scatter contents
                    (offset + min len (length contents - offset))
                    (add32 total (u32 (min len (length contents - offset))))
                    vs
                    h₁
                  ≡ finished h' offset' total'))
    from true le r is =
        unfold scatter in
        inl (ground arith, ground (arith, e), ground (arith, e), ground (arith, e))
    from false gt (ok h₁) is =
        unfold scatter in inr (h₁, ground (arith, gt), is, ground (arith, gt, is, e))
    from false gt (err x) is = unfold scatter in ground (arith, gt, is, e)

-- From an offset within a file whose bytes can be counted in 32 bits, the loop of `fd_read` moves the
-- offset by the bytes it counts, never past the end of the file, and leaves files and descriptors alone.
pub scatter_lem :
    (contents : List ℕ) (offset total : ℕ) (vs : List (ℕ × ℕ)) (h h' : HostState)
    (offset' total' : ℕ)
    → scatter contents offset total vs h ≡ finished h' offset' total'
    → offset ≤ length contents
    → total + length contents < 2 ^ 32 + offset
    → (offset ≤ offset')
      × (offset' ≤ length contents)
      × (total' + offset ≡ total + offset')
      × (h'.wasi ≡ h.wasi)
unfolding scatter
scatter_lem contents offset total [] h h' offset' total' e fits small = ground (arith, e)
scatter_lem contents offset total ((p, len) ∷ vs) h h' offset' total' e fits small =
    elim (scatter-step contents offset total p len vs h h' offset' total' e) [
      | inl stop ↦ ground (arith, stop)
      | inr (h₁, inside, wrote, rest) ↦
          let n = min len (length contents - offset) in
          let (a, b, c, d) =
            scatter_lem contents (offset + n) (add32 total (u32 n)) vs h₁ h' offset' total' rest
              (omega arith) (omega arith) in
          let same : h₁.wasi ≡ h.wasi =
            ap (λ (s : HostState). s.wasi) ((write_memory-success p _ h h₁ wrote).0) in
          (omega arith, b, omega arith, d ∙ same)
    ]

-- Where the sum of base and delta fits `i64`, the position is that sum, or 0 where it is negative.
pub seek_position_lem :
    (base delta : ℤ)
    → pos_part base + pos_part delta < 2 ^ 63
    → neg_part base + neg_part delta ≤ 2 ^ 63
    → seek_position base delta ≡ pos_part (base +ℤ delta)
unfolding seek_position ◌+ℤ◌
seek_position_lem base delta up down = ground arith

-- A span that meets none of the vectors.
abbrev pub ApartFrom : ℕ → ℕ → List (ℕ × ℕ) → Type 0
ApartFrom q m [] = Unit
ApartFrom q m ((p, len) ∷ vs) = ((q + m ≤ p) ⊎ (p + len ≤ q)) × ApartFrom q m vs

-- No two vectors overlap.
abbrev pub Separate : List (ℕ × ℕ) → Type 0
Separate [] = Unit
Separate ((p, len) ∷ vs) = ApartFrom p len vs × Separate vs

-- The vectors hold the file's bytes from the offset on, one vector after the other, until the
-- file ends.
abbrev pub Delivered : Guest → List ℕ → ℕ → List (ℕ × ℕ) → Type 0
Delivered g contents offset [] = Unit
Delivered g contents offset ((p, len) ∷ vs) =
    let n = min len (length contents - offset) in
    (offset < length contents → read g p n ≡ ok (take n (drop offset contents)))
    × Delivered g contents (offset + n) vs

Delivered-ended :
    (g : Guest) (contents : List ℕ) (offset : ℕ) (vs : List (ℕ × ℕ))
    → length contents ≤ offset
    → Delivered g contents offset vs
Delivered-ended g contents offset [] h = tt
Delivered-ended g contents offset ((p, len) ∷ vs) h = (
  λ lt. absurd (omega arith),
  Delivered-ended g contents (offset + min len (length contents - offset)) vs (omega arith),
)

-- A shorter span is apart as well.
apart_narrow : (q m n : ℕ) (vs : List (ℕ × ℕ)) → n ≤ m → ApartFrom q m vs → ApartFrom q n vs
apart_narrow q m n [] h a = tt
apart_narrow q m n ((p, len) ∷ vs) h (a, rest) = (ground (arith, a), apart_narrow q m n vs h rest)

scatter-keeps :
    (contents : List ℕ) (offset total : ℕ) (vs : List (ℕ × ℕ)) (h h' : HostState)
    (offset' total' q m : ℕ)
    → scatter contents offset total vs h ≡ finished h' offset' total'
    → ApartFrom q m vs
    → read h'.guest q m ≡ read h.guest q m
scatter-keeps contents offset total [] h h' offset' total' q m e apart =
    unfold scatter in ground (arith, e)
scatter-keeps contents offset total ((p, len) ∷ vs) h h' offset' total' q m e (apart, later) =
    elim (scatter-step contents offset total p len vs h h' offset' total' e) [
      | inl stop ↦ ap (λ (s : HostState). read s.guest q m) (stop.1)
      | inr (h₁, inside, wrote, rest) ↦
          let n = min len (length contents - offset) in
          scatter-keeps contents (offset + n) (add32 total (u32 n)) vs h₁ h' offset' total' q m rest
            later
          ∙ read-write_disjoint h.guest h₁.guest p q m (take n (drop offset contents))
              ((write_memory-success p _ h h₁ wrote).1)
              (omega (arith, apart, length-take n (drop offset contents)))
    ]

-- After the loop of `fd_read` over vectors that do not overlap, they hold consecutive bytes of the
-- file from the offset on.
pub scatter-delivers :
    (contents : List ℕ) (offset total : ℕ) (vs : List (ℕ × ℕ)) (h h' : HostState)
    (offset' total' : ℕ)
    → scatter contents offset total vs h ≡ finished h' offset' total'
    → Separate vs
    → Delivered h'.guest contents offset vs
scatter-delivers contents offset total [] h h' offset' total' e sep = tt
scatter-delivers contents offset total ((p, len) ∷ vs) h h' offset' total' e (apart, sep) =
    elim (scatter-step contents offset total p len vs h h' offset' total' e) [
      | inl stop ↦ Delivered-ended h'.guest contents offset ((p, len) ∷ vs) (stop.0)
      | inr (h₁, inside, wrote, rest) ↦
          let n = min len (length contents - offset) in
          (
            λ lt.
                (let piece = take n (drop offset contents) in
                  let long : length piece ≡ n =
                    omega
                      (arith, length-take n (drop offset contents), length-drop offset contents) in
                  scatter-keeps contents (offset + n) (add32 total (u32 n)) vs h₁ h' offset' total'
                    p n rest (apart_narrow p len n vs (omega arith) apart)
                  ∙ ap (λ (k : ℕ). read h₁.guest p k) (sym long)
                  ∙ read-write_same h.guest h₁.guest p piece
                      ((write_memory-success p _ h h₁ wrote).1)),
            scatter-delivers contents (offset + n) (add32 total (u32 n)) vs h₁ h' offset' total'
                rest sep,
          )
    ]
