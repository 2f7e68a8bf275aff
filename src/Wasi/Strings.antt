-- ===== src/Wasi/Strings.antt =====
-- The arguments and the environment in guest memory: `write_string_list` and `list_sizes` of
-- crates/oracle-core/src/wasi.rs.
use wa_wasm_oracle.Prelude.{
  ℕ, ◌+◌, ◌*◌, ◌^◌, ◌≤◌, ◌<◌, ◌≡◌, ◌⊎◌, inl, refl, ap, subst, ◌∙◌, sym, List, [], ◌∷◌, ◌++◌, arith,
  length, length-append,
}
use wa_wasm_oracle.Prelude.Result.{Result, ok, err}
use wa_wasm_oracle.Prelude.Words.{u32, add32, le_bytes}
use wa_wasm_oracle.Memory.{Guest, MemError, read, read_u32}
use wa_wasm_oracle.Memory.Laws.{read-write_same, read-write_disjoint, read_u32-write}
use wa_wasm_oracle.State.{HostState, write_memory, write_u32}
use wa_wasm_oracle.State.Laws.{write_memory-success}
use wa_wasm_oracle.Wasi.{Errno, success, inval}
use wa_wasm_oracle.Wasi.Calls.{write_entries, total_size}

-- What a successful step of `write_string_list` did.
write_entries-success :
    (entry : List ℕ) (entries : List (List ℕ)) (ptrs index cursor : ℕ) (h h' : HostState)
    → write_entries (entry ∷ entries) ptrs index cursor h ≡ (h', success)
    → (h₁ h₂ : HostState) × (write_u32 (add32 ptrs (index * 4)) cursor h ≡ ok h₁)
      × (write_memory cursor (entry ++ (0 ∷ [])) h₁ ≡ ok h₂)
      × (write_entries entries ptrs (index + 1) (add32 cursor (u32 (length entry + 1))) h₂
          ≡ (h', success))
write_entries-success entry entries ptrs index cursor h h' e =
    from (write_u32 (add32 ptrs (index * 4)) cursor h) refl
  where
    then_string :
        (h₁ : HostState) (r : Result MemError HostState)
        → write_u32 (add32 ptrs (index * 4)) cursor h ≡ ok h₁
        → write_memory cursor (entry ++ (0 ∷ [])) h₁ ≡ r
        → (h₁ h₂ : HostState) × (write_u32 (add32 ptrs (index * 4)) cursor h ≡ ok h₁)
          × (write_memory cursor (entry ++ (0 ∷ [])) h₁ ≡ ok h₂)
          × (write_entries entries ptrs (index + 1) (add32 cursor (u32 (length entry + 1))) h₂
              ≡ (h', success))
    then_string h₁ (ok h₂) a b = (h₁, h₂, a, b, unfold write_entries in ground (arith, a, b, e))
    then_string h₁ (err x) a b = unfold write_entries in ground (arith, a, b, e)

    from :
        (r : Result MemError HostState)
        → write_u32 (add32 ptrs (index * 4)) cursor h ≡ r
        → (h₁ h₂ : HostState) × (write_u32 (add32 ptrs (index * 4)) cursor h ≡ ok h₁)
          × (write_memory cursor (entry ++ (0 ∷ [])) h₁ ≡ ok h₂)
          × (write_entries entries ptrs (index + 1) (add32 cursor (u32 (length entry + 1))) h₂
              ≡ (h', success))
    from (ok h₁) a = then_string h₁ (write_memory cursor (entry ++ (0 ∷ [])) h₁) a refl
    from (err x) a = unfold write_entries in ground (arith, a, e)

pub write_entries-wasi :
    (entries : List (List ℕ)) (ptrs index cursor : ℕ) (h : HostState)
    → (write_entries entries ptrs index cursor h).0.wasi ≡ h.wasi
unfolding write_entries
write_entries-wasi [] ptrs index cursor h = refl
write_entries-wasi (entry ∷ entries) ptrs index cursor h =
    from (write_u32 (add32 ptrs (index * 4)) cursor h) refl
      (λ h₂. write_entries-wasi entries ptrs (index + 1) (add32 cursor (u32 (length entry + 1))) h₂)
  where
    Rest : Type 0
    Rest =
        (h₂ : HostState)
        → (write_entries entries ptrs (index + 1) (add32 cursor (u32 (length entry + 1))) h₂).0.wasi
          ≡ h₂.wasi

    then_string :
        (h₁ : HostState) (r : Result MemError HostState)
        → write_u32 (add32 ptrs (index * 4)) cursor h ≡ ok h₁
        → write_memory cursor (entry ++ (0 ∷ [])) h₁ ≡ r
        → Rest
        → (elim r as (λ x. HostState × Errno) [
          | err e ↦ (h₁, inval)
          | ok h'' ↦
              write_entries entries ptrs (index + 1) (add32 cursor (u32 (length entry + 1))) h''
        ]).0.wasi
          ≡ h.wasi
    then_string h₁ (err x) a b rest =
        ap (λ (s : HostState). s.wasi) ((write_memory-success _ _ h h₁ a).0)
    then_string h₁ (ok h₂) a b rest =
        rest h₂
        ∙ ap (λ (s : HostState). s.wasi) ((write_memory-success _ _ h₁ h₂ b).0)
        ∙ ap (λ (s : HostState). s.wasi) ((write_memory-success _ _ h h₁ a).0)

    from :
        (r : Result MemError HostState)
        → write_u32 (add32 ptrs (index * 4)) cursor h ≡ r
        → Rest
        → (elim r as (λ x. HostState × Errno) [
          | err e ↦ (h, inval)
          | ok h' ↦ elim (write_memory cursor (entry ++ (0 ∷ [])) h') [
            | err e ↦ (h', inval)
            | ok h'' ↦
                write_entries entries ptrs (index + 1) (add32 cursor (u32 (length entry + 1))) h''
          ]
        ]).0.wasi
          ≡ h.wasi
    from (err x) a rest = refl
    from (ok h₁) a rest = then_string h₁ (write_memory cursor (entry ++ (0 ∷ [])) h₁) a refl rest

-- Memory outside the pointer table and the string buffer keeps its bytes.
write_entries-keeps :
    (entries : List (List ℕ)) (ptrs index cursor : ℕ) (h h' : HostState) (q m : ℕ)
    → write_entries entries ptrs index cursor h ≡ (h', success)
    → ptrs + 4 * (index + length entries) < 2 ^ 32
    → cursor + total_size entries < 2 ^ 32
    → (q + m ≤ ptrs + 4 * index) ⊎ (ptrs + 4 * (index + length entries) ≤ q)
    → (q + m ≤ cursor) ⊎ (cursor + total_size entries ≤ q)
    → read h'.guest q m ≡ read h.guest q m
write_entries-keeps [] ptrs index cursor h h' q m e tab buf t b =
    unfold write_entries in ground (arith, e)
write_entries-keeps (entry ∷ entries) ptrs index cursor h h' q m e tab buf t b =
    let (h₁, h₂, wp, ws, rest) = write_entries-success entry entries ptrs index cursor h h' e in
    let next : add32 cursor (u32 (length entry + 1)) ≡ cursor + (length entry + 1) = omega arith in
    write_entries-keeps entries ptrs (index + 1) (add32 cursor (u32 (length entry + 1))) h₂ h' q m
      rest (omega arith) (omega arith) (ground (arith, t)) (ground (arith, b, next))
    ∙ read-write_disjoint h₁.guest h₂.guest cursor q m (entry ++ (0 ∷ []))
        ((write_memory-success _ _ h₁ h₂ ws).1) (ground (arith, b, length-append entry (0 ∷ [])))
    ∙ read-write_disjoint h.guest h₁.guest (add32 ptrs (index * 4)) q m (le_bytes 4 cursor)
        ((write_memory-success _ _ h h₁ wp).1) (ground (arith, t))

-- A table of pointers from the entry `index` on, each to its string with a NUL behind it.
abbrev pub Listed : Guest → List (List ℕ) → ℕ → ℕ → ℕ → Type 0
Listed g [] ptrs index cursor = Unit
Listed g (entry ∷ entries) ptrs index cursor =
    (read_u32 g (ptrs + 4 * index) ≡ ok cursor)
    × (read g cursor (length entry + 1) ≡ ok (entry ++ (0 ∷ [])))
    × Listed g entries ptrs (index + 1) (cursor + (length entry + 1))

read_u32-same : (g g' : Guest) (p : ℕ) → read g p 4 ≡ read g' p 4 → read_u32 g p ≡ read_u32 g' p
unfolding read_u32
read_u32-same g g' p e = ground (arith, e)

-- After `args_get` or `environ_get` succeeds, with the pointer table and the string buffer apart and
-- both below 2^32, each pointer of the table reads back as the place of its string, and the string stands there.
pub write_entries-Listed :
    (entries : List (List ℕ)) (ptrs index cursor : ℕ) (h h' : HostState)
    → write_entries entries ptrs index cursor h ≡ (h', success)
    → ptrs + 4 * (index + length entries) < 2 ^ 32
    → cursor + total_size entries < 2 ^ 32
    → (cursor + total_size entries ≤ ptrs + 4 * index)
      ⊎ (ptrs + 4 * (index + length entries) ≤ cursor)
    → Listed h'.guest entries ptrs index cursor
write_entries-Listed [] ptrs index cursor h h' e tab buf apart = tt
write_entries-Listed (entry ∷ entries) ptrs index cursor h h' e tab buf apart =
    let (h₁, h₂, wp, ws, rest) = write_entries-success entry entries ptrs index cursor h h' e in
    let next : add32 cursor (u32 (length entry + 1)) ≡ cursor + (length entry + 1) = omega arith in
    let place : add32 ptrs (index * 4) ≡ ptrs + 4 * index = omega arith in
    let after : ℕ = add32 cursor (u32 (length entry + 1)) in
    let long : length (entry ++ (0 ∷ [])) ≡ length entry + 1 =
      omega (arith, length-append entry (0 ∷ [])) in
    let pointer : read_u32 h'.guest (ptrs + 4 * index) ≡ ok cursor =
      (read_u32-same h'.guest h₁.guest (ptrs + 4 * index) (
          write_entries-keeps entries ptrs (index + 1) after h₂ h' (ptrs + 4 * index) 4 rest
            (omega arith) (omega arith) (inl (omega arith)) (ground (arith, apart, next))
          ∙ read-write_disjoint h₁.guest h₂.guest cursor (ptrs + 4 * index) 4 (entry ++ (0 ∷ []))
              ((write_memory-success _ _ h₁ h₂ ws).1) (ground (arith, apart, long)))
        ∙ ap (λ (p : ℕ). read_u32 h₁.guest p) (sym place)
        ∙ read_u32-write h.guest h₁.guest (add32 ptrs (index * 4)) cursor (omega arith)
            ((write_memory-success _ _ h h₁ wp).1)) in
    let string : read h'.guest cursor (length entry + 1) ≡ ok (entry ++ (0 ∷ [])) =
      (write_entries-keeps entries ptrs (index + 1) after h₂ h' cursor (length entry + 1) rest
          (omega arith) (omega arith) (ground (arith, apart)) (inl (omega arith))
        ∙ ap (λ (k : ℕ). read h₂.guest cursor k) (sym long)
        ∙ read-write_same h₁.guest h₂.guest cursor (entry ++ (0 ∷ []))
            ((write_memory-success _ _ h₁ h₂ ws).1)) in
    (
      pointer,
      string,
      subst (λ (c : ℕ). Listed h'.guest entries ptrs (index + 1) c) next
          (write_entries-Listed entries ptrs (index + 1) after h₂ h' rest (omega arith)
            (omega arith) (ground (arith, apart, next))),
    )
