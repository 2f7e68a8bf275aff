-- ===== src/Call/Strings.antt =====
-- The layout of `std::string` arguments: `write_std_string` and `read_std_string` of
-- crates/oracle-core/src/call.rs.
use wa_wasm_oracle.Prelude.{
  ℕ, ◌+◌, ◌^◌, ◌≤◌, ◌<◌, ◌≡◌, ◌≢◌, refl, ap, ◌∙◌, sym, List, [], ◌∷◌, ◌++◌, arith, length,
}
use wa_wasm_oracle.Prelude.Result.{Result, ok, err}
use wa_wasm_oracle.Prelude.Text.{IsAscii, from_utf8_lossy-ascii}
use wa_wasm_oracle.Prelude.Words.{u32, add32, le_bytes, of_le_bytes-le_bytes_4}
use wa_wasm_oracle.Memory.{Guest, MemError, read, read_u32, write}
use wa_wasm_oracle.Memory.Parts.{read-write_part}
use wa_wasm_oracle.State.Laws.{write_memory-success}
use wa_wasm_oracle.State.{HostState, write_memory}
use wa_wasm_oracle.Call.{Guests, CallError, malloc, max_string, read_std_string, write_std_string}

read_u32-prefix :
    (g g' : Guest) (ptr v : ℕ) (rest : List ℕ)
    → v < 2 ^ 32
    → write g ptr (le_bytes 4 v ++ rest) ≡ ok g'
    → read_u32 g' ptr ≡ ok v
unfolding read_u32
read_u32-prefix g g' ptr v rest small e =
    let e0 : ptr + 0 ≡ ptr = omega arith in
    let four : read g' ptr 4 ≡ ok (le_bytes 4 v) =
      ap (λ (p : ℕ). read g' p 4) (sym e0) ∙ read-write_part g g' ptr [] (le_bytes 4 v) rest e in
    ground (arith, four, of_le_bytes-le_bytes_4 v small)

-- What a successful `write_std_string` wrote.
write_std_string-success :
    (g : Guests) (text : List ℕ) (h h' : HostState) (ptr : ℕ)
    → write_std_string g text h ≡ (h', ok ptr)
    → (h₁ : HostState) × (write_memory ptr (le_bytes 4 (u32 (length text)) ++ (text ++ (0 ∷ []))) h₁
        ≡ ok h')
write_std_string-success g text h h' ptr e =
    from (malloc g (add32 4 (u32 (length text) + 1)) h) refl
  where
    block : List ℕ
    block = le_bytes 4 (u32 (length text)) ++ (text ++ (0 ∷ []))

    wrote :
        (h₁ : HostState) (p : ℕ) (r : Result MemError HostState)
        → malloc g (add32 4 (u32 (length text) + 1)) h ≡ (h₁, ok p)
        → write_memory p block h₁ ≡ r
        → (h₁ : HostState) × (write_memory ptr block h₁ ≡ ok h')
    wrote h₁ p (ok h₂) a w = (h₁, unfold write_std_string in ground (arith, a, w, e))
    wrote h₁ p (err x) a w = unfold write_std_string in ground (arith, a, w, e)

    from :
        (r : HostState × Result CallError ℕ)
        → malloc g (add32 4 (u32 (length text) + 1)) h ≡ r
        → (h₁ : HostState) × (write_memory ptr block h₁ ≡ ok h')
    from (h₁, ok p) a = wrote h₁ p (write_memory p block h₁) a refl
    from (h₁, err x) a = unfold write_std_string in ground (arith, a, e)

-- An ASCII string of at most 16 MiB that was written as an argument reads back as that string, where
-- its block ends below 2^32.
pub read_std_string-write_std_string :
    (g : Guests) (text : List ℕ) (h h' : HostState) (ptr : ℕ)
    → IsAscii text
    → length text ≤ max_string
    → ptr ≢ 0
    → ptr + length text + 5 < 2 ^ 32
    → write_std_string g text h ≡ (h', ok ptr)
    → read_std_string ptr h' ≡ (h', ok text)
unfolding read_std_string
read_std_string-write_std_string g text h h' ptr ascii short there fits e =
    let (h₁, w) = write_std_string-success g text h h' ptr e in
    let wrote = (write_memory-success _ _ h₁ h' w).1 in
    let count : u32 (length text) ≡ length text = omega arith in
    let place : add32 ptr 4 ≡ ptr + 4 = omega arith in
    let len : read_u32 h'.guest ptr ≡ ok (length text) =
      read_u32-prefix h₁.guest h'.guest ptr (u32 (length text)) (text ++ (0 ∷ [])) (omega arith)
        wrote
      ∙ ap ok count in
    let body : read h'.guest (add32 ptr 4) (length text) ≡ ok text =
      ap (λ (p : ℕ). read h'.guest p (length text)) place
      ∙ read-write_part h₁.guest h'.guest ptr (le_bytes 4 (u32 (length text))) text (0 ∷ [])
          wrote in
    ground (arith, len, body, from_utf8_lossy-ascii text ascii)
