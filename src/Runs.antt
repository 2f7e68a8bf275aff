-- ===== src/Runs.antt =====
-- Printable runs of bytes: `collect_strings` of crates/oracle-core/src/data.rs and `split_lines` of
-- crates/oracle-core/src/runtime.rs.
mod Tests
pub mod Laws
use wa_wasm_oracle.Prelude.{
  ℕ, ◌+◌, Bool, true, false, List, [], ◌∷◌, ◌++◌, leb, ◌==◌, if◌then◌else◌, length, ◌||◌, ◌&&◌, not,
}
use wa_wasm_oracle.Prelude.Text.{is_printable}

-- `MIN_LINE`
abbrev pub min_line : ℕ
min_line = 8

-- The loop of `split_lines` with what `current` holds, and what it pushes.
unfoldable pub split_from : List ℕ → List ℕ → List (List ℕ)
split_from current [] = if leb min_line (length current) then current ∷ [] else []
split_from current (byte ∷ raw) =
    let longer = split_from (current ++ (byte ∷ [])) raw in
    let fresh = split_from [] raw in
    if is_printable byte
    then longer
    else if leb min_line (length current)
    then current ∷ fresh
    else fresh

unfoldable pub split_lines : List ℕ → List (List ℕ)
unfolding split_from
split_lines raw = split_from [] raw

pub record DataString : Type 0 where
  pub segment : ℕ
  pub offset : ℕ
  pub value : List ℕ

abbrev pub is_empty : List ℕ → Bool
is_empty [] = true
is_empty (b ∷ bs) = false

-- The loop of `collect_strings` from `offset` on, with the run's start and bytes.
unfoldable pub collect_from : ℕ → ℕ → ℕ → ℕ → List ℕ → List ℕ → List DataString
collect_from segment min_run offset start current [] =
    if leb min_run (length current)
    then record { segment = segment; offset = start; value = current } ∷ []
    else []
collect_from segment min_run offset start current (byte ∷ bytes) =
    let start' = if is_empty current then offset else start in
    let longer = collect_from segment min_run (offset + 1) start' (current ++ (byte ∷ [])) bytes in
    let fresh = collect_from segment min_run (offset + 1) start [] bytes in
    if is_printable byte
    then longer
    else if leb min_run (length current)
    then record { segment = segment; offset = start; value = current } ∷ fresh
    else fresh

unfoldable pub collect_strings : ℕ → List ℕ → ℕ → List DataString
unfolding collect_from
collect_strings segment bytes min_run = collect_from segment min_run 0 0 [] bytes
