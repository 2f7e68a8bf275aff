-- ===== src/Abi/Texts.antt =====
-- Strings of a module and the code that reaches for them: `find_string_refs`,
-- `find_pointer_slots`, `read_string_table` and `static_string` of
-- crates/oracle-core/src/abi.rs.
pub mod Laws
pub mod Slots
use wa_wasm_oracle.Prelude.{
  ℕ, zero, suc, ◌+◌, ◌-◌, ◌*◌, ◌%◌, Bool, true, false, ◌&&◌, List, [], ◌∷◌, ◌++◌, Option, none,
  some, ltb, leb, ◌==◌, if◌then◌else◌, length, take, drop,
}
use wa_wasm_oracle.Prelude.Map.{nat_ord, lookup, insert, contains_key}
use wa_wasm_oracle.Prelude.Result.{Result, ok, err, ◌>>=◌}
use wa_wasm_oracle.Prelude.Text.{bytes_eq, is_printable, starts_with}
use wa_wasm_oracle.Prelude.Words.{add32, le_bytes, of_le_bytes, u32}
use wa_wasm_oracle.Abi.{
  Operator, i32_const, Reader, Body, Payload, AbiError, panicked, for_each_operator,
}
use wa_wasm_oracle.Abi.Layout.{Layout, read}
use wa_wasm_oracle.Abi.Render.{static_text, run_at}
use wa_wasm_oracle.Abi.Search.{visit_bodies}

unfoldable pub static_string : Reader Payload → ℕ → Result AbiError (Option (List ℕ))
unfolding read static_text
static_string payloads addr = read payloads >>= λ m. ok (static_text m.data_segments addr)

-- The offsets of the windows that equal the pattern.
abbrev pub match_offsets : List ℕ → ℕ → List ℕ → List ℕ
match_offsets pattern_bytes i [] = []
match_offsets pattern_bytes i (b ∷ bs) =
    let more = match_offsets pattern_bytes (suc i) bs in
    if starts_with pattern_bytes (b ∷ bs) then i ∷ more else more

-- One behind the last byte that is not printable, and `best` if there is none.
abbrev pub last_break : List ℕ → ℕ → ℕ → ℕ
last_break [] i best = best
last_break (b ∷ bs) i best = last_break bs (suc i) (if is_printable b then best else suc i)

unfoldable pub string_start : List ℕ → ℕ → ℕ
string_start contents offset = last_break (take offset contents) 0 0

abbrev pub add_matches : ℕ → List ℕ → List ℕ → List (ℕ × List ℕ) → List (ℕ × List ℕ)
add_matches base contents [] wanted = wanted
add_matches base contents (offset ∷ offsets) wanted =
    let start = string_start contents offset in
    add_matches base contents offsets (insert (add32 base start) (run_at contents start) wanted)

-- `contents.windows(0)` panics.
abbrev pub find_wanted :
    List ℕ → List (ℕ × List ℕ) → List (ℕ × List ℕ) → Result AbiError (List (ℕ × List ℕ))
find_wanted needle [] wanted = ok wanted
find_wanted [] (s ∷ segments) wanted = err panicked
find_wanted (n ∷ needle) ((base, contents) ∷ segments) wanted =
    find_wanted (n ∷ needle) segments
      (add_matches base contents (match_offsets (n ∷ needle) 0 contents) wanted)

-- `if entry.last() != Some(&func) { entry.push(func) }`
abbrev pub push_once : ℕ → List ℕ → List ℕ
push_once function [] = function ∷ []
push_once function (f ∷ []) = if f == function then f ∷ [] else f ∷ function ∷ []
push_once function (f ∷ g ∷ fs) = f ∷ push_once function (g ∷ fs)

abbrev pub entry_of : ℕ → List (ℕ × List ℕ) → List ℕ
entry_of address refs = elim (lookup address refs) [ some entry ↦ entry | none ↦ [] ]

abbrev pub add_ref :
    List (ℕ × List ℕ) → ℕ → Operator → List (ℕ × List ℕ) → Result AbiError (List (ℕ × List ℕ))
add_ref wanted function (i32_const value) refs = ok (
    if contains_key value wanted
    then insert value (push_once function (entry_of value refs)) refs
    else refs)
add_ref wanted function _ refs = ok refs

abbrev pub add_refs :
    List (ℕ × List ℕ) → ℕ → Body → List (ℕ × List ℕ) → Result AbiError (List (ℕ × List ℕ))
add_refs wanted function body refs = for_each_operator (add_ref wanted function) body refs

-- The word-aligned positions behind an offset that hold the needle, four bytes at a time.
abbrev pub slots_in : ℕ → List ℕ → ℕ → List ℕ → List ℕ
slots_in base needle offset (a ∷ b ∷ c ∷ d ∷ bytes) =
    let more = slots_in base needle (offset + 4) bytes in
    if bytes_eq (a ∷ b ∷ c ∷ d ∷ []) needle then add32 base offset ∷ more else more
slots_in base needle offset _ = []

-- `base.next_multiple_of(4) - base`
abbrev pub pad_to_word : ℕ → ℕ
pad_to_word base = (4 - base % 4) % 4

unfoldable pub find_pointer_slots : List (ℕ × List ℕ) → ℕ → List ℕ
find_pointer_slots [] target = []
find_pointer_slots ((base, contents) ∷ segments) target =
    slots_in base (le_bytes 4 target) (pad_to_word base) (drop (pad_to_word base) contents)
    ++ find_pointer_slots segments target

pub record StringRef : Type 0 where
  pub address : ℕ
  pub text : List ℕ
  pub referenced_by : List ℕ
  pub pointer_slots : List ℕ

abbrev pub slots_unless : List ℕ → List (ℕ × List ℕ) → ℕ → List ℕ
slots_unless [] segments address = find_pointer_slots segments address
slots_unless (f ∷ fs) segments address = []

abbrev pub string_refs : List (ℕ × List ℕ) → List (ℕ × List ℕ) → List (ℕ × List ℕ) → List StringRef
string_refs segments refs [] = []
string_refs segments refs ((address, text) ∷ wanted) =
    record {
      address = address;
      text = text;
      referenced_by = entry_of address refs;
      pointer_slots = slots_unless (entry_of address refs) segments address;
    }
    ∷ string_refs segments refs wanted

abbrev pub refs_of : Reader Payload → Layout → List (ℕ × List ℕ) → Result AbiError (List StringRef)
refs_of payloads m [] = ok []
refs_of payloads m (w ∷ wanted) =
    visit_bodies (add_refs (w ∷ wanted)) m.imported_funcs payloads [] >>= λ refs.
    ok (string_refs m.data_segments refs (w ∷ wanted))

unfoldable pub find_string_refs : Reader Payload → List ℕ → Result AbiError (List StringRef)
unfolding read string_start find_pointer_slots
find_string_refs payloads needle =
    read payloads >>= λ m. find_wanted needle m.data_segments [] >>= refs_of payloads m

abbrev pub holds_word : ℕ → ℕ × List ℕ → Bool
holds_word addr (base, contents) = leb base addr && leb (addr - base + 4) (length contents)

unfoldable pub word_at : List (ℕ × List ℕ) → ℕ → Option ℕ
word_at [] addr = none
word_at ((base, contents) ∷ segments) addr =
    if holds_word addr (base, contents)
    then some (of_le_bytes (take 4 (drop (addr - base) contents)))
    else word_at segments addr

abbrev pub entry_text : List (ℕ × List ℕ) → Option ℕ → Option (List ℕ)
entry_text segments (some addr) = static_text segments addr
entry_text segments none = none

-- `index` counts from the first entry; `base + index * 4` is a sum of `u32`.
abbrev pub table_entries : List (ℕ × List ℕ) → ℕ → ℕ → ℕ → List (Option (List ℕ))
table_entries segments base index zero = []
table_entries segments base index (suc count) =
    entry_text segments (word_at segments (add32 base (u32 (index * 4))))
    ∷ table_entries segments base (suc index) count

unfoldable pub read_string_table : Reader Payload → ℕ → ℕ → Result AbiError (List (Option (List ℕ)))
unfolding read word_at static_text
read_string_table payloads base count =
    read payloads >>= λ m. ok (table_entries m.data_segments base 0 count)
