-- ===== src/Inspect.antt =====
-- The pure parts of a report on a module: crates/oracle-core/src/inspect.rs without `parse`, which
-- reads wasmparser's sections.
pub mod Laws
mod Tests
use wa_wasm_oracle.Prelude.{
  ℕ, suc, ◌+◌, Bool, true, false, List, [], ◌∷◌, ◌++◌, Option, none, some, leb, if◌then◌else◌,
  length, get_elem?, map,
}
use wa_wasm_oracle.Prelude.Sort.{decimal, sort_by}
use wa_wasm_oracle.Prelude.Text.{codes, bytes_eq, is_printable}
use wa_wasm_oracle.Abi.Evidence.{join}
use wa_wasm_oracle.Exports.{ValType, i32_type, i64_type, f32_type, f64_type, v128_type, ref_type}
use wa_wasm_oracle.Runtime.Stubs.{hotter}

pub data EntryKind : Type 0 where
  func_entry : List ℕ → EntryKind
  memory_entry : ℕ → Option ℕ → Bool → EntryKind
  table_entry : ℕ → Option ℕ → EntryKind
  global_entry : EntryKind

-- `DisplayMax`; the sign for infinity is three bytes.
abbrev pub max_text : Option ℕ → List ℕ
max_text (some limit) = decimal limit
max_text none = 0xe2 ∷ 0x88 ∷ 0x9e ∷ []

abbrev pub limits_text : ℕ → Option ℕ → List ℕ
limits_text least limit = decimal least ++ (codes ".." ++ max_text limit)

-- `Display for EntryKind`
unfoldable pub kind_text : EntryKind → List ℕ
kind_text (func_entry signature) = codes "func " ++ signature
kind_text (memory_entry least limit shared) =
    codes "memory"
    ++ ((if shared then codes " shared" else []) ++ (codes " " ++ limits_text least limit))
kind_text (table_entry least limit) = codes "table " ++ limits_text least limit
kind_text global_entry = codes "global"

pub record ImportEntry : Type 0 where
  pub module_name : List ℕ
  pub name : List ℕ
  pub kind : EntryKind

-- One more import of a module: at its first entry, or behind the others.
abbrev pub add_import : List ℕ → List (List ℕ × ℕ) → List (List ℕ × ℕ)
add_import from_module [] = (from_module, 1) ∷ []
add_import from_module ((name, count) ∷ grouped) =
    if bytes_eq name from_module
    then (name, count + 1) ∷ grouped
    else (name, count) ∷ add_import from_module grouped

abbrev pub group_imports : List ImportEntry → List (List ℕ × ℕ) → List (List ℕ × ℕ)
group_imports [] grouped = grouped
group_imports (i ∷ imports) grouped = group_imports imports (add_import i.module_name grouped)

-- `Inspection::import_modules`: the order is that of `hot_calls`.
unfoldable pub import_modules : List ImportEntry → List (List ℕ × ℕ)
import_modules imports = sort_by hotter (group_imports imports [])

-- `note_requirement`, where the one requirement that there is may be noted.
pub data Requirement : Type 0 where
  threads : Requirement

unfoldable pub note_requirement : List Requirement → Requirement → List Requirement
note_requirement [] requirement = requirement ∷ []
note_requirement (threads ∷ requires) threads = threads ∷ requires

unfoldable pub signature_of : List (List ℕ) → ℕ → List ℕ
signature_of signatures index = elim (get_elem? signatures index) [
  | some text ↦ text
  | none ↦ codes "?"
]

abbrev pub format_val : ValType → List ℕ
format_val i32_type = codes "i32"
format_val i64_type = codes "i64"
format_val f32_type = codes "f32"
format_val f64_type = codes "f64"
format_val v128_type = codes "v128"
format_val ref_type = codes "ref"

abbrev pub type_list : List ValType → List ℕ
type_list types = join (codes ", ") (map format_val types)

abbrev pub with_results : List ValType → List ℕ → List ℕ
with_results [] text = text
with_results (t ∷ types) text = text ++ (codes " -> " ++ type_list (t ∷ types))

-- `none` is a type that is not a function's.
unfoldable pub format_composite : Option (List ValType × List ValType) → List ℕ
format_composite none = codes "(non-function type)"
format_composite (some (params, results)) =
    with_results results (codes "(" ++ (type_list params ++ codes ")"))

abbrev pub shortest_run : ℕ
shortest_run = 3

abbrev pub kept_run : List ℕ → List (List ℕ) → List (List ℕ)
kept_run current found = if leb shortest_run (length current) then current ∷ found else found

-- `producer_strings`, with the run that the walk is in.
abbrev pub producer_runs : List ℕ → List ℕ → List (List ℕ)
producer_runs current [] = kept_run current []
producer_runs current (b ∷ bytes) = elim (is_printable b) [
  | true ↦ producer_runs (current ++ (b ∷ [])) bytes
  | false ↦ kept_run current (producer_runs [] bytes)
]

unfoldable pub producer_strings : List ℕ → List (List ℕ)
producer_strings bytes = producer_runs [] bytes
