-- ===== src/Abi/Layout.antt =====
-- The parts of a module that the readers of a body need: `Layout`, `const_offset` and
-- `resolve_passive_segments` of crates/oracle-core/src/abi.rs.
pub mod Segments
pub mod Table
use wa_wasm_oracle.Prelude.{
  ℕ, suc, zero, ◌-◌, ◌+◌, Bool, ◌&&◌, List, [], ◌∷◌, ◌++◌, Option, none, some, ltb, leb, ◌==◌,
  if◌then◌else◌, length, get_elem?, take, drop,
}
use wa_wasm_oracle.Prelude.Map.{nat_ord, lookup, insert}
use wa_wasm_oracle.Prelude.Result.{Result, ok, err, ◌>>=◌}
use wa_wasm_oracle.Prelude.Sort.{decimal}
use wa_wasm_oracle.Prelude.Text.{codes}
use wa_wasm_oracle.Prelude.Words.{add32}
use wa_wasm_oracle.Abi.{
  Operator, i32_const, memory_init, Reader, Body, CompositeType, func_type, other_type, TypeRef,
  func, func_exact, other_ref, Import, ExternalKind, func_kind, other_kind, Export, ElementKind,
  active_element, other_element, ElementItems, functions, expressions, Element, DataKind,
  active_data, passive_data, Segment, Payload, type_section, import_section, function_section,
  export_section, element_section, data_section, code_section_entry, AbiError, for_each,
  for_each_operator,
}

pub record Layout : Type 0 where
  pub func_types : List ℕ
  pub type_params : List ℕ
  pub imported_funcs : ℕ
  pub import_names : List (List ℕ)
  pub exported_functions : List (List ℕ × ℕ)
  pub table : List (ℕ × ℕ)
  pub data_segments : List (ℕ × List ℕ)

-- The locals of `Layout::read`: the layout so far, and the passive segments by index.
pub record Reading : Type 0 where
  pub layout : Layout
  pub passive : List (ℕ × List ℕ)

abbrev pub nothing_read : Reading
nothing_read = record {
  layout = record {
    func_types = [];
    type_params = [];
    imported_funcs = 0;
    import_names = [];
    exported_functions = [];
    table = [];
    data_segments = [];
  };
  passive = [];
}

-- `reader.read().ok()?`: only the first operator counts.
abbrev pub const_offset : Reader Operator → Option ℕ
const_offset (some (i32_const value) ∷ operators) = some value
const_offset _ = none

abbrev pub param_counts : List CompositeType → List ℕ
param_counts [] = []
param_counts (func_type params ∷ types) = params ∷ param_counts types
param_counts (other_type ∷ types) = 0 ∷ param_counts types

abbrev pub read_group : List CompositeType → Reading → Result AbiError Reading
read_group group r = ok (record r {
  layout = record r.layout { type_params = r.layout.type_params ++ param_counts group };
})

abbrev pub import_func : ℕ → Import → Reading → Reading
import_func ty i r = record r {
  layout = record r.layout {
    func_types = r.layout.func_types ++ (ty ∷ []);
    imported_funcs = r.layout.imported_funcs + 1;
    import_names = r.layout.import_names ++ ((i.module_name ++ (codes "." ++ i.name)) ∷ []);
  };
}

abbrev pub import_as : TypeRef → Import → Reading → Result AbiError Reading
import_as (func ty) i r = ok (import_func ty i r)
import_as (func_exact ty) i r = ok (import_func ty i r)
import_as other_ref i r = ok r

abbrev pub read_import : Import → Reading → Result AbiError Reading
read_import i r = import_as i.ty i r

abbrev pub read_function : ℕ → Reading → Result AbiError Reading
read_function ty r =
    ok (record r { layout = record r.layout { func_types = r.layout.func_types ++ (ty ∷ []) } })

abbrev pub export_as : ExternalKind → Export → Reading → Result AbiError Reading
export_as func_kind e r = ok (record r {
  layout = record r.layout {
    exported_functions = r.layout.exported_functions ++ ((e.name, e.index) ∷ []);
  };
})
export_as other_kind e r = ok r

abbrev pub read_export : Export → Reading → Result AbiError Reading
read_export e r = export_as e.kind e r

-- `table.insert(base + slot as u32, func)` for each item, `slot` counting from the first.
abbrev pub place_functions : ℕ → ℕ → Reader ℕ → List (ℕ × ℕ) → Result AbiError (List (ℕ × ℕ))
place_functions base slot [] t = ok t
place_functions base slot (none ∷ items) t = err (AbiError.malformed (codes "element"))
place_functions base slot (some f ∷ items) t =
    place_functions base (suc slot) items (insert (add32 base slot) f t)

abbrev pub place_items : ℕ → ElementItems → Reading → Result AbiError Reading
place_items base (functions items) r = place_functions base 0 items r.layout.table >>= λ t.
    ok (record r { layout = record r.layout { table = t } })
place_items base expressions r = ok r

abbrev pub place_at : Option ℕ → ElementItems → Reading → Result AbiError Reading
place_at (some base) items r = place_items base items r
place_at none items r = ok r

abbrev pub element_as : ElementKind → ElementItems → Reading → Result AbiError Reading
element_as (active_element offset) items r = place_at (const_offset offset) items r
element_as other_element items r = ok r

abbrev pub read_element : Element → Reading → Result AbiError Reading
read_element e r = element_as e.kind e.items r

abbrev pub data_at : Option ℕ → List ℕ → Reading → Reading
data_at (some base) bytes r = record r {
  layout = record r.layout { data_segments = r.layout.data_segments ++ ((base, bytes) ∷ []) };
}
data_at none bytes r = r

abbrev pub data_as : DataKind → List ℕ → ℕ → Reading → Reading
data_as (active_data offset) bytes index r = data_at (const_offset offset) bytes r
data_as passive_data bytes index r = record r { passive = insert index bytes r.passive }

-- `reader.into_iter().enumerate()`
abbrev pub read_segments : ℕ → Reader Segment → Reading → Result AbiError Reading
read_segments index [] r = ok r
read_segments index (none ∷ segments) r = err (AbiError.malformed (codes "data segment"))
read_segments index (some s ∷ segments) r =
    read_segments (suc index) segments (data_as s.kind s.bytes index r)

abbrev pub read_payload : Payload → Reading → Result AbiError Reading
read_payload (type_section groups) r = for_each (codes "type") read_group groups r
read_payload (import_section imports) r = for_each (codes "import") read_import imports r
read_payload (function_section types) r = for_each (codes "function") read_function types r
read_payload (export_section exports) r = for_each (codes "export") read_export exports r
read_payload (element_section elements) r =
    for_each (codes "element segment") read_element elements r
read_payload (data_section segments) r = read_segments 0 segments r
read_payload _ r = ok r

abbrev pub parsing_module : List ℕ
parsing_module = codes "parsing module"

-- The slice of a segment that a copy takes, if it lies in the segment.
abbrev pub place_slice : ℕ → ℕ → ℕ → List ℕ → List (ℕ × List ℕ) → List (ℕ × List ℕ)
place_slice dest offset len segment placed =
    let finish = add32 offset len in
    if leb offset finish && leb finish (length segment)
    then placed ++ ((dest, take (finish - offset) (drop offset segment)) ∷ [])
    else placed

-- The constants that are held are those directly in front, the last one first.
abbrev pub place_copy : List ℕ → Option (List ℕ) → List (ℕ × List ℕ) → List (ℕ × List ℕ)
place_copy (len ∷ offset ∷ dest ∷ constants) (some segment) placed =
    place_slice dest offset len segment placed
place_copy _ _ placed = placed

module _ (passive : List (ℕ × List ℕ)) where
  abbrev pub resolve_operator :
      Operator → List ℕ × List (ℕ × List ℕ) → Result AbiError (List ℕ × List (ℕ × List ℕ))
  resolve_operator (i32_const value) (constants, placed) = ok (value ∷ constants, placed)
  resolve_operator (memory_init segment) (constants, placed) =
      ok ([], place_copy constants (lookup segment passive) placed)
  resolve_operator _ (constants, placed) = ok ([], placed)

  abbrev pub resolve_payload : Payload → List (ℕ × List ℕ) → Result AbiError (List (ℕ × List ℕ))
  resolve_payload (code_section_entry body) placed =
      for_each_operator resolve_operator body ([], placed) >>= λ r. ok (r.1)
  resolve_payload _ placed = ok placed

unfoldable pub resolve_passive_segments :
    Reader Payload → List (ℕ × List ℕ) → Result AbiError (List (ℕ × List ℕ))
resolve_passive_segments payloads [] = ok []
resolve_passive_segments payloads (p ∷ passive) =
    for_each parsing_module (resolve_payload (p ∷ passive)) payloads []

-- `Layout::read`
unfoldable pub read : Reader Payload → Result AbiError Layout
unfolding resolve_passive_segments
read payloads = for_each parsing_module read_payload payloads nothing_read >>= λ r.
    resolve_passive_segments payloads r.passive >>= λ placed.
    ok (record r.layout { data_segments = r.layout.data_segments ++ placed })

abbrev pub find_export : ℕ → List (List ℕ × ℕ) → Option (List ℕ)
find_export func_index [] = none
find_export func_index ((name, index) ∷ exports) =
    if index == func_index then some name else find_export func_index exports

unfoldable pub name_of : Layout → ℕ → List ℕ
name_of m func_index = elim (find_export func_index m.exported_functions) [
  | some name ↦ name
  | none ↦ elim (get_elem? m.import_names func_index) [
    | some name ↦ name
    | none ↦ codes "func[" ++ (decimal func_index ++ codes "]")
  ]
]

abbrev pub count_of_type : Layout → Option ℕ → Option ℕ
count_of_type m (some ty) = get_elem? m.type_params ty
count_of_type m none = none

unfoldable pub param_count : Layout → ℕ → ℕ
param_count m func_index = elim (count_of_type m (get_elem? m.func_types func_index)) [
  | some count ↦ count
  | none ↦ 0
]
