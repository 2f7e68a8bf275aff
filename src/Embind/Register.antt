-- ===== src/Embind/Register.antt =====
-- One registration: which layout a registration import has, and what it adds to the registry.
use wa_wasm_oracle.Prelude.{
  ℕ, zero, suc, ◌+◌, ◌*◌, Bool, false, ◌||◌, List, [], ◌∷◌, ◌++◌, Option, none, some, ◌==◌, not,
  if◌then◌else◌, min,
}
use wa_wasm_oracle.Prelude.Map as Map
use wa_wasm_oracle.Prelude.Map.{nat_ord}
use wa_wasm_oracle.Prelude.Result.{ok, err, unwrap_or}
use wa_wasm_oracle.Prelude.Text.{codes, bytes_eq}
use wa_wasm_oracle.Prelude.Words.{add32}
use wa_wasm_oracle.Memory.{Guest, read_u32, read_cstr}
use wa_wasm_oracle.Vals.{Val, arg}
use wa_wasm_oracle.Embind.{EmbindRegistry, EmbindClass, no_class}

pub data Layout : Type 0 where
  named_type : ℕ → Layout
  function : Layout
  class : Layout
  class_function : Layout
  class_constructor : Layout
  enum_value : Layout
  constant : Layout

abbrev pub one_of : List ℕ → List (List ℕ) → Bool
one_of name [] = false
one_of name (n ∷ ns) = bytes_eq name n || one_of name ns

abbrev pub type_imports : List (List ℕ)
type_imports =
    codes "_embind_register_void"
    ∷ codes "_embind_register_bool"
    ∷ codes "_embind_register_integer"
    ∷ codes "_embind_register_bigint"
    ∷ codes "_embind_register_float"
    ∷ codes "_embind_register_std_string"
    ∷ codes "_embind_register_emval"
    ∷ codes "_embind_register_enum"
    ∷ codes "_embind_register_value_object"
    ∷ codes "_embind_register_value_array"
    ∷ codes "_embind_register_smart_ptr"
    ∷ codes "_embind_register_user_type"
    ∷ []

abbrev pub sized_type_imports : List (List ℕ)
sized_type_imports =
    codes "_embind_register_std_wstring" ∷ codes "_embind_register_memory_view" ∷ []

abbrev pub class_function_imports : List (List ℕ)
class_function_imports =
    codes "_embind_register_class_function"
    ∷ codes "_embind_register_class_property"
    ∷ codes "_embind_register_class_class_function"
    ∷ []

abbrev pub enum_value_imports : List (List ℕ)
enum_value_imports =
    codes "_embind_register_enum_value" ∷ codes "_embind_register_value_object_field" ∷ []

unfoldable pub layout_of : List ℕ → Option Layout
layout_of name =
    if one_of name type_imports
    then some (named_type 1)
    else if one_of name sized_type_imports
    then some (named_type 2)
    else if bytes_eq name (codes "_embind_register_function")
    then some function
    else if bytes_eq name (codes "_embind_register_class")
    then some class
    else if one_of name class_function_imports
    then some class_function
    else if bytes_eq name (codes "_embind_register_class_constructor")
    then some class_constructor
    else if one_of name enum_value_imports
    then some enum_value
    else if bytes_eq name (codes "_embind_register_constant")
    then some constant
    else none

abbrev pub max_type_ids : ℕ
max_type_ids = 64

-- The ids at `ptr + 4 * index`, for `left` more indices; one that cannot be read is skipped.
unfoldable pub type_ids_from : Guest → ℕ → ℕ → ℕ → List ℕ
type_ids_from g ptr index zero = []
type_ids_from g ptr index (suc left) =
    let rest = type_ids_from g ptr (index + 1) left in
    elim (read_u32 g (add32 ptr (index * 4))) [ ok id ↦ id ∷ rest | err e ↦ rest ]

unfoldable pub read_type_ids : Guest → ℕ → ℕ → List ℕ
unfolding type_ids_from
read_type_ids g ptr count = type_ids_from g ptr 0 (min count max_type_ids)

-- `arg(args, index).unwrap_or(0)`
abbrev pub arg_or_0 : List Val → ℕ → ℕ
arg_or_0 args index = elim (arg args index) [ some v ↦ v | none ↦ 0 ]

abbrev pub flag : List Val → ℕ → Bool
flag args index = not (arg_or_0 args index == 0)

abbrev pub text_at : Guest → ℕ → List ℕ
text_at g ptr = unwrap_or (read_cstr g ptr) []

abbrev pub class_or_default : Option EmbindClass → EmbindClass
class_or_default (some c) = c
class_or_default none = no_class

abbrev pub two : Option ℕ → Option ℕ → Option (ℕ × ℕ)
two (some a) (some b) = some (a, b)
two _ _ = none

abbrev pub three : Option ℕ → Option ℕ → Option ℕ → Option (ℕ × ℕ × ℕ)
three (some a) (some b) (some c) = some (a, b, c)
three _ _ _ = none

abbrev pub four : Option ℕ → Option ℕ → Option ℕ → Option ℕ → Option (ℕ × ℕ × ℕ × ℕ)
four (some a) (some b) (some c) (some d) = some (a, b, c, d)
four _ _ _ _ = none

-- `if !name.is_empty() { types.insert(id, name) }`
abbrev pub named : ℕ → List ℕ → EmbindRegistry → EmbindRegistry
named id [] r = r
named id (b ∷ bs) r = record r { types = Map.insert id (b ∷ bs) r.types }

unfoldable pub register : Guest → Layout → List Val → EmbindRegistry → EmbindRegistry
register g (named_type name_at) args r = elim (two (arg args 0) (arg args name_at)) [
  | some (id, name_ptr) ↦ named id (text_at g name_ptr) r
  | none ↦ r
]
register g function args r = elim (three (arg args 0) (arg args 1) (arg args 2)) [
  | some (name_ptr, count, types_ptr) ↦ record r {
    functions =
        r.functions
        ++ (record {
          name = text_at g name_ptr;
          arg_types = read_type_ids g types_ptr count;
          invoker = arg_or_0 args 4;
          function = arg_or_0 args 5;
          is_async = flag args 6;
        }
            ∷ []);
  }
  | none ↦ r
]
register g class args r = elim (two (arg args 0) (arg args 10)) [
  | some (class_type, name_ptr) ↦
      let name = text_at g name_ptr in
      let c = class_or_default (Map.lookup class_type r.classes) in
      record r {
        types = Map.insert class_type name r.types;
        classes =
            Map.insert class_type
              (record c {
                name = name;
                type_id = class_type;
                base_type = arg_or_0 args 3;
                destructor = arg_or_0 args 12;
              })
              r.classes;
      }
  | none ↦ r
]
register g class_function args r = elim (four (arg args 0) (arg args 1) (arg args 2) (arg args 3)) [
  | some (class_type, name_ptr, count, types_ptr) ↦ record r {
    orphan_methods =
        r.orphan_methods
        ++ (record {
          class_type = class_type;
          name = text_at g name_ptr;
          arg_types = read_type_ids g types_ptr count;
          invoker = arg_or_0 args 5;
          context = arg_or_0 args 6;
          is_pure_virtual = flag args 7;
          is_async = flag args 8;
        }
            ∷ []);
  }
  | none ↦ r
]
register g class_constructor args r = elim (three (arg args 0) (arg args 1) (arg args 2)) [
  | some (class_type, count, types_ptr) ↦ record r {
    orphan_constructors =
        r.orphan_constructors
        ++ (record {
          class_type = class_type;
          arg_types = read_type_ids g types_ptr count;
          invoker = arg_or_0 args 4;
          constructor = arg_or_0 args 5;
        }
            ∷ []);
  }
  | none ↦ r
]
register g enum_value args r = elim (two (arg args 0) (arg args 1)) [
  | some (owner, name_ptr) ↦ record r {
    members = r.members ++ ((owner, text_at g name_ptr, arg_or_0 args 2) ∷ []);
  }
  | none ↦ r
]
register g constant args r = elim (arg args 0) [
  | some name_ptr ↦ record r {
    constants = r.constants ++ ((text_at g name_ptr, arg_or_0 args 2) ∷ []);
  }
  | none ↦ r
]
