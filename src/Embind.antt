-- ===== src/Embind.antt =====
-- The embind API that a module registers: crates/oracle-core/src/embind.rs.
pub mod Register
pub mod Settle
mod Tests
use wa_wasm_oracle.Prelude.{ℕ, ◌+◌, Bool, List, [], ◌∷◌, ◌++◌, map, Option, none, some, length, leb}
use wa_wasm_oracle.Prelude.Int.{ℤ}
use wa_wasm_oracle.Prelude.Map as Map
use wa_wasm_oracle.Prelude.Map.{nat_ord, bytes_ord, bytes_cmp}
use wa_wasm_oracle.Prelude.Sort.{sort_by, decimal}
use wa_wasm_oracle.Prelude.Text.{codes}
use Prim.Native.Nat.{Ordering}
use mathlib.Core.Bool.{true, false}

pub record EmbindFunction : Type 0 where
  pub name : List ℕ
  pub arg_types : List ℕ
  pub invoker : ℕ
  pub function : ℕ
  pub is_async : Bool

pub record EmbindMethod : Type 0 where
  pub class_type : ℕ
  pub name : List ℕ
  pub arg_types : List ℕ
  pub invoker : ℕ
  pub context : ℕ
  pub is_pure_virtual : Bool
  pub is_async : Bool

pub record EmbindConstructor : Type 0 where
  pub class_type : ℕ
  pub arg_types : List ℕ
  pub invoker : ℕ
  pub constructor : ℕ

pub record EmbindClass : Type 0 where
  pub name : List ℕ
  pub type_id : ℕ
  pub base_type : ℕ
  pub destructor : ℕ
  pub methods : List EmbindMethod
  pub constructors : List EmbindConstructor

pub record EmbindRegistry : Type 0 where
  pub types : List (ℕ × List ℕ)
  pub functions : List EmbindFunction
  pub classes : List (ℕ × EmbindClass)
  pub members : List (ℕ × List ℕ × ℕ)
  pub constants : List (List ℕ × ℕ)
  pub orphan_methods : List EmbindMethod
  pub orphan_constructors : List EmbindConstructor

abbrev pub no_class : EmbindClass
no_class = record {
  name = [];
  type_id = 0;
  base_type = 0;
  destructor = 0;
  methods = [];
  constructors = [];
}

abbrev pub no_registrations : EmbindRegistry
no_registrations = record {
  types = [];
  functions = [];
  classes = [];
  members = [];
  constants = [];
  orphan_methods = [];
  orphan_constructors = [];
}

unfoldable pub type_name : EmbindRegistry → ℕ → List ℕ
type_name r id = elim (Map.lookup id r.types) [
  | some name ↦ name
  | none ↦ codes "type#" ++ decimal id
]

-- `join(", ")`
abbrev pub join : List ℕ → List (List ℕ) → List ℕ
join sep [] = []
join sep (x ∷ []) = x
join sep (x ∷ y ∷ xs) = x ++ (sep ++ join sep (y ∷ xs))

unfoldable pub signature : EmbindRegistry → List ℕ → List ℕ
unfolding type_name
signature r [] = codes "()"
signature r (result ∷ params) =
    codes "("
    ++ (join (codes ", ") (map (type_name r) params) ++ (codes ") -> " ++ type_name r result))

-- The class of a registration that came before its class did.
abbrev pub orphan_class : ℕ → EmbindClass
orphan_class id = record no_class { name = codes "class#" ++ decimal id; type_id = id }

abbrev pub class_or : ℕ → Option EmbindClass → EmbindClass
class_or id (some c) = c
class_or id none = orphan_class id

unfoldable pub attach_method : EmbindMethod → List (ℕ × EmbindClass) → List (ℕ × EmbindClass)
attach_method m classes =
    let c = class_or m.class_type (Map.lookup m.class_type classes) in
    Map.insert m.class_type (record c { methods = c.methods ++ (m ∷ []) }) classes

unfoldable pub attach_constructor :
    EmbindConstructor → List (ℕ × EmbindClass) → List (ℕ × EmbindClass)
attach_constructor k classes =
    let c = class_or k.class_type (Map.lookup k.class_type classes) in
    Map.insert k.class_type (record c { constructors = c.constructors ++ (k ∷ []) }) classes

unfoldable pub attach_methods : List EmbindMethod → List (ℕ × EmbindClass) → List (ℕ × EmbindClass)
unfolding attach_method
attach_methods [] classes = classes
attach_methods (m ∷ ms) classes = attach_methods ms (attach_method m classes)

unfoldable pub attach_constructors :
    List EmbindConstructor → List (ℕ × EmbindClass) → List (ℕ × EmbindClass)
unfolding attach_constructor
attach_constructors [] classes = classes
attach_constructors (k ∷ ks) classes = attach_constructors ks (attach_constructor k classes)

-- `a.name.cmp(&b.name)` as the order of a sort.
abbrev pub name_le : List ℕ → List ℕ → Bool
name_le a b = elim (bytes_cmp a b) [ Ordering.gt ↦ false | _ ↦ true ]

abbrev pub method_le : EmbindMethod → EmbindMethod → Bool
method_le a b = name_le a.name b.name

abbrev pub function_le : EmbindFunction → EmbindFunction → Bool
function_le a b = name_le a.name b.name

abbrev pub name_or : List ℕ → Option (List ℕ) → List ℕ
name_or d (some name) = name
name_or d none = d

-- The methods in order, and the name that the type was registered under.
abbrev pub settle_class : List (ℕ × List ℕ) → EmbindClass → EmbindClass
settle_class types c = record c {
  methods = sort_by method_le c.methods;
  name = name_or c.name (Map.lookup c.type_id types);
}

abbrev pub settle_classes : List (ℕ × List ℕ) → List (ℕ × EmbindClass) → List (ℕ × EmbindClass)
settle_classes types [] = []
settle_classes types ((id, c) ∷ cs) = (id, settle_class types c) ∷ settle_classes types cs

unfoldable pub settle : EmbindRegistry → EmbindRegistry
settle r = record r {
  orphan_methods = [];
  orphan_constructors = [];
  functions = sort_by function_le r.functions;
  classes =
      settle_classes r.types
        (attach_constructors r.orphan_constructors (attach_methods r.orphan_methods r.classes));
}

abbrev pub total_methods : List (ℕ × EmbindClass) → ℕ
total_methods [] = 0
total_methods ((id, c) ∷ cs) = length c.methods + total_methods cs

unfoldable pub method_count : EmbindRegistry → ℕ
method_count r = total_methods r.classes
