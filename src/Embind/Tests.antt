-- ===== src/Embind/Tests.antt =====
-- A concrete registry with a method and a constructor that came before their class.
use mathlib.Core.List.{Perm}
use wa_wasm_oracle.Prelude.{◌≡◌, [], ◌∷◌, ◌++◌, false}
use wa_wasm_oracle.Prelude.Text.{codes}
use wa_wasm_oracle.Prelude.Sort.{IsSorted}
use wa_wasm_oracle.Embind.{
  method_le, EmbindConstructor, EmbindMethod, EmbindRegistry, no_registrations, settle,
}
use wa_wasm_oracle.Embind.Settle.{
  constructors_at, constructors_for, methods_at, methods_for, settle_lem,
}

abbrev early_method : EmbindMethod
early_method = record {
  class_type = 9;
  name = codes "size";
  arg_types = [];
  invoker = 1;
  context = 2;
  is_pure_virtual = false;
  is_async = false;
}

abbrev early_constructor : EmbindConstructor
early_constructor = record { class_type = 9; arg_types = []; invoker = 3; constructor = 4 }

abbrev early : EmbindRegistry
early = record no_registrations {
  orphan_methods = early_method ∷ [];
  orphan_constructors = early_constructor ∷ [];
}

settle_lem_example :
    Perm
      (methods_at 9 (settle early).classes)
      (methods_at 9 early.classes ++ methods_for 9 early.orphan_methods)
    × IsSorted method_le (methods_at 9 (settle early).classes)
    × (constructors_at 9 (settle early).classes
        ≡ constructors_at 9 early.classes ++ constructors_for 9 early.orphan_constructors)
    × ((settle early).orphan_methods ≡ [])
    × ((settle early).orphan_constructors ≡ [])
settle_lem_example = settle_lem 9 early
