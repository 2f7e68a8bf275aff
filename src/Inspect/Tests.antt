-- ===== src/Inspect/Tests.antt =====
-- Concrete imports: crates/oracle-core/src/inspect.rs.
use wa_wasm_oracle.Prelude.{ℕ, ◌≡◌, ◌≤◌, List, [], ◌∷◌}
use wa_wasm_oracle.Prelude.Sort.{IsSorted}
use wa_wasm_oracle.Prelude.Text.{codes}
use wa_wasm_oracle.Inspect.{ImportEntry, global_entry, import_modules}
use wa_wasm_oracle.Prelude.Tally.{count_of, entries_of}
use wa_wasm_oracle.Inspect.Laws.{imports_of, import_modules-exact}
use wa_wasm_oracle.Runtime.Stubs.{hotter}

abbrev import_of : List ℕ → List ℕ → ImportEntry
import_of m n = record { module_name = m; name = n; kind = global_entry }

abbrev three_imports : List ImportEntry
three_imports =
    import_of (codes "wasi") (codes "a")
    ∷ import_of (codes "env") (codes "b")
    ∷ import_of (codes "env") (codes "c")
    ∷ []

import_modules-exact_example :
    ((m : List ℕ)
      → (count_of m (import_modules three_imports) ≡ imports_of m three_imports)
        × (entries_of m (import_modules three_imports) ≤ 1))
    × IsSorted hotter (import_modules three_imports)
import_modules-exact_example = import_modules-exact three_imports
