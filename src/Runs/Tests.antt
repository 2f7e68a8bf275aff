-- ===== src/Runs/Tests.antt =====
-- Concrete scans for printable runs.
use wa_wasm_oracle.Prelude.{[], ◌∷◌, List, ℕ}
use wa_wasm_oracle.Prelude.Text.{codes}

abbrev two_lines : List (List ℕ)
two_lines = codes "call state 3" ∷ codes "relay elected" ∷ []
