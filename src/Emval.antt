-- ===== src/Emval.antt =====
-- The table behind `emscripten::val` handles, and the reader of values through pointers:
-- crates/oracle-core/src/emval.rs.
pub mod Laws
pub mod Pointer
pub mod Imports
mod Tests
use wa_wasm_oracle.Prelude.{
  ℕ, ◌+◌, ◌-◌, Bool, true, false, List, [], ◌∷◌, Option, none, some, ◌==◌, if◌then◌else◌, length,
}
use wa_wasm_oracle.Prelude.Map as Map
use wa_wasm_oracle.Prelude.Map.{nat_ord}
use wa_wasm_oracle.Prelude.Words.{add32}
use wa_wasm_oracle.Values.{Value}

pub record Entry : Type 0 where
  pub value : Value
  pub refcount : ℕ

pub record EmvalTable : Type 0 where
  pub values : List (ℕ × Entry)
  pub next : ℕ

abbrev pub no_values : EmvalTable
no_values = record { values = []; next = 0 }

-- `insert`: the counter moves first, so handles begin at 1.
unfoldable pub store : Value → EmvalTable → EmvalTable × ℕ
store value t =
    let handle = add32 t.next 1 in
    (
      record {
        values = Map.insert handle (record { value = value; refcount = 1 }) t.values;
        next = handle;
      },
      handle,
    )

unfoldable pub get : ℕ → EmvalTable → Option Value
get handle t = elim (Map.lookup handle t.values) [ some e ↦ some e.value | none ↦ none ]

unfoldable pub incref : ℕ → EmvalTable → EmvalTable
incref handle t = elim (Map.lookup handle t.values) [
  | some e ↦ record t {
    values = Map.insert handle (record e { refcount = add32 e.refcount 1 }) t.values;
  }
  | none ↦ t
]

-- `saturating_sub`, and the entry goes with its last reference.
unfoldable pub decref : ℕ → EmvalTable → EmvalTable
decref handle t = elim (Map.lookup handle t.values) [
  | some e ↦
      if (e.refcount - 1) == 0
      then record t { values = Map.remove handle t.values }
      else record t { values = Map.insert handle (record e { refcount = e.refcount - 1 }) t.values }
  | none ↦ t
]

-- The references that a handle has; 0 if it is not live.
abbrev pub refs : ℕ → EmvalTable → ℕ
refs handle t = elim (Map.lookup handle t.values) [ some e ↦ e.refcount | none ↦ 0 ]
