-- ===== src/Vals.antt =====
-- `wasmtime::Val` as far as the host functions look into it, and the readers of arguments that
-- wasi.rs, cxa.rs, emval.rs and embind.rs each declare. An `i32` or `i64` is its bit pattern.
use wa_wasm_oracle.Prelude.{ℕ, List, [], ◌∷◌, Option, none, some, get_elem?}
use wa_wasm_oracle.Prelude.Int.{ℤ, pos}
use wa_wasm_oracle.Prelude.Words.{u32, signed32, signed64}

pub data Val : Type 0 where
  i32 : ℕ → Val
  i64 : ℕ → Val
  f32 : ℕ → Val
  f64 : ℕ → Val
  other : Val

-- `int_arg`, and the `arg` of wasi.rs: 0 for what is missing or no integer.
abbrev pub int_arg : List Val → ℕ → ℕ
int_arg params index = elim (get_elem? params index) [
  | some (i32 v) ↦ u32 v
  | some (i64 v) ↦ u32 v
  | _ ↦ 0
]

-- `arg_i64` of wasi.rs.
abbrev pub arg_i64 : List Val → ℕ → ℤ
arg_i64 params index = elim (get_elem? params index) [
  | some (i64 v) ↦ signed64 v
  | some (i32 v) ↦ signed32 v
  | _ ↦ pos 0
]

-- `scalar` of wasi.rs: what the trace keeps of an argument.
abbrev pub scalar : Val → ℤ
scalar (i32 v) = signed32 v
scalar (i64 v) = signed64 v
scalar _ = pos 0

-- `arg` of embind.rs: `none` where the registration is shorter than its layout.
abbrev pub arg : List Val → ℕ → Option ℕ
arg args index = elim (get_elem? args index) [
  | some (i32 v) ↦ some (u32 v)
  | some (i64 v) ↦ some (u32 v)
  | _ ↦ none
]

-- `if let Some(slot) = results.first_mut() { *slot = v; }`
abbrev pub set_first : Val → List Val → List Val
set_first v [] = []
set_first v (r ∷ rs) = v ∷ rs
