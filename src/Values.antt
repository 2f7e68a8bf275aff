-- ===== src/Values.antt =====
-- `Value` and `Handle` of crates/oracle-core/src/call.rs. A `Double` is its 64-bit pattern; the
-- conversions between the float formats are operations of the host's floating point unit, which
-- the host code only calls.
use wa_wasm_oracle.Prelude.{ℕ, Bool, List}
use wa_wasm_oracle.Prelude.Int.{ℤ}

pub record Handle : Type 0 where
  pub ptr : ℕ
  pub class_type : ℕ

pub data Value : Type 0 where
  void : Value
  bool : Bool → Value
  int : ℤ → Value
  double : ℕ → Value
  str : List ℕ → Value
  object : Handle → Value
  bytes : List ℕ → Value
  string_list : List (List ℕ) → Value
  int_list : List ℤ → Value

-- `f32 as f64`, `f64 as f32` and `i64 as f64` on bit patterns.
pub record Floats : Type 0 where
  pub widen : ℕ → ℕ
  pub narrow : ℕ → ℕ
  pub of_int : ℤ → ℕ
