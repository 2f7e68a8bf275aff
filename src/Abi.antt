-- ===== src/Abi.antt =====
-- The decoded module that crates/oracle-core/src/abi.rs walks: what wasmparser hands to it, section
-- by section and operator by operator, and the error handling of its loops.
pub mod Evidence
pub mod Layout
pub mod Render
pub mod Arms
pub mod Scan
pub mod Infer
pub mod Search
pub mod Texts
pub mod Invokes
mod Tests
use wa_wasm_oracle.Prelude.{ℕ, suc, List, [], ◌∷◌, Option, none, some, ◌≡◌, refl, arith}
use wa_wasm_oracle.Prelude.Result.{Result, ok, err, ◌>>=◌}
use wa_wasm_oracle.Prelude.Text.{codes}

-- The operators that the sources tell apart. A memory operator carries the offset of its `memarg`,
-- an integer constant its pattern (`value as u32`), and `other` stands for the rest.
pub data Operator : Type 0 where
  local_get local_set local_tee global_get global_set : ℕ → Operator
  i32_const i64_const f32_const f64_const : ℕ → Operator
  i32_load i64_load f32_load f64_load : ℕ → Operator
  i32_load8_u i32_load8_s i64_load8_u i64_load8_s : ℕ → Operator
  i32_load16_u i32_load16_s i64_load16_u i64_load16_s : ℕ → Operator
  i32_store i64_store f32_store f64_store : ℕ → Operator
  i32_store8 i64_store8 i32_store16 i64_store16 : ℕ → Operator
  i32_eq i32_ne i32_lt_s i32_lt_u i32_gt_s i32_gt_u i32_le_s i32_le_u i32_ge_s i32_ge_u : Operator
  i32_eqz i32_add i32_sub i32_mul i32_shl : Operator
  call call_indirect return_call return_call_indirect : ℕ → Operator
  memory_size block_op loop_op else_op end_op return_op nop if_op select_op drop_op : Operator
  br br_if : ℕ → Operator
  br_table : List (Option ℕ) → ℕ → Operator
  memory_init : ℕ → Operator
  other : ℕ → Operator

-- A reader of wasmparser yields its items one by one, `none` where one does not decode.
abbrev pub Reader {ℓ} : Type ℓ → Type ℓ
Reader A = List (Option A)

-- `FunctionBody`: its operators, `none` if the locals in front of them do not decode.
abbrev pub Body : Type 0
Body = Option (Reader Operator)

pub data CompositeType : Type 0 where
  func_type : ℕ → CompositeType
  other_type : CompositeType

pub data TypeRef : Type 0 where
  func func_exact : ℕ → TypeRef
  other_ref : TypeRef

pub record Import : Type 0 where
  pub module_name : List ℕ
  pub name : List ℕ
  pub ty : TypeRef

pub data ExternalKind : Type 0 where
  func_kind other_kind : ExternalKind

pub record Export : Type 0 where
  pub name : List ℕ
  pub kind : ExternalKind
  pub index : ℕ

-- A constant expression is the reader of its operators.
pub data ElementKind : Type 0 where
  active_element : Reader Operator → ElementKind
  other_element : ElementKind

pub data ElementItems : Type 0 where
  functions : Reader ℕ → ElementItems
  expressions : ElementItems

pub record Element : Type 0 where
  pub kind : ElementKind
  pub items : ElementItems

pub data DataKind : Type 0 where
  active_data : Reader Operator → DataKind
  passive_data : DataKind

pub record Segment : Type 0 where
  pub kind : DataKind
  pub bytes : List ℕ

-- A type section is a reader of groups of types.
pub data Payload : Type 0 where
  type_section : Reader (List CompositeType) → Payload
  import_section : Reader Import → Payload
  function_section : Reader ℕ → Payload
  export_section : Reader Export → Payload
  element_section : Reader Element → Payload
  data_section : Reader Segment → Payload
  code_section_entry : Body → Payload
  other_payload : Payload

-- `malformed` carries the `context` of the read that failed, `malformed_body` has none, and
-- `panicked` is a panic of the process.
pub data AbiError : Type 0 where
  malformed : List ℕ → AbiError
  malformed_body : AbiError
  no_body : ℕ → AbiError
  panicked : AbiError

module _ {ℓ κ} {A : Type ℓ} {S : Type κ} where
  -- `for item in reader { let item = item.context(text)?; … }`
  abbrev pub for_each : List ℕ → (A → S → Result AbiError S) → Reader A → S → Result AbiError S
  for_each text f [] s = ok s
  for_each text f (none ∷ items) s = err (malformed text)
  for_each text f (some a ∷ items) s = f a s >>= λ s'. for_each text f items s'

  -- The invariant rule of such a loop, proved once.
  pub for_each_inv {μ} :
      (P : S → Type μ) (text : List ℕ) (f : A → S → Result AbiError S)
      → ((a : A) (s s' : S) → P s → f a s ≡ ok s' → P s')
      → (items : Reader A) (s s' : S) → P s
      → for_each text f items s ≡ ok s'
      → P s'
  for_each_inv P text f keep [] s s' p e = ground arith
  for_each_inv P text f keep (none ∷ items) s s' p e = cc
  for_each_inv P text f keep (some a ∷ items) s s' p e =
      from (λ t q g. for_each_inv P text f keep items t s' q g) (f a s) refl e
    where
      from :
          ((t : S) → P t → for_each text f items t ≡ ok s' → P s')
          → (r : Result AbiError S) → f a s ≡ r
          → (r >>= λ t. for_each text f items t) ≡ ok s'
          → P s'
      from rest (ok t) h g = rest t (keep a s t p h) g
      from rest (err x) h g = cc

abbrev pub reading_instruction : List ℕ
reading_instruction = codes "reading instruction"

-- The loop over a body: `body.get_operators_reader()?` first.
abbrev pub for_each_operator {κ} :
    {S : Type κ} → (Operator → S → Result AbiError S) → Body → S → Result AbiError S
for_each_operator f none s = err malformed_body
for_each_operator f (some operators) s = for_each reading_instruction f operators s
