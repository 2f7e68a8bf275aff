-- ===== src/Abi/Scan.antt =====
-- `scan_body` of crates/oracle-core/src/abi.rs: the walk over a body that tracks where each operand
-- came from.
pub mod Laws
pub mod Origins
use wa_wasm_oracle.Prelude.{
  ℕ, zero, suc, ◌+◌, Bool, true, false, not, List, [], ◌∷◌, ◌++◌, Option, none, some, ltb, ◌==◌,
  if◌then◌else◌, length,
}
use wa_wasm_oracle.Prelude.Map.{nat_ord, values}
use wa_wasm_oracle.Prelude.Result.{Result, ok, err, ◌>>=◌}
use wa_wasm_oracle.Abi.{
  Operator, local_get, local_set, local_tee, global_get, i32_const, i64_const, f32_const, f64_const,
  i32_load, i64_load, f32_load, f64_load, i32_load8_u, i32_load8_s, i64_load8_u, i64_load8_s,
  i32_load16_u, i32_load16_s, i64_load16_u, i64_load16_s, i32_store, i64_store, f32_store,
  f64_store, i32_store8, i64_store8, i32_store16, i64_store16, i32_eq, i32_ne, i32_lt_s, i32_lt_u,
  i32_gt_s, i32_gt_u, i32_le_s, i32_le_u, i32_ge_s, i32_ge_u, i32_eqz, i32_add, i32_sub, i32_mul,
  i32_shl, call, call_indirect, memory_size, block_op, loop_op, else_op, end_op, return_op, nop,
  if_op, select_op, drop_op, br, br_if, br_table, AbiError, Body, for_each_operator,
}
use wa_wasm_oracle.Abi.Arms.{
  Arm, arm, gets, sets, tees, loads, stores, drops, compares, tests, computes, forwards, produces,
  keeps, branches, selects, anything,
}
use wa_wasm_oracle.Abi.Evidence.{ParamEvidence, no_evidence, max_width, FunctionAbi}
use wa_wasm_oracle.Abi.Render.{render, annotation, trim_quoted_text_to_length}

pub data Origin : Type 0 where
  param derived : ℕ → Origin
  other_origin : Origin

-- `Origin::param`
abbrev pub param_of : Origin → Option ℕ
param_of (param i) = some i
param_of (derived i) = some i
param_of other_origin = none

-- The locals of `scan_body`: the stack is held top first, and `live` in index order.
pub record Scan : Type 0 where
  pub collected : List (ℕ × ParamEvidence)
  pub live : List ℕ
  pub stack : List Origin
  pub scanned : ℕ
  pub listing : List (List ℕ)

abbrev pub contains : ℕ → List ℕ → Bool
contains i [] = false
contains i (j ∷ live) = if j == i then true else contains i live

abbrev pub without : ℕ → List ℕ → List ℕ
without i [] = []
without i (j ∷ live) = if j == i then without i live else j ∷ without i live

abbrev pub is_param : Option ℕ → ℕ → Bool
is_param (some i) j = i == j
is_param none j = false

-- `retire_if_clobbered`
unfoldable pub retire_if_clobbered : List ℕ → ℕ → Origin → List ℕ
retire_if_clobbered live i value = if is_param (param_of value) i then live else without i live

-- `evidence.get_mut(&param)`
abbrev pub apply_at :
    (ParamEvidence → ParamEvidence) → ℕ → List (ℕ × ParamEvidence) → List (ℕ × ParamEvidence)
apply_at apply i [] = []
apply_at apply i ((j, e) ∷ rest) =
    if j == i then (j, apply e) ∷ rest else (j, e) ∷ apply_at apply i rest

abbrev pub apply_to :
    (ParamEvidence → ParamEvidence) → Option ℕ → List (ℕ × ParamEvidence) → List (ℕ × ParamEvidence)
apply_to apply (some i) m = apply_at apply i m
apply_to apply none m = m

-- `record(…)`
unfoldable pub record_use :
    (ParamEvidence → ParamEvidence) → Origin → List (ℕ × ParamEvidence) → List (ℕ × ParamEvidence)
record_use apply origin m = apply_to apply (param_of origin) m

abbrev pub loaded : ℕ → ParamEvidence → ParamEvidence
loaded width e = record e { load_width = max_width e.load_width (some width) }

abbrev pub stored : ℕ → ParamEvidence → ParamEvidence
stored width e = record e { store_width = max_width e.store_width (some width) }

abbrev pub compared : ParamEvidence → ParamEvidence
compared e = record e { comparisons = e.comparisons + 1 }

abbrev pub forwarded_on : ParamEvidence → ParamEvidence
forwarded_on e = record e { forwarded = e.forwarded + 1 }

abbrev pub reckoned : ParamEvidence → ParamEvidence
reckoned e = record e { arithmetic = e.arithmetic + 1 }

abbrev pub stored_as_value : ParamEvidence → ParamEvidence
stored_as_value e = record e { stored_into = e.stored_into + 1 }

-- `stack.pop().unwrap_or(Origin::Other)` and `stack.last()` in two halves.
abbrev pub top : List Origin → Origin
top [] = other_origin
top (o ∷ stack) = o

abbrev pub rest : List Origin → List Origin
rest [] = []
rest (o ∷ stack) = stack

abbrev pub carried : Option ℕ → Option ℕ → Origin
carried (some i) right = derived i
carried none (some i) = derived i
carried none none = other_origin

-- The stack is left from the bottom up.
abbrev pub forward_all : List Origin → List (ℕ × ParamEvidence) → List (ℕ × ParamEvidence)
forward_all [] m = m
forward_all (o ∷ stack) m = record_use forwarded_on o (forward_all stack m)

unfoldable pub take_arm : Arm → Scan → Scan
take_arm (gets i) s = record s {
  stack = (if contains i s.live then param i else other_origin) ∷ s.stack;
}
take_arm (sets i) s = record s {
  stack = rest s.stack;
  live = retire_if_clobbered s.live i (top s.stack);
}
take_arm (tees i) s = record s { live = retire_if_clobbered s.live i (top s.stack) }
take_arm (loads width) s = record s {
  stack = other_origin ∷ rest s.stack;
  collected = record_use (loaded width) (top s.stack) s.collected;
}
take_arm (stores width) s = record s {
  stack = rest (rest s.stack);
  collected =
      record_use stored_as_value (top s.stack)
        (record_use (stored width) (top (rest s.stack)) s.collected);
}
take_arm drops s = record s { stack = rest s.stack }
take_arm compares s = record s {
  stack = other_origin ∷ rest (rest s.stack);
  collected =
      record_use compared (top s.stack) (record_use compared (top (rest s.stack)) s.collected);
}
take_arm tests s = record s {
  stack = other_origin ∷ rest s.stack;
  collected = record_use compared (top s.stack) s.collected;
}
take_arm computes s = record s {
  stack = carried (param_of (top (rest s.stack))) (param_of (top s.stack)) ∷ rest (rest s.stack);
  collected =
      record_use reckoned (top s.stack) (record_use reckoned (top (rest s.stack)) s.collected);
}
take_arm forwards s = record s { stack = []; collected = forward_all s.stack s.collected }
take_arm produces s = record s { stack = other_origin ∷ s.stack }
take_arm keeps s = s
take_arm branches s = record s {
  stack = rest s.stack;
  collected = record_use compared (top s.stack) s.collected;
}
take_arm selects s = record s { stack = other_origin ∷ rest (rest (rest s.stack)) }
take_arm anything s = record s { stack = other_origin ∷ rest s.stack }

abbrev pub count_up : ℕ → ℕ → List ℕ
count_up zero i = []
count_up (suc n) i = i ∷ count_up n (suc i)

abbrev pub none_seen : List ℕ → List (ℕ × ParamEvidence)
none_seen [] = []
none_seen (i ∷ indices) = (i, no_evidence i) ∷ none_seen indices

abbrev pub begin_scan : ℕ → Scan
begin_scan params = record {
  collected = none_seen (count_up params 0);
  live = count_up params 0;
  stack = [];
  scanned = 0;
  listing = [];
}

-- The answer of `scan_body` at the end of the walk.
abbrev pub finish : List ℕ → ℕ → Scan → FunctionAbi
finish name index s = record {
  name = name;
  index = index;
  params = values s.collected;
  scanned = s.scanned;
  table_slots = [];
  body = s.listing;
}

-- `BODY_LIMIT` is a static that `set_body_limit` writes; `debug` is wasmparser's.
module _ (debug : Operator → List ℕ) (body_limit : ℕ) (segments : List (ℕ × List ℕ)) where
  abbrev pub list_operator : Operator → List (List ℕ) → List (List ℕ)
  list_operator op listing =
      if ltb (length listing) body_limit
      then trim_quoted_text_to_length
          (listing ++ ((render debug op ++ annotation segments op) ∷ []))
      else listing

  unfoldable pub scan_operator : Operator → Scan → Result AbiError Scan
  unfolding take_arm arm
  scan_operator op s = ok (
      take_arm (arm op)
        (record s { scanned = s.scanned + 1; listing = list_operator op s.listing }))

  unfoldable pub scan_body : List ℕ → ℕ → ℕ → Body → Result AbiError FunctionAbi
  unfolding scan_operator
  scan_body name index params body =
      for_each_operator scan_operator body (begin_scan params) >>= λ s. ok (finish name index s)
