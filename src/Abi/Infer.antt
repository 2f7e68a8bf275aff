-- ===== src/Abi/Infer.antt =====
-- The shape of a function by its name, its index or its table slot: `Layout::analyse`, `infer`,
-- `infer_index` and `infer_table_slot` of crates/oracle-core/src/abi.rs.
pub mod Laws
use Prim.Native.Nat.{Ordering}
use wa_wasm_oracle.Prelude.{
  ℕ, zero, suc, ◌-◌, Bool, true, false, List, [], ◌∷◌, ◌++◌, Option, none, some, ltb, ◌==◌,
  if◌then◌else◌,
}
use wa_wasm_oracle.Prelude.Map.{nat_ord, lookup, bytes_cmp}
use wa_wasm_oracle.Prelude.Result.{Result, ok, err, ◌>>=◌}
use wa_wasm_oracle.Prelude.Sort.{decimal, sort_by}
use wa_wasm_oracle.Prelude.Text.{codes}
use wa_wasm_oracle.Abi.{
  Operator, Reader, Body, Payload, code_section_entry, AbiError, malformed, no_body,
}
use wa_wasm_oracle.Abi.Evidence.{FunctionAbi}
use wa_wasm_oracle.Abi.Layout.{Layout, read, name_of, param_count, parsing_module}
use wa_wasm_oracle.Abi.Scan.{scan_body}

-- The loop to the body of a local index; payloads behind it are not read.
abbrev pub find_body : ℕ → Reader Payload → Result AbiError (Option Body)
find_body seen [] = ok none
find_body seen (none ∷ payloads) = err (malformed parsing_module)
find_body zero (some (code_section_entry body) ∷ payloads) = ok (some body)
find_body (suc left) (some (code_section_entry body) ∷ payloads) = find_body left payloads
find_body seen (some _ ∷ payloads) = find_body seen payloads

-- `self.table.iter().filter(…)`
abbrev pub slots_of : ℕ → List (ℕ × ℕ) → List ℕ
slots_of func_index [] = []
slots_of func_index ((slot, target) ∷ table) =
    if target == func_index then slot ∷ slots_of func_index table else slots_of func_index table

abbrev pub import_abi : List ℕ → ℕ → FunctionAbi
import_abi name index = record {
  name = name;
  index = index;
  params = [];
  scanned = 0;
  table_slots = [];
  body = [];
}

module _ (debug : Operator → List ℕ) (body_limit : ℕ) (payloads : Reader Payload) where
  abbrev pub analyse_body : Layout → List ℕ → ℕ → Option Body → Result AbiError (Option FunctionAbi)
  analyse_body m name func_index none = err (no_body func_index)
  analyse_body m name func_index (some body) =
      scan_body debug body_limit m.data_segments name func_index (param_count m func_index) body
      >>= λ abi. ok (some (record abi { table_slots = slots_of func_index m.table }))

  unfoldable pub analyse : Layout → List ℕ → ℕ → Result AbiError (Option FunctionAbi)
  unfolding scan_body param_count
  analyse m name func_index =
      if ltb func_index m.imported_funcs
      then ok none
      else find_body (func_index - m.imported_funcs) payloads >>= analyse_body m name func_index

  unfoldable pub infer_table_slot : ℕ → Result AbiError (Option FunctionAbi)
  unfolding analyse read
  infer_table_slot slot = read payloads >>= λ m. elim (lookup slot m.table) [
    | none ↦ ok none
    | some func_index ↦ analyse m (codes "table[" ++ (decimal slot ++ codes "]")) func_index
  ]

  unfoldable pub infer_index : ℕ → Result AbiError (Option FunctionAbi)
  unfolding analyse read name_of
  infer_index func_index = read payloads >>= λ m.
      if ltb func_index m.imported_funcs
      then ok (some (import_abi (name_of m func_index) func_index))
      else analyse m (name_of m func_index) func_index

  -- Behind one answer of `analyse`: a function without a body is skipped.
  abbrev pub and_then :
      Option FunctionAbi → Result AbiError (List FunctionAbi) → Result AbiError (List FunctionAbi)
  and_then none more = more
  and_then (some abi) more = more >>= λ abis. ok (abi ∷ abis)

  abbrev pub infer_exports :
      (List ℕ → Bool) → Layout → List (List ℕ × ℕ) → Result AbiError (List FunctionAbi)
  infer_exports filter m [] = ok []
  infer_exports filter m ((name, index) ∷ exports) =
      let more = infer_exports filter m exports in
      if filter name then (analyse m name index >>= λ found. and_then found more) else more

  abbrev pub name_le : FunctionAbi → FunctionAbi → Bool
  name_le a b = elim (bytes_cmp a.name b.name) [ Ordering.gt ↦ false | _ ↦ true ]

  unfoldable pub infer : (List ℕ → Bool) → Result AbiError (List FunctionAbi)
  unfolding analyse read
  infer filter = read payloads >>= λ m.
      infer_exports filter m m.exported_functions >>= λ abis. ok (sort_by name_le abis)
