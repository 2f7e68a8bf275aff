-- ===== src/Abi/Tests.antt =====
-- Concrete runs over a module of an import and two functions: crates/oracle-core/src/abi.rs.
use wa_wasm_oracle.Prelude.{
  ℕ, ◌-◌, ◌≡◌, ◌≤◌, ◌⊎◌, refl, true, false, ◌&&◌, leb, List, [], ◌∷◌, none, some, arith, length,
  get_elem?, All,
}
use wa_wasm_oracle.Prelude.Map.{lookup, insert, nat_ord}
use wa_wasm_oracle.Prelude.Result.{ok}
use wa_wasm_oracle.Prelude.Sort.{IsSorted, sort_by}
use wa_wasm_oracle.Prelude.Text.{codes, is_printable}
use wa_wasm_oracle.Prelude.Words.{le_bytes}
use wa_wasm_oracle.Abi.{
  Operator, local_get, local_set, i32_const, i32_add, i32_load, i32_store, call, drop_op, end_op,
  Payload, type_section, import_section, function_section, element_section, code_section_entry,
  func_type, func, active_element, functions, Reader,
}
use wa_wasm_oracle.Abi.Evidence.{FunctionAbi}
use wa_wasm_oracle.Abi.Invokes.{find_invoke_imports}
use wa_wasm_oracle.Abi.Invokes.Laws.{IsFound, find_invoke_imports-IsFound}
use wa_wasm_oracle.Abi.Layout.{read}
use wa_wasm_oracle.Abi.Layout.Segments.{element_segments, in_slot}
use wa_wasm_oracle.Abi.Layout.Table.{read-in_slot}
use wa_wasm_oracle.Abi.Scan.{contains, scan_body, begin_scan}
use wa_wasm_oracle.Abi.Arms.{arm}
use wa_wasm_oracle.Abi.Scan.Laws.{decoded, indices_of, scan_all, scan_body_complete}
use wa_wasm_oracle.Abi.Scan.Origins.{
  Machine, argument, reckoning, unknown, assign, Falls, done, then_step, get, set, produce, compute,
  entry_machine, Agrees, scan_all-Agrees,
}
use wa_wasm_oracle.Abi.Search.{
  find_callers, find_address_refs, is_seen, is_base, offset_le, AddressRef,
}
use wa_wasm_oracle.Abi.Search.Addresses.{find_address_refs-exact}
use wa_wasm_oracle.Abi.Search.Bases.{Reaches, loads_in}
use wa_wasm_oracle.Abi.Search.Bodies.{bodies}
use wa_wasm_oracle.Abi.Search.Laws.{calls_in, find_callers-exact}
use wa_wasm_oracle.Abi.Texts.{string_start, find_pointer_slots}
use wa_wasm_oracle.Abi.Texts.Laws.{AllPrintable, string_start_lem}
use wa_wasm_oracle.Abi.Texts.Slots.{points_in, find_pointer_slots-exact}

abbrev guarded_call : List Operator
guarded_call =
    i32_const 100
    ∷ i32_const 0
    ∷ i32_store 0
    ∷ i32_const 7
    ∷ call 0
    ∷ i32_const 100
    ∷ i32_load 0
    ∷ drop_op
    ∷ end_op
    ∷ []

abbrev address_user : List Operator
address_user = local_get 0 ∷ i32_const 92 ∷ i32_load 8 ∷ call 1 ∷ end_op ∷ []

-- Function 0 is the import `env.invoke_v`; the table holds function 2 in slot 3 and 1 in slot 4.
abbrev two_functions : Reader Payload
two_functions =
    some (type_section (some (func_type 1 ∷ []) ∷ []))
    ∷ some (
        import_section
          (some (record { module_name = codes "env"; name = codes "invoke_v"; ty = func 0 }) ∷ []))
    ∷ some (function_section (some 0 ∷ some 0 ∷ []))
    ∷ some (
        element_section (
          some (record {
            kind = active_element (some (i32_const 3) ∷ some end_op ∷ []);
            items = functions (some 2 ∷ some 1 ∷ []);
          })
          ∷ []))
    ∷ some (code_section_entry (some (decoded guarded_call)))
    ∷ some (code_section_entry (some (decoded address_user)))
    ∷ []

abbrev no_debug : Operator → List ℕ
no_debug op = codes "op"

scan_body_complete_example :
    (abi : FunctionAbi) × (scan_body no_debug 3 [] (codes "f") 1 1 (some (decoded guarded_call))
      ≡ ok abi)
    × (indices_of abi.params ≡ 0 ∷ [])
    × (abi.scanned ≡ 9)
    × (length abi.body ≡ 3)
scan_body_complete_example = scan_body_complete no_debug 3 [] (codes "f") 1 1 guarded_call

-- Local 1 is set to the sum of the argument and a constant.
abbrev added : List Operator
added = local_get 0 ∷ i32_const 8 ∷ i32_add ∷ local_set 1 ∷ []

abbrev sum_stored : Machine
sum_stored = record { locals = assign argument 1 (reckoning (argument 0) unknown); values = [] }

added-Falls : Falls added entry_machine sum_stored
unfolding arm
added-Falls =
    then_step refl get (then_step refl produce (then_step refl compute (then_step refl set done)))

scan_all-Agrees_example : Agrees (scan_all no_debug 3 [] added (begin_scan 2)) sum_stored
scan_all-Agrees_example = scan_all-Agrees no_debug 3 [] 2 added sum_stored added-Falls

read-in_slot_example : some 1 ≡ in_slot (element_segments two_functions) 4 none
unfolding read lookup insert
read-in_slot_example = read-in_slot 4 two_functions _ (omega arith, tt) refl

find_callers-exact_example : contains 2 (2 ∷ []) ≡ calls_in 1 (get_elem? (bodies two_functions) 1)
unfolding read find_callers
find_callers-exact_example = find_callers-exact two_functions 1 _ (2 ∷ []) 2 refl (omega arith) refl

find_invoke_imports-IsFound_example : All (IsFound two_functions 1) ((0, 100) ∷ [])
unfolding read find_invoke_imports insert
find_invoke_imports-IsFound_example =
    find_invoke_imports-IsFound two_functions _ ((0, 100) ∷ []) refl refl

string_start_lem_example :
    (2 ≤ 4) × AllPrintable (104 ∷ 105 ∷ []) × (◌≡◌ {A = ℕ} 2 0 ⊎ (is_printable 0 ≡ false))
unfolding string_start
string_start_lem_example = string_start_lem (65 ∷ 0 ∷ 104 ∷ 105 ∷ 33 ∷ []) 4

abbrev one_segment : List (ℕ × List ℕ)
one_segment = (8, 0 ∷ 0 ∷ 0 ∷ 0 ∷ 44 ∷ 1 ∷ 0 ∷ 0 ∷ []) ∷ []

find_pointer_slots-exact_example : true ≡ points_in 12 one_segment (le_bytes 4 300)
unfolding find_pointer_slots
find_pointer_slots-exact_example = find_pointer_slots-exact one_segment 300 12 (omega arith, tt)

abbrev entry_refs : List AddressRef
entry_refs =
    record { function = 1; loaded = 100; offset = 0 }
    ∷ record { function = 2; loaded = 92; offset = 8 }
    ∷ []

find_address_refs-exact_example :
    ((f v : ℕ)
      → is_seen f v entry_refs
        ≡ is_base 100 80 v && (leb 1 f && loads_in v (get_elem? (bodies two_functions) (f - 1))))
    × All (Reaches 100) entry_refs
    × IsSorted offset_le entry_refs
unfolding read find_address_refs sort_by
find_address_refs-exact_example =
    find_address_refs-exact two_functions 100 20 _ entry_refs refl (omega arith) refl
