-- ===== src/Abi/Search.antt =====
-- The searches over every body of a module: `find_callers`, `find_constant_users` and
-- `find_address_refs` of crates/oracle-core/src/abi.rs.
pub mod Bodies
pub mod Bases
pub mod Laws
pub mod Addresses
use wa_wasm_oracle.Prelude.{
  ℕ, zero, suc, ◌+◌, ◌-◌, ◌%◌, Bool, true, false, ◌&&◌, ◌||◌, List, [], ◌∷◌, ◌++◌, Option, none,
  some, ltb, leb, ◌==◌, if◌then◌else◌,
}
use wa_wasm_oracle.Prelude.Result.{Result, ok, err, ◌>>=◌}
use wa_wasm_oracle.Prelude.Sort.{sort_by}
use wa_wasm_oracle.Prelude.Words.{u32}
use wa_wasm_oracle.Abi.{
  Operator, call, return_call, i32_const, Reader, Body, Payload, code_section_entry, AbiError,
  malformed, malformed_body, for_each, for_each_operator, reading_instruction,
}
use wa_wasm_oracle.Abi.Layout.{Layout, read, parsing_module}

-- `let func = (imported_funcs + local_index) as u32; local_index += 1; …` at each body.
module _ {ℓ} {S : Type ℓ} (visit : ℕ → Body → S → Result AbiError S) (imported : ℕ) where
  abbrev pub visit_payload : Payload → ℕ × S → Result AbiError (ℕ × S)
  visit_payload (code_section_entry body) (local_index, s) =
      visit (u32 (imported + local_index)) body s >>= λ s'. ok (suc local_index, s')
  visit_payload _ (local_index, s) = ok (local_index, s)

  abbrev pub visit_bodies : Reader Payload → S → Result AbiError S
  visit_bodies payloads s = for_each parsing_module visit_payload payloads (0, s) >>= λ r. ok (r.1)

-- The arm with its guard.
abbrev pub calls_it : ℕ → Operator → Bool
calls_it callee (call index) = index == callee
calls_it callee (return_call index) = index == callee
calls_it callee _ = false

-- The walk breaks off at the first call.
abbrev pub has_call : ℕ → Reader Operator → Result AbiError Bool
has_call callee [] = ok false
has_call callee (none ∷ operators) = err (malformed reading_instruction)
has_call callee (some op ∷ operators) = elim (calls_it callee op) [
  | true ↦ ok true
  | false ↦ has_call callee operators
]

abbrev pub body_has_call : ℕ → Body → Result AbiError Bool
body_has_call callee none = err malformed_body
body_has_call callee (some operators) = has_call callee operators

abbrev pub add_caller : ℕ → ℕ → Body → List ℕ → Result AbiError (List ℕ)
add_caller callee function body callers = body_has_call callee body >>= λ found.
    ok (if found then callers ++ (function ∷ []) else callers)

unfoldable pub find_callers : Reader Payload → ℕ → Result AbiError (List ℕ)
unfolding read
find_callers payloads callee =
    read payloads >>= λ m. visit_bodies (add_caller callee) m.imported_funcs payloads []

abbrev pub count_use : ℕ → Operator → ℕ → Result AbiError ℕ
count_use value (i32_const seen) uses = ok (if seen == value then uses + 1 else uses)
count_use value _ uses = ok uses

abbrev pub add_user : ℕ → ℕ → Body → List (ℕ × ℕ) → Result AbiError (List (ℕ × ℕ))
add_user value function body found = for_each_operator (count_use value) body 0 >>= λ uses.
    ok (if ltb 0 uses then found ++ ((function, uses) ∷ []) else found)

-- The constant is compared as its pattern.
unfoldable pub find_constant_users : Reader Payload → ℕ → Result AbiError (List (ℕ × ℕ))
unfolding read
find_constant_users payloads value =
    read payloads >>= λ m. visit_bodies (add_user value) m.imported_funcs payloads []

pub record AddressRef : Type 0 where
  pub function : ℕ
  pub loaded : ℕ
  pub offset : ℕ

abbrev pub is_seen : ℕ → ℕ → List AddressRef → Bool
is_seen function loaded [] = false
is_seen function loaded (r ∷ found) =
    (r.function == function) && (r.loaded == loaded) || is_seen function loaded found

abbrev pub is_base : ℕ → ℕ → ℕ → Bool
is_base address low loaded = leb low loaded && (leb loaded address && ((address - loaded) % 4 == 0))

abbrev pub add_base : ℕ → ℕ → ℕ → Operator → List AddressRef → Result AbiError (List AddressRef)
add_base address low function (i32_const loaded) found =
    if is_base address low loaded
    then ok (
        if is_seen function loaded found
        then found
        else found
          ++ (record { function = function; loaded = loaded; offset = address - loaded } ∷ []))
    else ok found
add_base address low function _ found = ok found

abbrev pub add_bases : ℕ → ℕ → ℕ → Body → List AddressRef → Result AbiError (List AddressRef)
add_bases address low function body found =
    for_each_operator (add_base address low function) body found

abbrev pub offset_le : AddressRef → AddressRef → Bool
offset_le a b = leb a.offset b.offset

unfoldable pub find_address_refs : Reader Payload → ℕ → ℕ → Result AbiError (List AddressRef)
unfolding read
find_address_refs payloads address window = read payloads >>= λ m.
    visit_bodies (add_bases address (address - window)) m.imported_funcs payloads [] >>= λ found.
    ok (sort_by offset_le found)
