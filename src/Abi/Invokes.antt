-- ===== src/Abi/Invokes.antt =====
-- The search for emscripten's trampolines by the shape of their call sites: `find_invoke_imports`
-- of crates/oracle-core/src/abi.rs.
pub mod Shape
pub mod Steps
pub mod Laws
use wa_wasm_oracle.Prelude.{
  ℕ, zero, suc, ◌-◌, Bool, ◌&&◌, List, [], ◌∷◌, Option, none, some, ltb, leb, ◌==◌, if◌then◌else◌,
  take,
}
use wa_wasm_oracle.Prelude.Map.{nat_ord, insert}
use wa_wasm_oracle.Prelude.Result.{Result, ok, ◌>>=◌}
use wa_wasm_oracle.Abi.{
  Operator, i32_const, i32_store, i32_load, call, Reader, Body, Payload, code_section_entry,
  AbiError, for_each, for_each_operator,
}
use wa_wasm_oracle.Abi.Layout.{read, parsing_module}

abbrev pub lookbehind : ℕ
lookbehind = 24

abbrev pub lookahead : ℕ
lookahead = 3

-- The locals of the walk over one body; the window is held last operator first.
pub record InvokeScan : Type 0 where
  pub cleared : Option (ℕ × ℕ)
  pub pending : Option (ℕ × ℕ × ℕ)
  pub window : List Operator
  pub position : ℕ
  pub found : List (ℕ × ℕ)

abbrev pub begin_body : List (ℕ × ℕ) → InvokeScan
begin_body found = record {
  cleared = none;
  pending = none;
  window = [];
  position = 0;
  found = found;
}

-- The address that `i32.const A / i32.const 0` in front of a store clears.
abbrev pub cleared_address : List Operator → Option ℕ
cleared_address (i32_const zero ∷ i32_const addr ∷ window) = some addr
cleared_address _ = none

abbrev pub loaded_address : List Operator → Option ℕ
loaded_address (i32_const addr ∷ window) = some addr
loaded_address _ = none

abbrev pub clear_at : Option ℕ → InvokeScan → InvokeScan
clear_at (some addr) s = record s { cleared = some (addr, s.position) }
clear_at none s = s

abbrev pub read_back : Option ℕ → Option (ℕ × ℕ × ℕ) → InvokeScan → InvokeScan
read_back (some addr) (some (f, expected, at)) s =
    if (addr == expected) && leb (s.position - at) lookahead
    then record s { found = insert f expected s.found; pending = none }
    else s
read_back _ _ s = s

abbrev pub await : ℕ → Option (ℕ × ℕ) → InvokeScan → InvokeScan
await f (some (addr, at)) s =
    if leb (s.position - at) lookbehind
    then record s { pending = some (f, addr, s.position) }
    else s
await f none s = s

module _ (imported : ℕ) where
  abbrev pub examine : Operator → InvokeScan → InvokeScan
  examine (i32_store _) s = clear_at (cleared_address s.window) s
  examine (i32_load _) s = read_back (loaded_address s.window) s.pending s
  examine (call f) s = if ltb f imported then await f s.cleared s else s
  examine _ s = s

  abbrev pub advance : Operator → InvokeScan → InvokeScan
  advance op s = record s { window = take 3 (op ∷ s.window); position = suc s.position }

  unfoldable pub invoke_operator : Operator → InvokeScan → Result AbiError InvokeScan
  invoke_operator op s = ok (advance op (examine op s))

  unfoldable pub invoke_payload : Payload → List (ℕ × ℕ) → Result AbiError (List (ℕ × ℕ))
  unfolding invoke_operator
  invoke_payload (code_section_entry body) found =
      for_each_operator invoke_operator body (begin_body found) >>= λ s. ok s.found
  invoke_payload _ found = ok found

unfoldable pub find_invoke_imports : Reader Payload → Result AbiError (List (ℕ × ℕ))
unfolding read invoke_payload
find_invoke_imports payloads =
    read payloads >>= λ m. for_each parsing_module (invoke_payload m.imported_funcs) payloads []
