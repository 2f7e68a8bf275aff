-- ===== src/Cxa/Tests.antt =====
-- A concrete exception: an object at 64 of the type 9.
use wa_wasm_oracle.Prelude.{◌+◌, ◌-◌, ◌≡◌, ◌≢◌, refl, [], ◌∷◌, none, some, arith}
use wa_wasm_oracle.Prelude.Text.{codes}
use wa_wasm_oracle.Prelude.Words.{le_bytes}
use wa_wasm_oracle.Cxa.{
  Exports, adjusted_ptr_offset, exception_type, find_matching_catch, header_size, optional_func,
  set_temp_ret0, try_write,
}
use wa_wasm_oracle.Cxa.Laws.{find_matching_catch-selected, selected}
use wa_wasm_oracle.Memory.{cells, put_all, read, read_u32}
use wa_wasm_oracle.Shared.{fresh_shared}
use wa_wasm_oracle.State.{HostState, for_thread, refuse}

-- A module with `setTempRet0` alone.
abbrev few_exports : Exports
few_exports = record {
  get_exception_message = none;
  malloc = none;
  free = none;
  set_temp_ret0 = some (λ value h. record h { rng = value });
  cxa_can_catch = none;
  absent = λ name h. name;
  hex = λ n. [];
}

abbrev host : HostState
host = record (for_thread fresh_shared 0 refuse) {
  guest = record { memory = some (record { size = 256; cell = λ p. 0 }); linear = none };
}

abbrev thrown : HostState
thrown = record host {
  in_flight = record { ptr = 64; type_id = 9 };
  guest = record {
    memory = some (record { size = 256; cell = put_all (λ p. 0) 44 (le_bytes 4 9) });
    linear = none;
  };
}

abbrev marked : HostState
marked = record host {
  guest = record {
    memory = some (record { size = 256; cell = put_all (λ p. 0) 44 (le_bytes 4 9) });
    linear = none;
  };
}

thrown_typed : exception_type thrown 64 ≢ 0
unfolding exception_type read_u32 read cells for_thread
thrown_typed = omega arith

find_matching_catch-selected_example : find_matching_catch few_exports (5 ∷ 9 ∷ []) thrown ≡ (
  set_temp_ret0 few_exports (selected (exception_type thrown 64) (5 ∷ 9 ∷ [])) (
      optional_func few_exports
        (codes "__cxa_can_catch")
        few_exports.cxa_can_catch
        (try_write (64 - header_size + adjusted_ptr_offset) (le_bytes 4 64) thrown)),
  64,
)
find_matching_catch-selected_example =
    find_matching_catch-selected few_exports (5 ∷ 9 ∷ []) thrown refl (omega arith) (omega arith)
      thrown_typed
