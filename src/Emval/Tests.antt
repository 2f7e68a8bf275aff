-- ===== src/Emval/Tests.antt =====
-- Concrete runs of the value table: crates/oracle-core/src/emval.rs.
use wa_wasm_oracle.Prelude.{
  ℕ, ◌+◌, ◌-◌, ◌<◌, ◌≡◌, ◌≢◌, refl, [], ◌∷◌, none, some, arith, ltb, if◌then◌else◌,
}
use wa_wasm_oracle.Prelude.Int.{pos}
use wa_wasm_oracle.Prelude.Map.{lookup}
use wa_wasm_oracle.Prelude.Result.{ok}
use wa_wasm_oracle.Prelude.Text.{codes}
use wa_wasm_oracle.Prelude.Words.{le_bytes, signed32}
use wa_wasm_oracle.Embind.{no_registrations, type_name}
use wa_wasm_oracle.Emval.{EmvalTable, decref, get, no_values, refs, store}
use wa_wasm_oracle.Emval.Imports.{emval_take_value, emval_take_value-int}
use wa_wasm_oracle.Emval.Laws.{IsValid, decref_lem, store-IsValid}
use wa_wasm_oracle.Memory.{cells, put_all, read}
use wa_wasm_oracle.Shared.{fresh_shared}
use wa_wasm_oracle.State.{HostState, for_thread, refuse}
use wa_wasm_oracle.Values.{Floats, int}
use wa_wasm_oracle.Vals.{i32}

empty-IsValid : IsValid no_values
unfolding lookup
empty-IsValid h = tt

abbrev one_value : EmvalTable
one_value = (store (int (pos 7)) no_values).0

one_value-IsValid : IsValid one_value
one_value-IsValid = store-IsValid (int (pos 7)) no_values empty-IsValid (omega arith)

decref_lem_example :
    (refs 1 (decref 1 one_value) ≡ refs 1 one_value - 1)
    × (get 1 (decref 1 one_value) ≡ (if ltb 1 (refs 1 one_value) then get 1 one_value else none))
    × ((j : ℕ)
        → j ≢ 1
        → (get j (decref 1 one_value) ≡ get j one_value)
          × (refs j (decref 1 one_value) ≡ refs j one_value))
decref_lem_example = decref_lem 1 one_value one_value-IsValid

-- A thread with the type 5 registered as `int`, and -2 at the address 64.
abbrev host : HostState
host = record (for_thread fresh_shared 0 refuse) {
  embind = record no_registrations { types = (5, codes "int") ∷ [] };
  guest = record {
    memory = some (record { size = 128; cell = put_all (λ p. 0) 64 (le_bytes 4 4294967294) });
    linear = none;
  };
}

abbrev no_floats : Floats
no_floats = record { widen = λ n. n; narrow = λ n. n; of_int = λ n. 0 }

host-int : type_name host.embind 5 ≡ codes "int"
unfolding type_name lookup
host-int = refl

host-bytes : read host.guest 64 4 ≡ ok (le_bytes 4 4294967294)
unfolding read for_thread cells
host-bytes = refl

host-IsValid : IsValid host.emval
unfolding lookup for_thread
host-IsValid h = tt

host-room : host.emval.next + 1 < 4294967296
unfolding for_thread
host-room = omega arith

emval_take_value-int_example :
    (h' : HostState) × (handle : ℕ) × (emval_take_value no_floats
        (i32 5 ∷ i32 64 ∷ [])
        (i32 0 ∷ [])
        host
      ≡ (h', i32 handle ∷ []))
    × (handle ≢ 0)
    × (get handle host.emval ≡ none)
    × (get handle h'.emval ≡ some (int (signed32 4294967294)))
emval_take_value-int_example =
    emval_take_value-int no_floats host 5 64 4294967294 (omega arith) (omega arith) (omega arith)
      host-int host-bytes host-IsValid host-room
