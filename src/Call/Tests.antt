-- ===== src/Call/Tests.antt =====
-- Concrete calls of registered functions.
use wa_wasm_oracle.Prelude.{◌+◌, ◌-◌, ◌≡◌, refl, true, false, [], ◌∷◌, none, some, arith}
use wa_wasm_oracle.Prelude.Map.{lookup}
use wa_wasm_oracle.Prelude.Result.{ok}
use wa_wasm_oracle.Prelude.Text.{codes}
use wa_wasm_oracle.Call.{
  Guests, malloc, primitive_wire, read_std_string, wire_for, write_std_string,
}
use wa_wasm_oracle.Call.Embind.{call_embind, encode_all}
use wa_wasm_oracle.Call.Encode.{encode, encode_plain}
use wa_wasm_oracle.Call.Strings.{read_std_string-write_std_string}
use wa_wasm_oracle.Embind.{EmbindFunction, no_registrations, type_name}
use wa_wasm_oracle.Memory.{write}
use wa_wasm_oracle.Shared.{fresh_shared}
use wa_wasm_oracle.State.{HostState, for_thread, refuse}
use wa_wasm_oracle.Values.{Floats, str}
use wa_wasm_oracle.Vals.{i32}

-- An allocator that always answers 32 and counts, in `rng`, the blocks that were not freed.
abbrev allocator : Guests
allocator = record {
  has_entry = λ index h. true;
  table_call = λ index args h. (h, some []);
  malloc_call = λ len h. (record h { rng = h.rng + 1 }, some (i32 32 ∷ []));
  free_call = λ ptr h. record h { rng = h.rng - 1 };
}

abbrev no_floats : Floats
no_floats = record { widen = λ n. n; narrow = λ n. n; of_int = λ n. 0 }

abbrev two_arguments : EmbindFunction
two_arguments = record {
  name = codes "join";
  arg_types = 1 ∷ 2 ∷ 3 ∷ [];
  invoker = 4;
  function = 5;
  is_async = false;
}

-- `join` takes a string and an integer.
abbrev host : HostState
host = record (for_thread fresh_shared 0 refuse) {
  rng = 0;
  embind = record no_registrations {
    types = (1, codes "void") ∷ (2, codes "std::string") ∷ (3, codes "int") ∷ [];
    functions = two_arguments ∷ [];
  };
  guest = record { memory = some (record { size = 256; cell = λ p. 0 }); linear = none };
}

abbrev host_written : HostState
host_written = (write_std_string allocator (codes "call") host).0

writes_string : write_std_string allocator (codes "call") host ≡ (host_written, ok 32)
unfolding write_std_string malloc write for_thread
writes_string = refl

read_std_string-write_std_string_example :
    read_std_string 32 host_written ≡ (host_written, ok (codes "call"))
read_std_string-write_std_string_example =
    read_std_string-write_std_string allocator (codes "call") host host_written 32
      (omega arith, (omega arith, (omega arith, (omega arith, tt)))) (omega arith) (omega arith)
      (omega arith) writes_string

-- A second argument that cannot be passed leaves the block of the first one unfreed.
unfreed :
    (call_embind allocator no_floats
      (codes "join")
      (str (codes "call") ∷ str (codes "x") ∷ [])
      host).0.rng
    ≡ 1
unfolding call_embind encode_all encode encode_plain wire_for primitive_wire type_name lookup
    write_std_string malloc write for_thread
unfreed = refl
