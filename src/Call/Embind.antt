-- ===== src/Call/Embind.antt =====
-- `call_embind` of crates/oracle-core/src/call.rs: a registered function with its arguments.
use wa_wasm_oracle.Prelude.{
  zero, suc, ◌+◌, ◌++◌, drop, ℕ, true, false, List, [], ◌∷◌, Option, none, some, ◌==◌,
  if◌then◌else◌, not, length,
}
use wa_wasm_oracle.Prelude.Int.{ℤ, pos, pos_part}
use wa_wasm_oracle.Prelude.Words.{signed32}
use wa_wasm_oracle.Prelude.Result.{Result, ok, err}
use wa_wasm_oracle.Prelude.Text.{bytes_eq, codes}
use wa_wasm_oracle.Embind.{EmbindFunction, EmbindMethod}
use wa_wasm_oracle.State.{HostState}
use wa_wasm_oracle.Values.{Value, Handle, Floats, int}
use wa_wasm_oracle.Vals.{Val, i32}
use wa_wasm_oracle.Call.{
  Wire, CallError, no_function, no_types, wrong_count, unknown_type, not_callable, guest_failed,
  Guests, Run, Owned, nothing_owned, release_owned, wire_for, embind_class, unknown_class,
  no_method, unexpected_result, first_i32, need, ◌>>=!◌,
}
use wa_wasm_oracle.Call.Encode.{encode, decode, method_named}

abbrev pub function_named : List ℕ → List EmbindFunction → Option EmbindFunction
function_named name [] = none
function_named name (f ∷ fs) = if bytes_eq f.name name then some f else function_named name fs

module _ (g : Guests) (floats : Floats) where
  -- The loop over the arguments: the first one that cannot be encoded ends it.
  unfoldable pub encode_all :
      List Value → List ℕ → Owned → HostState → HostState × Owned × Result CallError (List Val)
  unfolding encode wire_for
  encode_all (v ∷ vs) (t ∷ ts) owned h = elim (wire_for h t) [
    | none ↦ (h, owned, err unknown_type)
    | some wire ↦
        let (h', owned', r) = encode g floats v wire owned h in
        elim r [
          | err e ↦ (h', owned', err e)
          | ok val ↦
              let (h'', owned'', rest) = encode_all vs ts owned' h' in
              elim rest [
                | err e ↦ (h'', owned'', err e)
                | ok vals ↦ (h'', owned'', ok (val ∷ vals))
              ]
        ]
  ]
  encode_all _ _ owned h = (h, owned, ok [])

  unfoldable pub invoke : ℕ → List Val → Wire → Run Value
  unfolding decode
  invoke invoker args wire h = elim (g.has_entry invoker h) [
    | false ↦ (h, err not_callable)
    | true ↦
        let (h', out) = g.table_call invoker args h in
        elim out [ none ↦ (h', err guest_failed) | some rs ↦ decode g floats wire rs h' ]
  ]

  -- The call of a table entry with its leading arguments and the encoded ones, and the release of what
  -- those own.
  abbrev pub finish_call :
      ℕ
      → List Val
      → ℕ
      → HostState × Owned × Result CallError (List Val)
      → HostState × Result CallError Value
  finish_call invoker leading result_type (h, owned, err e) = (h, err e)
  finish_call invoker leading result_type (h, owned, ok vals) = elim (wire_for h result_type) [
    | none ↦ (h, err unknown_type)
    | some wire ↦
        let (h', outcome) = invoke invoker (leading ++ vals) wire h in
        (release_owned g owned h', outcome)
  ]

  abbrev pub call_with : ℕ → List Val → ℕ → List ℕ → List Value → Run Value
  call_with invoker leading result_type param_types args h =
      if not (length args == length param_types)
      then (h, err wrong_count)
      else finish_call invoker leading result_type (encode_all args param_types nothing_owned h)

  abbrev pub call_function : EmbindFunction → List ℕ → List Value → Run Value
  call_function f [] args h = (h, err no_types)
  call_function f (result_type ∷ param_types) args h =
      call_with f.invoker (i32 f.function ∷ []) result_type param_types args h

  unfoldable pub call_embind : List ℕ → List Value → Run Value
  unfolding encode_all invoke release_owned wire_for
  call_embind name args h = elim (function_named name h.embind.functions) [
    | none ↦ (h, err no_function)
    | some f ↦ call_function f f.arg_types args h
  ]

  -- A method's types are those of the result, of the instance and of the parameters.
  abbrev pub call_declared : Handle → EmbindMethod → List ℕ → List Value → Run Value
  call_declared handle m [] args h = (h, err no_types)
  call_declared handle m (result_type ∷ rest) args h =
      call_with m.invoker (i32 m.context ∷ i32 handle.ptr ∷ []) result_type (drop 1 rest) args h

  unfoldable pub call_method : Handle → List ℕ → List Value → Run Value
  unfolding encode_all invoke release_owned wire_for embind_class
  call_method handle name args h =
      (need unknown_class (embind_class h handle.class_type) >>=! λ class.
      need no_method (method_named name class.methods) >>=! λ m.
      call_declared handle m m.arg_types args)
        h

  unfoldable pub vector_len : Handle → Run ℤ
  unfolding embind_class
  vector_len handle h =
      (need unknown_class (embind_class h handle.class_type) >>=! λ class.
      need no_method (method_named (codes "size") class.methods) >>=! λ size. λ h'.
        elim (g.has_entry size.invoker h') [
          | false ↦ (h', err not_callable)
          | true ↦
              let (h'', out) =
                g.table_call size.invoker (i32 size.context ∷ i32 handle.ptr ∷ []) h' in
              elim out [
                | none ↦ (h'', err guest_failed)
                | some rs ↦ elim (first_i32 (some rs)) [
                  | none ↦ (h'', err unexpected_result)
                  | some len ↦ (h'', ok (signed32 len))
                ]
              ]
        ])
        h

  -- `(0..len)` has no element where the length is negative.
  abbrev pub read_elements : Handle → ℕ → ℕ → Run (List Value)
  read_elements handle index zero h = (h, ok [])
  read_elements handle index (suc left) h =
      let rest = read_elements handle (index + 1) left in
      let (h', r) = call_method handle (codes "get") (int (pos index) ∷ []) h in
      elim r [
        | err e ↦ (h', err e)
        | ok value ↦
            (let (h'', r') = rest h' in
              elim r' [ err e ↦ (h'', err e) | ok values ↦ (h'', ok (value ∷ values)) ])
      ]

  unfoldable pub read_vector : Handle → Run (List Value)
  unfolding vector_len call_method
  read_vector handle h = (vector_len handle >>=! λ len. read_elements handle 0 (pos_part len)) h
