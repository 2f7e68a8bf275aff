-- ===== src/Call/Encode.antt =====
-- Arguments and results on the wire: `encode`, `build_vector`, `fill_vector` and the end of `invoke`
-- of crates/oracle-core/src/call.rs.
use wa_wasm_oracle.Prelude.{
  ℕ, Bool, true, false, not, List, [], ◌∷◌, ◌++◌, map, Option, none, some, ◌==◌, if◌then◌else◌,
  get_elem?, length,
}
use wa_wasm_oracle.Prelude.Int.{ℤ, pos, negsuc}
use wa_wasm_oracle.Prelude.Result.{Result, ok, err}
use wa_wasm_oracle.Prelude.Text.{codes, bytes_eq}
use wa_wasm_oracle.Prelude.Words.{u32, pattern32, pattern64, signed32, signed64}
use wa_wasm_oracle.Embind.{EmbindConstructor, EmbindMethod}
use wa_wasm_oracle.Emval.{get, decref}
use wa_wasm_oracle.State.{HostState}
use wa_wasm_oracle.Values.{
  Value, Handle, Floats, void, bool, int, double, str, object, bytes, string_list, int_list,
}
use wa_wasm_oracle.Vals.{Val, i32, i64, f32, f64}
use wa_wasm_oracle.Call.{
  Wire, void_wire, bool_wire, i32_wire, i64_wire, f32_wire, f64_wire, std_string, emval_wire,
  class_wire, CallError, cannot_pass, wrong_handle, wrong_elements, unknown_class, no_constructor,
  no_method, unknown_type, no_types, not_callable, guest_failed, no_value, unexpected_result,
  Guests, Run, ◌>>=!◌, need, Owned, nothing_owned, first_i32, read_std_string, write_std_string,
  release, release_owned, embind_class, wire_for,
}

-- What `encode` leaves: the state, what must be released, and the argument.
abbrev pub Encoded : Type 0
Encoded = HostState × Owned × Result CallError Val

abbrev pub flag : Bool → ℕ
flag true = 1
flag false = 0

abbrev pub is_zero : ℤ → Bool
is_zero (pos n) = n == 0
is_zero (negsuc n) = false

abbrev pub owned_block : Owned → HostState × Result CallError ℕ → Encoded
owned_block owned (h, ok ptr) =
    (h, record owned { allocations = owned.allocations ++ (ptr ∷ []) }, ok (i32 ptr))
owned_block owned (h, err e) = (h, owned, err e)

abbrev pub owned_object : Owned → HostState × Result CallError Handle → Encoded
owned_object owned (h, ok handle) =
    (h, record owned { objects = owned.objects ++ (handle ∷ []) }, ok (i32 handle.ptr))
owned_object owned (h, err e) = (h, owned, err e)

abbrev pub elements : Wire → List ℤ → List (List ℕ) → Result CallError (List Value)
elements std_string [] strings = ok (map str strings)
elements std_string (n ∷ numbers) strings = err wrong_elements
elements i32_wire numbers [] = ok (map int numbers)
elements i32_wire numbers (s ∷ strings) = err wrong_elements
elements i64_wire numbers [] = ok (map int numbers)
elements i64_wire numbers (s ∷ strings) = err wrong_elements
elements _ numbers strings = err wrong_elements

-- `find(|constructor| constructor.arg_types.len() == 1)` and `find(|method| method.name == …)`.
abbrev pub default_constructor : List EmbindConstructor → Option EmbindConstructor
default_constructor [] = none
default_constructor (c ∷ cs) = if length c.arg_types == 1 then some c else default_constructor cs

abbrev pub method_named : List ℕ → List EmbindMethod → Option EmbindMethod
method_named name [] = none
method_named name (m ∷ ms) = if bytes_eq m.name name then some m else method_named name ms

module _ (g : Guests) (floats : Floats) where
  -- `encode` of what is no instance of a class.
  unfoldable pub encode_plain : Value → Wire → Owned → HostState → Encoded
  unfolding write_std_string
  encode_plain (bool b) bool_wire owned h = (h, owned, ok (i32 (flag b)))
  encode_plain (int v) bool_wire owned h = (h, owned, ok (i32 (flag (not (is_zero v)))))
  encode_plain (bool b) i32_wire owned h = (h, owned, ok (i32 (flag b)))
  encode_plain (int v) i32_wire owned h = (h, owned, ok (i32 (pattern32 v)))
  encode_plain (int v) i64_wire owned h = (h, owned, ok (i64 (pattern64 v)))
  encode_plain (double d) f64_wire owned h = (h, owned, ok (f64 d))
  encode_plain (double d) f32_wire owned h = (h, owned, ok (f32 (floats.narrow d)))
  encode_plain (int v) f64_wire owned h = (h, owned, ok (f64 (floats.of_int v)))
  encode_plain (str text) std_string owned h = owned_block owned (write_std_string g text h)
  encode_plain _ _ owned h = (h, owned, err cannot_pass)

  -- The loop of `fill_vector`: a temporary is released behind its call, whether or not that worked.
  unfoldable pub push_all :
      Handle → EmbindMethod → Wire → List Value → HostState → HostState × Result CallError Handle
  unfolding encode_plain release_owned
  push_all handle push_back wire [] h = (h, ok handle)
  push_all handle push_back wire (v ∷ vs) h =
      let (h', owned, r) = encode_plain v wire nothing_owned h in
      elim r [
        | err e ↦ (h', err e)
        | ok val ↦ elim (g.has_entry push_back.invoker h') [
          | false ↦ (h', err not_callable)
          | true ↦
              let (h'', out) =
                g.table_call push_back.invoker (i32 push_back.context ∷ i32 handle.ptr ∷ val ∷ [])
                  h' in
              let h₃ = release_owned g owned h'' in
              elim out [
                | none ↦ (h₃, err guest_failed)
                | some rs ↦ push_all handle push_back wire vs h₃
              ]
        ]
      ]

  -- A vector that was not filled is released.
  abbrev pub keep_or_release :
      Handle → HostState × Result CallError Handle → HostState × Result CallError Handle
  keep_or_release handle (h, ok built) = (h, ok built)
  keep_or_release handle (h, err e) = (release g handle h, err e)

  abbrev pub fill_vector :
      Handle
      → EmbindMethod
      → Wire
      → List ℤ
      → List (List ℕ)
      → HostState
      → HostState × Result CallError Handle
  fill_vector handle push_back wire numbers strings h = elim (elements wire numbers strings) [
    | err e ↦ (h, err e)
    | ok values ↦ push_all handle push_back wire values h
  ]

  abbrev pub construct : EmbindConstructor → ℕ → Run Handle
  construct c class_type h = elim (g.has_entry c.invoker h) [
    | false ↦ (h, err not_callable)
    | true ↦
        let (h', out) = g.table_call c.invoker (i32 c.constructor ∷ []) h in
        elim out [
          | none ↦ (h', err guest_failed)
          | some rs ↦ elim (first_i32 (some rs)) [
            | none ↦ (h', err unexpected_result)
            | some ptr ↦ (h', ok (record { ptr = ptr; class_type = class_type }))
          ]
        ]
  ]

  unfoldable pub build_vector : ℕ → List ℤ → List (List ℕ) → Run Handle
  unfolding push_all embind_class wire_for release
  build_vector class_type numbers strings h =
      (need unknown_class (embind_class h class_type) >>=! λ class.
      need no_constructor (default_constructor class.constructors) >>=! λ constructor.
      need no_method (method_named (codes "push_back") class.methods) >>=! λ push_back.
      need no_types (get_elem? push_back.arg_types 2) >>=! λ element_type.
      need unknown_type (wire_for h element_type) >>=! λ wire.
      construct constructor class_type >>=! λ handle.
      λ h'. keep_or_release handle (fill_vector handle push_back wire numbers strings h'))
        h

  unfoldable pub encode : Value → Wire → Owned → HostState → Encoded
  unfolding encode_plain build_vector
  encode (object handle) (class_wire c) owned h =
      if handle.class_type == c
      then (h, owned, ok (i32 handle.ptr))
      else (h, owned, err wrong_handle)
  encode (bytes bs) (class_wire c) owned h = owned_object owned (build_vector c (map pos bs) [] h)
  encode (int_list ns) (class_wire c) owned h = owned_object owned (build_vector c ns [] h)
  encode (string_list ss) (class_wire c) owned h = owned_object owned (build_vector c [] ss h)
  encode value wire owned h = encode_plain value wire owned h

  -- The end of `invoke`: the value of the call's first result.
  unfoldable pub decode : Wire → List Val → Run Value
  unfolding read_std_string
  decode void_wire rs h = (h, ok void)
  decode bool_wire (i32 v ∷ rs) h = (h, ok (bool (not (v == 0))))
  decode i32_wire (i32 v ∷ rs) h = (h, ok (int (signed32 v)))
  decode i64_wire (i64 v ∷ rs) h = (h, ok (int (signed64 v)))
  decode f32_wire (f32 v ∷ rs) h = (h, ok (double (floats.widen v)))
  decode f64_wire (f64 v ∷ rs) h = (h, ok (double v))
  decode emval_wire (i32 v ∷ rs) h = elim (get (u32 v) h.emval) [
    | none ↦ (h, err no_value)
    | some value ↦ (record h { emval = decref (u32 v) h.emval }, ok value)
  ]
  decode (class_wire c) (i32 v ∷ rs) h = (h, ok (object (record { ptr = u32 v; class_type = c })))
  decode std_string (i32 v ∷ rs) h =
      (read_std_string (u32 v) >>=! λ text. λ h'. (g.free_call (u32 v) h', ok (str text))) h
  decode _ rs h = (h, err unexpected_result)
