-- ===== src/Emval/Imports.antt =====
-- The `_emval_*` imports: `define` of crates/oracle-core/src/emval.rs.
use wa_wasm_oracle.Prelude.{
  ℕ, ◌+◌, ◌^◌, ◌<◌, ◌≡◌, ◌≢◌, refl, ap, ◌∙◌, List, [], ◌∷◌, ◌++◌, Option, none, some, arith, true,
  inl, inr,
}
use wa_wasm_oracle.Prelude.Result.{ok}
use wa_wasm_oracle.Prelude.Words.{u32, le_bytes, signed32, of_le_bytes-le_bytes_4}
use wa_wasm_oracle.Memory.{Guest, read}
use wa_wasm_oracle.Emval.Laws.{IsValid, store_lem}
use wa_wasm_oracle.Prelude.Text.{codes}
use wa_wasm_oracle.Embind.{type_name}
use wa_wasm_oracle.Emval.{store, get, incref, decref}
use wa_wasm_oracle.Emval.Pointer.{
  Reader, as_int, read_through_pointer, read_as, reader_of, read_int, sign_extend, sign_extend_lem,
}
use wa_wasm_oracle.State.{HostState, log}
use wa_wasm_oracle.Values.{Value, int, Floats}
use wa_wasm_oracle.Vals.{Val, i32, int_arg, set_first}

abbrev pub no_reader : List ℕ → List ℕ
no_reader name = codes "_emval_take_value: no reader for type `" ++ (name ++ codes "`")

-- The handle of what was read, or 0 and a log line for a type that has no reader.
abbrev pub hand_out : List ℕ → Option Value → HostState → HostState × ℕ
hand_out name (some value) h =
    let (emval, handle) = store value h.emval in (record h { emval = emval }, handle)
hand_out name none h = (log (no_reader name) h, 0)

module _ (floats : Floats) where
  unfoldable pub emval_take_value : List Val → List Val → HostState → HostState × List Val
  emval_take_value params results h =
      let name = type_name h.embind (int_arg params 0) in
      let (h', handle) =
        hand_out name (read_through_pointer floats h.guest name (int_arg params 1)) h in
      (h', set_first (i32 handle) results)

unfoldable pub emval_incref : List Val → HostState → HostState
emval_incref params h = record h { emval = incref (int_arg params 0) h.emval }

unfoldable pub emval_decref : List Val → HostState → HostState
emval_decref params h = record h { emval = decref (int_arg params 0) h.emval }

read_int-four :
    (g : Guest) (ptr v : ℕ)
    → v < 2 ^ 32
    → read g ptr 4 ≡ ok (le_bytes 4 v)
    → read_int g ptr 4 true ≡ some (int (signed32 v))
unfolding read_int
read_int-four g ptr v small bytes =
    let extended : sign_extend 4 v ≡ signed32 v =
      sign_extend_lem 4 v (inr (inr (inl refl))) small in
    ground (arith, bytes, of_le_bytes-le_bytes_4 v small, extended)

reader_of-int : reader_of (codes "int") ≡ as_int 4 true
unfolding reader_of
reader_of-int = refl

read_through_pointer-int :
    (floats : Floats) (g : Guest) (ptr v : ℕ)
    → v < 2 ^ 32
    → read g ptr 4 ≡ ok (le_bytes 4 v)
    → read_through_pointer floats g (codes "int") ptr ≡ some (int (signed32 v))
unfolding read_through_pointer read_as
read_through_pointer-int floats g ptr v small bytes =
    ap (λ (r : Reader). read_as floats r g ptr) reader_of-int ∙ read_int-four g ptr v small bytes

-- Where a type is registered as `int` and its four bytes can be read, `_emval_take_value` answers a
-- handle that is not 0 and not live before, and the handle's value is the signed integer of the bytes.
pub emval_take_value-int :
    (floats : Floats) (h : HostState) (id ptr v : ℕ)
    → id < 2 ^ 32
    → ptr < 2 ^ 32
    → v < 2 ^ 32
    → type_name h.embind id ≡ codes "int"
    → read h.guest ptr 4 ≡ ok (le_bytes 4 v)
    → IsValid h.emval
    → h.emval.next + 1 < 2 ^ 32
    → (h' : HostState) × (handle : ℕ) × (emval_take_value floats
          (i32 id ∷ i32 ptr ∷ [])
          (i32 0 ∷ [])
          h
        ≡ (h', i32 handle ∷ []))
      × (handle ≢ 0)
      × (get handle h.emval ≡ none)
      × (get handle h'.emval ≡ some (int (signed32 v)))
unfolding emval_take_value
emval_take_value-int floats h id ptr v small_id small_ptr small_v name bytes valid room =
    let (fresh, before, after, one, others) = store_lem (int (signed32 v)) h.emval valid room in
    (
      record h { emval = (store (int (signed32 v)) h.emval).0 },
      (store (int (signed32 v)) h.emval).1,
      (let a : u32 id ≡ id = omega arith in
          let b : u32 ptr ≡ ptr = omega arith in
          rw (a, b, name, read_through_pointer-int floats h.guest ptr v small_v bytes) refl),
      fresh,
      before,
      after,
    )
