-- ===== src/Emscripten/Proxy.antt =====
-- Calls that a worker has proxied to the main thread: `emscripten_receive_on_main_thread_js` of
-- crates/oracle-core/src/emscripten.rs. A double is its 64-bit pattern, and conversions between
-- integers, floats and doubles are parameters.
use wa_wasm_oracle.Prelude.{ℕ, suc, ◌*◌, List, [], ◌∷◌, ◌++◌, Option}
use wa_wasm_oracle.Prelude.Result.{Result, ok, err, ◌>>=◌}
use wa_wasm_oracle.Prelude.Sort.{decimal}
use wa_wasm_oracle.Prelude.Text.{codes}
use wa_wasm_oracle.Prelude.Words.{add32, of_le_bytes, u32}
use wa_wasm_oracle.Exports.{
  Instance, Func, ValType, i32_type, i64_type, f32_type, f64_type, v128_type, ref_type, sync_memory,
}
use wa_wasm_oracle.Emscripten.{as_u64}
use wa_wasm_oracle.Emscripten.Invokes.{table_entry}
use wa_wasm_oracle.Memory.{MemError, read}
use wa_wasm_oracle.State.{HostState}
use wa_wasm_oracle.Vals.{Val, i32, i64, f32, f64}

-- `as` between the formats, `{:?}` of a type, and the text of a failed read.
pub record Doubles : Type 0 where
  pub to_i32 : ℕ → ℕ
  pub to_i64 : ℕ → ℕ
  pub to_f32 : ℕ → ℕ
  pub of_i32 : ℕ → ℕ
  pub of_i64 : ℕ → ℕ
  pub of_f32 : ℕ → ℕ
  pub type_text : ValType → List ℕ
  pub error_text : MemError → List ℕ

module _ (d : Doubles) where
  abbrev pub unsupported : ValType → Result (List ℕ) Val
  unsupported t = err (codes "proxied call takes an unsupported " ++ d.type_text t)

  abbrev pub of_double : ValType → ℕ → Result (List ℕ) Val
  of_double i32_type raw = ok (i32 (d.to_i32 raw))
  of_double i64_type raw = ok (i64 (d.to_i64 raw))
  of_double f32_type raw = ok (f32 (d.to_f32 raw))
  of_double f64_type raw = ok (f64 raw)
  of_double v128_type raw = unsupported v128_type
  of_double ref_type raw = unsupported ref_type

  abbrev pub double_at : ℕ → ℕ → HostState → Result (List ℕ) ℕ
  double_at args position h = elim (read h.guest (add32 args (u32 (position * 8))) 8) [
    | ok bytes ↦ ok (of_le_bytes bytes)
    | err e ↦
        err (
          codes "reading proxied argument " ++ (decimal position ++ (codes ": " ++ d.error_text e)))
  ]

  -- One argument for each parameter of the callee, in order.
  abbrev pub proxied_args : List ValType → ℕ → ℕ → HostState → Result (List ℕ) (List Val)
  proxied_args [] position args h = ok []
  proxied_args (t ∷ types) position args h = double_at args position h >>= λ raw.
      of_double t raw >>= λ v. proxied_args types (suc position) args h >>= λ vs. ok (v ∷ vs)

  abbrev pub to_double : List Val → ℕ
  to_double (i32 value ∷ out) = d.of_i32 value
  to_double (i64 value ∷ out) = d.of_i64 value
  to_double (f32 bits ∷ out) = d.of_f32 bits
  to_double (f64 bits ∷ out) = bits
  to_double _ = 0

  abbrev pub answer_double : HostState × Result (List ℕ) (List Val) → HostState × Result (List ℕ) ℕ
  answer_double (h, ok out) = (h, ok (to_double out))
  answer_double (h, err error) = (h, err error)

  abbrev pub call_proxied : Func → ℕ → HostState → HostState × Result (List ℕ) ℕ
  call_proxied callee args h = elim (proxied_args callee.params 0 args h) [
    | err error ↦ (h, err error)
    | ok values ↦ answer_double (callee.call values h)
  ]

  unfoldable pub receive_on_main_thread :
      Instance → Option (List ℕ) → ℕ → ℕ → HostState → HostState × Result (List ℕ) ℕ
  unfolding table_entry
  receive_on_main_thread instance_ table_export index args h =
      let h' = sync_memory instance_ h in
      elim (table_entry instance_ table_export (as_u64 index) h') [
        | err error ↦ (h', err error)
        | ok callee ↦ call_proxied callee args h'
      ]
