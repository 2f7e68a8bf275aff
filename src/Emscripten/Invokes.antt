-- ===== src/Emscripten/Invokes.antt =====
-- The trampolines of `invoke_*` imports and the time imports: `define_invokes`, `table_entry`,
-- `set_threw`, `zero_of` and `define_time` of crates/oracle-core/src/emscripten.rs.
pub mod Laws
use wa_wasm_oracle.Prelude.{
  ℕ, ◌+◌, ◌*◌, Bool, true, false, ◌||◌, if◌then◌else◌, List, [], ◌∷◌, ◌++◌, Option, none, some,
  get_elem?,
}
use wa_wasm_oracle.Prelude.Int.{ℤ, pos}
use wa_wasm_oracle.Prelude.Result.{Result, ok, err}
use wa_wasm_oracle.Prelude.Sort.{decimal}
use wa_wasm_oracle.Prelude.Text.{codes, starts_with}
use wa_wasm_oracle.Prelude.Words.{signed32, signed64, pattern32, add32, le_bytes}
use wa_wasm_oracle.Calendar.{from_unix, fields_of, BrokenDownTime}
use wa_wasm_oracle.Exports.{
  Instance, Func, ValType, i32_type, i64_type, f32_type, f64_type, v128_type, ref_type, TableEntry,
  Table, callable, null_entry, no_function, out_of_bounds_entry, table, optional_func, sync_memory,
  is_among,
}
use wa_wasm_oracle.Memory.{MemError}
use wa_wasm_oracle.Emscripten.{HostError, trap, memory_error, as_u64}
use wa_wasm_oracle.State.{HostState, log, write_memory}
use wa_wasm_oracle.Vals.{Val, i32, i64, f32, f64, set_first}

abbrev pub zero_of : ValType → Val
zero_of i32_type = i32 0
zero_of i64_type = i64 0
zero_of f32_type = f32 0
zero_of f64_type = f64 0
zero_of v128_type = Val.other
zero_of ref_type = Val.other

-- `for (slot, ty) in results.iter_mut().zip(&result_types)`
abbrev pub zero_all : List Val → List ValType → List Val
zero_all [] types = []
zero_all (r ∷ results) [] = r ∷ results
zero_all (r ∷ results) (t ∷ types) = zero_of t ∷ zero_all results types

-- Whether an import is taken for a trampoline, by its name or by the shape of its call sites.
unfoldable pub is_invoke : Option (List (List ℕ)) → List ℕ → Bool
is_invoke none name = starts_with (codes "invoke_") name
is_invoke (some by_shape) name = starts_with (codes "invoke_") name || is_among name by_shape

-- Writes in order, up to the first that fails.
abbrev pub write_each : List (ℕ × List ℕ) → HostState → HostState × Result MemError (Unit {0})
write_each [] h = (h, ok tt)
write_each ((ptr, bytes) ∷ writes) h = elim (write_memory ptr bytes h) [
  | ok h' ↦ write_each writes h'
  | err e ↦ (h, err e)
]

module _ (instance_ : Instance) where
  abbrev pub threw_names : List (List ℕ)
  threw_names = codes "setThrew" ∷ codes "_setThrew" ∷ []

  -- The call's own result is dropped.
  abbrev pub call_threw : HostState × Option Func → HostState
  call_threw (h, none) = h
  call_threw (h, some f) = (f.call (i32 1 ∷ i32 0 ∷ []) h).0

  unfoldable pub set_threw : HostState → HostState
  set_threw h = call_threw (optional_func instance_ threw_names h)

  -- `table_export` is the name of the table that was recorded when the module was instantiated.
  module _ (table_export : Option (List ℕ)) where
    abbrev pub conventional : List ℕ
    conventional = codes "__indirect_function_table"

    abbrev pub table_name : List ℕ
    table_name = elim table_export [ some name ↦ name | none ↦ conventional ]

    abbrev pub entry_of : ℕ → TableEntry → Result (List ℕ) Func
    entry_of index (callable f) = ok f
    entry_of index null_entry =
        err (codes "function table entry " ++ (decimal index ++ codes " is null"))
    entry_of index (no_function other) =
        err (codes "table entry " ++ (decimal index ++ (codes " is not a function: " ++ other)))
    entry_of index out_of_bounds_entry =
        err (codes "function table index " ++ (decimal index ++ codes " is out of bounds"))

    unfoldable pub table_entry : ℕ → HostState → Result (List ℕ) Func
    table_entry index h = elim (table instance_ (table_name ∷ conventional ∷ []) h) [
      | ok t ↦ entry_of index (t index)
      | err error ↦ err error
    ]

    abbrev pub after_call :
        List ℕ
        → List ValType
        → List Val
        → HostState × Result (List ℕ) (List Val)
        → HostState × List Val
    after_call name types results (h, ok out) = (h, out)
    after_call name types results (h, err error) = (
      log (codes "caught in " ++ (name ++ (codes ": " ++ error))) (set_threw h),
      zero_all results types,
    )

    -- `debug` is the `Debug` form of a value.
    abbrev pub invoke_at :
        List ℕ
        → List ValType
        → ℕ
        → List Val
        → List Val
        → HostState
        → HostState × Result (List ℕ) (List Val)
    invoke_at name types index args results h = elim (table_entry index h) [
      | err error ↦ (h, err error)
      | ok callee ↦
          let (h', out) = after_call name types results (callee.call args h) in (h', ok out)
    ]

    unfoldable pub invoke :
        (Val → List ℕ)
        → List ℕ
        → List ValType
        → List Val
        → List Val
        → HostState
        → HostState × Result (List ℕ) (List Val)
    unfolding set_threw table_entry
    invoke debug name types [] results h = (h, err (name ++ codes " called with no table index"))
    invoke debug name types (i32 index ∷ args) results h =
        invoke_at name types (as_u64 index) args results h
    invoke debug name types (v ∷ args) results h =
        (h, err (name ++ (codes " index is not i32: " ++ debug v)))

  abbrev pub time_arg : Option Val → ℤ
  time_arg (some (i64 v)) = signed64 v
  time_arg (some (i32 v)) = signed32 v
  time_arg _ = pos 0

  abbrev pub pointer_arg : Option Val → ℕ
  pointer_arg (some (i32 v)) = v
  pointer_arg _ = 0

  abbrev pub field_writes : ℕ → ℕ → List ℤ → List (ℕ × List ℕ)
  field_writes ptr index [] = []
  field_writes ptr index (v ∷ vs) =
      (add32 ptr (index * 4), le_bytes 4 (pattern32 v)) ∷ field_writes ptr (index + 1) vs

  abbrev pub with_failure : HostState × Result MemError (Unit {0}) → HostState × Bool
  with_failure (h, ok u) = (h, false)
  with_failure (h, err e) = (h, true)

  -- The state, where the fields in front of one that cannot be written are kept, and whether it
  -- failed.
  abbrev pub write_broken : Option BrokenDownTime → ℕ → HostState → HostState × Bool
  write_broken none tm h = (h, true)
  write_broken (some broken) tm h =
      with_failure (write_each (field_writes tm 0 (fields_of broken)) h)

  unfoldable pub localtime_js : List Val → List Val → HostState → HostState × List Val
  localtime_js params results h =
      let (h', failed) =
        write_broken (from_unix (time_arg (get_elem? params 0))) (pointer_arg (get_elem? params 1))
          (sync_memory instance_ h) in
      (h', set_first (i32 (if failed then 1 else 0)) results)

  abbrev pub utc : List ℕ
  utc = 85 ∷ 84 ∷ 67 ∷ 0 ∷ []

  unfoldable pub tzset_js : List Val → HostState → HostState × Result MemError (Unit {0})
  tzset_js params h =
      let at : ℕ → ℕ = λ index. pointer_arg (get_elem? params index) in
      write_each ((at 0, le_bytes 4 0) ∷ (at 1, le_bytes 4 0) ∷ (at 2, utc) ∷ (at 3, utc) ∷ [])
        (sync_memory instance_ h)
