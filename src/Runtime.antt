-- ===== src/Runtime.antt =====
-- Driving a module from the host: calls, constructors, the queue of the main thread and the entry
-- point, of crates/oracle-core/src/runtime.rs. What other threads do while the main thread waits for
-- its turn is a parameter.
pub mod Settle
pub mod Stubs
pub mod Laws
mod Tests
use wa_wasm_oracle.Prelude.{
  ℕ, zero, suc, ◌+◌, ◌-◌, ◌^◌, Bool, true, false, ◌&&◌, List, [], ◌∷◌, ◌++◌, Option, none, some,
  ltb, leb, ◌==◌, if◌then◌else◌, length, take, drop, replicate,
}
use wa_wasm_oracle.Prelude.Int.{ℤ, pos}
use wa_wasm_oracle.Prelude.Result.{Result, ok, err, ◌>>=◌}
use wa_wasm_oracle.Prelude.Sort.{decimal}
use wa_wasm_oracle.Prelude.Text.{codes, is_printable}
use wa_wasm_oracle.Prelude.Words.{signed32}
use wa_wasm_oracle.Exports.{Instance, Func, sync_memory}
use wa_wasm_oracle.Memory.{read}
use wa_wasm_oracle.State.{HostState, WasiState, log}
use wa_wasm_oracle.Turn.{Waits, acquire, release}
use wa_wasm_oracle.Vals.{Val, i32}
use wa_wasm_oracle.Wasi.{normalise}

-- `canary_at`: the first window of printable bytes, 256 of them, in the MiB above 0x10000.
abbrev pub canary_from : ℕ
canary_from = 65536

abbrev pub canary_window : ℕ
canary_window = 1048576

abbrev pub canary_bytes : ℕ
canary_bytes = 256

-- How many bytes from the front on are printable.
abbrev pub printable_run : List ℕ → ℕ
printable_run [] = 0
printable_run (b ∷ bs) = let run = printable_run bs in if is_printable b then suc run else 0

-- `windows(CANARY_BYTES).position(…)`
abbrev pub first_window : ℕ → List ℕ → Option ℕ
first_window at [] = none
first_window at (b ∷ bs) =
    let later = first_window (suc at) bs in
    if leb canary_bytes (printable_run (b ∷ bs)) then some at else later

abbrev pub slice_at : List ℕ → Option ℕ → Option (ℕ × List ℕ)
slice_at region none = none
slice_at region (some start) = some (canary_from + start, take canary_bytes (drop start region))

unfoldable pub canary_at : HostState → Option (ℕ × List ℕ)
canary_at h = elim (read h.guest canary_from canary_window) [
  | err e ↦ none
  | ok region ↦ slice_at region (first_window 0 region)
]

module _ (instance_ : Instance) (waits : Waits) where
  -- Behind the check of the arguments.
  abbrev pub call_with :
      List ℕ → Func → List Val → HostState → HostState × Result (List ℕ) (List Val)
  call_with name f args h =
      let (h', outcome) = f.call args (acquire waits 0 h) in
      (
        sync_memory instance_ (release 0 h'),
        elim outcome [
          | ok results ↦ ok results
          | err error ↦ err (codes "calling `" ++ (name ++ (codes "`: " ++ error)))
        ],
      )

  unfoldable pub wrong_count : List ℕ → ℕ → ℕ → List ℕ
  wrong_count name expected got =
      codes "`"
      ++ (name
          ++ (codes "` takes "
              ++ (decimal expected ++ (codes " argument(s), got " ++ decimal got))))

  -- `Runtime::call`
  unfoldable pub call : List ℕ → List Val → HostState → HostState × Result (List ℕ) (List Val)
  call name args h = elim (instance_.funcs name) [
    | none ↦ (h, err (codes "no exported function `" ++ (name ++ codes "`")))
    | some f ↦
        if length args == length f.params
        then call_with name f args h
        else (h, err (wrong_count name (length f.params) (length args)))
  ]

  -- The constructors: the first of two names, then the bindings. The state, whether one ran, and
  -- the failure that ended it.
  abbrev pub ctor_names : List (List ℕ)
  ctor_names = codes "__wasm_call_ctors" ∷ codes "_initialize" ∷ []

  abbrev pub then_ran : HostState × Result (List ℕ) (List Val) → HostState × Result (List ℕ) Bool
  then_ran (h, ok results) = (h, ok true)
  then_ran (h, err error) = (h, err error)

  abbrev pub run_first : List (List ℕ) → HostState → HostState × Result (List ℕ) Bool
  run_first [] h = (h, ok false)
  run_first (name ∷ names) h = elim (instance_.funcs name) [
    | some f ↦ then_ran (call name [] h)
    | none ↦ run_first names h
  ]

  abbrev pub bindings : List ℕ
  bindings = codes "_embind_initialize_bindings"

  abbrev pub run_bindings : HostState × Result (List ℕ) Bool → HostState × Result (List ℕ) Bool
  run_bindings (h, err error) = (h, err error)
  run_bindings (h, ok ran) = elim (instance_.funcs bindings) [
    | none ↦ (h, ok ran)
    | some f ↦ then_ran (call bindings [] h)
  ]

  abbrev pub take_canary :
      HostState × Result (List ℕ) Bool → HostState × Result (List ℕ) (Option (ℕ × List ℕ))
  take_canary (h, err error) = (h, err error)
  take_canary (h, ok false) = (h, err (codes "module exports no constructor entry point"))
  take_canary (h, ok true) = (h, ok (canary_at h))

  -- `run_ctors` answers the canary that it keeps.
  unfoldable pub run_ctors : HostState → HostState × Result (List ℕ) (Option (ℕ × List ℕ))
  unfolding call canary_at
  run_ctors h = take_canary (run_bindings (run_first ctor_names h))

  abbrev pub legacy : List ℕ
  legacy = codes "emscripten_main_thread_process_queued_calls"

  abbrev pub mailbox : List ℕ
  mailbox = codes "_emscripten_check_mailbox"

  abbrev pub log_failure : List ℕ → HostState × Result (List ℕ) (List Val) → HostState
  log_failure name (h, ok results) = h
  log_failure name (h, err error) = log (name ++ (codes " failed: " ++ error)) h

  -- An entry point that is there is called without a turn, and its failure is logged.
  abbrev pub drain_by : List ℕ → Option Func → HostState → HostState × Bool
  drain_by name none h = (h, false)
  drain_by name (some f) h = (log_failure name (f.call [] h), true)

  abbrev pub drain_legacy : Bool → HostState → HostState × Bool
  drain_legacy drained h =
      if h.register_main_thread
      then (let (h', ran) = drain_by legacy (instance_.funcs legacy) h in
          (h', if ran then true else drained))
      else (h, drained)

  unfoldable pub process_queued_calls : HostState → HostState × Bool
  process_queued_calls h =
      let (h1, drained) = drain_by mailbox (instance_.funcs mailbox) h in
      let (h2, all_drained) = drain_legacy drained h1 in (sync_memory instance_ h2, all_drained)

  abbrev pub entry_names : List (List ℕ)
  entry_names = codes "_start" ∷ codes "__main_void" ∷ codes "main" ∷ []

  abbrev pub find_entry : List (List ℕ) → Option (List ℕ × Func)
  find_entry [] = none
  find_entry (name ∷ names) = elim (instance_.funcs name) [
    | some f ↦ some (name, f)
    | none ↦ find_entry names
  ]

  abbrev pub exit_or_zero : Option ℤ → ℤ
  exit_or_zero (some code) = code
  exit_or_zero none = pos 0

  -- The code of a run that returned, and of one that was ended by an error.
  abbrev pub returned_code : HostState → List Val → ℤ
  returned_code h (i32 code ∷ results) = signed32 code
  returned_code h _ = exit_or_zero h.shared.exit_code

  abbrev pub ended_code : List ℕ → Option ℤ → Result (List ℕ) ℤ
  ended_code error (some code) = ok code
  ended_code error none = err error

  abbrev pub main_code : HostState × Result (List ℕ) (List Val) → HostState × Result (List ℕ) ℤ
  main_code (h, ok results) = (h, ok (returned_code h results))
  main_code (h, err error) = (h, ended_code error h.shared.exit_code)

  unfoldable pub run_main : HostState → HostState × Result (List ℕ) ℤ
  unfolding call
  run_main h = elim (find_entry entry_names) [
    | none ↦ (h, err (codes "module has no WASI entry point"))
    | some (name, f) ↦ main_code (call name (replicate (length f.params) (i32 0)) h)
  ]

-- `argv[0]` is supplied.
unfoldable pub set_args : List (List ℕ) → HostState → HostState
set_args args h = record h { wasi = record h.wasi { args = codes "module" ∷ args } }

unfoldable pub set_env : List (List ℕ × List ℕ) → HostState → HostState
set_env env h = record h { wasi = record h.wasi { env = env } }
