-- ===== src/Spawn.antt =====
-- Guest threads: `Spawner::spawn`, `run_thread`, `table_entry` and `first_line` of
-- crates/oracle-core/src/threads.rs. Starting an operating-system thread, bringing up the instance,
-- giving up the processor, and what other threads do while a thread waits for its turn are parameters.
-- Errors are their `{:#}` text.
pub mod Laws
mod Tests
use wa_wasm_oracle.Prelude.{
  ℕ, zero, suc, ◌+◌, ◌-◌, ◌^◌, Bool, true, false, ◌&&◌, not, List, [], ◌∷◌, ◌++◌, Option, none,
  some, ltb, leb, ◌==◌, if◌then◌else◌, length, take, min,
}
use wa_wasm_oracle.Prelude.Int.{ℤ, pos}
use wa_wasm_oracle.Prelude.Result.{Result, ok, err, ◌>>=◌}
use wa_wasm_oracle.Prelude.Sort.{decimal}
use wa_wasm_oracle.Prelude.Text.{codes}
use wa_wasm_oracle.Prelude.Words.{of_le_bytes}
use wa_wasm_oracle.Exports as Exports
use wa_wasm_oracle.Exports.{
  Instance, Func, Table, TableEntry, callable, null_entry, no_function, out_of_bounds_entry,
  first_of,
}
use wa_wasm_oracle.Memory.{Mem, read_mapped}
use wa_wasm_oracle.Shared.{SharedHost, allocate_thread_id, thread_started, thread_finished}
use wa_wasm_oracle.Shared as Shared
use wa_wasm_oracle.State.{HostState, log}
use wa_wasm_oracle.Turn.{Waits, acquire, release}
use wa_wasm_oracle.Vals.{Val, i32}

abbrev pub before_newline : List ℕ → Option (List ℕ)
before_newline [] = none
before_newline (c ∷ text) =
    let rest = before_newline text in
    if c == 10 then some [] else elim rest [ some line ↦ some (c ∷ line) | none ↦ none ]

-- A carriage return in front of the newline goes with it.
abbrev pub strip_return : List ℕ → List ℕ
strip_return [] = []
strip_return (c ∷ []) = if c == 13 then [] else c ∷ []
strip_return (c ∷ d ∷ text) = c ∷ strip_return (d ∷ text)

unfoldable pub first_line : List ℕ → List ℕ
first_line text = elim (before_newline text) [ some line ↦ strip_return line | none ↦ text ]

-- `replace('\n', " | ")`
abbrev pub one_line : List ℕ → List ℕ
one_line [] = []
one_line (c ∷ text) = if c == 10 then codes " | " ++ one_line text else c ∷ one_line text

abbrev pub stack_high : ℕ
stack_high = 52

abbrev pub spins : ℕ
spins = 2000

-- `read_u32` of threads.rs: through the shared memory alone.
abbrev pub word_of : Option Mem → ℕ → Option ℕ
word_of none at = none
word_of (some m) at = elim (read_mapped m at 4) [
  | ok bytes ↦ some (of_le_bytes bytes)
  | err e ↦ none
]

abbrev pub is_set : Option ℕ → Bool
is_set (some top) = not (top == 0)
is_set none = false

abbrev pub saturating_add32 : ℕ → ℕ → ℕ
saturating_add32 a b = min (a + b) (2 ^ 32 - 1)

-- Results of a call that are dropped, its error behind a context.
abbrev pub in_context :
    List ℕ → HostState × Result (List ℕ) (List Val) → HostState × Result (List ℕ) (Unit {0})
in_context text (h, ok results) = (h, ok tt)
in_context text (h, err error) = (h, err (text ++ (codes ": " ++ error)))

module _ (table_export : Option (List ℕ)) where
  abbrev pub table_name : List ℕ
  table_name = elim table_export [ some name ↦ name | none ↦ codes "__indirect_function_table" ]

  abbrev pub export_count : Option (List (List ℕ)) → ℕ
  export_count (some names) = length names
  export_count none = 0

  abbrev pub entry_of : ℕ → TableEntry → Result (List ℕ) Func
  entry_of index (callable f) = ok f
  entry_of index _ =
      err (codes "thread entry " ++ (decimal index ++ codes " is not a callable table entry"))

  unfoldable pub table_entry : Instance → ℕ → HostState → Result (List ℕ) Func
  table_entry instance_ index h = elim (instance_.tables table_name) [
    | some t ↦ entry_of index (t index)
    | none ↦ err (
        codes "module exports no function table named `"
        ++ (table_name
            ++ (codes "` (of " ++ (decimal (export_count h.shared.exports) ++ codes " exports)"))))
  ]

  module _ (bring_up : HostState → Result (List ℕ) Instance) (yield_now : HostState → HostState)
      (waits : Waits) (hex : ℕ → List ℕ) where
    -- Waits for the control block, up to 2000 times.
    unfoldable pub wait_ready : ℕ → ℕ → HostState → HostState
    wait_ready zero thread_ptr h = h
    wait_ready (suc left) thread_ptr h =
        elim (is_set (word_of h.guest.memory (saturating_add32 thread_ptr stack_high))) [
          | true ↦ h
          | false ↦ wait_ready left thread_ptr (yield_now h)
        ]

    abbrev pub init_names : List (List ℕ)
    init_names = codes "__emscripten_thread_init" ∷ codes "_emscripten_thread_init" ∷ []

    abbrev pub init_args : ℕ → List Val
    init_args thread_ptr = i32 thread_ptr ∷ i32 0 ∷ i32 0 ∷ i32 1 ∷ i32 0 ∷ i32 0 ∷ []

    abbrev pub init_thread : Instance → ℕ → HostState → HostState × Result (List ℕ) (Unit {0})
    init_thread instance_ thread_ptr h = elim (first_of instance_.funcs init_names) [
      | none ↦ (h, ok tt)
      | some init ↦
          in_context (codes "__emscripten_thread_init")
            (init.call (take (min (length init.params) 6) (init_args thread_ptr)) h)
    ]

    abbrev pub reading : Result (List ℕ) (List Val) → List ℕ
    reading (ok (i32 value ∷ results)) = hex value
    reading (ok results) = codes "not an i32"
    reading (err error) = first_line error

    abbrev pub thread_text : ℕ → List ℕ → List ℕ
    thread_text id what = codes "thread " ++ (decimal id ++ (codes " " ++ what))

    abbrev pub log_stack : Instance → ℕ → HostState → HostState
    log_stack instance_ id h = elim (instance_.funcs (codes "stackSave")) [
      | none ↦ h
      | some save ↦
          let (h', answer) = save.call [] h in
          log (thread_text id (codes "stack pointer " ++ reading answer)) h'
    ]

    abbrev pub init_tls : Instance → HostState → HostState × Result (List ℕ) (Unit {0})
    init_tls instance_ h = elim (instance_.funcs (codes "_emscripten_tls_init")) [
      | none ↦ (h, ok tt)
      | some tls ↦ in_context (codes "_emscripten_tls_init") (tls.call [] h)
    ]

    -- From taking the turn to thread-local storage; a failure ends the thread with the turn taken.
    abbrev pub then_tls :
        Instance
        → ℕ
        → HostState × Result (List ℕ) (Unit {0})
        → HostState × Result (List ℕ) (Unit {0})
    then_tls instance_ id (h, err error) = (h, err error)
    then_tls instance_ id (h, ok u) = init_tls instance_ (log_stack instance_ id h)

    unfoldable pub bind_thread :
        Instance → ℕ → ℕ → HostState → HostState × Result (List ℕ) (Unit {0})
    bind_thread instance_ id thread_ptr h =
        then_tls instance_ id
          (init_thread instance_ thread_ptr (acquire waits id (wait_ready spins thread_ptr h)))

    abbrev pub ended : ℕ → Bool → Result (List ℕ) (Unit {0}) → List ℕ
    ended id stopping (ok u) = thread_text id (codes "routine returned")
    ended id true (err error) = thread_text id (codes "stopped: host shutting down")
    ended id false (err error) = thread_text id (codes "stopped: " ++ one_line error)

    abbrev pub exit_thread : Instance → HostState → HostState
    exit_thread instance_ h = elim (instance_.funcs (codes "_emscripten_thread_exit")) [
      | none ↦ h
      | some exit ↦ (exit.call (i32 0 ∷ []) h).0
    ]

    abbrev pub finish_routine :
        Instance
        → ℕ
        → HostState × Result (List ℕ) (Unit {0})
        → HostState × Result (List ℕ) (Unit {0})
    finish_routine instance_ id (h, outcome) =
        let h' = release id h in
        (exit_thread instance_ (log (ended id h'.shared.shutting_down outcome) h'), outcome)

    abbrev pub run_routine :
        Instance → ℕ → ℕ → ℕ → HostState → HostState × Result (List ℕ) (Unit {0})
    run_routine instance_ id start_routine arg h = elim (table_entry instance_ start_routine h) [
      | err error ↦ (h, err error)
      | ok entry ↦ finish_routine instance_ id (
          in_context (codes "thread entry point") (
            entry.call (i32 arg ∷ [])
              (acquire waits id (log (thread_text id (codes "entering routine")) h))))
    ]

    abbrev pub after_binding :
        Instance
        → ℕ
        → ℕ
        → ℕ
        → HostState × Result (List ℕ) (Unit {0})
        → HostState × Result (List ℕ) (Unit {0})
    after_binding instance_ id start_routine arg (h, err error) = (h, err error)
    after_binding instance_ id start_routine arg (h, ok u) =
        run_routine instance_ id start_routine arg (release id h)

    unfoldable pub run_thread : ℕ → ℕ → ℕ → HostState → HostState × Result (List ℕ) (Unit {0})
    unfolding bind_thread table_entry
    run_thread thread_ptr start_routine arg h = elim (bring_up h) [
      | err error ↦ (h, err error)
      | ok instance_ ↦
          after_binding instance_ h.thread_id start_routine arg
            (bind_thread instance_ h.thread_id thread_ptr h)
    ]

    -- What the new operating-system thread runs.
    abbrev pub why : SharedHost → List ℕ → List ℕ
    why s error = if s.shutting_down then codes "host shutting down" else first_line error

    abbrev pub log_end : HostState × Result (List ℕ) (Unit {0}) → SharedHost
    log_end (h, ok u) = h.shared
    log_end (h, err error) =
        Shared.log h.thread_id (thread_text h.thread_id (codes "ended: " ++ why h.shared error))
          h.shared

    unfoldable pub thread_body : ℕ → ℕ → ℕ → HostState → SharedHost
    unfolding run_thread first_line
    thread_body thread_ptr start_routine arg h =
        thread_finished (log_end (run_thread thread_ptr start_routine arg h))

-- `spawn` on the spawning side: the state, the new thread's id and the errno. `refusal` is the
-- message of the operating system, where it does not start a thread.
unfoldable pub spawn : Option (List ℕ) → SharedHost → SharedHost × ℕ × ℤ
spawn refusal s =
    let (s1, id) = allocate_thread_id s in
    let s2 = thread_started s1 in
    elim refusal [
      | none ↦ (s2, id, pos 0)
      | some error ↦ (
        thread_finished (Shared.log 0 (codes "pthread_create: host refused: " ++ error) s2),
        id,
        pos 11,
      )
    ]
