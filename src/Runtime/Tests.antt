-- ===== src/Runtime/Tests.antt =====
-- Concrete runs of the host's side: crates/oracle-core/src/runtime.rs.
use wa_wasm_oracle.Prelude.{
  ℕ, ◌+◌, ◌≡◌, if◌then◌else◌, List, [], ◌∷◌, none, some, ltb, ◌&&◌, length,
}
use wa_wasm_oracle.Prelude.Map.{bytes_ord}
use wa_wasm_oracle.Prelude.Sort.{IsSorted}
use wa_wasm_oracle.Prelude.Tally.{count_of, entries_of}
use wa_wasm_oracle.Prelude.Text.{codes, bytes_eq}
use wa_wasm_oracle.Prelude.Result.{ok}
use wa_wasm_oracle.Exports.{Instance, Func, is_among}
use wa_wasm_oracle.Runtime.Settle.{World, tick, settle}
use wa_wasm_oracle.Runtime.Settle.Laws.{Ends, settle-Ends}
use wa_wasm_oracle.Runtime.Stubs.{stubs_called, all_calls_to, more_called}
use wa_wasm_oracle.Runtime.Stubs.Laws.{stubs_called-exact}
use wa_wasm_oracle.Shared.{SharedHost, fresh_shared, thread_finished}
use wa_wasm_oracle.State as State
use wa_wasm_oracle.State.{HostState, for_thread}
use wa_wasm_oracle.Turn.{Waits}

-- A module whose mailbox is checked in a millisecond, while one thread ends 50 milliseconds on.
abbrev check_mailbox : Func
check_mailbox = record { params = []; results = []; call = λ args h. (h, ok []) }

abbrev with_mailbox : Instance
with_mailbox = record {
  funcs = λ name.
      if bytes_eq name (codes "_emscripten_check_mailbox") then some check_mailbox else none;
  tables = λ name. none;
  memories = λ name. none;
}

abbrev no_wait : Waits
no_wait = record { clock = λ h. 0; looks = λ h. []; meanwhile = λ h. h }

abbrev finished : HostState → HostState
finished h = record h { shared = thread_finished h.shared }

abbrev ends_at_50 : World → List (ℕ × (HostState → HostState))
ends_at_50 w = if ltb (w.time + tick) 50000000 then [] else (5000000, finished) ∷ []

abbrev at_work : World
at_work = record { time = 0; host = for_thread (record fresh_shared { live = 1 }) 0 State.spawn }

settle-Ends_example :
    Ends with_mailbox no_wait
      (λ h. 1000000)
      ends_at_50
      200000000
      (settle with_mailbox no_wait (λ h. 1000000) ends_at_50 200000000 at_work)
settle-Ends_example = settle-Ends with_mailbox no_wait (λ h. 1000000) ends_at_50 200000000 at_work

abbrev called_twice : SharedHost
called_twice = record fresh_shared {
  trace = record fresh_shared.trace {
    calls =
        record { module_name = codes "env"; name = codes "a"; args = [] }
        ∷ record { module_name = codes "env"; name = codes "b"; args = [] }
        ∷ record { module_name = codes "env"; name = codes "a"; args = [] }
        ∷ [];
  };
}

abbrev stubbed_names : List (List ℕ)
stubbed_names = codes "env::a" ∷ codes "env::c" ∷ []

stubs_called-exact_example :
    ((key : List ℕ)
      → (count_of key (stubs_called (some stubbed_names) called_twice)
          ≡ (if is_among key stubbed_names then length (all_calls_to key called_twice) else 0))
        × (entries_of key (stubs_called (some stubbed_names) called_twice) ≡ (
            if is_among key stubbed_names && ltb 0 (length (all_calls_to key called_twice))
            then 1
            else 0)))
    × IsSorted more_called (stubs_called (some stubbed_names) called_twice)
stubs_called-exact_example = stubs_called-exact stubbed_names called_twice
