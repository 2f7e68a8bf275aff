-- ===== src/Spawn/Tests.antt =====
-- Concrete threads: crates/oracle-core/src/threads.rs.
use wa_wasm_oracle.Prelude.{refl, true, [], none, some}
use wa_wasm_oracle.Prelude.Result.{ok, err}
use wa_wasm_oracle.Prelude.Text.{codes}
use wa_wasm_oracle.Exports.{Instance, Func, callable}
use wa_wasm_oracle.Memory.{cells}
use wa_wasm_oracle.Shared.{fresh_shared}
use wa_wasm_oracle.Spawn.{run_thread, bind_thread, wait_ready}
use wa_wasm_oracle.Spawn.Laws.{Leaves, run_thread-Leaves}
use wa_wasm_oracle.State.{HostState, for_thread, log}
use wa_wasm_oracle.Turn.{Waits, acquire}
use wa_wasm_oracle.State as State

abbrev second_thread : HostState
second_thread =
    record (for_thread
      (record fresh_shared { scheduler = record fresh_shared.scheduler { enabled = true } }) 2
      State.spawn) {
        guest = record { memory = some (record { size = 65536; cell = λ p. 1 }); linear = none };
      }

-- A module whose routine at every table index fails, with nothing to initialise.
abbrev failing : Func
failing = record { params = []; results = []; call = λ args h. (h, err (codes "trap")) }

abbrev only_table : Instance
only_table = record {
  funcs = λ name. none;
  tables = λ name. some (λ index. callable failing);
  memories = λ name. none;
}

abbrev no_wait : Waits
no_wait = record { clock = λ h. 0; looks = λ h. []; meanwhile = λ h. h }

abbrev bound : HostState
bound = acquire no_wait 2 second_thread

run_thread-Leaves_example :
    Leaves none
      (λ h. ok only_table)
      (λ h. h)
      no_wait
      (λ n. [])
      only_table
      2
      (run_thread none (λ h. ok only_table) (λ h. h) no_wait (λ n. []) 64 7 5 second_thread).0
unfolding bind_thread wait_ready for_thread cells acquire
run_thread-Leaves_example =
    run_thread-Leaves none (λ h. ok only_table) (λ h. h) no_wait (λ n. []) 64 7 5 second_thread
      bound only_table refl refl
