-- ===== src/Turn/Tests.antt =====
-- A concrete turn: crates/oracle-core/src/schedule.rs.
use wa_wasm_oracle.Prelude.{true, [], ◌∷◌, some}
use wa_wasm_oracle.Shared.{fresh_shared}
use wa_wasm_oracle.State as State
use wa_wasm_oracle.State.{HostState, for_thread}
use wa_wasm_oracle.Turn.{Waits}

-- The second thread asks while the first has the turn and keeps it.
abbrev taken : HostState
taken =
    for_thread
      (record fresh_shared {
        scheduler = record fresh_shared.scheduler { enabled = true; holder = some 1 };
      })
      2 State.spawn

abbrev one_look : Waits
one_look = record { clock = λ h. 7; looks = λ h. (9, λ g. g) ∷ []; meanwhile = λ h. h }
