-- ===== src/Host/Tests.antt =====
-- A concrete crossing: crates/oracle-core/src/host.rs.
use wa_wasm_oracle.Prelude.{◌≡◌, ◌≢◌, refl, true, false, [], ◌∷◌, none, some}
use wa_wasm_oracle.Prelude.Text.{codes}
use wa_wasm_oracle.Host.{Watched, exiting_host, entering_host}
use wa_wasm_oracle.Host.Laws.{turns, crossing-turns}
use wa_wasm_oracle.Shared.{fresh_shared}
use wa_wasm_oracle.State as State
use wa_wasm_oracle.State.{HostState, for_thread}
use wa_wasm_oracle.Turn.{Waits}

-- The second thread, with strict turns, while the first has the turn; the watched byte was changed.
abbrev crossing : Watched
crossing = record {
  host =
      record (for_thread
        (record fresh_shared {
          scheduler = record fresh_shared.scheduler {
            enabled = true;
            strict = true;
            holder = some 1;
          };
        })
        2 State.spawn) {
          guest = record { memory = some (record { size = 65536; cell = λ p. 1 }); linear = none };
        };
  watch = some (record { at = 16; expected = 7 ∷ []; broken = false; sightings = [] });
  entering = some true;
}

-- The first thread gives its turn up while the second waits.
abbrev hands_over : HostState → HostState
hands_over h = record h {
  shared = record h.shared { scheduler = record h.shared.scheduler { holder = none } };
}

abbrev one_hand_over : Waits
one_hand_over = record {
  clock = λ h. 0;
  looks = λ h. (1, hands_over) ∷ (2, λ g. g) ∷ [];
  meanwhile = λ h. h;
}

crossing-turns_example :
    ((turns crossing).strict ≡ true
      → ((turns (exiting_host (λ h. []) (λ n. codes "0x10") (λ w. w) one_hand_over crossing)).holder
          ≡ some 2)
        × ((turns (entering_host (λ h. []) (λ n. codes "0x10") (λ w. w) crossing)).holder ≢ some 2))
    × ((turns crossing).strict ≡ false
        → (turns (exiting_host (λ h. []) (λ n. codes "0x10") (λ w. w) one_hand_over crossing)
            ≡ turns crossing)
          × (turns (entering_host (λ h. []) (λ n. codes "0x10") (λ w. w) crossing)
              ≡ turns crossing))
unfolding for_thread
crossing-turns_example =
    crossing-turns (λ h. []) (λ n. codes "0x10") (λ w. w) one_hand_over crossing refl
