-- ===== src/EngineLog/Tests.antt =====
-- A concrete log ring.
use wa_wasm_oracle.Prelude.{ℕ, ◌≡◌, refl, List, [], ◌∷◌, none, some, length, false}
use wa_wasm_oracle.Prelude.Text.{codes}
use wa_wasm_oracle.Prelude.Words.{le_bytes}
use wa_wasm_oracle.EngineLog.{Runtime, engine_log, memory_view_is_coherent, ring_used}
use wa_wasm_oracle.Memory.{cells, put_all, read, read_u32}
use wa_wasm_oracle.Runs.{split_lines}
use wa_wasm_oracle.Runs.Laws.{terminated}
use wa_wasm_oracle.Shared.{fresh_shared}
use wa_wasm_oracle.State.{HostState, for_thread, refuse}

abbrev lines : List (List ℕ)
lines = codes "call state 3" ∷ codes "relay elected" ∷ []

-- A ring of 128 bytes at 16 that holds both lines.
abbrev ring_memory : ℕ → ℕ
ring_memory =
    put_all (put_all (λ p. 0) 16 (le_bytes 4 (length (terminated 10 lines)))) 40
      (terminated 10 lines)

abbrev host : HostState
host = record (for_thread fresh_shared 0 refuse) {
  guest = record { memory = some (record { size = 256; cell = ring_memory }); linear = none };
}

abbrev runtime : Runtime
runtime = record { state = host; log_ring = some (16, 128); canary = none }

abbrev clobbered : Runtime
clobbered = record runtime { canary = some (200, 77 ∷ []) }

reads_lines : engine_log runtime ≡ (runtime, lines)
unfolding engine_log ring_used memory_view_is_coherent read_u32 read cells for_thread split_lines
reads_lines = refl

broken : memory_view_is_coherent clobbered ≡ some false
unfolding memory_view_is_coherent read cells for_thread
broken = refl
