-- ===== src/EngineLog.antt =====
-- The engine's log ring and the check of the host's view of memory: `attach_log_ring` to
-- `engine_log_from` of crates/oracle-core/src/runtime.rs.
mod Tests
use wa_wasm_oracle.Prelude.{
  ℕ, ◌+◌, ◌-◌, Bool, true, false, List, [], ◌∷◌, Option, none, some, length, drop, min,
}
use wa_wasm_oracle.Prelude.Int.{ℤ}
use wa_wasm_oracle.Prelude.Result.{Result, ok, err, ◌>>=◌}
use wa_wasm_oracle.Prelude.Text.{codes, bytes_eq}
use wa_wasm_oracle.Prelude.Words.{add32, signed32, pattern32, le_bytes}
use wa_wasm_oracle.Memory.{MemError, read, read_u32}
use wa_wasm_oracle.Runs.{split_lines}
use wa_wasm_oracle.State.{HostState, log, write_memory}

-- The fields of `Runtime` that the readers of the log use.
pub record Runtime : Type 0 where
  pub state : HostState
  pub log_ring : Option (ℕ × ℕ)
  pub canary : Option (ℕ × List ℕ)

abbrev pub ring_header : ℕ
ring_header = 24

abbrev pub log_level_address : ℕ
log_level_address = 1263116

unfoldable pub set_engine_log_level : ℤ → HostState → Result MemError (HostState × ℤ)
set_engine_log_level level h = read_u32 h.guest log_level_address >>= λ previous.
    write_memory log_level_address (le_bytes 4 (pattern32 level)) h >>= λ h'.
    ok (h', signed32 previous)

unfoldable pub memory_view_is_coherent : Runtime → Option Bool
memory_view_is_coherent r = elim (r.canary) [
  | none ↦ none
  | some (at, expected) ↦ elim (read r.state.guest at (length expected)) [
    | ok actual ↦ some (bytes_eq actual expected)
    | err e ↦ some false
  ]
]

unfoldable pub ring_used : Runtime → ℕ → ℕ → Option ℕ
ring_used r buffer size = elim (read_u32 r.state.guest buffer) [
  | ok used ↦ some (min used (size - ring_header))
  | err e ↦ none
]

abbrev pub ring_lines : Runtime → ℕ → Option ℕ → List (List ℕ)
ring_lines r buffer none = []
ring_lines r buffer (some used) = elim (read r.state.guest (add32 buffer ring_header) used) [
  | ok raw ↦ split_lines raw
  | err e ↦ []
]

abbrev pub withheld : List ℕ
withheld =
    codes
      "engine log withheld: the host's view of guest memory no longer matches the module's own static data"

abbrev pub is_broken : Option Bool → Bool
is_broken (some false) = true
is_broken _ = false

unfoldable pub engine_log : Runtime → Runtime × List (List ℕ)
unfolding memory_view_is_coherent ring_used
engine_log r = elim (r.log_ring) [
  | none ↦ (r, [])
  | some (buffer, size) ↦ elim (is_broken (memory_view_is_coherent r)) [
    | true ↦ (record r { state = log withheld r.state }, [])
    | false ↦ (r, ring_lines r buffer (ring_used r buffer size))
  ]
]

unfoldable pub engine_log_from : ℕ → Runtime → Runtime × List (List ℕ)
unfolding engine_log
engine_log_from mark r = let (r', lines) = engine_log r in (r', drop mark lines)
