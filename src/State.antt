-- ===== src/State.antt =====
-- Per-thread host state: `HostState` of crates/oracle-core/src/state.rs, with the files and the
-- C++ exception that wasi.rs and cxa.rs keep in it. The memory stands in `guest`. The spawner and
-- the memory watch are not part of the model.
pub mod Laws
use wa_wasm_oracle.Prelude.{ℕ, Bool, false, List, [], ◌∷◌, Option, none, some}
use wa_wasm_oracle.Prelude.Int.{ℤ}
use wa_wasm_oracle.Prelude.Result.{Result, ok, err, ◌>>=◌}
use wa_wasm_oracle.Prelude.Words.{le_bytes}
use wa_wasm_oracle.Embind.{EmbindRegistry, no_registrations}
use wa_wasm_oracle.Emval.{EmvalTable, no_values}
use wa_wasm_oracle.Memory.{Guest, MemError, write}
use wa_wasm_oracle.Random.{seed_for, random_bytes}
use wa_wasm_oracle.Shared as Shared
use wa_wasm_oracle.Shared.{SharedHost}

-- `InFlight` of cxa.rs: the exception that is unwinding, `ptr` 0 for none.
pub record InFlight : Type 0 where
  pub ptr : ℕ
  pub type_id : ℕ

abbrev pub none_in_flight : InFlight
none_in_flight = record { ptr = 0; type_id = 0 }

-- `OpenFile` and `WasiState` of wasi.rs.
pub record OpenFile : Type 0 where
  pub path : List ℕ
  pub offset : ℕ
  pub writable : Bool

pub record WasiState : Type 0 where
  pub args : List (List ℕ)
  pub env : List (List ℕ × List ℕ)
  pub files : List (List ℕ × List ℕ)
  pub stdout : List ℕ
  pub stderr : List ℕ
  pub opened : List (ℕ × OpenFile)
  pub next_fd : ℕ

abbrev pub empty_wasi : WasiState
empty_wasi = record {
  args = [];
  env = [];
  files = [];
  stdout = [];
  stderr = [];
  opened = [];
  next_fd = 0;
}

pub data ThreadPolicy : Type 0 where
  refuse pretend_success spawn : ThreadPolicy

pub record HostState : Type 0 where
  pub shared : SharedHost
  pub thread_id : ℕ
  pub guest : Guest
  pub embind : EmbindRegistry
  pub in_flight : InFlight
  pub wasi : WasiState
  pub register_main_thread : Bool
  pub threads : ThreadPolicy
  pub memory_export : Option (List ℕ)
  pub rng : ℕ
  pub emval : EmvalTable

unfoldable pub for_thread : SharedHost → ℕ → ThreadPolicy → HostState
for_thread shared thread_id threads = record {
  shared = shared;
  thread_id = thread_id;
  guest = record { memory = none; linear = none };
  embind = no_registrations;
  in_flight = none_in_flight;
  wasi = empty_wasi;
  register_main_thread = false;
  threads = threads;
  memory_export = none;
  rng = seed_for thread_id;
  emval = no_values;
}

abbrev pub log : List ℕ → HostState → HostState
log text h = record h { shared = Shared.log h.thread_id text h.shared }

abbrev pub record_call : List ℕ → List ℕ → List ℤ → HostState → HostState
record_call module_name name args h = record h {
  shared = Shared.record_call module_name name args h.shared;
}

abbrev pub set_exit_code : ℤ → HostState → HostState
set_exit_code code h = record h { shared = Shared.set_exit_code code h.shared }

-- `caller.data().write(ptr, bytes)`: memory is written through a shared reference to the state.
abbrev pub write_memory : ℕ → List ℕ → HostState → Result MemError HostState
write_memory ptr bytes h = write h.guest ptr bytes >>= λ g. ok (record h { guest = g })

abbrev pub write_u32 : ℕ → ℕ → HostState → Result MemError HostState
write_u32 ptr value h = write_memory ptr (le_bytes 4 value) h

abbrev pub write_u64 : ℕ → ℕ → HostState → Result MemError HostState
write_u64 ptr value h = write_memory ptr (le_bytes 8 value) h

abbrev pub take_random : ℕ → HostState → HostState × List ℕ
take_random len h = let (rng, bytes) = random_bytes len h.rng in (record h { rng = rng }, bytes)
