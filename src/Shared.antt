-- ===== src/Shared.antt =====
-- The cross-thread half of the host state: crates/oracle-core/src/shared.rs.
-- A lock or an atomic is a plain field: each method below is one critical section or one atomic
-- operation, so a run of several threads is a sequence of these methods.
-- A clock is the number of its readings. Both clocks start at 0.0 and grow by a constant at each
-- reading, so the `f64` that is read is a function of that number.
pub mod Log
pub mod Numbers
pub mod Threads
mod Tests
use wa_wasm_oracle.Prelude.{
  ℕ, zero, suc, ◌+◌, ◌-◌, ◌^◌, Bool, true, false, ◌||◌, List, [], ◌∷◌, ◌++◌, Option, none, some,
  ltb, leb, ◌==◌, if◌then◌else◌, length, take, max, get_elem?,
}
use wa_wasm_oracle.Prelude.Int.{ℤ}
use wa_wasm_oracle.Prelude.Map.{insert, remove, lookup, contains_key, bytes_ord, nat_ord}
use wa_wasm_oracle.Prelude.Sort.{sort_by}
use wa_wasm_oracle.Prelude.Text.{codes}
use wa_wasm_oracle.Prelude.Words.{add64}
use wa_wasm_oracle.Schedule.{Scheduler, idle_scheduler}

-- `HostCall` of state.rs: one call of a host function with its raw arguments.
pub record HostCall : Type 0 where
  pub module_name : List ℕ
  pub name : List ℕ
  pub args : List ℤ

pub record LogLine : Type 0 where
  pub seq : ℕ
  pub thread : ℕ
  pub text : List ℕ

pub record Trace : Type 0 where
  pub calls : List HostCall
  pub counts : List (List ℕ × ℕ)
  pub logs : List LogLine
  pub dropped_logs : ℕ

pub record SharedHost : Type 0 where
  pub trace : Trace
  pub clock_readings : ℕ
  pub wall_readings : ℕ
  pub next_seq : ℕ
  pub next_thread_id : ℕ
  pub live : ℕ
  pub exit_code : Option ℤ
  pub shutting_down : Bool
  pub mailboxes : List (ℕ × Unit {0})
  pub last_size : ℕ
  pub growths : List (List ℕ)
  pub in_wasm : ℕ
  pub max_in_wasm : ℕ
  -- The module's export names, once they were recorded.
  pub exports : Option (List (List ℕ))
  pub scheduler : Scheduler

abbrev pub max_trace : ℕ
max_trace = 8192

abbrev pub max_log_lines : ℕ
max_log_lines = 8192

abbrev pub max_log_line : ℕ
max_log_line = 2048

abbrev pub max_growths : ℕ
max_growths = 64

abbrev pub fresh_shared : SharedHost
fresh_shared = record {
  trace = record { calls = []; counts = []; logs = []; dropped_logs = 0 };
  clock_readings = 0;
  wall_readings = 0;
  next_seq = 0;
  next_thread_id = 1;
  live = 0;
  exit_code = none;
  shutting_down = false;
  mailboxes = [];
  last_size = 0;
  growths = [];
  in_wasm = 0;
  max_in_wasm = 0;
  exports = none;
  scheduler = idle_scheduler;
}

-- `is_char_boundary`: the start, the end, or a byte that does not continue a sequence.
abbrev pub is_char_boundary : List ℕ → ℕ → Bool
is_char_boundary text at = elim (get_elem? text at) [
  | none ↦ (at == 0) || (at == length text)
  | some b ↦ (at == 0) || (ltb b 0x80 || leb 0xc0 b)
]

-- `(0..=at).rev().find(|at| text.is_char_boundary(*at)).unwrap_or(0)`
unfoldable pub cut_at : List ℕ → ℕ → ℕ
cut_at text zero = 0
cut_at text (suc at) = elim (is_char_boundary text (suc at)) [
  | true ↦ suc at
  | false ↦ cut_at text at
]

-- The bytes of ` […truncated]`.
abbrev pub truncated : List ℕ
truncated = codes " [" ++ ((0xe2 ∷ 0x80 ∷ 0xa6 ∷ []) ++ codes "truncated]")

unfoldable pub clip : List ℕ → List ℕ
clip text =
    if ltb max_log_line (length text)
    then take (cut_at text max_log_line) text ++ truncated
    else text

-- `log` takes its number before it takes the lock, so lines of several threads can be pushed out
-- of order: its two atomic steps are the next two functions.
unfoldable pub reserve_seq : SharedHost → SharedHost × ℕ
reserve_seq s = (record s { next_seq = add64 s.next_seq 1 }, s.next_seq)

unfoldable pub push_line : ℕ → ℕ → List ℕ → SharedHost → SharedHost
push_line seq thread line s =
    let t = s.trace in
    if leb max_log_lines (length t.logs)
    then record s { trace = record t { dropped_logs = add64 t.dropped_logs 1 } }
    else record s {
      trace = record t {
        logs = t.logs ++ (record { seq = seq; thread = thread; text = line } ∷ []);
      };
    }

unfoldable pub log : ℕ → List ℕ → SharedHost → SharedHost
unfolding reserve_seq push_line
log thread text s = let (s', seq) = reserve_seq s in push_line seq thread (clip text) s'

-- `sort_by_key(|line| line.seq)`
abbrev pub not_after : LogLine → LogLine → Bool
not_after a b = leb a.seq b.seq

-- `logs()`: the transcript in the order of the numbers.
unfoldable pub logs : SharedHost → List LogLine
unfolding sort_by
logs s = sort_by not_after s.trace.logs

-- `format!("{module}::{name}")`
abbrev pub symbol : List ℕ → List ℕ → List ℕ
symbol module_name name = module_name ++ (codes "::" ++ name)

unfoldable pub record_call : List ℕ → List ℕ → List ℤ → SharedHost → SharedHost
record_call module_name name args s =
    let t = s.trace in
    let key = symbol module_name name in
    let seen : ℕ = elim (lookup key t.counts) [ some n ↦ n | none ↦ 0 ] in
    record s {
      trace = record t {
        counts = insert key (add64 seen 1) t.counts;
        calls =
            if ltb (length t.calls) max_trace
            then t.calls ++ (record { module_name = module_name; name = name; args = args } ∷ [])
            else t.calls;
      };
    }

-- `clear_trace` keeps the count of dropped lines and the sequence.
unfoldable pub clear_trace : SharedHost → SharedHost
clear_trace s =
    let t = s.trace in record s { trace = record t { calls = []; counts = []; logs = [] } }

unfoldable pub tick_clock : SharedHost → SharedHost × ℕ
tick_clock s = (record s { clock_readings = s.clock_readings + 1 }, s.clock_readings + 1)

unfoldable pub tick_wall_clock : SharedHost → SharedHost × ℕ
tick_wall_clock s = (record s { wall_readings = s.wall_readings + 1 }, s.wall_readings + 1)

-- The previous size, where it was known and differs.
unfoldable pub note_memory_size : ℕ → SharedHost → SharedHost × Option ℕ
note_memory_size size s = (
  record s { last_size = size },
  if s.last_size == size || s.last_size == 0 then none else some s.last_size,
)

unfoldable pub record_growth : List ℕ → SharedHost → SharedHost
record_growth line s =
    if ltb (length s.growths) max_growths
    then record s { growths = s.growths ++ (line ∷ []) }
    else s

unfoldable pub entered_wasm : SharedHost → SharedHost
entered_wasm s = record s {
  in_wasm = s.in_wasm + 1;
  max_in_wasm = max s.max_in_wasm (s.in_wasm + 1);
}

unfoldable pub left_wasm : SharedHost → SharedHost
left_wasm s = record s { in_wasm = s.in_wasm - 1 }

unfoldable pub notify_mailbox : ℕ → SharedHost → SharedHost
notify_mailbox thread s = record s { mailboxes = insert thread tt s.mailboxes }

unfoldable pub take_mailbox : ℕ → SharedHost → SharedHost × Bool
take_mailbox thread s =
    (record s { mailboxes = remove thread s.mailboxes }, contains_key thread s.mailboxes)

unfoldable pub set_exit_code : ℤ → SharedHost → SharedHost
set_exit_code code s = record s { exit_code = some code }

unfoldable pub request_shutdown : SharedHost → SharedHost
request_shutdown s = record s { shutting_down = true }

unfoldable pub allocate_thread_id : SharedHost → SharedHost × ℕ
allocate_thread_id s = (record s { next_thread_id = add64 s.next_thread_id 1 }, s.next_thread_id)

unfoldable pub thread_started : SharedHost → SharedHost
thread_started s = record s { live = add64 s.live 1 }

-- `fetch_sub` wraps.
unfoldable pub thread_finished : SharedHost → SharedHost
thread_finished s = record s { live = add64 s.live (2 ^ 64 - 1) }
