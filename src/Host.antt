-- ===== src/Host.antt =====
-- The boundary between host and guest: `host_func`, the memory watch that is checked at each
-- crossing, `note_growth`, `report_broken_watch` and `sampled_zeroes` of
-- crates/oracle-core/src/host.rs, `watch_intact` of state.rs, and
-- `watch_memory` and `watch_report` of runtime.rs. The guest's stack, `{:#x}` and what other threads
-- do to the watch between two locks are parameters.
pub mod Laws
mod Tests
use wa_wasm_oracle.Prelude.{
  ℕ, zero, suc, ◌+◌, ◌-◌, ◌*◌, ◌/◌, Bool, true, false, ◌&&◌, ◌||◌, not, List, [], ◌∷◌, ◌++◌, Option,
  none, some, leb, ◌==◌, if◌then◌else◌, length, take,
}
use wa_wasm_oracle.Prelude.Result.{Result, err}
use wa_wasm_oracle.Prelude.Sort.{decimal}
use wa_wasm_oracle.Prelude.Text.{codes, bytes_eq}
use wa_wasm_oracle.Exports.{Instance, sync_memory}
use wa_wasm_oracle.Memory.{Mem, cells}
use wa_wasm_oracle.Shared.{SharedHost, entered_wasm, left_wasm, note_memory_size, record_growth}
use wa_wasm_oracle.State.{HostState, log}
use wa_wasm_oracle.Turn.{Waits, acquire, release, yield_point}
use wa_wasm_oracle.Vals.{Val}

-- `MemoryWatch`: a sighting is the thread, whether the reading is attributable, and the report.
pub record Watch : Type 0 where
  pub at : ℕ
  pub expected : List ℕ
  pub broken : Bool
  pub sightings : List (ℕ × Bool × List ℕ)

abbrev pub max_sightings : ℕ
max_sightings = 12

-- The state of a thread, with the watch of its module and what the thread saw when it last entered
-- guest code.
pub record Watched : Type 0 where
  pub host : HostState
  pub watch : Option Watch
  pub entering : Option Bool

abbrev pub span_intact : Mem → ℕ → List ℕ → Option Bool
span_intact m at expected =
    if leb (at + length expected) m.size
    then some (bytes_eq (cells m.cell at (length expected)) expected)
    else none

unfoldable pub watch_intact : Option Watch → Option Mem → Option Bool
watch_intact none memory = none
watch_intact (some w) none = none
watch_intact (some w) (some m) = span_intact m w.at w.expected

abbrev pub watch_span : ℕ
watch_span = 64

-- `watch_memory`: the watch behind it and whether it was set, given the canary of the runtime.
unfoldable pub watch_memory : Option (ℕ × List ℕ) → Option Watch → Option Watch × Bool
watch_memory none watch = (watch, false)
watch_memory (some (at, expected)) (some w) = (some w, false)
watch_memory (some (at, expected)) none = (
  some (record { at = at; expected = take watch_span expected; broken = false; sightings = [] }),
  true,
)

abbrev pub reports : List (ℕ × Bool × List ℕ) → List (List ℕ)
reports [] = []
reports ((id, sound, line) ∷ sightings) = line ∷ reports sightings

unfoldable pub watch_report : Option Watch → List (List ℕ)
watch_report none = []
watch_report (some w) = reports w.sightings

abbrev pub stride : ℕ
stride = 64

-- How many of the cells, 64 apart, are zero.
abbrev pub zero_cells : (ℕ → ℕ) → ℕ → ℕ → ℕ
zero_cells cell at zero = 0
zero_cells cell at (suc left) = (if cell at == 0 then 1 else 0) + zero_cells cell (at + stride) left

abbrev pub samples : ℕ → ℕ
samples size = (size + (stride - 1)) / stride

abbrev pub percent : ℕ → ℕ → ℕ
percent seen zeros = if seen == 0 then 0 else zeros * 100 / seen

unfoldable pub sampled_zeroes : Option Mem → ℕ × ℕ
sampled_zeroes none = (0, 0)
sampled_zeroes (some m) = (m.size, percent (samples m.size) (zero_cells m.cell 0 (samples m.size)))

abbrev pub same_flag : Bool → Bool → Bool
same_flag true b = b
same_flag false b = not b

abbrev pub is_sighted : ℕ → Bool → List (ℕ × Bool × List ℕ) → Bool
is_sighted thread sound [] = false
is_sighted thread sound ((id, was_sound, report) ∷ sightings) =
    (id == thread) && same_flag was_sound sound || is_sighted thread sound sightings

abbrev pub join_frames : List (List ℕ) → List ℕ
join_frames [] = []
join_frames (f ∷ []) = f
join_frames (f ∷ g ∷ frames) = f ++ (codes " <- " ++ join_frames (g ∷ frames))

abbrev pub frames_or : List ℕ → List (List ℕ) → List ℕ
frames_or default [] = default
frames_or default (f ∷ frames) = join_frames (f ∷ frames)

abbrev pub verdict : Bool → Bool → List ℕ
verdict true true = codes "WROTE IT"
verdict true false = codes "wrote it, unattributable (threads were still concurrent)"
verdict false sound = codes "only saw it (already broken before this thread ran)"

-- What the first lock shows: no room is left, or the thread has reported this kind already.
unfoldable pub is_enough : ℕ → Bool → Watch → Bool
is_enough thread sound w =
    leb max_sightings (length w.sightings) || is_sighted thread sound w.sightings

-- What is pushed under the second lock, to the watch as it then is.
unfoldable pub push_sighting : ℕ × Bool × List ℕ → Watch → Watch
push_sighting sighting w = record w { sightings = w.sightings ++ (sighting ∷ []) }

-- `frames` is the guest stack of a state, and `others` is what the other threads do to the watch
-- between the two locks.
module _ (frames : HostState → List (List ℕ)) (hex : ℕ → List ℕ) (others : Watch → Watch) where
  unfoldable pub report_text : Bool → Bool → ℕ → HostState → List ℕ
  unfolding sampled_zeroes
  report_text wrote_it sound at h =
      let (size, zeros) = sampled_zeroes h.guest.memory in
      codes "watch "
      ++ (hex at
          ++ (codes " broken, thread "
              ++ (decimal h.thread_id
                  ++ (codes " "
                      ++ (verdict wrote_it sound
                          ++ (codes ", memory "
                              ++ (hex size
                                  ++ (codes " and "
                                      ++ (decimal zeros
                                          ++ (codes "% zero bytes, guest stack: "
                                              ++ frames_or (codes "<none>") (frames h)))))))))))

  unfoldable pub report_broken_watch : Bool → Bool → Watched → Watched
  unfolding report_text is_enough push_sighting
  report_broken_watch wrote_it sound s = elim (s.watch) [
    | none ↦ s
    | some w ↦
        let broken = record w { broken = true } in
        let thread = s.host.thread_id in
        let report = report_text wrote_it sound w.at s.host in
        if is_enough thread sound broken then record s { watch = some broken } else record s {
          watch = some (push_sighting (thread, sound, report) (others broken));
          host = log report s.host;
        }
  ]

  abbrev pub growth_text : ℕ → ℕ → HostState → List ℕ
  growth_text previous size h =
      hex previous
      ++ (codes " -> "
          ++ (hex size
              ++ (codes " (+"
                  ++ (hex (size - previous)
                      ++ (codes ") on thread "
                          ++ (decimal h.thread_id
                              ++ (codes ": "
                                  ++ frames_or (codes "<no guest frames>") (frames h))))))))

  abbrev pub noted : ℕ → HostState → SharedHost × Option ℕ → HostState
  noted size h (s, none) = record h { shared = s }
  noted size h (s, some previous) = record h {
    shared = record_growth (growth_text previous size h) s;
  }

  unfoldable pub note_growth : HostState → HostState
  note_growth h = elim (h.guest.memory) [
    | none ↦ h
    | some m ↦ noted m.size h (note_memory_size m.size h.shared)
  ]

  abbrev pub is_true : Option Bool → Bool
  is_true (some true) = true
  is_true _ = false

  abbrev pub is_known : Option Bool → Bool
  is_known (some b) = true
  is_known none = false

  unfoldable pub report_if : Option Bool → Watched → Watched
  unfolding report_broken_watch
  report_if (some false) s = report_broken_watch (is_true s.entering) (is_known s.entering) s
  report_if _ s = s

  -- The hook of `install_memory_watch`; turns are strict or not when it runs.
  abbrev pub enter : HostState → HostState
  enter h = record h { shared = entered_wasm h.shared }

  unfoldable pub exiting_host : Waits → Watched → Watched
  unfolding watch_intact
  exiting_host waits s =
      let intact = watch_intact s.watch s.host.guest.memory in
      if s.host.shared.scheduler.strict
      then record s { host = enter (acquire waits s.host.thread_id s.host); entering = intact }
      else record s { host = enter s.host; entering = none }

  unfoldable pub entering_host : Watched → Watched
  unfolding report_if note_growth watch_intact
  entering_host s =
      let intact = watch_intact s.watch s.host.guest.memory in
      let left = record s {
        host = note_growth (record s.host { shared = left_wasm s.host.shared });
      } in
      let reported = report_if intact left in
      if s.host.shared.scheduler.strict
      then record reported { host = release s.host.thread_id reported.host }
      else reported

-- `host_func`, without wasmtime's fuel: a spawned thread stops at its next host call once the host
-- shuts down; any other call offers its turn, refreshes the view of memory and runs the handler.
unfoldable pub host_func :
    Waits
    → Instance
    → (List Val → List Val → HostState → HostState × Result (List ℕ) (List Val))
    → List Val
    → List Val
    → HostState
    → HostState × Result (List ℕ) (List Val)
host_func waits instance_ handler params results h =
    if not (h.thread_id == 0) && h.shared.shutting_down
    then (h, err (codes "host is shutting down"))
    else handler params results (sync_memory instance_ (yield_point waits h.thread_id h))
