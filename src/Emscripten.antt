-- ===== src/Emscripten.antt =====
-- The emscripten environment: the imports that crates/oracle-core/src/emscripten.rs defines for the
-- clocks, random bytes, diagnostics, mailboxes and exit. Each takes the state of the calling thread;
-- a trap is an error with its message, and `panicked` a panic of the host.
pub mod Heap
pub mod Threads
pub mod Proxy
pub mod Laws
pub mod Mailboxes
pub mod Random
pub mod Mmap
pub mod Invokes
mod Tests
use wa_wasm_oracle.Prelude.{
  ℕ, suc, zero, ◌+◌, ◌-◌, ◌*◌, ◌/◌, ◌%◌, ◌^◌, Bool, true, false, ◌||◌, List, [], ◌∷◌, ◌++◌, Option,
  none, some, ltb, leb, ◌==◌, if◌then◌else◌, length, take, min, replicate,
}
use wa_wasm_oracle.Prelude.Int.{ℤ, pos, negsuc}
use wa_wasm_oracle.Prelude.Result.{Result, ok, err, ◌>>=◌, unwrap_or}
use wa_wasm_oracle.Prelude.Sort.{decimal}
use wa_wasm_oracle.Prelude.Text.{codes, contains_text, from_utf8_lossy}
use wa_wasm_oracle.Prelude.Words.{u32, le_bytes, signed32, pattern32}
use wa_wasm_oracle.Abi.Render.{signed_decimal}
use wa_wasm_oracle.Exports.{Instance, Func, func, optional_func, sync_memory}
use wa_wasm_oracle.Memory.{Mem, MemError, read, read_cstr}
use wa_wasm_oracle.Shared.{tick_clock, tick_wall_clock, take_mailbox, notify_mailbox}
use wa_wasm_oracle.State.{
  HostState, ThreadPolicy, refuse, pretend_success, spawn, log, record_call, set_exit_code,
  write_memory, write_u32, take_random,
}
use wa_wasm_oracle.Vals.{Val, i32}

pub data HostError : Type 0 where
  trap : List ℕ → HostError
  memory_error : MemError → HostError
  panicked : HostError

abbrev pub env : List ℕ
env = codes "env"

-- The number of the reading, which the time that is answered is a function of.
unfoldable pub emscripten_get_now : HostState → HostState × ℕ
emscripten_get_now h =
    let h' = record_call env (codes "emscripten_get_now") [] h in
    let (s, reading) = tick_clock h'.shared in (record h' { shared = s }, reading)

unfoldable pub emscripten_date_now : HostState → HostState × ℕ
emscripten_date_now h =
    let (s, reading) = tick_wall_clock h.shared in (record h { shared = s }, reading)

unfoldable pub emscripten_num_logical_cores : HostState → ℕ
emscripten_num_logical_cores h = elim (h.threads) [ spawn ↦ 4 | refuse ↦ 1 | pretend_success ↦ 1 ]

-- `fill_random`: the state keeps what was drawn, even where the write fails.
unfoldable pub fill_random : ℕ → ℕ → HostState → HostState × Result MemError (Unit {0})
fill_random ptr len h =
    let h' = record_call env (codes "fill_random") (pos ptr ∷ pos len ∷ []) h in
    let (h'', bytes) = take_random len h' in
    elim (write_memory ptr bytes h'') [ ok w ↦ (w, ok tt) | err e ↦ (h'', err e) ]

-- What EM_ASM snippets are answered.
unfoldable pub answer_em_asm : List ℕ → ℤ
answer_em_asm snippet =
    if contains_text (codes "crypto") snippet || contains_text (codes "getRandomValues") snippet
    then pos 1
    else if contains_text (codes "navigator") snippet
        || contains_text (codes "hardwareConcurrency") snippet
    then pos 1
    else pos 1

-- `read_sized`
unfoldable pub read_sized : HostState → ℕ → ℕ → List ℕ
read_sized h ptr len = elim (read h.guest ptr len) [ ok bytes ↦ from_utf8_lossy bytes | err e ↦ [] ]

abbrev pub text_at : HostState → ℕ → List ℕ
text_at h ptr = unwrap_or (read_cstr h.guest ptr) []

unfoldable pub assert_fail : ℕ → ℕ → ℤ → ℕ → HostState → HostError
assert_fail condition file line function h = trap (
    codes "assertion failed: "
    ++ (text_at h condition
        ++ (codes " at "
            ++ (text_at h file
                ++ (codes ":" ++ (signed_decimal line ++ (codes " in " ++ text_at h function)))))))

abbrev pub abort_text : List ℕ
abort_text = codes "module called abort()"

unfoldable pub abort : HostState → HostState × HostError
abort h = (log abort_text h, trap abort_text)

abbrev pub exit_text : ℤ → List ℕ
exit_text code = codes "module called exit(" ++ (signed_decimal code ++ codes ")")

unfoldable pub exit : ℤ → HostState → HostState × HostError
exit code h = (log (exit_text code) (set_exit_code code h), trap (exit_text code))

-- `as u64` of an `i32`, which is held as its pattern.
abbrev pub as_u64 : ℕ → ℕ
as_u64 w = if ltb w (2 ^ 31) then w else w + (2 ^ 64 - 2 ^ 32)

module _ (instance_ : Instance) where
  unfoldable pub getentropy : ℕ → ℕ → HostState → HostState × ℤ
  unfolding fill_random
  getentropy buf len h =
      let (h', filled) = fill_random buf len (sync_memory instance_ h) in
      (h', elim filled [ ok u ↦ pos 0 | err e ↦ pos 28 ])

  -- The length comes first.
  unfoldable pub get_random_bytes_js : ℕ → ℕ → HostState → HostState
  unfolding fill_random
  get_random_bytes_js len buf h = (fill_random buf len (sync_memory instance_ h)).0

  unfoldable pub emscripten_console_error : ℕ → HostState → HostState
  emscripten_console_error ptr h =
      let h' = sync_memory instance_ h in log (codes "console.error: " ++ text_at h' ptr) h'

  unfoldable pub logging_callback : ℕ → ℕ → HostState → HostState
  unfolding read_sized
  logging_callback ptr len h = let h' = sync_memory instance_ h in log (read_sized h' ptr len) h'

  -- `answer_asm_const`, under the symbol that was imported.
  unfoldable pub answer_asm_const : List ℕ → ℕ → HostState → HostState × ℤ
  unfolding answer_em_asm
  answer_asm_const symbol code h =
      let h' = sync_memory instance_ h in
      (record_call env symbol (signed32 code ∷ []) h', answer_em_asm (text_at h' code))

  abbrev pub check_names : List (List ℕ)
  check_names = codes "__emscripten_check_mailbox" ∷ codes "_emscripten_check_mailbox" ∷ []

  abbrev pub after_check : HostState × Result (List ℕ) (List Val) → HostState
  after_check (h, ok results) = h
  after_check (h, err error) = log (codes "check_mailbox failed: " ++ error) h

  unfoldable pub check_mailbox : HostState → HostState
  check_mailbox h = elim (func instance_ check_names h) [
    | ok check ↦ after_check (check.call [] h)
    | err error ↦ h
  ]

  unfoldable pub notify_mailbox_postmessage : ℕ → ℕ → HostState → HostState
  unfolding check_mailbox
  notify_mailbox_postmessage target current h =
      let h' = record h { shared = notify_mailbox (as_u64 target) h.shared } in
      if as_u64 target == as_u64 current then check_mailbox h' else h'

  unfoldable pub thread_mailbox_await : HostState → HostState
  unfolding check_mailbox
  thread_mailbox_await h =
      let (s, pending) = take_mailbox h.thread_id h.shared in
      let h' = record h { shared = s } in if pending then check_mailbox h' else h'
