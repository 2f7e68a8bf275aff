-- ===== src/Wasi/Dispatch.antt =====
-- `dispatch` of wasi.rs, and the host function that `define` makes for each WASI import.
use wa_wasm_oracle.Prelude.{ℕ, List, if◌then◌else◌, map}
use wa_wasm_oracle.Prelude.Int.{ℤ}
use wa_wasm_oracle.Prelude.Result.{Result, ok, ◌>>=◌}
use wa_wasm_oracle.Prelude.Text.{codes, bytes_eq}
use wa_wasm_oracle.Prelude.Words.{signed32}
use wa_wasm_oracle.Shared as Shared
use wa_wasm_oracle.State.{
  HostState, record_call, set_exit_code, take_random, write_memory, write_u64,
}
use wa_wasm_oracle.Vals.{Val, i32, int_arg, arg_i64, scalar, set_first}
use wa_wasm_oracle.Wasi.{Errno, success, nosys, errno_code, Panic, Reply, answer, fd_write}
use wa_wasm_oracle.Wasi.Calls.{
  fd_read, fd_seek, fd_close, fd_fdstat_get, fd_filestat_get, fd_prestat_get, fd_prestat_dir_name,
  path_open, path_unlink_file, list_sizes, write_string_list, env_strings,
}

-- The arms of the `match name`.
pub data Call : Type 0 where
  fd_write_call fd_read_call fd_seek_call fd_close_call fd_fdstat_get_call : Call
  fd_filestat_get_call fd_prestat_get_call fd_prestat_dir_name_call path_open_call : Call
  path_unlink_file_call args_sizes_get args_get environ_sizes_get environ_get : Call
  clock_time_get random_get proc_exit unknown : Call

unfoldable pub call_of : List ℕ → Call
call_of name =
    if bytes_eq name (codes "fd_write")
    then fd_write_call
    else if bytes_eq name (codes "fd_read")
    then fd_read_call
    else if bytes_eq name (codes "fd_pread")
    then fd_read_call
    else if bytes_eq name (codes "fd_seek")
    then fd_seek_call
    else if bytes_eq name (codes "fd_close")
    then fd_close_call
    else if bytes_eq name (codes "fd_fdstat_get")
    then fd_fdstat_get_call
    else if bytes_eq name (codes "fd_filestat_get")
    then fd_filestat_get_call
    else if bytes_eq name (codes "fd_prestat_get")
    then fd_prestat_get_call
    else if bytes_eq name (codes "fd_prestat_dir_name")
    then fd_prestat_dir_name_call
    else if bytes_eq name (codes "path_open")
    then path_open_call
    else if bytes_eq name (codes "path_unlink_file")
    then path_unlink_file_call
    else if bytes_eq name (codes "args_sizes_get")
    then args_sizes_get
    else if bytes_eq name (codes "args_get")
    then args_get
    else if bytes_eq name (codes "environ_sizes_get")
    then environ_sizes_get
    else if bytes_eq name (codes "environ_get")
    then environ_get
    else if bytes_eq name (codes "clock_time_get")
    then clock_time_get
    else if bytes_eq name (codes "random_get")
    then random_get
    else if bytes_eq name (codes "proc_exit")
    then proc_exit
    else unknown

-- What rendering and floating point give: `{:?}` of a string, and `(clock * 1_000_000.0) as u64`
-- after a number of readings of the monotonic clock.
pub record Env : Type 0 where
  pub debug : List ℕ → List ℕ
  pub nanos_at : ℕ → ℕ

-- How the host function of an import ends: it returns its results, or it unwinds the guest.
pub data Ended : Type 0 where
  returns : HostState → List Val → Ended
  exits : HostState → ℤ → Ended

abbrev pub finish : List ℕ → List Val → List Val → HostState × Errno → Ended
finish name ps results (h, code) =
    if bytes_eq name (codes "proc_exit")
    then (let status = signed32 (int_arg ps 0) in exits (set_exit_code status h) status)
    else returns h (set_first (i32 (errno_code code)) results)

module _ (env : Env) where
  unfoldable pub clock_time : ℕ → HostState → Reply
  clock_time out h =
      let (shared, readings) = Shared.tick_clock h.shared in
      let h' = record h { shared = shared } in answer h' (write_u64 out (env.nanos_at readings) h')

  unfoldable pub run_call : Call → List Val → HostState → Reply
  run_call fd_write_call ps h =
      fd_write (int_arg ps 0) (int_arg ps 1) (int_arg ps 2) (int_arg ps 3) h
  run_call fd_read_call ps h = fd_read (int_arg ps 0) (int_arg ps 1) (int_arg ps 2) (int_arg ps 3) h
  run_call fd_seek_call ps h = fd_seek (int_arg ps 0) (arg_i64 ps 1) (int_arg ps 2) (int_arg ps 3) h
  run_call fd_close_call ps h = fd_close (int_arg ps 0) h
  run_call fd_fdstat_get_call ps h = fd_fdstat_get (int_arg ps 0) (int_arg ps 1) h
  run_call fd_filestat_get_call ps h = fd_filestat_get (int_arg ps 0) (int_arg ps 1) h
  run_call fd_prestat_get_call ps h = fd_prestat_get (int_arg ps 0) (int_arg ps 1) h
  run_call fd_prestat_dir_name_call ps h = fd_prestat_dir_name (int_arg ps 0) (int_arg ps 1) h
  run_call path_open_call ps h =
      path_open env.debug (int_arg ps 2) (int_arg ps 3) (int_arg ps 4) (int_arg ps 8) h
  run_call path_unlink_file_call ps h = path_unlink_file (int_arg ps 1) (int_arg ps 2) h
  run_call args_sizes_get ps h = list_sizes h.wasi.args (int_arg ps 0) (int_arg ps 1) h
  run_call args_get ps h = write_string_list h.wasi.args (int_arg ps 0) (int_arg ps 1) h
  run_call environ_sizes_get ps h = list_sizes (env_strings h) (int_arg ps 0) (int_arg ps 1) h
  run_call environ_get ps h = write_string_list (env_strings h) (int_arg ps 0) (int_arg ps 1) h
  run_call clock_time_get ps h = clock_time (int_arg ps 2) h
  run_call random_get ps h =
      let (h', bytes) = take_random (int_arg ps 1) h in
      answer h' (write_memory (int_arg ps 0) bytes h')
  run_call proc_exit ps h = ok (h, success)
  run_call unknown ps h = ok (h, nosys)

  unfoldable pub dispatch : List ℕ → List Val → HostState → Reply
  unfolding run_call call_of clock_time
  dispatch name ps h = run_call (call_of name) ps h

  unfoldable pub wasi_import : List ℕ → List Val → List Val → HostState → Result Panic Ended
  unfolding dispatch
  wasi_import name ps results h =
      dispatch name ps (record_call (codes "wasi_snapshot_preview1") name (map scalar ps) h)
      >>= λ r. ok (finish name ps results r)
