-- ===== src/Wasi/Numbering.antt =====
-- The descriptor numbering under every WASI call: `dispatch` of crates/oracle-core/src/wasi.rs.
use wa_wasm_oracle.Prelude.{
  ℕ, ◌+◌, ◌^◌, ◌<◌, ◌≡◌, refl, ap, subst, ◌∙◌, sym, Bool, true, false, List, [], ◌∷◌, Option, none,
  some, arith, length, ◌==◌, leb, if◌then◌else◌, take, drop, min, ◌-◌,
}
use wa_wasm_oracle.Prelude.Int.{ℤ}
use wa_wasm_oracle.Prelude.Map as Map
use wa_wasm_oracle.Prelude.Map.{nat_ord, bytes_ord}
use wa_wasm_oracle.Prelude.Result.{Result, ok, err}
use wa_wasm_oracle.Prelude.Text.{from_utf8_lossy}
use wa_wasm_oracle.Prelude.Words.{u32, add32, le_bytes}
use wa_wasm_oracle.Memory.{MemError, read}
use wa_wasm_oracle.State.{HostState, WasiState, OpenFile, write_memory, write_u32, write_u64, log}
use wa_wasm_oracle.State.Laws.{write_memory-success}
use wa_wasm_oracle.Vals.{Val}
use wa_wasm_oracle.Wasi.{
  badf, inval, noent, fd_stdin, answer, read_iovecs, normalise, file_or_empty,
}
use wa_wasm_oracle.Wasi.Calls.{
  Scatter, finished, failed, scatter, after_scatter, contents_of, fd_read, fd_seek, seek_base,
  seek_position, set_offset, path_open, create_file, open_file, creates, open_line, env_strings,
}
use wa_wasm_oracle.Wasi.Descriptors.{
  IsNumbered, After, answer-After, set_offset-IsNumbered, open_file-IsNumbered, fd_write-After,
}
use wa_wasm_oracle.Wasi.Handlers.{
  fd_close-After, fd_fdstat_get-After, fd_filestat_get-After, fd_prestat_get-After,
  fd_prestat_dir_name-After, path_unlink_file-After, list_sizes-After, write_string_list-After,
  clock_time-After, random-After,
}
use wa_wasm_oracle.Wasi.Dispatch.{
  Call, Env, call_of, run_call, dispatch, fd_write_call, fd_read_call, fd_seek_call, fd_close_call,
  fd_fdstat_get_call, fd_filestat_get_call, fd_prestat_get_call, fd_prestat_dir_name_call,
  path_open_call, path_unlink_file_call, args_sizes_get, args_get, environ_sizes_get, environ_get,
  clock_time_get, random_get, proc_exit, unknown,
}

-- The loop of `fd_read` leaves files and descriptors alone, however it ends.
scatter_end : Scatter → HostState
scatter_end (finished h offset total) = h
scatter_end (failed h) = h

scatter-wasi :
    (contents : List ℕ) (offset total : ℕ) (vs : List (ℕ × ℕ)) (h : HostState)
    → (scatter_end (scatter contents offset total vs h)).wasi ≡ h.wasi
unfolding scatter scatter_end
scatter-wasi contents offset total [] h = refl
scatter-wasi contents offset total ((p, len) ∷ vs) h =
    from (leb (length contents) offset) (write_memory p (take n (drop offset contents)) h) refl
      (λ h' is. scatter-wasi contents (offset + n) (add32 total (u32 n)) vs h')
  where
    n : ℕ
    n = min len (length contents - offset)

    from :
        (b : Bool) (r : Result MemError HostState)
        → write_memory p (take n (drop offset contents)) h ≡ r
        → ((h' : HostState)
            → r ≡ ok h'
            → (scatter_end (scatter contents (offset + n) (add32 total (u32 n)) vs h')).wasi
              ≡ h'.wasi)
        → (scatter_end (elim b [
          | true ↦ finished h offset total
          | false ↦ elim r [
            | err e ↦ failed h
            | ok h' ↦ scatter contents (offset + n) (add32 total (u32 n)) vs h'
          ]
        ])).wasi
          ≡ h.wasi
    from true r e rest = refl
    from false (err x) e rest = refl
    from false (ok h') e rest =
        rest h' refl ∙ ap (λ (s : HostState). s.wasi) ((write_memory-success p _ h h' e).0)

after_scatter-After :
    (fd out : ℕ) (s : Scatter)
    → IsNumbered (scatter_end s).wasi
    → After IsNumbered (after_scatter fd out s)
unfolding scatter_end
after_scatter-After fd out (failed h) v = v
after_scatter-After fd out (finished h offset total) v =
    answer-After IsNumbered out (le_bytes 4 total) (record h { wasi = set_offset fd offset h.wasi })
      (set_offset-IsNumbered fd offset h.wasi v)

fd_read-After :
    (fd iovs count out : ℕ) (h : HostState)
    → IsNumbered h.wasi
    → After IsNumbered (fd_read fd iovs count out h)
unfolding fd_read
fd_read-After fd iovs count out h v = from (fd == fd_stdin) (contents_of fd h.wasi)
  where
    from :
        (b : Bool) (r : Option (List ℕ × ℕ))
        → After IsNumbered (
            if b then answer h (write_u32 out 0 h) else elim r [
              | none ↦ ok (h, badf)
              | some (contents, offset) ↦
                  after_scatter fd out
                    (scatter contents offset 0 (read_iovecs h.guest iovs count) h)
            ])
    from true r = answer-After IsNumbered out (le_bytes 4 0) h v
    from false none = v
    from false (some (contents, offset)) =
        let s = scatter contents offset 0 (read_iovecs h.guest iovs count) h in
        after_scatter-After fd out s (
          subst IsNumbered (sym (scatter-wasi contents offset 0 (read_iovecs h.guest iovs count) h))
            v)

fd_seek-After :
    (fd : ℕ) (delta : ℤ) (whence out : ℕ) (h : HostState)
    → IsNumbered h.wasi
    → After IsNumbered (fd_seek fd delta whence out h)
unfolding fd_seek
fd_seek-After fd delta whence out h v = from (Map.lookup fd h.wasi.opened)
  where
    place :
        (r : Option ℤ)
        → After IsNumbered (elim r [
          | none ↦ ok (h, inval)
          | some base ↦
              let position = seek_position base delta in
              let h' = record h { wasi = set_offset fd position h.wasi } in
              answer h' (write_u64 out position h')
        ])
    place none = v
    place (some base) =
        let position = seek_position base delta in
        answer-After IsNumbered out (le_bytes 8 position)
          (record h { wasi = set_offset fd position h.wasi })
          (set_offset-IsNumbered fd position h.wasi v)

    from :
        (r : Option OpenFile)
        → After IsNumbered (elim r [
          | none ↦ ok (h, badf)
          | some f ↦
              elim (seek_base f.offset
                (length (file_or_empty (Map.lookup f.path h.wasi.files)))
                whence) [
                  | none ↦ ok (h, inval)
                  | some base ↦
                      let position = seek_position base delta in
                      let h' = record h { wasi = set_offset fd position h.wasi } in
                      answer h' (write_u64 out position h')
                ]
        ])
    from none = v
    from (some f) =
        place (seek_base f.offset (length (file_or_empty (Map.lookup f.path h.wasi.files))) whence)

create_file-opened :
    (path : List ℕ) (create : Bool) (w w' : WasiState)
    → create_file path create w ≡ some w'
    → (w'.opened ≡ w.opened) × (w'.next_fd ≡ w.next_fd)
create_file-opened path create w w' e = (ground (arith, e), ground (arith, e))

path_open-After :
    (debug : List ℕ → List ℕ) (path_ptr path_len oflags out : ℕ) (h : HostState)
    → h.wasi.next_fd + 1 < 2 ^ 32
    → IsNumbered h.wasi
    → After IsNumbered (path_open debug path_ptr path_len oflags out h)
unfolding path_open
path_open-After debug path_ptr path_len oflags out h small v = from (read h.guest path_ptr path_len)
  where
    opens :
        (path : List ℕ) (h' : HostState)
        → h'.wasi ≡ h.wasi
        → (r : Option WasiState) → create_file path (creates oflags) h'.wasi ≡ r
        → After IsNumbered (elim r [
          | none ↦ ok (h', noent)
          | some w ↦
              let (w', fd) = open_file path w in
              let h'' = record h' { wasi = w' } in answer h'' (write_u32 out fd h'')
        ])
    opens path h' same none e = subst IsNumbered (sym same) v
    opens path h' same (some w) e =
        answer-After IsNumbered out _ (record h' { wasi = (open_file path w).0 })
          (let (fds, next) = create_file-opened path (creates oflags) h'.wasi w e in
            open_file-IsNumbered path w (ground (arith, next, same, small))
              (λ k o l. ground (arith, fds, next, same, l, v k o)))

    from :
        (r : Result MemError (List ℕ))
        → After IsNumbered (elim r [
          | err e ↦ ok (h, inval)
          | ok raw ↦
              let path = normalise (from_utf8_lossy raw) in
              let h' = log (open_line debug path oflags) h in
              elim (create_file path (creates oflags) h'.wasi) [
                | none ↦ ok (h', noent)
                | some w ↦
                    let (w', fd) = open_file path w in
                    let h'' = record h' { wasi = w' } in answer h'' (write_u32 out fd h'')
              ]
        ])
    from (err e) = v
    from (ok raw) =
        let path = normalise (from_utf8_lossy raw) in
        opens path (log (open_line debug path oflags) h) refl
          (create_file path (creates oflags) h.wasi) refl

-- While fewer than 2^32 - 1 descriptors were numbered, every call that returns keeps each open
-- descriptor between 4 and the next one to be given out.
pub dispatch-IsNumbered :
    (env : Env) (name : List ℕ) (ps : List Val) (h : HostState)
    → h.wasi.next_fd + 1 < 2 ^ 32
    → IsNumbered h.wasi
    → After IsNumbered (dispatch env name ps h)
unfolding dispatch run_call
dispatch-IsNumbered env name ps h small v = from (call_of name)
  where
    from : (c : Call) → After IsNumbered (run_call env c ps h)
    from fd_write_call = fd_write-After _ _ _ _ h v
    from fd_read_call = fd_read-After _ _ _ _ h v
    from fd_seek_call = fd_seek-After _ _ _ _ h v
    from fd_close_call = fd_close-After _ h v
    from fd_fdstat_get_call = fd_fdstat_get-After _ _ h v
    from fd_filestat_get_call = fd_filestat_get-After _ _ h v
    from fd_prestat_get_call = fd_prestat_get-After _ _ h v
    from fd_prestat_dir_name_call = fd_prestat_dir_name-After _ _ h v
    from path_open_call = path_open-After env.debug _ _ _ _ h small v
    from path_unlink_file_call = path_unlink_file-After _ _ h v
    from args_sizes_get = list_sizes-After h.wasi.args _ _ h v
    from args_get = write_string_list-After h.wasi.args _ _ h v
    from environ_sizes_get = list_sizes-After (env_strings h) _ _ h v
    from environ_get = write_string_list-After (env_strings h) _ _ h v
    from clock_time_get = clock_time-After env _ h v
    from random_get = random-After _ _ h v
    from proc_exit = v
    from unknown = v
