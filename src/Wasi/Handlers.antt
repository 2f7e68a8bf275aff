-- ===== src/Wasi/Handlers.antt =====
-- The descriptor numbering under the calls that open and move nothing: crates/oracle-core/src/wasi.rs.
use wa_wasm_oracle.Prelude.{
  ℕ, ◌≡◌, refl, subst, sym, Bool, true, false, List, ◌∷◌, Option, none, some, arith, length, ◌==◌,
  ◌||◌, leb, if◌then◌else◌, ◌++◌, replicate,
}
use wa_wasm_oracle.Prelude.Map as Map
use wa_wasm_oracle.Prelude.Map.{nat_ord, bytes_ord}
use wa_wasm_oracle.Prelude.Result.{Result, ok, err}
use wa_wasm_oracle.Prelude.Text.{codes, from_utf8_lossy}
use wa_wasm_oracle.Prelude.Words.{u32, le_bytes}
use wa_wasm_oracle.Memory.{MemError, read}
use wa_wasm_oracle.State.{HostState, write_memory, write_u32, take_random}
use wa_wasm_oracle.Shared as Shared
use wa_wasm_oracle.Wasi.Strings.{write_entries-wasi}
use wa_wasm_oracle.State.Laws.{write_memory-success}
use wa_wasm_oracle.Wasi.{success, badf, inval, noent, fd_stderr, fd_root, answer, normalise}
use wa_wasm_oracle.Wasi.Calls.{
  path_unlink_file, fd_close, fd_fdstat_get, fd_filestat_get, stat_size, fd_type, fd_prestat_get,
  fd_prestat_dir_name, list_sizes, write_string_list, total_size,
}
use wa_wasm_oracle.Wasi.Descriptors.{IsNumbered, After, answer-After}
use wa_wasm_oracle.Wasi.Dispatch.{Env, clock_time}

wrote-IsNumbered :
    (ptr : ℕ) (bytes : List ℕ) (h h' : HostState)
    → write_memory ptr bytes h ≡ ok h'
    → IsNumbered h.wasi
    → IsNumbered h'.wasi
wrote-IsNumbered ptr bytes h h' e v =
    subst (λ (s : HostState). IsNumbered s.wasi) (sym ((write_memory-success ptr bytes h h' e).0)) v

pub fd_close-After : (fd : ℕ) (h : HostState) → IsNumbered h.wasi → After IsNumbered (fd_close fd h)
unfolding fd_close
fd_close-After fd h v k o e = ground (arith, Map.lookup-remove fd k h.wasi.opened, e, v k o)

pub fd_fdstat_get-After :
    (fd out : ℕ) (h : HostState) → IsNumbered h.wasi → After IsNumbered (fd_fdstat_get fd out h)
unfolding fd_fdstat_get
fd_fdstat_get-After fd out h v = from (leb fd fd_root || Map.contains_key fd h.wasi.opened)
  where
    from :
        (b : Bool)
        → After IsNumbered (
            if b
            then (let buffer = (fd_type fd ∷ replicate 7 0) ++ replicate 16 0xff in
                answer h (write_memory out buffer h))
            else ok (h, badf))
    from true = answer-After IsNumbered out _ h v
    from false = v

pub fd_filestat_get-After :
    (fd out : ℕ) (h : HostState) → IsNumbered h.wasi → After IsNumbered (fd_filestat_get fd out h)
unfolding fd_filestat_get
fd_filestat_get-After fd out h v = from (stat_size fd h.wasi)
  where
    from :
        (r : Option ℕ)
        → After IsNumbered (elim r [
          | none ↦ ok (h, badf)
          | some size ↦
              let filetype : ℕ = if leb fd fd_stderr then 2 else 4 in
              let buffer =
                replicate 16 0
                ++ ((filetype ∷ replicate 15 0) ++ (le_bytes 8 size ++ replicate 24 0)) in
              answer h (write_memory out buffer h)
        ])
    from none = v
    from (some size) = answer-After IsNumbered out _ h v

-- An answer that only the root directory gets.
root_only-After :
    (fd out : ℕ) (bytes : List ℕ) (h : HostState)
    → IsNumbered h.wasi
    → After IsNumbered (if fd == fd_root then answer h (write_memory out bytes h) else ok (h, badf))
root_only-After fd out bytes h v = from (fd == fd_root)
  where
    from :
        (b : Bool)
        → After IsNumbered (if b then answer h (write_memory out bytes h) else ok (h, badf))
    from true = answer-After IsNumbered out bytes h v
    from false = v

pub fd_prestat_get-After :
    (fd out : ℕ) (h : HostState) → IsNumbered h.wasi → After IsNumbered (fd_prestat_get fd out h)
unfolding fd_prestat_get
fd_prestat_get-After fd out h v = root_only-After fd out (replicate 4 0 ++ le_bytes 4 1) h v

pub fd_prestat_dir_name-After :
    (fd out : ℕ) (h : HostState)
    → IsNumbered h.wasi
    → After IsNumbered (fd_prestat_dir_name fd out h)
unfolding fd_prestat_dir_name
fd_prestat_dir_name-After fd out h v = root_only-After fd out (codes "/") h v

pub path_unlink_file-After :
    (path_ptr path_len : ℕ) (h : HostState)
    → IsNumbered h.wasi
    → After IsNumbered (path_unlink_file path_ptr path_len h)
unfolding path_unlink_file
path_unlink_file-After path_ptr path_len h v = from (read h.guest path_ptr path_len)
  where
    removes :
        (path : List ℕ) (b : Bool)
        → After IsNumbered (
            if b
            then ok (
              record h { wasi = record (h.wasi) { files = Map.remove path h.wasi.files } },
              success,
            )
            else ok (h, noent))
    removes path true = v
    removes path false = v

    from :
        (r : Result MemError (List ℕ))
        → After IsNumbered (elim r [
          | err e ↦ ok (h, inval)
          | ok raw ↦
              let path = normalise (from_utf8_lossy raw) in
              if Map.contains_key path h.wasi.files
              then ok (
                record h { wasi = record (h.wasi) { files = Map.remove path h.wasi.files } },
                success,
              )
              else ok (h, noent)
        ])
    from (err e) = v
    from (ok raw) =
        let path = normalise (from_utf8_lossy raw) in
        removes path (Map.contains_key path h.wasi.files)

pub list_sizes-After :
    (entries : List (List ℕ)) (count_ptr size_ptr : ℕ) (h : HostState)
    → IsNumbered h.wasi
    → After IsNumbered (list_sizes entries count_ptr size_ptr h)
unfolding list_sizes
list_sizes-After entries count_ptr size_ptr h v =
    from (write_u32 count_ptr (u32 (length entries)) h) refl
  where
    from :
        (r : Result MemError HostState)
        → write_u32 count_ptr (u32 (length entries)) h ≡ r
        → After IsNumbered (elim r [
          | err e ↦ ok (h, inval)
          | ok h' ↦ answer h' (write_u32 size_ptr (u32 (total_size entries)) h')
        ])
    from (err e) is = v
    from (ok h') is = answer-After IsNumbered size_ptr _ h' (wrote-IsNumbered count_ptr _ h h' is v)

pub write_string_list-After :
    (entries : List (List ℕ)) (ptrs buffer : ℕ) (h : HostState)
    → IsNumbered h.wasi
    → After IsNumbered (write_string_list entries ptrs buffer h)
unfolding write_string_list
write_string_list-After entries ptrs buffer h v =
    subst IsNumbered (sym (write_entries-wasi entries ptrs 0 buffer h)) v

pub clock_time-After :
    (env : Env) (out : ℕ) (h : HostState)
    → IsNumbered h.wasi
    → After IsNumbered (clock_time env out h)
unfolding clock_time
clock_time-After env out h v =
    answer-After IsNumbered out _ (record h { shared = (Shared.tick_clock h.shared).0 }) v

pub random-After :
    (len out : ℕ) (h : HostState)
    → IsNumbered h.wasi
    → After IsNumbered
        (let (h', bytes) = take_random len h in answer h' (write_memory out bytes h'))
random-After len out h v = answer-After IsNumbered out _ ((take_random len h).0) v
