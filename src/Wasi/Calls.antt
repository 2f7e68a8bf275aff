-- ===== src/Wasi/Calls.antt =====
-- The other file and environment calls of wasi.rs.
use wa_wasm_oracle.Prelude.{
  ℕ, ◌+◌, ◌-◌, ◌*◌, Bool, true, false, ◌||◌, List, [], ◌∷◌, ◌++◌, map, Option, none, some, leb,
  ◌==◌, if◌then◌else◌, length, take, drop, replicate, min, bit_and,
}
use wa_wasm_oracle.Prelude.Int.{ℤ, pos, negsuc, ◌+ℤ◌}
use wa_wasm_oracle.Prelude.Map as Map
use wa_wasm_oracle.Prelude.Map.{nat_ord, bytes_ord}
use wa_wasm_oracle.Prelude.Result.{ok, err}
use wa_wasm_oracle.Prelude.Text.{codes, from_utf8_lossy}
use wa_wasm_oracle.Prelude.Words.{u32, add32, le_bytes, signed64, pattern64}
use wa_wasm_oracle.Memory.{read}
use wa_wasm_oracle.State.{HostState, WasiState, write_memory, write_u32, write_u64, log}
use wa_wasm_oracle.Wasi.{
  Errno, success, badf, inval, noent, answer, Reply, fd_stdin, fd_stderr, fd_root, read_iovecs,
  normalise, file_or_empty, allocate_fd,
}

abbrev pub set_offset : ℕ → ℕ → WasiState → WasiState
set_offset fd offset w = elim (Map.lookup fd w.opened) [
  | some f ↦ record w { opened = Map.insert fd (record f { offset = offset }) w.opened }
  | none ↦ w
]

-- How the loop of `fd_read` ends: with the offset and the count, or on a write that failed.
pub data Scatter : Type 0 where
  finished : HostState → ℕ → ℕ → Scatter
  failed : HostState → Scatter

unfoldable pub scatter : List ℕ → ℕ → ℕ → List (ℕ × ℕ) → HostState → Scatter
scatter contents offset total [] h = finished h offset total
scatter contents offset total ((p, len) ∷ vs) h =
    let n = min len (length contents - offset) in
    elim (leb (length contents) offset) [
      | true ↦ finished h offset total
      | false ↦ elim (write_memory p (take n (drop offset contents)) h) [
        | err e ↦ failed h
        | ok h' ↦ scatter contents (offset + n) (add32 total (u32 n)) vs h'
      ]
    ]

abbrev pub after_scatter : ℕ → ℕ → Scatter → Reply
after_scatter fd out (failed h) = ok (h, inval)
after_scatter fd out (finished h offset total) =
    let h' = record h { wasi = set_offset fd offset h.wasi } in answer h' (write_u32 out total h')

-- The contents that an open descriptor refers to, and its offset.
abbrev pub contents_of : ℕ → WasiState → Option (List ℕ × ℕ)
contents_of fd w = elim (Map.lookup fd w.opened) [
  | none ↦ none
  | some f ↦ elim (Map.lookup f.path w.files) [
    | none ↦ none
    | some contents ↦ some (contents, f.offset)
  ]
]

unfoldable pub fd_read : ℕ → ℕ → ℕ → ℕ → HostState → Reply
unfolding scatter
fd_read fd iovs count out h =
    if fd == fd_stdin then answer h (write_u32 out 0 h) else elim (contents_of fd h.wasi) [
      | none ↦ ok (h, badf)
      | some (contents, offset) ↦
          after_scatter fd out (scatter contents offset 0 (read_iovecs h.guest iovs count) h)
    ]

-- The position that `whence` counts from: 0 the start, 1 the offset, 2 the end.
abbrev pub seek_base : ℕ → ℕ → ℕ → Option ℤ
seek_base offset size whence =
    if whence == 0
    then some (pos 0)
    else if whence == 1
    then some (signed64 offset)
    else if whence == 2
    then some (signed64 size)
    else none

-- `.max(0) as u64`
abbrev pub clamp : ℤ → ℕ
clamp (pos n) = n
clamp (negsuc n) = 0

-- `(base + delta).max(0)` in `i64`, whose sum wraps.
unfoldable pub seek_position : ℤ → ℤ → ℕ
seek_position base delta = clamp (signed64 (pattern64 (base +ℤ delta)))

unfoldable pub fd_seek : ℕ → ℤ → ℕ → ℕ → HostState → Reply
unfolding seek_position ◌+ℤ◌
fd_seek fd delta whence out h = elim (Map.lookup fd h.wasi.opened) [
  | none ↦ ok (h, badf)
  | some f ↦
      elim (seek_base f.offset (length (file_or_empty (Map.lookup f.path h.wasi.files))) whence) [
        | none ↦ ok (h, inval)
        | some base ↦
            let position = seek_position base delta in
            let h' = record h { wasi = set_offset fd position h.wasi } in
            answer h' (write_u64 out position h')
      ]
]

abbrev pub show_bool : Bool → List ℕ
show_bool true = codes "true"
show_bool false = codes "false"

-- `oflags & O_CREAT != 0`
abbrev pub creates : ℕ → Bool
creates oflags = elim (bit_and oflags 1 == 0) [ true ↦ false | false ↦ true ]

-- `debug` is the rendering of a string by `{:?}`.
module _ (debug : List ℕ → List ℕ) where
  unfoldable pub open_line : List ℕ → ℕ → List ℕ
  open_line path oflags =
      codes "wasi path_open "
      ++ (debug path ++ (codes " (create=" ++ (show_bool (creates oflags) ++ codes ")")))

-- The file under `path` made to exist where the call may create it.
abbrev pub create_file : List ℕ → Bool → WasiState → Option WasiState
create_file path create w =
    if Map.contains_key path w.files
    then some w
    else if create
    then some (record w { files = Map.insert path [] w.files })
    else none

abbrev pub open_file : List ℕ → WasiState → WasiState × ℕ
open_file path w =
    let (w', fd) = allocate_fd w in
    (
      record w' {
        opened = Map.insert fd (record { path = path; offset = 0; writable = true }) w'.opened;
      },
      fd,
    )

module _ (debug : List ℕ → List ℕ) where
  unfoldable pub path_open : ℕ → ℕ → ℕ → ℕ → HostState → Reply
  unfolding open_line
  path_open path_ptr path_len oflags out h = elim (read h.guest path_ptr path_len) [
    | err e ↦ ok (h, inval)
    | ok raw ↦
        let path = normalise (from_utf8_lossy raw) in
        let h' = log (open_line debug path oflags) h in
        elim (create_file path (creates oflags) h'.wasi) [
          | none ↦ ok (h', noent)
          | some w ↦
              let (w', fd) = open_file path w in
              let h'' = record h' { wasi = w' } in answer h'' (write_u32 out fd h'')
        ]
  ]

unfoldable pub path_unlink_file : ℕ → ℕ → HostState → Reply
path_unlink_file path_ptr path_len h = elim (read h.guest path_ptr path_len) [
  | err e ↦ ok (h, inval)
  | ok raw ↦
      let path = normalise (from_utf8_lossy raw) in
      if Map.contains_key path h.wasi.files
      then ok
          (record h { wasi = record (h.wasi) { files = Map.remove path h.wasi.files } }, success)
      else ok (h, noent)
]

unfoldable pub fd_close : ℕ → HostState → Reply
fd_close fd h =
    ok (record h { wasi = record (h.wasi) { opened = Map.remove fd h.wasi.opened } }, success)

-- The size that `fd_filestat_get` reports; `none` for a descriptor that is not open.
abbrev pub stat_size : ℕ → WasiState → Option ℕ
stat_size fd w = elim (Map.lookup fd w.opened) [
  | some f ↦ some (length (file_or_empty (Map.lookup f.path w.files)))
  | none ↦ if leb fd fd_stderr then some 0 else none
]

unfoldable pub fd_filestat_get : ℕ → ℕ → HostState → Reply
fd_filestat_get fd out h = elim (stat_size fd h.wasi) [
  | none ↦ ok (h, badf)
  | some size ↦
      let filetype : ℕ = if leb fd fd_stderr then 2 else 4 in
      let buffer =
        replicate 16 0 ++ ((filetype ∷ replicate 15 0) ++ (le_bytes 8 size ++ replicate 24 0)) in
      answer h (write_memory out buffer h)
]

abbrev pub fd_type : ℕ → ℕ
fd_type fd = if leb fd fd_stderr then 2 else if fd == fd_root then 3 else 4

unfoldable pub fd_fdstat_get : ℕ → ℕ → HostState → Reply
fd_fdstat_get fd out h =
    if leb fd fd_root || Map.contains_key fd h.wasi.opened
    then (let buffer = (fd_type fd ∷ replicate 7 0) ++ replicate 16 0xff in
        answer h (write_memory out buffer h))
    else ok (h, badf)

unfoldable pub fd_prestat_get : ℕ → ℕ → HostState → Reply
fd_prestat_get fd out h =
    if fd == fd_root
    then answer h (write_memory out (replicate 4 0 ++ le_bytes 4 1) h)
    else ok (h, badf)

unfoldable pub fd_prestat_dir_name : ℕ → ℕ → HostState → Reply
fd_prestat_dir_name fd out h =
    if fd == fd_root then answer h (write_memory out (codes "/") h) else ok (h, badf)

-- `write_string_list` from the entry `index` on: a pointer to the cursor, and the entry with a NUL.
unfoldable pub write_entries : List (List ℕ) → ℕ → ℕ → ℕ → HostState → HostState × Errno
write_entries [] ptrs index cursor h = (h, success)
write_entries (entry ∷ entries) ptrs index cursor h =
    elim (write_u32 (add32 ptrs (index * 4)) cursor h) [
      | err e ↦ (h, inval)
      | ok h' ↦ elim (write_memory cursor (entry ++ (0 ∷ [])) h') [
        | err e ↦ (h', inval)
        | ok h'' ↦
            write_entries entries ptrs (index + 1) (add32 cursor (u32 (length entry + 1))) h''
      ]
    ]

unfoldable pub write_string_list : List (List ℕ) → ℕ → ℕ → HostState → Reply
unfolding write_entries
write_string_list entries ptrs buffer h = ok (write_entries entries ptrs 0 buffer h)

-- The bytes of all entries with their NULs.
abbrev pub total_size : List (List ℕ) → ℕ
total_size [] = 0
total_size (e ∷ es) = (length e + 1) + total_size es

unfoldable pub list_sizes : List (List ℕ) → ℕ → ℕ → HostState → Reply
list_sizes entries count_ptr size_ptr h = elim (write_u32 count_ptr (u32 (length entries)) h) [
  | err e ↦ ok (h, inval)
  | ok h' ↦ answer h' (write_u32 size_ptr (u32 (total_size entries)) h')
]

-- `format!("{key}={value}")`
unfoldable pub env_strings : HostState → List (List ℕ)
env_strings h = map (λ (p : List ℕ × List ℕ). p.0 ++ (b'=' ∷ p.1)) h.wasi.env
