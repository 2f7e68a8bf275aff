-- ===== src/Wasi.antt =====
-- The WASI preview-1 host: crates/oracle-core/src/wasi.rs.
-- A handler takes the host state and the call's arguments, and returns the state and the errno.
-- Where the Rust code would panic instead, it returns `err`.
pub mod Patch
pub mod Files
pub mod Descriptors
pub mod Handlers
pub mod Numbering
pub mod Reads
pub mod Writes
pub mod Strings
mod Tests
pub mod Calls
pub mod Dispatch
use wa_wasm_oracle.Prelude.{
  ℕ, zero, suc, ◌+◌, ◌-◌, ◌*◌, ◌^◌, Bool, true, false, ◌&&◌, ◌||◌, not, List, [], ◌∷◌, ◌++◌, map,
  Option, none, some, ltb, leb, ◌==◌, if◌then◌else◌, length, take, drop, replicate, min,
}
use wa_wasm_oracle.Prelude.Map as Map
use wa_wasm_oracle.Prelude.Map.{nat_ord, bytes_ord}
use wa_wasm_oracle.Prelude.Result.{Result, ok, err, ◌>>=◌}
use wa_wasm_oracle.Prelude.Text.{codes, starts_with, from_utf8_lossy}
use wa_wasm_oracle.Prelude.Words.{u32, add32, add64}
use wa_wasm_oracle.Memory.{Guest, MemError, read, read_u32}
use wa_wasm_oracle.State.{HostState, WasiState, OpenFile, write_memory, write_u32, write_u64, log}

pub data Errno : Type 0 where
  success badf inval noent nosys : Errno

abbrev pub errno_code : Errno → ℕ
errno_code success = 0
errno_code badf = 8
errno_code inval = 28
errno_code noent = 44
errno_code nosys = 52

-- `Vec` refuses a length above `isize::MAX`.
pub data Panic : Type 0 where
  capacity_overflow : Panic

abbrev pub Reply : Type 0
Reply = Result Panic (HostState × Errno)

abbrev pub fd_stdin : ℕ
fd_stdin = 0

abbrev pub fd_stdout : ℕ
fd_stdout = 1

abbrev pub fd_stderr : ℕ
fd_stderr = 2

abbrev pub fd_root : ℕ
fd_root = 3

abbrev pub first_file_fd : ℕ
first_file_fd = 4

abbrev pub isize_max : ℕ
isize_max = 2 ^ 63 - 1

-- `match write(…) { Ok(()) => ESUCCESS, Err(_) => EINVAL }`: what was done before stays done.
abbrev pub answer : HostState → Result MemError HostState → Reply
answer h (ok h') = ok (h', success)
answer h (err e) = ok (h, inval)

-- `trim_start_matches("./")` and then `trim_start_matches('/')`.
unfoldable pub trim_dot_slash : List ℕ → List ℕ
trim_dot_slash [] = []
trim_dot_slash (a ∷ []) = a ∷ []
trim_dot_slash (a ∷ b ∷ path) =
    let rest = trim_dot_slash path in if (a == b'.') && (b == b'/') then rest else a ∷ b ∷ path

unfoldable pub trim_slash : List ℕ → List ℕ
trim_slash [] = []
trim_slash (a ∷ path) = let rest = trim_slash path in if a == b'/' then rest else a ∷ path

unfoldable pub normalise : List ℕ → List ℕ
unfolding trim_dot_slash trim_slash
normalise path = trim_slash (trim_dot_slash path)

unfoldable pub add_file : List ℕ → List ℕ → WasiState → WasiState
add_file path contents w = record w { files = Map.insert (normalise path) contents w.files }

unfoldable pub file : WasiState → List ℕ → Option (List ℕ)
file w path = Map.lookup (normalise path) w.files

unfoldable pub allocate_fd : WasiState → WasiState × ℕ
allocate_fd w =
    let fd = if ltb w.next_fd first_file_fd then first_file_fd else w.next_fd in
    (record w { next_fd = add32 fd 1 }, fd)

abbrev pub max_iovecs : ℕ
max_iovecs = 1024

-- The iovecs from `index` on, for `left` more; one that cannot be read is skipped.
unfoldable pub iovecs_from : Guest → ℕ → ℕ → ℕ → List (ℕ × ℕ)
iovecs_from g ptr index zero = []
iovecs_from g ptr index (suc left) =
    let base = add32 ptr (index * 8) in
    let rest = iovecs_from g ptr (index + 1) left in
    elim (read_u32 g base) [
      | err e ↦ rest
      | ok p ↦ elim (read_u32 g (add32 base 4)) [ err e ↦ rest | ok len ↦ (p, len) ∷ rest ]
    ]

unfoldable pub read_iovecs : Guest → ℕ → ℕ → List (ℕ × ℕ)
unfolding iovecs_from
read_iovecs g ptr count = iovecs_from g ptr 0 (min count max_iovecs)

-- The bytes of all vectors; none if one of them cannot be read.
unfoldable pub gather : Guest → List (ℕ × ℕ) → Option (List ℕ)
gather g [] = some []
gather g ((p, len) ∷ vs) =
    let rest = gather g vs in
    elim (read g p len) [
      | err e ↦ none
      | ok bytes ↦ elim rest [ none ↦ none | some more ↦ some (bytes ++ more) ]
    ]

-- `file.resize(offset + n, 0)` where the file is shorter, and the copy to `file[offset..offset + n]`.
unfoldable pub patch : List ℕ → ℕ → List ℕ → List ℕ
patch contents offset payload =
    let end = offset + length payload in
    let sized =
      if ltb (length contents) end
      then contents ++ replicate (end - length contents) 0
      else contents in
    take offset sized ++ (payload ++ drop end sized)

abbrev pub file_or_empty : Option (List ℕ) → List ℕ
file_or_empty (some contents) = contents
file_or_empty none = []

-- The part of `fd_write` behind the gathering, for a descriptor that is not a standard stream.
unfoldable pub write_file : ℕ → List ℕ → WasiState → Result Panic (WasiState × Errno)
unfolding patch
write_file fd payload w = elim (Map.lookup fd w.opened) [
  | none ↦ ok (w, badf)
  | some f ↦
      if not f.writable
      then ok (w, badf)
      else if ltb isize_max (f.offset + length payload)
      then err capacity_overflow
      else (let contents = file_or_empty (Map.lookup f.path w.files) in
          let moved = record f { offset = add64 f.offset (u32 (length payload)) } in
          ok (
            record w {
              opened = Map.insert fd moved w.opened;
              files = Map.insert f.path (patch contents f.offset payload) w.files;
            },
            success,
          ))
]

abbrev pub write_stream : ℕ → List ℕ → WasiState → Result Panic (WasiState × Errno)
write_stream fd payload w =
    if fd == fd_stdout
    then ok (record w { stdout = w.stdout ++ payload }, success)
    else if fd == fd_stderr
    then ok (record w { stderr = w.stderr ++ payload }, success)
    else write_file fd payload w

unfoldable pub fd_write : ℕ → ℕ → ℕ → ℕ → HostState → Reply
fd_write fd iovs count out h = elim (gather h.guest (read_iovecs h.guest iovs count)) [
  | none ↦ ok (h, inval)
  | some payload ↦ write_stream fd payload h.wasi >>= λ r.
      (let h' = record h { wasi = r.0 } in
        elim (r.1) [
          | success ↦ answer h' (write_u32 out (u32 (length payload)) h')
          | _ ↦ ok (h, r.1)
        ])
]
