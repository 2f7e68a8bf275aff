-- ===== src/Wasi/Descriptors.antt =====
-- The descriptors that the WASI calls hand out: crates/oracle-core/src/wasi.rs.
use wa_wasm_oracle.Prelude.{
  ℕ, ◌+◌, ◌^◌, ◌≤◌, ◌<◌, ◌≡◌, refl, true, false, List, Option, none, some, arith, ltb,
  if◌then◌else◌, ◌==◌, Option-cases, Bool-cases, ◌⊎◌, inl, inr, length,
}
use wa_wasm_oracle.Prelude.Map as Map
use wa_wasm_oracle.Prelude.Map.{nat_ord, bytes_ord}
use wa_wasm_oracle.Prelude.Result.{Result, ok, err, ◌>>=◌}
use wa_wasm_oracle.Prelude.Words.{u32}
use wa_wasm_oracle.Memory.{Guest, MemError, write}
use wa_wasm_oracle.State.{HostState, WasiState, OpenFile, write_memory, write_u32, empty_wasi}
use wa_wasm_oracle.Wasi.{
  Errno, success, badf, inval, noent, nosys, fd_stdout, fd_stderr, Panic, Reply, answer,
  allocate_fd, first_file_fd, write_file, write_stream, fd_write, gather, read_iovecs,
}
use wa_wasm_oracle.Wasi.Files.{write_file-success, moved}
use wa_wasm_oracle.Wasi.Calls.{open_file, set_offset}

-- Each open descriptor lies between the first file descriptor and the next one to be given out.
abbrev pub IsNumbered : WasiState → Type 0
IsNumbered w =
    (fd : ℕ) (f : OpenFile)
    → Map.lookup fd w.opened ≡ some f
    → (first_file_fd ≤ fd) × (fd < w.next_fd)

-- A property of the state after a call that returns.
abbrev pub After : (WasiState → Type 0) → Reply → Type 0
After P (ok (h, e)) = P h.wasi
After P (err p) = Unit

pub empty-IsNumbered : IsNumbered empty_wasi
unfolding Map.lookup
empty-IsNumbered fd f e = ground (arith, e)

-- Changing an entry that is there keeps the numbering.
insert_known-IsNumbered :
    (w : WasiState) (fd : ℕ) (f g : OpenFile)
    → Map.lookup fd w.opened ≡ some f
    → IsNumbered w
    → (k : ℕ) (o : OpenFile) → Map.lookup k (Map.insert fd g w.opened) ≡ some o
    → (first_file_fd ≤ k) × (k < w.next_fd)
insert_known-IsNumbered w fd f g l v k o e =
    ground (arith, Map.lookup-insert fd k g w.opened, nat_ord.cmp_eq fd k, e, v fd f l, v k o)

pub open_file-IsNumbered :
    (path : List ℕ) (w : WasiState)
    → w.next_fd + 1 < 2 ^ 32
    → IsNumbered w
    → IsNumbered ((open_file path w).0)
unfolding allocate_fd
open_file-IsNumbered path w small v k o e =
    let fd : ℕ = if ltb w.next_fd first_file_fd then first_file_fd else w.next_fd in
    let g : OpenFile = record { path = path; offset = 0; writable = true } in
    ground (arith, Map.lookup-insert fd k g w.opened, nat_ord.cmp_eq fd k, v k o, e)

-- Where each open descriptor is below the next one, the descriptor that `allocate_fd` gives out is
-- not open before.
pub allocate_fd-fresh :
    (w : WasiState) → IsNumbered w → Map.lookup ((allocate_fd w).1) w.opened ≡ none
unfolding allocate_fd
allocate_fd-fresh w v =
    let fd : ℕ = if ltb w.next_fd first_file_fd then first_file_fd else w.next_fd in
    elim (Option-cases (Map.lookup fd w.opened)) [
      | inl e ↦ e
      | inr (f, e) ↦ ground (arith, v fd f e)
    ]

pub set_offset-IsNumbered :
    (fd offset : ℕ) (w : WasiState) → IsNumbered w → IsNumbered (set_offset fd offset w)
set_offset-IsNumbered fd offset w v = from (Map.lookup fd w.opened) refl
  where
    from :
        (r : Option OpenFile)
        → Map.lookup fd w.opened ≡ r
        → IsNumbered (elim r [
          | some f ↦ record w { opened = Map.insert fd (record f { offset = offset }) w.opened }
          | none ↦ w
        ])
    from none l = v
    from (some f) l = insert_known-IsNumbered w fd f (record f { offset = offset }) l v

pub answer-After :
    (P : WasiState → Type 0) (ptr : ℕ) (bytes : List ℕ) (h : HostState)
    → P h.wasi
    → After P (answer h (write_memory ptr bytes h))
answer-After P ptr bytes h p = from (write h.guest ptr bytes)
  where
    from : (r : Result MemError Guest) → After P (answer h (r >>= λ g. ok (record h { guest = g })))
    from (ok g) = p
    from (err x) = p

write_stream-IsNumbered :
    (fd : ℕ) (payload : List ℕ) (w w' : WasiState)
    → write_stream fd payload w ≡ ok (w', success)
    → IsNumbered w
    → IsNumbered w'
write_stream-IsNumbered fd payload w w' e v =
    from (Bool-cases (fd == fd_stdout)) (Bool-cases (fd == fd_stderr))
  where
    of_file : write_file fd payload w ≡ ok (w', success) → IsNumbered w'
    of_file e' k o l =
        let (f, known, can, fits, is) = write_file-success fd payload w w' e' in
        let here = insert_known-IsNumbered w fd f (moved f payload) known v k o in
        ground (arith, is, here, l)

    from :
        ((fd == fd_stdout) ≡ true) ⊎ ((fd == fd_stdout) ≡ false)
        → ((fd == fd_stderr) ≡ true) ⊎ ((fd == fd_stderr) ≡ false)
        → IsNumbered w'
    from (inl a) b k o l = ground (arith, e, a, v k o, l)
    from (inr a) (inl b) k o l = ground (arith, e, a, b, v k o, l)
    from (inr a) (inr b) k o l = of_file (ground (arith, e, a, b)) k o l

pub fd_write-After :
    (fd iovs count out : ℕ) (h : HostState)
    → IsNumbered h.wasi
    → After IsNumbered (fd_write fd iovs count out h)
unfolding fd_write
fd_write-After fd iovs count out h v = from (gather h.guest (read_iovecs h.guest iovs count))
  where
    stream :
        (payload : List ℕ) (r : Result Panic (WasiState × Errno))
        → write_stream fd payload h.wasi ≡ r
        → After IsNumbered (
            r >>= λ r.
            (let h' = record h { wasi = r.0 } in
              elim (r.1) [
                | success ↦ answer h' (write_u32 out (u32 (length payload)) h')
                | _ ↦ ok (h, r.1)
              ]))
    stream payload (ok (w, success)) e =
        answer-After IsNumbered out _ (record h { wasi = w })
          (write_stream-IsNumbered fd payload h.wasi w e v)
    stream payload (ok (w, badf)) e = v
    stream payload (ok (w, inval)) e = v
    stream payload (ok (w, noent)) e = v
    stream payload (ok (w, nosys)) e = v
    stream payload (err p) e = tt

    from :
        (r : Option (List ℕ))
        → After IsNumbered (elim r [
          | none ↦ ok (h, inval)
          | some payload ↦ write_stream fd payload h.wasi >>= λ r.
              (let h' = record h { wasi = r.0 } in
                elim (r.1) [
                  | success ↦ answer h' (write_u32 out (u32 (length payload)) h')
                  | _ ↦ ok (h, r.1)
                ])
        ])
    from none = v
    from (some payload) = stream payload (write_stream fd payload h.wasi) refl
