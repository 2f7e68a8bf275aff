-- ===== src/Wasi/Tests.antt =====
-- Concrete runs of the WASI calls: crates/oracle-core/src/wasi.rs.
use wa_wasm_oracle.Prelude.{
  ℕ, ◌+◌, ◌≡◌, ◌≢◌, refl, inl, inr, true, List, [], ◌∷◌, ◌++◌, none, some, arith, length, take,
  drop,
}
use wa_wasm_oracle.Prelude.Map.{lookup, insert, nat_ord, bytes_ord}
use wa_wasm_oracle.Prelude.Result.{ok}
use wa_wasm_oracle.Prelude.Text.{codes}
use wa_wasm_oracle.Memory.{put_all, write}
use wa_wasm_oracle.Shared.{fresh_shared}
use wa_wasm_oracle.State.{HostState, OpenFile, WasiState, for_thread, refuse}
use wa_wasm_oracle.Vals.{i32}
use wa_wasm_oracle.Prelude.Words.{le_bytes}
use wa_wasm_oracle.Wasi.{success, patch, write_file}
use wa_wasm_oracle.Wasi.Calls.{finished, scatter, write_entries}
use wa_wasm_oracle.Wasi.Descriptors.{After, IsNumbered}
use wa_wasm_oracle.Wasi.Dispatch.{Env, dispatch}
use wa_wasm_oracle.Wasi.Files.{moved, write_file-append, write_file-stores, written}
use wa_wasm_oracle.Wasi.Numbering.{dispatch-IsNumbered}
use wa_wasm_oracle.Wasi.Reads.{Delivered, scatter-delivers}
use wa_wasm_oracle.Wasi.Strings.{Listed, write_entries-Listed}

-- One file of five bytes, open under 4.
abbrev note : OpenFile
note = record { path = codes "note"; offset = 0; writable = true }

abbrev one_file : WasiState
one_file = record {
  args = [];
  env = [];
  files = (codes "note", 10 ∷ 11 ∷ 12 ∷ 13 ∷ 14 ∷ []) ∷ [];
  stdout = [];
  stderr = [];
  opened = (4, note) ∷ [];
  next_fd = 5;
}

abbrev front : List ℕ
front = 1 ∷ 2 ∷ []

abbrev back : List ℕ
back = 3 ∷ []

abbrev after_front : WasiState
after_front = written 4 note front one_file

abbrev after_back : WasiState
after_back = written 4 (moved note front) back after_front

writes_front : write_file 4 front one_file ≡ ok (after_front, success)
unfolding write_file lookup insert patch
writes_front = refl

writes_back : write_file 4 back after_front ≡ ok (after_back, success)
unfolding write_file lookup insert patch
writes_back = refl

write_file-stores_example :
    (f : OpenFile) × (contents : List ℕ) × (lookup 4 one_file.opened ≡ some f)
    × (lookup f.path after_front.files ≡ some contents)
    × (take (length front) (drop f.offset contents) ≡ front)
    × (lookup 4 after_front.opened ≡ some (record f { offset = f.offset + length front }))
    × ((path : List ℕ) → f.path ≢ path → lookup path after_front.files ≡ lookup path one_file.files)
    × ((other : ℕ) → 4 ≢ other → lookup other after_front.opened ≡ lookup other one_file.opened)
    × (after_front.stdout ≡ one_file.stdout)
    × (after_front.stderr ≡ one_file.stderr)
write_file-stores_example =
    write_file-stores 4 front one_file after_front (omega arith) writes_front

write_file-append_example : write_file 4 (front ++ back) one_file ≡ ok (after_back, success)
write_file-append_example =
    write_file-append 4 front back one_file after_front after_back (omega arith) writes_front
      writes_back

abbrev host : HostState
host = record (for_thread fresh_shared 0 refuse) {
  wasi = one_file;
  guest = record { memory = some (record { size = 128; cell = λ p. 0 }); linear = none };
}

abbrev contents : List ℕ
contents = 10 ∷ 11 ∷ 12 ∷ 13 ∷ 14 ∷ []

abbrev vectors : List (ℕ × ℕ)
vectors = (16, 2) ∷ (32, 8) ∷ []

abbrev host_read : HostState
host_read = record host {
  guest = record {
    memory = some (record {
      size = 128;
      cell = put_all (put_all (λ p. 0) 16 (10 ∷ 11 ∷ [])) 32 (12 ∷ 13 ∷ 14 ∷ []);
    });
    linear = none;
  };
}

reads_all : scatter contents 0 0 vectors host ≡ finished host_read 5 5
unfolding scatter write
reads_all = refl

scatter-delivers_example : Delivered host_read.guest contents 0 vectors
scatter-delivers_example =
    scatter-delivers contents 0 0 vectors host host_read 5 5 reads_all
      ((inl (omega arith), tt), (tt, tt))

one_file-IsNumbered : IsNumbered one_file
unfolding lookup
one_file-IsNumbered fd f e = ground (arith, e)

abbrev plain : Env
plain = record { debug = λ text. text; nanos_at = λ n. n }

dispatch-IsNumbered_example : After IsNumbered (dispatch plain (codes "fd_close") (i32 4 ∷ []) host)
dispatch-IsNumbered_example =
    dispatch-IsNumbered plain (codes "fd_close") (i32 4 ∷ []) host (omega arith) one_file-IsNumbered

abbrev arguments : List (List ℕ)
arguments = codes "module" ∷ codes "-v" ∷ []

abbrev host_listed : HostState
host_listed = (write_entries arguments 8 0 64 host).0

lists : write_entries arguments 8 0 64 host ≡ (host_listed, success)
unfolding write_entries write
lists = refl

write_entries-Listed_example : Listed host_listed.guest arguments 8 0 64
write_entries-Listed_example =
    write_entries-Listed arguments 8 0 64 host host_listed lists (omega arith) (omega arith)
      (inr (omega arith))

-- A vector of two bytes at 64, described at 0.
abbrev outgoing : ℕ → ℕ
outgoing = put_all (put_all (λ p. 0) 0 (le_bytes 4 64 ++ le_bytes 4 2)) 64 (72 ∷ 105 ∷ [])

abbrev host_outgoing : HostState
host_outgoing = record host {
  guest = record { memory = some (record { size = 128; cell = outgoing }); linear = none };
}

abbrev host_sent : HostState
host_sent = record host {
  wasi = record one_file { stdout = 72 ∷ 105 ∷ [] };
  guest = record {
    memory = some (record { size = 128; cell = put_all outgoing 32 (le_bytes 4 2) });
    linear = none;
  };
}
