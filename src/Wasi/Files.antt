-- ===== src/Wasi/Files.antt =====
-- What `fd_write` does to the files: crates/oracle-core/src/wasi.rs.
use wa_wasm_oracle.Prelude.{
  ℕ, ◌+◌, ◌^◌, ◌≤◌, ◌<◌, ◌≡◌, refl, ap, ap₂, ◌∙◌, sym, ◌≢◌, true, List, ◌++◌, Option, none, some,
  arith, length, take, drop, length-append,
}
use wa_wasm_oracle.Prelude.Map.{
  lookup, insert, lookup-insert_self, lookup-insert_ne, insert-insert, nat_ord, bytes_ord,
}
use wa_wasm_oracle.Prelude.Result.{ok}
use wa_wasm_oracle.Prelude.Words.{u32, add64}
use wa_wasm_oracle.State.{WasiState, OpenFile}
use wa_wasm_oracle.Wasi.{success, patch, write_file, file_or_empty, isize_max}
use wa_wasm_oracle.Wasi.Patch.{patch-append, patch-reads}

-- The state after a write by `f` under `fd`.
abbrev pub written : ℕ → OpenFile → List ℕ → WasiState → WasiState
written fd f payload w = record w {
  opened = insert fd (record f { offset = add64 f.offset (u32 (length payload)) }) w.opened;
  files = insert f.path (patch (file_or_empty (lookup f.path w.files)) f.offset payload) w.files;
}

pub write_file-success :
    (fd : ℕ) (payload : List ℕ) (w w' : WasiState)
    → write_file fd payload w ≡ ok (w', success)
    → (f : OpenFile) × (lookup fd w.opened ≡ some f)
      × (f.writable ≡ true)
      × (f.offset + length payload ≤ isize_max)
      × (w' ≡ written fd f payload w)
unfolding write_file
write_file-success fd payload w w' e = from (lookup fd w.opened) refl
  where
    from :
        (o : Option OpenFile)
        → lookup fd w.opened ≡ o
        → (f : OpenFile) × (lookup fd w.opened ≡ some f)
          × (f.writable ≡ true)
          × (f.offset + length payload ≤ isize_max)
          × (w' ≡ written fd f payload w)
    from none l = unfold write_file in ground (arith, e)
    from (some f) l =
        unfold write_file in (f, l, ground (arith, e), ground (arith, e), ground (arith, e))

pub write_file-accepts :
    (fd : ℕ) (payload : List ℕ) (w : WasiState) (f : OpenFile)
    → lookup fd w.opened ≡ some f
    → f.writable ≡ true
    → f.offset + length payload ≤ isize_max
    → write_file fd payload w ≡ ok (written fd f payload w, success)
unfolding write_file
write_file-accepts fd payload w f l can fits = ground arith

-- A successful write of fewer than 2^32 bytes puts the payload at the descriptor's offset of the file it is open on, moves
-- that offset behind the payload, and changes no other file, no other descriptor and no stream.
pub write_file-stores :
    (fd : ℕ) (payload : List ℕ) (w w' : WasiState)
    → length payload < 2 ^ 32
    → write_file fd payload w ≡ ok (w', success)
    → (f : OpenFile) × (contents : List ℕ) × (lookup fd w.opened ≡ some f)
      × (lookup f.path w'.files ≡ some contents)
      × (take (length payload) (drop f.offset contents) ≡ payload)
      × (lookup fd w'.opened ≡ some (record f { offset = f.offset + length payload }))
      × ((path : List ℕ) → f.path ≢ path → lookup path w'.files ≡ lookup path w.files)
      × ((other : ℕ) → fd ≢ other → lookup other w'.opened ≡ lookup other w.opened)
      × (w'.stdout ≡ w.stdout)
      × (w'.stderr ≡ w.stderr)
write_file-stores fd payload w w' small e =
    let (f, l, can, fits, is) = write_file-success fd payload w w' e in
    let old = file_or_empty (lookup f.path w.files) in
    let moved : OpenFile = record f { offset = add64 f.offset (u32 (length payload)) } in
    let offsets : add64 f.offset (u32 (length payload)) ≡ f.offset + length payload = omega arith in
    (
      f,
      patch old f.offset payload,
      l,
      ap (λ (s : WasiState). lookup f.path s.files) is
          ∙ lookup-insert_self f.path (patch old f.offset payload) w.files,
      patch-reads old f.offset payload,
      ap (λ (s : WasiState). lookup fd s.opened) is
          ∙ lookup-insert_self fd moved w.opened
          ∙ ap (λ (n : ℕ). some (record f { offset = n })) offsets,
      λ path ne.
          ap (λ (s : WasiState). lookup path s.files) is
          ∙ lookup-insert_ne f.path path (patch old f.offset payload) w.files ne,
      λ other ne.
          ap (λ (s : WasiState). lookup other s.opened) is
          ∙ lookup-insert_ne fd other moved w.opened ne,
      ap (λ (s : WasiState). s.stdout) is,
      ap (λ (s : WasiState). s.stderr) is,
    )

abbrev pub moved : OpenFile → List ℕ → OpenFile
moved f payload = record f { offset = add64 f.offset (u32 (length payload)) }

moved_offset :
    (f : OpenFile) (payload : List ℕ)
    → length payload < 2 ^ 32
    → f.offset + length payload ≤ isize_max
    → (moved f payload).offset ≡ f.offset + length payload
moved_offset f payload small fits = omega arith

written-written :
    (fd : ℕ) (f : OpenFile) (front back : List ℕ) (w : WasiState)
    → length front + length back < 2 ^ 32
    → f.offset + length front + length back ≤ isize_max
    → written fd (moved f front) back (written fd f front w) ≡ written fd f (front ++ back) w
written-written fd f front back w small fits =
    let old = file_or_empty (lookup f.path w.files) in
    let one = patch old f.offset front in
    let here : add64 f.offset (u32 (length front)) ≡ f.offset + length front = omega arith in
    let there : add64 (add64 f.offset (u32 (length front))) (u32 (length back))
        ≡ add64 f.offset (u32 (length (front ++ back))) =
      omega (arith, length-append front back) in
    let contents : patch (file_or_empty (lookup f.path (insert f.path one w.files)))
          (add64 f.offset (u32 (length front))) back
        ≡ patch old f.offset (front ++ back) =
      rw (lookup-insert_self f.path one w.files, here) (patch-append old f.offset front back) in
    ap₂
      (λ (o : List (ℕ × OpenFile)) (m : List (List ℕ × List ℕ)). record w { opened = o; files = m })
      (insert-insert fd (moved (moved f front) back) (moved f front) w.opened
        ∙ ap (λ (n : ℕ). insert fd (record f { offset = n }) w.opened) there)
      (insert-insert f.path _ one w.files ∙ ap (λ (c : List ℕ). insert f.path c w.files) contents)

-- Two successful writes behind each other, of fewer than 2^32 bytes together, leave the state that
-- one write of both payloads leaves.
pub write_file-append :
    (fd : ℕ) (front back : List ℕ) (w w₁ w₂ : WasiState)
    → length front + length back < 2 ^ 32
    → write_file fd front w ≡ ok (w₁, success)
    → write_file fd back w₁ ≡ ok (w₂, success)
    → write_file fd (front ++ back) w ≡ ok (w₂, success)
write_file-append fd front back w w₁ w₂ small e₁ e₂ =
    let (f, l, can, fits, is) = write_file-success fd front w w₁ e₁ in
    let (g, l', can', fits', is') = write_file-success fd back w₁ w₂ e₂ in
    let same : g ≡ moved f front =
      (let found : some g ≡ some (moved f front) =
          sym l'
          ∙ ap (λ (s : WasiState). lookup fd s.opened) is
          ∙ lookup-insert_self fd (moved f front) w.opened in
        ground (arith, found)) in
    let end : g.offset ≡ f.offset + length front =
      ap (λ (o : OpenFile). o.offset) same ∙ moved_offset f front (omega arith) fits in
    let joined = length-append front back in
    let together : w₂ ≡ written fd f (front ++ back) w =
      is'
      ∙ ap₂ (λ (o : OpenFile) (s : WasiState). written fd o back s) same is
      ∙ written-written fd f front back w small (omega arith) in
    write_file-accepts fd (front ++ back) w f l can (omega arith)
    ∙ ap (λ (s : WasiState). ok (s, success)) (sym together)
