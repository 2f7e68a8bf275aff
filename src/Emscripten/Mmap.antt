-- ===== src/Emscripten/Mmap.antt =====
-- Anonymous mappings.
use wa_wasm_oracle.Prelude.{
  ℕ, ◌+◌, ◌%◌, ◌^◌, ◌≡◌, ◌≤◌, ◌<◌, ◌⊎◌, refl, ap, sym, subst, ◌∙◌, arith, Bool, true, false, List,
  [], ◌∷◌, leb, ◌==◌, if◌then◌else◌, replicate, length-replicate,
}
use wa_wasm_oracle.Prelude.Int.{ℤ, pos}
use wa_wasm_oracle.Prelude.Result.{Result, ok, err, ◌>>=◌, ok_inj}
use wa_wasm_oracle.Prelude.Words.{le_bytes, of_le_bytes}
use wa_wasm_oracle.Emscripten.{HostError}
use wa_wasm_oracle.Emscripten.Heap.{
  page, fixed_length, write_then, map_pages, no_memory_for, enomem, map_at, after_memalign,
  memalign_names, mmap_js,
}
use wa_wasm_oracle.Exports.{Instance, Func, func, sync_memory}
use wa_wasm_oracle.Memory.{MemError, read, read_u32}
use wa_wasm_oracle.Memory.Laws.{read-write_same, read-write_disjoint, read_u32-write}
use wa_wasm_oracle.State.{HostState, write_memory, log}
use wa_wasm_oracle.State.Laws.{write_memory-success}
use wa_wasm_oracle.Vals.{Val, i32}

abbrev failed : HostState → HostError → HostState × Result HostError ℤ
failed h x = (h, err x)

abbrev answered : HostState → ℤ → HostState × Result HostError ℤ
answered h v = (h, ok v)

not_failed : (h h' : HostState) (x : HostError) (v : ℤ) → failed h x ≡ answered h' v → ⊥
not_failed h h' x v e = no (ap (λ p. p.1) e)
  where
    no : err x ≡ ok v → ⊥
    no k = cc

write_then-ok :
    (ptr : ℕ) (bytes : List ℕ) (h h' : HostState) (v : ℤ)
    (next : HostState → HostState × Result HostError ℤ)
    → write_then ptr bytes h next ≡ (h', ok v)
    → (g : HostState) × (write_memory ptr bytes h ≡ ok g) × (next g ≡ (h', ok v))
write_then-ok ptr bytes h h' v next e = from (write_memory ptr bytes h) refl e
  where
    from :
        (q : Result MemError HostState)
        → write_memory ptr bytes h ≡ q
        → elim q [ ok g ↦ next g | err x ↦ failed h (HostError.memory_error x) ] ≡ answered h' v
        → (g : HostState) × (write_memory ptr bytes h ≡ ok g) × (next g ≡ (h', ok v))
    from (ok g) is k = (g, is, k)
    from (err x) is k = absurd (not_failed h h' (HostError.memory_error x) v k)

-- Two spans do not meet.
abbrev pub Apart : ℕ → ℕ → ℕ → ℕ → Type 0
Apart p n q m = (p + n ≤ q) ⊎ (q + m ≤ p)

module _ (instance_ : Instance) where
  map_pages-maps :
      (size ptr allocated addr : ℕ) (h h' : HostState)
      → ptr < 2 ^ 32
      → Apart ptr size addr 4
      → Apart ptr size allocated 4
      → Apart addr 4 allocated 4
      → map_pages instance_ size ptr allocated addr h ≡ (h', ok (pos 0))
      → (read h'.guest ptr size ≡ ok (replicate size 0)) × (read_u32 h'.guest addr ≡ ok ptr)
  unfolding read_u32
  map_pages-maps size ptr allocated addr h h' small a b c e = on (leb (2 ^ 31) size) e
    where
      chain : HostState × Result HostError ℤ
      chain = write_then ptr (replicate size 0) h λ h1.
          write_then addr (le_bytes 4 ptr) h1
            λ h2. write_then allocated (le_bytes 4 1) h2 λ h3. (h3, ok (pos 0))

      on :
          (x : Bool)
          → (if x then failed h HostError.panicked else chain) ≡ answered h' (pos 0)
          → (read h'.guest ptr size ≡ ok (replicate size 0)) × (read_u32 h'.guest addr ≡ ok ptr)
      on true k = absurd (not_failed h h' HostError.panicked (pos 0) k)
      on false k =
          let (h1, w1, k1) = write_then-ok ptr (replicate size 0) h h' (pos 0) _ k in
          let (h2, w2, k2) = write_then-ok addr (le_bytes 4 ptr) h1 h' (pos 0) _ k1 in
          let (h3, w3, k3) = write_then-ok allocated (le_bytes 4 1) h2 h' (pos 0) _ k2 in
          let s2 = write_memory-success addr (le_bytes 4 ptr) h1 h2 w2 in
          let s3 = write_memory-success allocated (le_bytes 4 1) h2 h3 w3 in
          let s1 = write_memory-success ptr (replicate size 0) h h1 w1 in
          let last : h3 ≡ h' = ap (λ p. p.0) k3 in
          let zeros : read h3.guest ptr size ≡ ok (replicate size 0) =
            read-write_disjoint h2.guest h3.guest allocated ptr size (le_bytes 4 1) s3.1 b
            ∙ read-write_disjoint h1.guest h2.guest addr ptr size (le_bytes 4 ptr) s2.1 a
            ∙ subst (λ (n : ℕ). read h1.guest ptr n ≡ ok (replicate size 0))
                (length-replicate size 0)
                (read-write_same h.guest h1.guest ptr (replicate size 0) s1.1) in
          let word : read_u32 h3.guest addr ≡ ok ptr =
            ap (λ (q : Result MemError (List ℕ)). q >>= λ bytes. ok (of_le_bytes bytes))
              (read-write_disjoint h2.guest h3.guest allocated addr 4 (le_bytes 4 1) s3.1 c)
            ∙ read_u32-write h1.guest h2.guest addr ptr small s2.1 in
          subst
            (λ (x : HostState).
              (read x.guest ptr size ≡ ok (replicate size 0)) × (read_u32 x.guest addr ≡ ok ptr))
            last (zeros, word)

  module _ (len allocated addr ptr : ℕ) (out : List Val) (h h1 h' : HostState) (memalign : Func)
      (found : func instance_ (memalign_names instance_) (sync_memory instance_ h) ≡ ok memalign)
      (called : memalign.call (i32 page ∷ i32 (fixed_length len) ∷ []) (sync_memory instance_ h)
        ≡ (h1, ok (i32 ptr ∷ out)))
      (small : ptr < 2 ^ 32) (a : Apart ptr (fixed_length len) addr 4)
      (b : Apart ptr (fixed_length len) allocated 4) (c : Apart addr 4 allocated 4) where
    entered :
        mmap_js instance_ len allocated addr h
        ≡ map_at instance_
            (fixed_length len)
            allocated
            addr
            (i32 ptr ∷ out)
            (sync_memory instance_ h1)
    unfolding mmap_js
    entered =
        ap
          (λ (q : Result (List ℕ) Func). elim q [
            | err error ↦ (sync_memory instance_ h, err (HostError.trap error))
            | ok f ↦
                after_memalign instance_ (fixed_length len) allocated addr
                  (f.call (i32 page ∷ i32 (fixed_length len) ∷ []) (sync_memory instance_ h))
          ])
          found
        ∙ ap (after_memalign instance_ (fixed_length len) allocated addr) called

    -- Where an anonymous mapping is answered with 0, the guest's allocator gave its address, the
    -- mapping has whole pages and no less than what was asked for, all of it reads as zeros, and the
    -- word for the address holds the address. This is for words that do not meet each other or the
    -- mapping, and for lengths that can be rounded up in 32 bits.
    pub mmap_js-maps :
        len + 65535 < 2 ^ 32
        → mmap_js instance_ len allocated addr h ≡ (h', ok (pos 0))
        → (len ≤ fixed_length len)
          × (fixed_length len % page ≡ 0)
          × (read h'.guest ptr (fixed_length len) ≡ ok (replicate (fixed_length len) 0))
          × (read_u32 h'.guest addr ≡ ok ptr)
    mmap_js-maps fits e =
        let (zeros, word) = on (ptr == 0) (sym entered ∙ e) in
        (omega arith, omega arith, zeros, word)
      where
        g : HostState
        g = sync_memory instance_ h1

        on :
            (x : Bool)
            → (if x
                then answered
                    (log (no_memory_for instance_ (fixed_length len)) g)
                    (enomem instance_)
                else map_pages instance_ (fixed_length len) ptr allocated addr g)
              ≡ answered h' (pos 0)
            → (read h'.guest ptr (fixed_length len) ≡ ok (replicate (fixed_length len) 0))
              × (read_u32 h'.guest addr ≡ ok ptr)
        on true k = absurd (no (ok_inj _ refl (ap (λ p. p.1) k)))
          where
            no : enomem instance_ ≡ pos 0 → ⊥
            no j = cc
        on false k = map_pages-maps (fixed_length len) ptr allocated addr g h' small a b c k
