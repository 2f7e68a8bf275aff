-- ===== src/Memory/Laws.antt =====
-- What reads see of writes, and exactly when an access is accepted.
use wa_wasm_oracle.Prelude.{
  ℕ, zero, suc, ◌+◌, ◌^◌, ◌≤◌, ◌<◌, ◌≡◌, refl, ◌↔◌, ◌⊎◌, sym, ◌∙◌, if◌then◌else◌, List, [], ◌∷◌,
  Option, none, some, arith, length, ltb, ap, ap₂,
}
use wa_wasm_oracle.Prelude.Result.{Result, ok, err}
use wa_wasm_oracle.Prelude.Words.{le_bytes, of_le_bytes-le_bytes_4}
use wa_wasm_oracle.Memory.{
  Mem, Guest, MemError, overflows, unavailable, read_mapped, usize_max, cells, put, put_all, read,
  write, read_u32, mapped, InBounds,
}

pub length-cells : (f : ℕ → ℕ) (p n : ℕ) → length (cells f p n) ≡ n
unfolding cells
length-cells f p zero = refl
length-cells f p (suc n) = ap suc (length-cells f (suc p) n)

-- Bytes below the write keep their value, and so do those behind it.
put_all-below : (f : ℕ → ℕ) (p q : ℕ) (bs : List ℕ) → q < p → put_all f p bs q ≡ f q
put_all-below f p q [] h = refl
put_all-below f p q (b ∷ bs) h = ground (arith, put_all-below (put f p b) (suc p) q bs)

put_all-above : (f : ℕ → ℕ) (p q : ℕ) (bs : List ℕ) → p + length bs ≤ q → put_all f p bs q ≡ f q
put_all-above f p q [] h = refl
put_all-above f p q (b ∷ bs) h = ground (arith, put_all-above (put f p b) (suc p) q bs)

pub cells-put_all_same :
    (f : ℕ → ℕ) (p : ℕ) (bs : List ℕ) → cells (put_all f p bs) p (length bs) ≡ bs
unfolding cells
cells-put_all_same f p [] = refl
cells-put_all_same f p (b ∷ bs) =
    ap₂ ◌∷◌ (ground (arith, put_all-below (put f p b) (suc p) p bs))
      (cells-put_all_same (put f p b) (suc p) bs)

pub cells-put_all_before :
    (f : ℕ → ℕ) (p q n : ℕ) (bs : List ℕ) → q + n ≤ p → cells (put_all f p bs) q n ≡ cells f q n
unfolding cells
cells-put_all_before f p q zero bs h = refl
cells-put_all_before f p q (suc n) bs h =
    ap₂ ◌∷◌ (put_all-below f p q bs (omega arith))
      (cells-put_all_before f p (suc q) n bs (omega arith))

pub cells-put_all_after :
    (f : ℕ → ℕ) (p q n : ℕ) (bs : List ℕ)
    → p + length bs ≤ q
    → cells (put_all f p bs) q n ≡ cells f q n
unfolding cells
cells-put_all_after f p q zero bs h = refl
cells-put_all_after f p q (suc n) bs h =
    ap₂ ◌∷◌ (put_all-above f p q bs h) (cells-put_all_after f p (suc q) n bs (omega arith))

-- `read` depends on the mapping in use alone.
abbrev pub read_view : Option Mem → ℕ → ℕ → Result MemError (List ℕ)
read_view none ptr len = if ltb usize_max (ptr + len) then err overflows else err unavailable
read_view (some m) ptr len =
    if ltb usize_max (ptr + len) then err overflows else read_mapped m ptr len

pub read-eq-view : (g : Guest) (ptr len : ℕ) → read g ptr len ≡ read_view (mapped g) ptr len
unfolding read
read-eq-view g ptr len = ground arith

-- What a successful `write` needed, and what it did to the mapping.
pub write_inversion :
    (g g' : Guest) (ptr : ℕ) (bytes : List ℕ)
    → write g ptr bytes ≡ ok g'
    → (m : Mem) × (mapped g ≡ some m)
      × (ptr + length bytes ≤ m.size)
      × (ptr + length bytes ≤ usize_max)
      × (mapped g' ≡ some (record m { cell = put_all m.cell ptr bytes }))
write_inversion g g' ptr bytes e = from (g.memory) (g.linear) e'
  where
    e' : write (record { memory = g.memory; linear = g.linear }) ptr bytes ≡ ok g'
    e' = e

    from :
        (a b : Option Mem)
        → write (record { memory = a; linear = b }) ptr bytes ≡ ok g'
        → (m : Mem) × (mapped (record { memory = a; linear = b }) ≡ some m)
          × (ptr + length bytes ≤ m.size)
          × (ptr + length bytes ≤ usize_max)
          × (mapped g' ≡ some (record m { cell = put_all m.cell ptr bytes }))
    from (some m) b h = unfold write in (m, refl, ground arith, ground arith, ground arith)
    from none (some m) h = unfold write in (m, refl, ground arith, ground arith, ground arith)
    from none none h = unfold write in ground arith

-- A successful `write` leaves its bytes where a `read` of the same span finds them.
pub read-write_same :
    (g g' : Guest) (ptr : ℕ) (bytes : List ℕ)
    → write g ptr bytes ≡ ok g'
    → read g' ptr (length bytes) ≡ ok bytes
read-write_same g g' ptr bytes e =
    let (m, mp, fits, small, mp') = write_inversion g g' ptr bytes e in
    rw (read-eq-view g' ptr (length bytes), mp')
      (ground (arith, cells-put_all_same m.cell ptr bytes))

-- A `read` that does not meet the written span answers as before the `write`, errors included.
pub read-write_disjoint :
    (g g' : Guest) (ptr q n : ℕ) (bytes : List ℕ)
    → write g ptr bytes ≡ ok g'
    → (q + n ≤ ptr) ⊎ (ptr + length bytes ≤ q)
    → read g' q n ≡ read g q n
read-write_disjoint g g' ptr q n bytes e h =
    let (m, mp, fits, small, mp') = write_inversion g g' ptr bytes e in
    rw (read-eq-view g' q n, read-eq-view g q n, mp, mp')
      (ground (
        arith,
        cells-put_all_before m.cell ptr q n bytes,
        cells-put_all_after m.cell ptr q n bytes,
      ))

-- `read` succeeds exactly for spans inside the mapping, and returns as many bytes as were asked.
pub read-ok_iff :
    (g : Guest) (ptr len : ℕ)
    → ((bytes : List ℕ) × (read g ptr len ≡ ok bytes) × (length bytes ≡ len)) ↔ InBounds g ptr len
read-ok_iff g ptr len = (
  λ (bytes, e, l). needs bytes e,
  λ (m, mp, fits, small). (
    cells m.cell ptr len,
    rw (read-eq-view g ptr len, mp) (ground arith),
    length-cells m.cell ptr len,
  ),
)
  where
    view :
        (o : Option Mem) (bytes : List ℕ)
        → read_view o ptr len ≡ ok bytes
        → (m : Mem) × (o ≡ some m) × (ptr + len ≤ m.size) × (ptr + len ≤ usize_max)
    view none bytes e = ground arith
    view (some m) bytes e = (m, refl, ground arith, ground arith)

    needs : (bytes : List ℕ) → read g ptr len ≡ ok bytes → InBounds g ptr len
    needs bytes e = view (mapped g) bytes (sym (read-eq-view g ptr len) ∙ e)

-- `write` succeeds exactly for spans inside the mapping.
pub write-ok_iff :
    (g : Guest) (ptr : ℕ) (bytes : List ℕ)
    → ((g' : Guest) × (write g ptr bytes ≡ ok g')) ↔ InBounds g ptr (length bytes)
write-ok_iff g ptr bytes = (
  λ (g', e).
      let (m, mp, fits, small, mp') = write_inversion g g' ptr bytes e in (m, mp, fits, small),
  λ (m, mp, fits, small). accepts (g.memory) (g.linear) m mp fits small,
)
  where
    accepts :
        (a b : Option Mem) (m : Mem)
        → mapped (record { memory = a; linear = b }) ≡ some m
        → ptr + length bytes ≤ m.size
        → ptr + length bytes ≤ usize_max
        → (g' : Guest) × (write (record { memory = a; linear = b }) ptr bytes ≡ ok g')
    accepts (some m') b m mp fits small = (
      record { memory = some (record m' { cell = put_all m'.cell ptr bytes }); linear = b },
      unfold write in ground arith,
    )
    accepts none (some m') m mp fits small = (
      record { memory = none; linear = some (record m' { cell = put_all m'.cell ptr bytes }) },
      unfold write in ground arith,
    )
    accepts none none m mp fits small = ground arith

-- A little-endian word reads back as the `u32` that was written.
pub read_u32-write :
    (g g' : Guest) (ptr v : ℕ)
    → v < 2 ^ 32
    → write g ptr (le_bytes 4 v) ≡ ok g'
    → read_u32 g' ptr ≡ ok v
unfolding read_u32
read_u32-write g g' ptr v h e =
    ground (arith, read-write_same g g' ptr (le_bytes 4 v) e, of_le_bytes-le_bytes_4 v h)
