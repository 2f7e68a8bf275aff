-- ===== src/Memory/Parts.antt =====
-- Reading a part of what was written: crates/oracle-core/src/state.rs.
use wa_wasm_oracle.Prelude.{
  ℕ, suc, ◌+◌, ◌≡◌, ap, ◌∙◌, List, [], ◌∷◌, ◌++◌, arith, length, length-append,
}
use wa_wasm_oracle.Prelude.Result.{ok}
use wa_wasm_oracle.Memory.{Guest, cells, put, put_all, read, write}
use wa_wasm_oracle.Memory.Laws.{
  cells-put_all_before, cells-put_all_same, read-eq-view, write_inversion,
}

put_all-append :
    (f : ℕ → ℕ) (p : ℕ) (xs ys : List ℕ)
    → put_all f p (xs ++ ys) ≡ put_all (put_all f p xs) (p + length xs) ys
put_all-append f p [] ys = let e : p ≡ p + 0 = omega arith in ap (λ (q : ℕ). put_all f q ys) e
put_all-append f p (x ∷ xs) ys =
    let e : suc p + length xs ≡ p + suc (length xs) = omega arith in
    put_all-append (put f p x) (suc p) xs ys
    ∙ ap (λ (q : ℕ). put_all (put_all (put f p x) (suc p) xs) q ys) e

cells-middle :
    (f : ℕ → ℕ) (p : ℕ) (xs ys zs : List ℕ)
    → cells (put_all f p (xs ++ (ys ++ zs))) (p + length xs) (length ys) ≡ ys
cells-middle f p xs ys zs =
    let front = put_all f p xs in
    let q = p + length xs in
    ap (λ (m : ℕ → ℕ). cells m q (length ys))
      (put_all-append f p xs (ys ++ zs) ∙ put_all-append front q ys zs)
    ∙ cells-put_all_before (put_all front q ys) (q + length ys) q (length ys) zs (omega arith)
    ∙ cells-put_all_same front q ys

-- A `read` of a part of a written span returns the bytes of that part.
pub read-write_part :
    (g g' : Guest) (ptr : ℕ) (xs ys zs : List ℕ)
    → write g ptr (xs ++ (ys ++ zs)) ≡ ok g'
    → read g' (ptr + length xs) (length ys) ≡ ok ys
read-write_part g g' ptr xs ys zs e =
    let (m, mp, fits, small, mp') = write_inversion g g' ptr (xs ++ (ys ++ zs)) e in
    rw (read-eq-view g' (ptr + length xs) (length ys), mp')
      (ground
        (arith, cells-middle m.cell ptr xs ys zs, length-append xs (ys ++ zs), length-append ys zs))
