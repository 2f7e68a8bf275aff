-- ===== src/Inspect/Laws.antt =====
-- The imports of a module by the module they come from.
use wa_wasm_oracle.Prelude.{
  ℕ, ◌+◌, ◌≡◌, ◌≤◌, refl, ap, sym, subst, ◌∙◌, arith, Bool, true, false, List, [], ◌∷◌, ltb,
  if◌then◌else◌,
}
use wa_wasm_oracle.Prelude.Map.{same_iff, bytes_ord}
use wa_wasm_oracle.Prelude.Sort.{IsSorted, sort_by-IsSorted}
use wa_wasm_oracle.Prelude.Tally.{count_of, entries_of, sort_by-counts, bytes_cmp_turned}
use wa_wasm_oracle.Prelude.Text.{bytes_eq}
use wa_wasm_oracle.Inspect.{ImportEntry, add_import, group_imports, import_modules}
use wa_wasm_oracle.Runtime.Stubs.{hotter}

-- How many imports come from a module.
abbrev pub imports_of : List ℕ → List ImportEntry → ℕ
imports_of m [] = 0
imports_of m (i ∷ imports) = (if bytes_eq i.module_name m then 1 else 0) + imports_of m imports

-- Two names that are equal are equal to the same names.
named_alike : (m k n : List ℕ) → bytes_eq n k ≡ true → bytes_eq n m ≡ bytes_eq k m
named_alike m k n h = ap (λ x. bytes_eq x m) ((same_iff n k).0 h)

named_apart : (m k n : List ℕ) → bytes_eq n k ≡ false → bytes_eq k m ≡ true → bytes_eq n m ≡ false
named_apart m k n h e = sym (ap (λ x. bytes_eq n x) ((same_iff k m).0 e)) ∙ h

count_of-add_import :
    (m k : List ℕ) (grouped : List (List ℕ × ℕ))
    → count_of m (add_import k grouped) ≡ count_of m grouped + (if bytes_eq k m then 1 else 0)
count_of-add_import m k [] = ground arith
count_of-add_import m k ((n, c) ∷ grouped) =
    ground (arith, count_of-add_import m k grouped, named_alike m k n)

entries_of-add_import :
    (m k : List ℕ) (grouped : List (List ℕ × ℕ))
    → entries_of m (add_import k grouped) ≡ (
        if bytes_eq k m
        then (if ltb 0 (entries_of m grouped) then entries_of m grouped else 1)
        else entries_of m grouped)
entries_of-add_import m k [] = ground arith
entries_of-add_import m k ((n, c) ∷ grouped) =
    on (bytes_eq n k) (named_alike m k n) (named_apart m k n) (entries_of-add_import m k grouped)
  where
    on :
        (b : Bool)
        → (b ≡ true → bytes_eq n m ≡ bytes_eq k m)
        → (b ≡ false → bytes_eq k m ≡ true → bytes_eq n m ≡ false)
        → entries_of m (add_import k grouped) ≡ (
            if bytes_eq k m
            then (if ltb 0 (entries_of m grouped) then entries_of m grouped else 1)
            else entries_of m grouped)
        → entries_of m (if b then (n, c + 1) ∷ grouped else (n, c) ∷ add_import k grouped) ≡ (
            if bytes_eq k m
            then (if ltb 0 (entries_of m ((n, c) ∷ grouped))
                then entries_of m ((n, c) ∷ grouped)
                else 1)
            else entries_of m ((n, c) ∷ grouped))
    on true alike apart later = ground (arith, alike refl)
    on false alike apart later = ground (arith, later, apart refl)

count_of-group_imports :
    (m : List ℕ) (imports : List ImportEntry) (grouped : List (List ℕ × ℕ))
    → count_of m (group_imports imports grouped) ≡ count_of m grouped + imports_of m imports
count_of-group_imports m [] grouped = omega arith
count_of-group_imports m (i ∷ imports) grouped = ground (
  arith,
  count_of-group_imports m imports (add_import i.module_name grouped),
  count_of-add_import m i.module_name grouped,
)

entries_of-group_imports :
    (m : List ℕ) (imports : List ImportEntry) (grouped : List (List ℕ × ℕ))
    → entries_of m grouped ≤ 1
    → entries_of m (group_imports imports grouped) ≤ 1
entries_of-group_imports m [] grouped h = h
entries_of-group_imports m (i ∷ imports) grouped h =
    entries_of-group_imports m imports (add_import i.module_name grouped)
      (ground (arith, entries_of-add_import m i.module_name grouped))

hotter_total : (a b : List ℕ × ℕ) → hotter a b ≡ false → hotter b a ≡ true
hotter_total a b h = ground (arith, bytes_cmp_turned a.0 b.0)

-- The report of imports by module counts, for every module, exactly the imports that come from it,
-- in one entry at most, and its entries are in descending order of their counts.
pub import_modules-exact :
    (imports : List ImportEntry)
    → ((m : List ℕ)
        → (count_of m (import_modules imports) ≡ imports_of m imports)
          × (entries_of m (import_modules imports) ≤ 1))
      × IsSorted hotter (import_modules imports)
unfolding import_modules
import_modules-exact imports = (
  (λ m.
      let (counts, entries) = sort_by-counts hotter m (group_imports imports []) in
      (
        omega (arith, counts, count_of-group_imports m imports []),
        subst (λ n. n ≤ 1) (sym entries) (entries_of-group_imports m imports [] (omega arith)),
      )),
  sort_by-IsSorted hotter hotter_total (group_imports imports []),
)
