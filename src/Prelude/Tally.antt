-- ===== src/Prelude/Tally.antt =====
-- Lists of counts by name: what stands under a name, whatever the order of the entries.
use Prim.Native.Nat.{Ordering}
use wa_wasm_oracle.Prelude.{
  ℕ, ◌+◌, ◌≡◌, refl, sym, subst, arith, All, Bool, true, false, List, [], ◌∷◌, Option, none, some,
  if◌then◌else◌,
}
use wa_wasm_oracle.Prelude.Map.{bytes_ord, bytes_cmp, bytes_cmp_eq, same, same_iff, lookup, insert}
use wa_wasm_oracle.Prelude.Sort.{insert_by, sort_by}

-- The sum of the counts under a name, and how many entries have it.
abbrev pub count_of : List ℕ → List (List ℕ × ℕ) → ℕ
count_of m [] = 0
count_of m ((name, count) ∷ counts) = (if same name m then count else 0) + count_of m counts

abbrev pub entries_of : List ℕ → List (List ℕ × ℕ) → ℕ
entries_of m [] = 0
entries_of m ((name, count) ∷ counts) = (if same name m then 1 else 0) + entries_of m counts

-- Sorting keeps both.
module _ (le : List ℕ × ℕ → List ℕ × ℕ → Bool) (m : List ℕ) where
  insert_by-counts :
      (g : List ℕ × ℕ) (counts : List (List ℕ × ℕ))
      → (count_of m (insert_by le g counts) ≡ count_of m (g ∷ counts))
        × (entries_of m (insert_by le g counts) ≡ entries_of m (g ∷ counts))
  unfolding insert_by
  insert_by-counts g [] = (refl, refl)
  insert_by-counts g (x ∷ counts) = ground (arith, insert_by-counts g counts)

  pub sort_by-counts :
      (counts : List (List ℕ × ℕ))
      → (count_of m (sort_by le counts) ≡ count_of m counts)
        × (entries_of m (sort_by le counts) ≡ entries_of m counts)
  unfolding sort_by
  sort_by-counts [] = (refl, refl)
  sort_by-counts (g ∷ counts) =
      ground (arith, insert_by-counts g (sort_by le counts), sort_by-counts counts)

pub bytes_cmp_turned : (a b : List ℕ) → bytes_cmp a b ≡ Ordering.gt → bytes_cmp b a ≡ Ordering.lt
bytes_cmp_turned [] [] h = cc
bytes_cmp_turned [] (b ∷ bs) h = cc
bytes_cmp_turned (a ∷ as') [] h = refl
bytes_cmp_turned (a ∷ as') (b ∷ bs) h = ground (arith, bytes_cmp_turned as' bs)

bytes_cmp_trans :
    (a b c : List ℕ)
    → bytes_cmp a b ≡ Ordering.lt
    → bytes_cmp b c ≡ Ordering.lt
    → bytes_cmp a c ≡ Ordering.lt
bytes_cmp_trans [] [] c h g = cc
bytes_cmp_trans [] (b ∷ bs) [] h g = cc
bytes_cmp_trans [] (b ∷ bs) (c ∷ cs) h g = refl
bytes_cmp_trans (a ∷ as') [] c h g = cc
bytes_cmp_trans (a ∷ as') (b ∷ bs) [] h g = cc
bytes_cmp_trans (a ∷ as') (b ∷ bs) (c ∷ cs) h g = ground (arith, bytes_cmp_trans as' bs cs)

-- Every entry is in front of those with a larger name, as in a map.
abbrev pub IsBelow : List ℕ → List (List ℕ × ℕ) → Type 0
IsBelow k = All (λ p. bytes_cmp k p.0 ≡ Ordering.lt)

abbrev pub IsAscending : List (List ℕ × ℕ) → Type 0
IsAscending [] = Unit
IsAscending ((j, n) ∷ counts) = IsBelow j counts × IsAscending counts

IsBelow-weaken :
    (k j : List ℕ) (counts : List (List ℕ × ℕ))
    → bytes_cmp k j ≡ Ordering.lt
    → IsBelow j counts
    → IsBelow k counts
IsBelow-weaken k j [] h below = tt
IsBelow-weaken k j ((i, n) ∷ counts) h (b, below) =
    (bytes_cmp_trans k j i h b, IsBelow-weaken k j counts h below)

IsBelow-insert :
    (j k : List ℕ) (n : ℕ) (counts : List (List ℕ × ℕ))
    → bytes_cmp j k ≡ Ordering.lt
    → IsBelow j counts
    → IsBelow j (insert k n counts)
unfolding insert
IsBelow-insert j k n [] h below = (h, tt)
IsBelow-insert j k n ((i, v) ∷ counts) h (b, below) =
    on (bytes_cmp k i) (IsBelow-insert j k n counts h below)
  where
    on :
        (o : Ordering)
        → IsBelow j (insert k n counts)
        → IsBelow j (elim o [
          | Ordering.lt ↦ (k, n) ∷ (i, v) ∷ counts
          | Ordering.eq ↦ (k, n) ∷ counts
          | Ordering.gt ↦ (i, v) ∷ insert k n counts
        ])
    on Ordering.lt later = (h, (b, below))
    on Ordering.eq later = (h, below)
    on Ordering.gt later = (b, later)

pub insert-IsAscending :
    (k : List ℕ) (n : ℕ) (counts : List (List ℕ × ℕ))
    → IsAscending counts
    → IsAscending (insert k n counts)
unfolding insert
insert-IsAscending k n [] h = (tt, tt)
insert-IsAscending k n ((i, v) ∷ counts) (below, h) =
    on (bytes_cmp k i) refl (insert-IsAscending k n counts h)
  where
    on :
        (o : Ordering)
        → bytes_cmp k i ≡ o
        → IsAscending (insert k n counts)
        → IsAscending (elim o [
          | Ordering.lt ↦ (k, n) ∷ (i, v) ∷ counts
          | Ordering.eq ↦ (k, n) ∷ counts
          | Ordering.gt ↦ (i, v) ∷ insert k n counts
        ])
    on Ordering.lt is later = ((is, IsBelow-weaken k i counts is below), (below, h))
    on Ordering.eq is later =
        (subst (λ j. IsBelow j counts) (sym ((bytes_cmp_eq k i).0 is)) below, h)
    on Ordering.gt is later = (IsBelow-insert i k n counts (bytes_cmp_turned k i is) below, later)

IsBelow-entries :
    (m : List ℕ) (counts : List (List ℕ × ℕ))
    → IsBelow m counts
    → (count_of m counts ≡ 0) × (entries_of m counts ≡ 0)
IsBelow-entries m [] h = (refl, refl)
IsBelow-entries m ((i, n) ∷ counts) (b, h) =
    ground (arith, IsBelow-entries m counts h, bytes_cmp_eq m i, bytes_cmp_eq i m)

abbrev pub number_in : Option ℕ → ℕ
number_in (some n) = n
number_in none = 0

abbrev pub entries_in : Option ℕ → ℕ
entries_in (some n) = 1
entries_in none = 0

-- In such a list a name has the one entry that is looked up.
pub IsAscending-lookup :
    (m : List ℕ) (counts : List (List ℕ × ℕ))
    → IsAscending counts
    → (count_of m counts ≡ number_in (lookup m counts))
      × (entries_of m counts ≡ entries_in (lookup m counts))
unfolding lookup
IsAscending-lookup m [] h = (refl, refl)
IsAscending-lookup m ((i, n) ∷ counts) (below, h) =
    on (same i m) (λ e. subst (λ j. IsBelow j counts) ((same_iff i m).0 e) below)
      (IsAscending-lookup m counts h)
  where
    on :
        (b : Bool)
        → (b ≡ true → IsBelow m counts)
        → (count_of m counts ≡ number_in (lookup m counts))
          × (entries_of m counts ≡ entries_in (lookup m counts))
        → ((if b then n else 0) + count_of m counts
            ≡ number_in (if b then some n else lookup m counts))
          × ((if b then 1 else 0) + entries_of m counts
              ≡ entries_in (if b then some n else lookup m counts))
    on true apart later = ground (arith, IsBelow-entries m counts (apart refl))
    on false apart later = ground (arith, later)
