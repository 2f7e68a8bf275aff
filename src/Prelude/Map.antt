-- ===== src/Prelude/Map.antt =====
-- `BTreeMap` and `BTreeSet` as association lists in key order: a key is looked up by equality and
-- inserted before the first larger key, so iteration runs in key order.
use Prim.Native.Nat.{compare, Ordering}
use wa_wasm_oracle.Prelude.{
  ℕ, ◌≡◌, refl, ◌↔◌, Bool, true, false, List, [], ◌∷◌, Option, none, some, arith, if◌then◌else◌,
  ◌≢◌, map,
}

pub record Ord {ℓ} (K : Type ℓ) : Type ℓ where
  pub cmp : K → K → Ordering
  pub cmp_eq : (a b : K) → (cmp a b ≡ Ordering.eq) ↔ (a ≡ b)

pub nat_cmp_eq : (a b : ℕ) → (compare a b ≡ Ordering.eq) ↔ (a ≡ b)
nat_cmp_eq a b = ground arith

instance abbrev pub nat_ord : Ord ℕ
nat_ord = record { cmp = compare; cmp_eq = nat_cmp_eq }

-- Strings and byte strings are compared lexicographically, byte by byte.
abbrev pub bytes_cmp : List ℕ → List ℕ → Ordering
bytes_cmp [] [] = Ordering.eq
bytes_cmp [] (b ∷ bs) = Ordering.lt
bytes_cmp (a ∷ as') [] = Ordering.gt
bytes_cmp (a ∷ as') (b ∷ bs) = elim (compare a b) [
  | Ordering.eq ↦ bytes_cmp as' bs
  | Ordering.lt ↦ Ordering.lt
  | Ordering.gt ↦ Ordering.gt
]

bytes_cmp_sound : (a b : List ℕ) → bytes_cmp a b ≡ Ordering.eq → a ≡ b
bytes_cmp_sound [] [] h = refl
bytes_cmp_sound [] (b ∷ bs) h = cc
bytes_cmp_sound (a ∷ as') [] h = cc
bytes_cmp_sound (a ∷ as') (b ∷ bs) h = ground (arith, bytes_cmp_sound as' bs)

bytes_cmp_self : (a : List ℕ) → bytes_cmp a a ≡ Ordering.eq
bytes_cmp_self [] = refl
bytes_cmp_self (a ∷ as') = ground (arith, bytes_cmp_self as')

pub bytes_cmp_eq : (a b : List ℕ) → (bytes_cmp a b ≡ Ordering.eq) ↔ (a ≡ b)
bytes_cmp_eq a b = (bytes_cmp_sound a b, λ e. rw e (bytes_cmp_self b))

instance abbrev pub bytes_ord : Ord (List ℕ)
bytes_ord = record { cmp = bytes_cmp; cmp_eq = bytes_cmp_eq }

module _ {ℓ} {K : Type ℓ} ⦃o : Ord K⦄ where
  abbrev pub same : K → K → Bool
  same a b = elim (o.cmp a b) [ Ordering.eq ↦ true | _ ↦ false ]

  pub same_iff : (a b : K) → (same a b ≡ true) ↔ (a ≡ b)
  same_iff a b = ground (arith, o.cmp_eq a b)

  pub same_self : (a : K) → same a a ≡ true
  same_self a = (same_iff a a).1 refl

  pub not-same : (a b : K) → a ≢ b → same a b ≡ false
  not-same a b h = ground (arith, same_iff a b)

  module _ {κ} {V : Type κ} where
    unfoldable pub lookup : K → List (K × V) → Option V
    lookup k [] = none
    lookup k ((j, v) ∷ m) = if same j k then some v else lookup k m

    unfoldable pub insert : K → V → List (K × V) → List (K × V)
    insert k v [] = (k, v) ∷ []
    insert k v ((j, w) ∷ m) = elim (o.cmp k j) [
      | Ordering.lt ↦ (k, v) ∷ (j, w) ∷ m
      | Ordering.eq ↦ (k, v) ∷ m
      | Ordering.gt ↦ (j, w) ∷ insert k v m
    ]

    unfoldable pub remove : K → List (K × V) → List (K × V)
    remove k [] = []
    remove k ((j, w) ∷ m) = if same j k then remove k m else (j, w) ∷ remove k m

    pub lookup-insert :
        (k j : K) (v : V) (m : List (K × V))
        → lookup j (insert k v m) ≡ (if same k j then some v else lookup j m)
    unfolding lookup insert
    lookup-insert k j v [] = refl
    lookup-insert k j v ((i, w) ∷ m) =
        ground (arith, o.cmp_eq k j, o.cmp_eq k i, o.cmp_eq i j, lookup-insert k j v m)

    pub lookup-insert_self : (k : K) (v : V) (m : List (K × V)) → lookup k (insert k v m) ≡ some v
    lookup-insert_self k v m = rw (lookup-insert k k v m, same_self k)

    pub lookup-insert_ne :
        (k j : K) (v : V) (m : List (K × V)) → k ≢ j → lookup j (insert k v m) ≡ lookup j m
    lookup-insert_ne k j v m h = rw (lookup-insert k j v m, not-same k j h)

    pub insert-insert :
        (k : K) (v w : V) (m : List (K × V)) → insert k v (insert k w m) ≡ insert k v m
    unfolding insert
    insert-insert k v w [] = ground (arith, o.cmp_eq k k)
    insert-insert k v w ((j, u) ∷ m) =
        ground (arith, o.cmp_eq k k, o.cmp_eq k j, insert-insert k v w m)

    pub lookup-remove :
        (k j : K) (m : List (K × V))
        → lookup j (remove k m) ≡ (if same k j then none else lookup j m)
    unfolding lookup remove
    lookup-remove k j [] = ground arith
    lookup-remove k j ((i, w) ∷ m) =
        ground (arith, o.cmp_eq k j, o.cmp_eq i k, o.cmp_eq i j, lookup-remove k j m)

    pub lookup-remove_self : (k : K) (m : List (K × V)) → lookup k (remove k m) ≡ none
    lookup-remove_self k m = rw (lookup-remove k k m, same_self k)

    pub lookup-remove_ne : (k j : K) (m : List (K × V)) → k ≢ j → lookup j (remove k m) ≡ lookup j m
    lookup-remove_ne k j m h = rw (lookup-remove k j m, not-same k j h)

    abbrev pub contains_key : K → List (K × V) → Bool
    contains_key k m = elim (lookup k m) [ some v ↦ true | none ↦ false ]

    abbrev pub values : List (K × V) → List V
    values = map (λ p. p.1)
