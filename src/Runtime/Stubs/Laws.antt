-- ===== src/Runtime/Stubs/Laws.antt =====
-- The report of stubbed imports that were called.
use wa_wasm_oracle.Prelude.{
  ℕ, zero, suc, ◌+◌, ◌≡◌, refl, ap, subst, ◌∙◌, arith, Bool, true, false, List, [], ◌∷◌, Option,
  none, some, length, if◌then◌else◌, ◌&&◌, ltb,
}
use wa_wasm_oracle.Prelude.Map.{bytes_ord, lookup, insert, lookup-insert, same, same_iff}
use wa_wasm_oracle.Prelude.Sort.{IsSorted, sort_by-IsSorted}
use wa_wasm_oracle.Prelude.Tally.{
  count_of, entries_of, sort_by-counts, IsAscending, insert-IsAscending, IsAscending-lookup,
  number_in, entries_in,
}
use wa_wasm_oracle.Exports.{is_among}
use wa_wasm_oracle.Runtime.Stubs.{
  symbol_of, or_zero, count_stubs, more_called, stubs_called, calls_to, all_calls_to,
}
use wa_wasm_oracle.Shared.{HostCall, SharedHost}

length-if :
    (b : Bool) (c : HostCall) (cs : List HostCall)
    → (if b then suc (length cs) else length cs) ≡ length (if b then c ∷ cs else cs)
length-if b c cs = ground arith

-- What a count becomes with `n` calls more.
abbrev pub counted : Bool → ℕ → Option ℕ → Option ℕ
counted false n before = before
counted true zero before = before
counted true (suc n) before = some (or_zero before + suc n)

counted_once :
    (n : ℕ) (before : Option ℕ)
    → counted true n (some (or_zero before + 1)) ≡ counted true (suc n) before
counted_once zero before = ground arith
counted_once (suc n) before = ap some (omega arith)

-- One call, of `k`, where `b` says whether `k` is stubbed.
count_one :
    (k key : List ℕ) (n : ℕ) (counts : List (List ℕ × ℕ)) (b d : Bool)
    → (k ≡ key → b ≡ d)
    → counted d n
        (lookup key (if b then insert k (or_zero (lookup k counts) + 1) counts else counts))
      ≡ counted d (if same k key then suc n else n) (lookup key counts)
count_one k key n counts b d agree = on (same k key) refl b agree
  where
    on :
        (x : Bool)
        → same k key ≡ x
        → (b : Bool) → (k ≡ key → b ≡ d)
        → counted d n
            (lookup key (if b then insert k (or_zero (lookup k counts) + 1) counts else counts))
          ≡ counted d (if x then suc n else n) (lookup key counts)
    on false other true agree = ap (counted d n) (
        lookup-insert k key (or_zero (lookup k counts) + 1) counts
        ∙ ap (λ y. if y then some (or_zero (lookup k counts) + 1) else lookup key counts) other)
    on false other false agree = refl
    on true equal true agree =
        let equal_keys = (same_iff k key).0 equal in
        ap (counted d n) (
          lookup-insert k key (or_zero (lookup k counts) + 1) counts
          ∙ ap (λ y. if y then some (or_zero (lookup k counts) + 1) else lookup key counts) equal
          ∙ ap (λ (j : List ℕ). some (or_zero (lookup j counts) + 1)) equal_keys)
        ∙ subst
            (λ (y : Bool).
              counted y n (some (or_zero (lookup key counts) + 1))
              ≡ counted y (suc n) (lookup key counts))
            (agree equal_keys) (counted_once n (lookup key counts))
    on true equal false agree =
        subst
          (λ (y : Bool). counted y n (lookup key counts) ≡ counted y (suc n) (lookup key counts))
          (agree ((same_iff k key).0 equal)) refl

count_stubs-lookup :
    (stubbed : List (List ℕ)) (calls : List HostCall) (counts : List (List ℕ × ℕ)) (key : List ℕ)
    → lookup key (count_stubs stubbed calls counts)
      ≡ counted (is_among key stubbed) (length (calls_to key calls)) (lookup key counts)
count_stubs-lookup stubbed [] counts key = ground arith
count_stubs-lookup stubbed (c ∷ calls) counts key =
    count_stubs-lookup stubbed calls _ key
    ∙ count_one (symbol_of c) key (length (calls_to key calls)) counts
        (is_among (symbol_of c) stubbed) (is_among key stubbed)
        (ap (λ (k : List ℕ). is_among k stubbed))
    ∙ ap (λ n. counted (is_among key stubbed) n (lookup key counts))
        (length-if (same (symbol_of c) key) c (calls_to key calls))

more_called_total : (a b : List ℕ × ℕ) → more_called a b ≡ false → more_called b a ≡ true
more_called_total a b h = ground arith

count_stubs-IsAscending :
    (stubbed : List (List ℕ)) (calls : List HostCall) (counts : List (List ℕ × ℕ))
    → IsAscending counts
    → IsAscending (count_stubs stubbed calls counts)
count_stubs-IsAscending stubbed [] counts h = h
count_stubs-IsAscending stubbed (c ∷ calls) counts h =
    count_stubs-IsAscending stubbed calls _ (on (is_among (symbol_of c) stubbed))
  where
    on :
        (b : Bool)
        → IsAscending (
            if b
            then insert (symbol_of c) (or_zero (lookup (symbol_of c) counts) + 1) counts
            else counts)
    on true = insert-IsAscending (symbol_of c) _ counts h
    on false = h

-- The entry of a name with so many calls.
counted-entry :
    (b : Bool) (n : ℕ)
    → (number_in (counted b n none) ≡ (if b then n else 0))
      × (entries_in (counted b n none) ≡ (if b && ltb 0 n then 1 else 0))
counted-entry false n = (refl, refl)
counted-entry true zero = (refl, refl)
counted-entry true (suc n) = ground arith

-- The report has exactly one entry for each stubbed import that the trace holds a call of, with the
-- number of those calls, and no other entry; the entries are in descending order of their counts.
pub stubs_called-exact :
    (stubbed : List (List ℕ)) (s : SharedHost)
    → ((key : List ℕ)
        → (count_of key (stubs_called (some stubbed) s)
            ≡ (if is_among key stubbed then length (all_calls_to key s) else 0))
          × (entries_of key (stubs_called (some stubbed) s)
              ≡ (if is_among key stubbed && ltb 0 (length (all_calls_to key s)) then 1 else 0)))
      × IsSorted more_called (stubs_called (some stubbed) s)
unfolding stubs_called all_calls_to lookup
stubs_called-exact stubbed s = (
  (λ key.
      let (sum, entries) = sort_by-counts more_called key counts in
      let (looked, found) =
        IsAscending-lookup key counts (count_stubs-IsAscending stubbed s.trace.calls [] tt) in
      let there : lookup key counts
          ≡ counted (is_among key stubbed) (length (calls_to key s.trace.calls)) none =
        count_stubs-lookup stubbed s.trace.calls [] key in
      let (number, entry) =
        counted-entry (is_among key stubbed) (length (calls_to key s.trace.calls)) in
      (sum ∙ looked ∙ ap number_in there ∙ number, entries ∙ found ∙ ap entries_in there ∙ entry)),
  sort_by-IsSorted more_called more_called_total counts,
)
  where
    counts : List (List ℕ × ℕ)
    counts = count_stubs stubbed s.trace.calls []
