-- ===== src/Abi/Search/Bases.antt =====
-- What the walk of `find_address_refs` of crates/oracle-core/src/abi.rs adds, body by body.
use wa_wasm_oracle.Prelude.{
  ℕ, suc, ◌+◌, ◌-◌, ◌^◌, ◌≡◌, ◌≤◌, ◌<◌, refl, ap, subst, arith, Bool, true, false, ◌&&◌, ◌||◌, List,
  [], ◌∷◌, ◌++◌, Option, none, some, ◌==◌, leb, if◌then◌else◌, length, get_elem?, All,
}
use wa_wasm_oracle.Prelude.Result.{Result, ok, err, ◌>>=◌, ok_inj}
use wa_wasm_oracle.Prelude.Sort.{insert_by, sort_by}
use wa_wasm_oracle.Prelude.Words.{u32}
use wa_wasm_oracle.Abi.{
  Operator, i32_const, Reader, Body, AbiError, for_each, for_each_inv, reading_instruction,
}
use wa_wasm_oracle.Abi.Search.{AddressRef, is_seen, is_base, add_base, add_bases, offset_le}
use wa_wasm_oracle.Abi.Search.Bodies.{run_bodies}

-- Whether one of a body's operators loads a constant.
abbrev pub is_const : ℕ → Operator → Bool
is_const value (i32_const seen) = seen == value
is_const value _ = false

abbrev pub any_const : ℕ → Reader Operator → Bool
any_const value [] = false
any_const value (some op ∷ operators) = is_const value op || any_const value operators
any_const value (none ∷ operators) = any_const value operators

abbrev pub loads_in : ℕ → Option Body → Bool
loads_in value (some (some operators)) = any_const value operators
loads_in value _ = false

is_seen-append :
    (f v : ℕ) (a b : List AddressRef) → is_seen f v (a ++ b) ≡ is_seen f v a || is_seen f v b
is_seen-append f v [] b = refl
is_seen-append f v (r ∷ a) b = ground (arith, is_seen-append f v a b)

is_seen-insert_by :
    (f v : ℕ) (r : AddressRef) (rs : List AddressRef)
    → is_seen f v (insert_by offset_le r rs) ≡ is_seen f v (r ∷ rs)
unfolding insert_by
is_seen-insert_by f v r [] = refl
is_seen-insert_by f v r (s ∷ rs) = ground (arith, is_seen-insert_by f v r rs)

pub is_seen-sort_by :
    (f v : ℕ) (rs : List AddressRef) → is_seen f v (sort_by offset_le rs) ≡ is_seen f v rs
unfolding sort_by
is_seen-sort_by f v [] = refl
is_seen-sort_by f v (r ∷ rs) =
    ground (arith, is_seen-insert_by f v r (sort_by offset_le rs), is_seen-sort_by f v rs)

-- An entry reaches the address with its offset.
abbrev pub Reaches : ℕ → AddressRef → Type 0
Reaches address r = r.loaded + r.offset ≡ address

module _ (address low : ℕ) where
  -- What one operator, one body and all bodies add to what is seen.
  add_base-is_seen :
      (f : ℕ) (op : Operator) (found after : List AddressRef) (g v : ℕ)
      → add_base address low f op found ≡ ok after
      → is_seen g v after
        ≡ is_seen g v found || (is_base address low v && ((f == g) && is_const v op))
  add_base-is_seen f (i32_const loaded) found after g v e = ground (
    arith,
    is_seen-append g v found
        (record { function = f; loaded = loaded; offset = address - loaded } ∷ []),
    λ (p : f ≡ g). ap (λ (n : ℕ). is_seen n v found) p,
    λ (p : loaded ≡ v). ap (λ (n : ℕ). is_seen f n found) p,
    λ (p : loaded ≡ v). ap (λ (n : ℕ). is_base address low n) p,
  )
  add_base-is_seen f _ found after g v e = ground arith

  operators-is_seen :
      (f : ℕ) (operators : Reader Operator) (found after : List AddressRef) (g v : ℕ)
      → for_each reading_instruction (add_base address low f) operators found ≡ ok after
      → is_seen g v after
        ≡ is_seen g v found || (is_base address low v && ((f == g) && any_const v operators))
  operators-is_seen f [] found after g v e = ground arith
  operators-is_seen f (none ∷ operators) found after g v e = cc
  operators-is_seen f (some op ∷ operators) found after g v e =
      from (λ s k. operators-is_seen f operators s after g v k) (add_base address low f op found)
        refl e
    where
      from :
          ((s : List AddressRef)
            → for_each reading_instruction (add_base address low f) operators s ≡ ok after
            → is_seen g v after
              ≡ is_seen g v s || (is_base address low v && ((f == g) && any_const v operators)))
          → (q : Result AbiError (List AddressRef)) → add_base address low f op found ≡ q
          → (q >>= λ s. for_each reading_instruction (add_base address low f) operators s)
            ≡ ok after
          → is_seen g v after
            ≡ is_seen g v found
              || (is_base address low v && ((f == g) && (is_const v op || any_const v operators)))
      from others (ok s) h k = ground (arith, others s k, add_base-is_seen f op found s g v h)
      from others (err x) h k = cc

  module _ (imported : ℕ) where
    pub bodies-is_seen :
        (k : ℕ) (bs : List Body) (found after : List AddressRef) (g v : ℕ)
        → imported + k + length bs ≤ 2 ^ 32
        → run_bodies (add_bases address low) imported k bs found ≡ ok after
        → is_seen g v after
          ≡ is_seen g v found
            || (is_base address low v
                && (leb (imported + k) g && loads_in v (get_elem? bs (g - (imported + k)))))
    bodies-is_seen k [] found after g v fits e = ground arith
    bodies-is_seen k (none ∷ bs) found after g v fits e = cc
    bodies-is_seen k (some operators ∷ bs) found after g v fits e =
        from (λ s h. bodies-is_seen (suc k) bs s after g v (omega arith) h)
          (for_each reading_instruction (add_base address low (u32 (imported + k))) operators found)
          refl e
      where
        small : u32 (imported + k) ≡ imported + k
        small = omega arith

        ahead :
            imported + k < g
            → get_elem? (some operators ∷ bs) (g - (imported + k))
              ≡ get_elem? bs (g - (imported + suc k))
        ahead h =
            let e : g - (imported + k) ≡ suc (g - (imported + suc k)) = omega arith in
            ap (get_elem? (some operators ∷ bs)) e

        here :
            imported + k ≡ g
            → get_elem? (some operators ∷ bs) (g - (imported + k)) ≡ some (some operators)
        here h =
            let e : g - (imported + k) ≡ 0 = omega arith in ap (get_elem? (some operators ∷ bs)) e

        from :
            ((s : List AddressRef)
              → run_bodies (add_bases address low) imported (suc k) bs s ≡ ok after
              → is_seen g v after
                ≡ is_seen g v s
                  || (is_base address low v
                      && (leb (imported + suc k) g
                          && loads_in v (get_elem? bs (g - (imported + suc k))))))
            → (q : Result AbiError (List AddressRef))
            → for_each reading_instruction
                (add_base address low (u32 (imported + k)))
                operators
                found
              ≡ q
            → (q >>= λ s. run_bodies (add_bases address low) imported (suc k) bs s) ≡ ok after
            → is_seen g v after
              ≡ is_seen g v found
                || (is_base address low v
                    && (leb (imported + k) g
                        && loads_in v (get_elem? (some operators ∷ bs) (g - (imported + k)))))
        from others (ok s) h r = ground (
          arith,
          others s r,
          operators-is_seen (u32 (imported + k)) operators found s g v h,
          small,
          ahead,
          here,
        )
        from others (err x) h r = cc

  All-push :
      (rs : List AddressRef) (r : AddressRef)
      → All (Reaches address) rs
      → Reaches address r
      → All (Reaches address) (rs ++ (r ∷ []))
  All-push [] r h p = (p, tt)
  All-push (s ∷ rs) r (q, h) p = (q, All-push rs r h p)

  add_base-Reaches :
      (f : ℕ) (op : Operator) (found after : List AddressRef)
      → All (Reaches address) found
      → add_base address low f op found ≡ ok after
      → All (Reaches address) after
  add_base-Reaches f (i32_const v) found after h e =
      on (is_base address low v) (λ b. ground arith) (is_seen f v found) e
    where
      outcome : Bool → Bool → Result AbiError (List AddressRef)
      outcome b seen =
          if b
          then ok (
              if seen
              then found
              else found ++ (record { function = f; loaded = v; offset = address - v } ∷ []))
          else ok found

      on :
          (b : Bool)
          → (b ≡ true → v ≤ address)
          → (seen : Bool) → outcome b seen ≡ ok after
          → All (Reaches address) after
      on false le seen k = subst (All (Reaches address)) (ok_inj _ refl k) h
      on true le true k = subst (All (Reaches address)) (ok_inj _ refl k) h
      on true le false k =
          subst (All (Reaches address)) (ok_inj _ refl k)
            (All-push found _ h (omega (arith, le refl)))
  add_base-Reaches f _ found after h e = subst (All (Reaches address)) (ok_inj _ refl e) h

  add_bases-Reaches :
      (f : ℕ) (body : Body) (found after : List AddressRef)
      → All (Reaches address) found
      → add_bases address low f body found ≡ ok after
      → All (Reaches address) after
  add_bases-Reaches f none found after h e = cc
  add_bases-Reaches f (some operators) found after h e =
      for_each_inv (All (Reaches address)) reading_instruction (add_base address low f)
        (add_base-Reaches f) operators found after h e

  pub bodies-Reaches :
      (imported k : ℕ) (bs : List Body) (found after : List AddressRef)
      → All (Reaches address) found
      → run_bodies (add_bases address low) imported k bs found ≡ ok after
      → All (Reaches address) after
  bodies-Reaches imported k [] found after h e = subst (All (Reaches address)) (ok_inj _ refl e) h
  bodies-Reaches imported k (body ∷ bs) found after h e =
      from (λ s p g. bodies-Reaches imported (suc k) bs s after p g)
        (add_bases address low (u32 (imported + k)) body found) refl e
    where
      from :
          ((s : List AddressRef)
            → All (Reaches address) s
            → run_bodies (add_bases address low) imported (suc k) bs s ≡ ok after
            → All (Reaches address) after)
          → (q : Result AbiError (List AddressRef))
          → add_bases address low (u32 (imported + k)) body found ≡ q
          → (q >>= λ s. run_bodies (add_bases address low) imported (suc k) bs s) ≡ ok after
          → All (Reaches address) after
      from others (ok s) g r = others s (add_bases-Reaches (u32 (imported + k)) body found s h g) r
      from others (err x) g r = cc
