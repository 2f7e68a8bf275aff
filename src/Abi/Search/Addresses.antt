-- ===== src/Abi/Search/Addresses.antt =====
-- `find_address_refs` against the bodies of a module.
use wa_wasm_oracle.Prelude.{
  ℕ, ◌+◌, ◌-◌, ◌^◌, ◌≡◌, ◌≤◌, refl, sym, ap, subst, ◌∙◌, arith, true, false, ◌&&◌, List, [], leb,
  length, get_elem?, All,
}
use wa_wasm_oracle.Prelude.Result.{Result, ok, err, ◌>>=◌, ok_inj}
use wa_wasm_oracle.Prelude.Sort.{sort_by, IsSorted, sort_by-IsSorted, sort_by-All}
use wa_wasm_oracle.Abi.{Reader, Payload, AbiError}
use wa_wasm_oracle.Abi.Layout.{Layout, read}
use wa_wasm_oracle.Abi.Search.{
  AddressRef, is_seen, is_base, add_bases, offset_le, visit_bodies, find_address_refs,
}
use wa_wasm_oracle.Abi.Search.Bodies.{bodies, visit_bodies-run}
use wa_wasm_oracle.Abi.Search.Bases.{
  loads_in, Reaches, is_seen-sort_by, bodies-is_seen, bodies-Reaches,
}

offset_le_total : (a b : AddressRef) → offset_le a b ≡ false → offset_le b a ≡ true
offset_le_total a b h = ground arith

module _ (payloads : Reader Payload) (address window : ℕ) (m : Layout) (refs : List AddressRef)
    (loaded : read payloads ≡ ok m) (fits : m.imported_funcs + length (bodies payloads) ≤ 2 ^ 32)
    (searched : find_address_refs payloads address window ≡ ok refs) where
  abbrev search : Result AbiError (List AddressRef)
  search = visit_bodies (add_bases address (address - window)) m.imported_funcs payloads []

  sorted_search : (found : List AddressRef) × (search ≡ ok found) × (sort_by offset_le found ≡ refs)
  unfolding find_address_refs
  sorted_search = from search refl (ap shape (sym loaded) ∙ searched)
    where
      shape : Result AbiError Layout → Result AbiError (List AddressRef)
      shape q = q >>= λ n.
          visit_bodies (add_bases address (address - window)) n.imported_funcs payloads []
          >>= λ found. ok (sort_by offset_le found)

      from :
          (q : Result AbiError (List AddressRef))
          → search ≡ q
          → (q >>= λ found. ok (sort_by offset_le found)) ≡ ok refs
          → (found : List AddressRef) × (search ≡ ok found) × (sort_by offset_le found ≡ refs)
      from (ok found) h g = (found, h, ok_inj _ refl g)
      from (err x) h g = cc

  -- A search for what reaches an address, where it succeeds in a module of at most 2^32
  -- functions, finds a function with a constant if and only if the function's body loads the
  -- constant and the constant is a whole number of words, and no more than the window, in front
  -- of the address. Constant and offset of each entry add up to the address, and the entries are
  -- in the order of their offsets.
  pub find_address_refs-exact :
      ((f v : ℕ)
        → is_seen f v refs
          ≡ is_base address (address - window) v
            && (leb m.imported_funcs f
                && loads_in v (get_elem? (bodies payloads) (f - m.imported_funcs))))
      × All (Reaches address) refs
      × IsSorted offset_le refs
  find_address_refs-exact =
      let (found, e, sorted) = sorted_search in
      let run =
        visit_bodies-run (add_bases address (address - window)) m.imported_funcs payloads [] found
          e in
      let zero_up : m.imported_funcs + 0 ≡ m.imported_funcs = omega arith in
      (
        (λ f v.
            ap (is_seen f v) (sym sorted)
            ∙ is_seen-sort_by f v found
            ∙ bodies-is_seen address (address - window) m.imported_funcs 0 (bodies payloads) []
                found f v (omega arith) run
            ∙ ap
                (λ (n : ℕ).
                  is_base address (address - window) v
                  && (leb n f && loads_in v (get_elem? (bodies payloads) (f - n))))
                zero_up),
        subst (All (Reaches address)) sorted (
            sort_by-All offset_le (Reaches address) found (
              bodies-Reaches address (address - window) m.imported_funcs 0 (bodies payloads) []
                found tt run)),
        subst (IsSorted offset_le) sorted (sort_by-IsSorted offset_le offset_le_total found),
      )
