-- ===== src/Abi/Infer/Laws.antt =====
-- A table slot and the function found for it.
use wa_wasm_oracle.Prelude.{
  ℕ, ◌-◌, ◌≡◌, refl, ap, ◌∙◌, sym, arith, Bool, true, false, List, [], ◌∷◌, ◌++◌, Option, none,
  some, ltb, if◌then◌else◌,
}
use wa_wasm_oracle.Prelude.Map.{nat_ord, lookup}
use wa_wasm_oracle.Prelude.Result.{Result, ok, err, ◌>>=◌}
use wa_wasm_oracle.Prelude.Sort.{decimal}
use wa_wasm_oracle.Prelude.Text.{codes}
use wa_wasm_oracle.Abi.{Operator, Reader, Body, Payload, AbiError, for_each_operator}
use wa_wasm_oracle.Abi.Evidence.{FunctionAbi}
use wa_wasm_oracle.Abi.Layout.{Layout, read, param_count}
use wa_wasm_oracle.Abi.Scan.{Scan, finish, contains, scan_body, begin_scan, scan_operator}
use wa_wasm_oracle.Abi.Infer.{find_body, slots_of, analyse_body, analyse, infer_table_slot}

contains-slots_of :
    (slot f : ℕ) (table : List (ℕ × ℕ))
    → lookup slot table ≡ some f
    → contains slot (slots_of f table) ≡ true
unfolding lookup
contains-slots_of slot f [] e = cc
contains-slots_of slot f ((j, g) ∷ table) e = ground (arith, contains-slots_of slot f table)

module _ (debug : Operator → List ℕ) (limit : ℕ) (payloads : Reader Payload) (m : Layout) (slot : ℕ)
    (abi : FunctionAbi) where
  -- An answer is about the function that was asked for, and lists its slots.
  IsAbout : ℕ → FunctionAbi → Type 0
  IsAbout f a = (a.index ≡ f) × (a.table_slots ≡ slots_of f m.table)

  analyse_body-IsAbout :
      (name : List ℕ) (f : ℕ) (body : Option Body)
      → analyse_body debug limit payloads m name f body ≡ ok (some abi)
      → IsAbout f abi
  unfolding IsAbout scan_body
  analyse_body-IsAbout name f none e = cc
  analyse_body-IsAbout name f (some body) e =
      from
        (for_each_operator (scan_operator debug limit m.data_segments) body
          (begin_scan (param_count m f)))
        e
    where
      from :
          (q : Result AbiError Scan)
          → ((q >>= λ s. ok (finish name f s)) >>= λ a.
              ok (some (record a { table_slots = slots_of f m.table })))
            ≡ ok (some abi)
          → (abi.index ≡ f) × (abi.table_slots ≡ slots_of f m.table)
      from (ok s) h = ground arith
      from (err x) h = cc

  analyse-IsAbout :
      (name : List ℕ) (f : ℕ)
      → analyse debug limit payloads m name f ≡ ok (some abi)
      → IsAbout f abi
  unfolding analyse
  analyse-IsAbout name f e =
      on (ltb f m.imported_funcs) (find_body (f - m.imported_funcs) payloads) e
    where
      on :
          (x : Bool) (q : Result AbiError (Option Body))
          → (if x then ok none else (q >>= analyse_body debug limit payloads m name f))
            ≡ ok (some abi)
          → IsAbout f abi
      on true q h = cc
      on false (ok body) h = analyse_body-IsAbout name f body h
      on false (err x) h = cc

  -- The function that is found for a table slot is the one that the module's table holds there, and
  -- the slot is among the slots listed with it.
  pub infer_table_slot-lists :
      read payloads ≡ ok m
      → infer_table_slot debug limit payloads slot ≡ ok (some abi)
      → (lookup slot m.table ≡ some abi.index) × (contains slot abi.table_slots ≡ true)
  unfolding infer_table_slot IsAbout
  infer_table_slot-lists loaded e = from (lookup slot m.table) refl (ap shape (sym loaded) ∙ e)
    where
      name : List ℕ
      name = codes "table[" ++ (decimal slot ++ codes "]")

      found : Layout → Option ℕ → Result AbiError (Option FunctionAbi)
      found n q = elim q [ none ↦ ok none | some f ↦ analyse debug limit payloads n name f ]

      shape : Result AbiError Layout → Result AbiError (Option FunctionAbi)
      shape q = q >>= λ n. found n (lookup slot n.table)

      from :
          (q : Option ℕ)
          → lookup slot m.table ≡ q
          → found m q ≡ ok (some abi)
          → (q ≡ some abi.index) × (contains slot abi.table_slots ≡ true)
      from none h g = cc
      from (some f) h g =
          let (same, slots) = analyse-IsAbout name f g in
          (ap some (sym same), ap (contains slot) slots ∙ contains-slots_of slot f m.table h)
