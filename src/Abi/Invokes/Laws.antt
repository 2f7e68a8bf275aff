-- ===== src/Abi/Invokes/Laws.antt =====
-- What `find_invoke_imports` finds has the shape of a trampoline's call site.
use wa_wasm_oracle.Prelude.{
  ℕ, suc, ◌≡◌, ◌<◌, refl, sym, ap, ◌∙◌, subst, List, [], ◌∷◌, none, some, get_elem?, All,
}
use wa_wasm_oracle.Prelude.Map.{nat_ord}
use wa_wasm_oracle.Prelude.Result.{Result, ok, err, ◌>>=◌, ok_inj}
use wa_wasm_oracle.Abi.{
  Operator, Reader, Body, Payload, code_section_entry, AbiError, for_each, reading_instruction,
}
use wa_wasm_oracle.Abi.Layout.{Layout, read, parsing_module}
use wa_wasm_oracle.Abi.Invokes.{
  InvokeScan, begin_body, invoke_operator, invoke_payload, find_invoke_imports,
}
use wa_wasm_oracle.Abi.Search.Bodies.{bodies}
use wa_wasm_oracle.Abi.Invokes.Shape.{IsInvoke}
use wa_wasm_oracle.Abi.Invokes.Steps.{body-All}

-- What is found of an import: one of the module's bodies has the shape.
abbrev pub IsFound : Reader Payload → ℕ → ℕ × ℕ → Type 0
IsFound payloads imported (f, a) =
    (k : ℕ) × (body : Reader Operator) × (get_elem? (bodies payloads) k ≡ some (some body))
    × (f < imported)
    × IsInvoke body f a

module _ (payloads : Reader Payload) (imported : ℕ) where
  payloads-All :
      (left : Reader Payload) (found found' : List (ℕ × ℕ))
      → ((k : ℕ) (b : Body)
          → get_elem? (bodies left) k ≡ some b
          → (j : ℕ) × (get_elem? (bodies payloads) j ≡ some b))
      → All (IsFound payloads imported) found
      → for_each parsing_module (invoke_payload imported) left found ≡ ok found'
      → All (IsFound payloads imported) found'
  unfolding invoke_payload
  payloads-All [] found found' known h e =
      subst (All (IsFound payloads imported)) (ok_inj _ refl e) h
  payloads-All (none ∷ left) found found' known h e = cc
  payloads-All (some (code_section_entry none) ∷ left) found found' known h e = cc
  payloads-All (some (code_section_entry (some body)) ∷ left) found found' known h e =
      from (λ t p g. payloads-All left t found' (λ k. known (suc k)) p g)
        (for_each reading_instruction (invoke_operator imported) body (begin_body found)) refl e
    where
      from :
          ((t : List (ℕ × ℕ))
            → All (IsFound payloads imported) t
            → for_each parsing_module (invoke_payload imported) left t ≡ ok found'
            → All (IsFound payloads imported) found')
          → (q : Result AbiError InvokeScan)
          → for_each reading_instruction (invoke_operator imported) body (begin_body found) ≡ q
          → ((q >>= λ s. ok s.found) >>= λ t.
              for_each parsing_module (invoke_payload imported) left t)
            ≡ ok found'
          → All (IsFound payloads imported) found'
      from others (ok s) r g =
          let (j, there) = known 0 (some body) refl in
          others s.found
            (body-All body imported (IsFound payloads imported)
              (λ f a small shape. (j, body, there, small, shape)) found s h r)
            g
      from others (err x) r g = cc
  payloads-All (some _ ∷ left) found found' known h e = payloads-All left found found' known h e

-- Every import that the search reports as a trampoline is an import, and one of the module's
-- bodies has the trampoline's call site: the constant 0 is stored with the reported constant as its
-- base address, the import is called at most 24 operators later, and at most three operators behind
-- the call there is a load with the same constant as its base address. The constant offsets of the
-- store and of the load can be any: the search does not compare them.
pub find_invoke_imports-IsFound :
    (payloads : Reader Payload) (m : Layout) (found : List (ℕ × ℕ))
    → read payloads ≡ ok m
    → find_invoke_imports payloads ≡ ok found
    → All (IsFound payloads m.imported_funcs) found
unfolding find_invoke_imports
find_invoke_imports-IsFound payloads m found loaded e =
    payloads-All payloads m.imported_funcs payloads [] found (λ k b h. (k, h)) tt
      (ap
          (λ q. q >>= λ (n : Layout).
            for_each parsing_module (invoke_payload n.imported_funcs) payloads [])
          (sym loaded)
        ∙ e)
