-- ===== src/Abi/Search/Bodies.antt =====
-- A search that succeeds is a walk over the list of the module's bodies.
use wa_wasm_oracle.Prelude.{ℕ, suc, ◌+◌, ◌≡◌, refl, ◌∙◌, arith, List, [], ◌∷◌, ◌++◌, none, some}
use wa_wasm_oracle.Prelude.Result.{Result, ok, err, ◌>>=◌}
use wa_wasm_oracle.Prelude.Words.{u32}
use wa_wasm_oracle.Abi.{Reader, Body, Payload, code_section_entry, AbiError, for_each}
use wa_wasm_oracle.Abi.Layout.{parsing_module}
use wa_wasm_oracle.Abi.Search.{visit_payload, visit_bodies}

abbrev pub body_of : Payload → List Body
body_of (code_section_entry body) = body ∷ []
body_of _ = []

-- The bodies of a module, in order.
abbrev pub bodies : Reader Payload → List Body
bodies [] = []
bodies (some p ∷ payloads) = body_of p ++ bodies payloads
bodies (none ∷ payloads) = bodies payloads

module _ {ℓ} {S : Type ℓ} (visit : ℕ → Body → S → Result AbiError S) (imported : ℕ) where
  abbrev pub run_bodies : ℕ → List Body → S → Result AbiError S
  run_bodies k [] s = ok s
  run_bodies k (body ∷ bs) s = visit (u32 (imported + k)) body s >>= λ s'. run_bodies (suc k) bs s'

  for_each-run :
      (payloads : Reader Payload) (k : ℕ) (s : S) (r : ℕ × S)
      → for_each parsing_module (visit_payload visit imported) payloads (k, s) ≡ ok r
      → run_bodies k (bodies payloads) s ≡ ok r.1
  for_each-run [] k s r e = ground arith
  for_each-run (none ∷ payloads) k s r e = cc
  for_each-run (some (code_section_entry body) ∷ payloads) k s r e =
      from (λ t g. for_each-run payloads (suc k) t r g) (visit (u32 (imported + k)) body s) e
    where
      from :
          ((t : S)
            → for_each parsing_module (visit_payload visit imported) payloads (suc k, t) ≡ ok r
            → run_bodies (suc k) (bodies payloads) t ≡ ok r.1)
          → (q : Result AbiError S)
          → ((q >>= λ t. ok (suc k, t)) >>= λ z.
              for_each parsing_module (visit_payload visit imported) payloads z)
            ≡ ok r
          → (q >>= λ t. run_bodies (suc k) (bodies payloads) t) ≡ ok r.1
      from others (ok t) g = others t g
      from others (err x) g = cc
  for_each-run (some _ ∷ payloads) k s r e = for_each-run payloads k s r e

  pub visit_bodies-run :
      (payloads : Reader Payload) (s after : S)
      → visit_bodies visit imported payloads s ≡ ok after
      → run_bodies 0 (bodies payloads) s ≡ ok after
  visit_bodies-run payloads s after e =
      from (for_each parsing_module (visit_payload visit imported) payloads (0, s)) refl e
    where
      from :
          (q : Result AbiError (ℕ × S))
          → for_each parsing_module (visit_payload visit imported) payloads (0, s) ≡ q
          → (q >>= λ r. ok (r.1)) ≡ ok after
          → run_bodies 0 (bodies payloads) s ≡ ok after
      from (ok r) h g = for_each-run payloads 0 s r h ∙ g
      from (err x) h g = cc
