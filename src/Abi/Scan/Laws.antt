-- ===== src/Abi/Scan/Laws.antt =====
-- What the walk of `scan_body` keeps, whatever the operators are.
use wa_wasm_oracle.Prelude.{
  ℕ, suc, ◌+◌, ◌≡◌, refl, ap, ◌∙◌, arith, List, [], ◌∷◌, ◌++◌, Option, none, some, map, min, length,
  length-append,
}
use wa_wasm_oracle.Prelude.Map.{nat_ord, values}
use wa_wasm_oracle.Prelude.Result.{Result, ok, ◌>>=◌}
use wa_wasm_oracle.Abi.{Operator, AbiError, for_each, reading_instruction}
use wa_wasm_oracle.Abi.Evidence.{ParamEvidence, FunctionAbi}
use wa_wasm_oracle.Abi.Render.{render, annotation, trim_quoted_text_to_length}
use wa_wasm_oracle.Abi.Arms.{Arm, arm}
use wa_wasm_oracle.Abi.Scan.{
  Origin, Scan, param_of, apply_at, apply_to, record_use, loaded, stored, compared, forwarded_on,
  reckoned, stored_as_value, forward_all, take_arm, count_up, none_seen, begin_scan, finish,
  list_operator, scan_operator, scan_body,
}

-- A body whose operators all decode.
abbrev pub decoded : List Operator → List (Option Operator)
decoded ops = map some ops

abbrev pub indices_of : List ParamEvidence → List ℕ
indices_of es = map (λ e. e.index) es

abbrev pub indices : List (ℕ × ParamEvidence) → List ℕ
indices m = indices_of (values m)

indices-apply_to :
    (f : ParamEvidence → ParamEvidence)
    → ((e : ParamEvidence) → (f e).index ≡ e.index)
    → (o : Origin) (m : List (ℕ × ParamEvidence)) → indices (record_use f o m) ≡ indices m
unfolding record_use
indices-apply_to f same o m = on (param_of o) m
  where
    at : (i : ℕ) (m : List (ℕ × ParamEvidence)) → indices (apply_at f i m) ≡ indices m
    at i [] = refl
    at i ((j, e) ∷ m) = ground (arith, same e, at i m)

    on : (i : Option ℕ) (m : List (ℕ × ParamEvidence)) → indices (apply_to f i m) ≡ indices m
    on none m = refl
    on (some i) m = at i m

indices-forward_all :
    (os : List Origin) (m : List (ℕ × ParamEvidence)) → indices (forward_all os m) ≡ indices m
indices-forward_all [] m = refl
indices-forward_all (o ∷ os) m =
    indices-apply_to forwarded_on (λ e. refl) o (forward_all os m) ∙ indices-forward_all os m

indices-take_arm : (a : Arm) (s : Scan) → indices (take_arm a s).collected ≡ indices s.collected
unfolding take_arm
indices-take_arm (Arm.loads w) s = indices-apply_to (loaded w) (λ e. refl) _ _
indices-take_arm (Arm.stores w) s =
    indices-apply_to stored_as_value (λ e. refl) _ _ ∙ indices-apply_to (stored w) (λ e. refl) _ _
indices-take_arm Arm.compares s =
    indices-apply_to compared (λ e. refl) _ _ ∙ indices-apply_to compared (λ e. refl) _ _
indices-take_arm Arm.tests s = indices-apply_to compared (λ e. refl) _ _
indices-take_arm Arm.computes s =
    indices-apply_to reckoned (λ e. refl) _ _ ∙ indices-apply_to reckoned (λ e. refl) _ _
indices-take_arm Arm.forwards s = indices-forward_all s.stack s.collected
indices-take_arm Arm.branches s = indices-apply_to compared (λ e. refl) _ _
indices-take_arm _ s = refl

scanned-take_arm : (a : Arm) (s : Scan) → (take_arm a s).scanned ≡ s.scanned
unfolding take_arm
scanned-take_arm a s = ground arith

listing-take_arm : (a : Arm) (s : Scan) → (take_arm a s).listing ≡ s.listing
unfolding take_arm
listing-take_arm a s = ground arith

length-trim : (lines : List (List ℕ)) → length (trim_quoted_text_to_length lines) ≡ length lines
unfolding trim_quoted_text_to_length
length-trim [] = refl
length-trim (a ∷ []) = refl
length-trim (a ∷ b ∷ []) = refl
length-trim (a ∷ b ∷ c ∷ lines) = ap suc (length-trim (b ∷ c ∷ lines))

indices-none_seen : (is : List ℕ) → indices (none_seen is) ≡ is
indices-none_seen [] = refl
indices-none_seen (i ∷ is) = ap (λ rest. i ∷ rest) (indices-none_seen is)

module _ (debug : Operator → List ℕ) (limit : ℕ) (segments : List (ℕ × List ℕ)) where
  length-list_operator :
      (op : Operator) (lines : List (List ℕ)) (n : ℕ)
      → length lines ≡ min limit n
      → length (list_operator debug limit segments op lines) ≡ min limit (suc n)
  length-list_operator op lines n e =
      let line = render debug op ++ annotation segments op in
      ground (arith, length-trim (lines ++ (line ∷ [])), length-append lines (line ∷ []))

  -- One operator, and all of them: the walk over decoded operators never fails.
  abbrev pub scan_one : Operator → Scan → Scan
  scan_one op s = take_arm (arm op) (record s {
    scanned = s.scanned + 1;
    listing = list_operator debug limit segments op s.listing;
  })

  abbrev pub scan_all : List Operator → Scan → Scan
  scan_all [] s = s
  scan_all (op ∷ ops) s = scan_all ops (scan_one op s)

  pub for_each-scan_operator :
      (ops : List Operator) (s : Scan)
      → for_each reading_instruction (scan_operator debug limit segments) (decoded ops) s
        ≡ ok (scan_all ops s)
  unfolding scan_operator
  for_each-scan_operator [] s = refl
  for_each-scan_operator (op ∷ ops) s = for_each-scan_operator ops (scan_one op s)

  indices-scan_all :
      (ops : List Operator) (s : Scan) → indices (scan_all ops s).collected ≡ indices s.collected
  indices-scan_all [] s = refl
  indices-scan_all (op ∷ ops) s = indices-scan_all ops (scan_one op s) ∙ indices-take_arm (arm op) _

  scanned-scan_all :
      (ops : List Operator) (s : Scan) → (scan_all ops s).scanned ≡ s.scanned + length ops
  scanned-scan_all [] s = omega arith
  scanned-scan_all (op ∷ ops) s = omega (
    arith,
    scanned-scan_all ops (scan_one op s),
    scanned-take_arm (arm op) (record s {
      scanned = s.scanned + 1;
      listing = list_operator debug limit segments op s.listing;
    }),
  )

  listing-scan_all :
      (ops : List Operator) (s : Scan) (n : ℕ)
      → length s.listing ≡ min limit n
      → length (scan_all ops s).listing ≡ min limit (n + length ops)
  listing-scan_all [] s n e = let e' : n ≡ n + 0 = omega arith in e ∙ ap (λ k. min limit k) e'
  listing-scan_all (op ∷ ops) s n e =
      listing-scan_all ops (scan_one op s) (suc n) step ∙ ap (λ k. min limit k) (omega arith)
    where
      step : length (scan_one op s).listing ≡ min limit (suc n)
      step =
          ap length (
            listing-take_arm (arm op) (record s {
              scanned = s.scanned + 1;
              listing = list_operator debug limit segments op s.listing;
            }))
          ∙ length-list_operator op s.listing n e

  -- What the answer for a decoded body is.
  abbrev pub answer : List ℕ → ℕ → ℕ → List Operator → FunctionAbi
  answer name index params ops = finish name index (scan_all ops (begin_scan params))

  pub scan_body-answer :
      (name : List ℕ) (index params : ℕ) (ops : List Operator)
      → scan_body debug limit segments name index params (some (decoded ops))
        ≡ ok (answer name index params ops)
  unfolding scan_body
  scan_body-answer name index params ops =
      ap (λ (r : Result AbiError Scan). r >>= λ s. ok (finish name index s))
        (for_each-scan_operator ops (begin_scan params))

-- The scan of a body whose operators all decode succeeds. It answers evidence for exactly the
-- function's parameters, in order; it counts every operator; and it lists as many lines as the
-- limit allows.
pub scan_body_complete :
    (debug : Operator → List ℕ) (limit : ℕ) (segments : List (ℕ × List ℕ)) (name : List ℕ)
    (index params : ℕ) (ops : List Operator)
    → (abi : FunctionAbi) × (scan_body debug limit segments name index params (some (decoded ops))
        ≡ ok abi)
      × (indices_of abi.params ≡ count_up params 0)
      × (abi.scanned ≡ length ops)
      × (length abi.body ≡ min limit (length ops))
scan_body_complete debug limit segments name index params ops = (
  answer debug limit segments name index params ops,
  scan_body-answer debug limit segments name index params ops,
  indices-scan_all debug limit segments ops (begin_scan params)
      ∙ indices-none_seen (count_up params 0),
  scanned-scan_all debug limit segments ops (begin_scan params) ∙ omega arith,
  listing-scan_all debug limit segments ops (begin_scan params) 0 (omega arith)
      ∙ ap (λ k. min limit k) (omega arith),
)
