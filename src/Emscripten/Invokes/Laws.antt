-- ===== src/Emscripten/Invokes/Laws.antt =====
-- What a trampoline does with a call that fails.
use wa_wasm_oracle.Prelude.{
  ℕ, ◌≡◌, refl, ap, arith, List, [], ◌∷◌, ◌++◌, Option, none, some, length,
}
use wa_wasm_oracle.Prelude.Result.{Result, ok, err}
use wa_wasm_oracle.Exports.{Instance, Func, ValType, or_missing, optional_func, func}
use wa_wasm_oracle.Emscripten.{as_u64}
use wa_wasm_oracle.Emscripten.Invokes.{
  zero_of, zero_all, threw_names, call_threw, set_threw, table_entry, after_call, invoke,
}
use wa_wasm_oracle.Prelude.Text.{codes}
use wa_wasm_oracle.State.{HostState, log}
use wa_wasm_oracle.Vals.{Val, i32}
use mathlib.Core.List.{map}

zero_all-map :
    (results : List Val) (types : List ValType)
    → length results ≡ length types
    → zero_all results types ≡ map zero_of types
zero_all-map [] [] e = refl
zero_all-map [] (t ∷ types) e = absurd (omega arith)
zero_all-map (r ∷ results) [] e = absurd (omega arith)
zero_all-map (r ∷ results) (t ∷ types) e =
    ap (λ zs. zero_of t ∷ zs) (zero_all-map results types (omega arith))

-- What `after` is where the failure was flagged: the module's `setThrew` was called with 1 and 0 on
-- the state `before`, by the first of its two names; where it has neither, that was logged.
abbrev pub FlaggedBy : Option Func → Option Func → HostState → HostState → Type 0
FlaggedBy first second before after =
    ((f : Func) → first ≡ some f → after ≡ (f.call (i32 1 ∷ i32 0 ∷ []) before).0)
    × ((f : Func) → first ≡ none → second ≡ some f → after ≡ (f.call (i32 1 ∷ i32 0 ∷ []) before).0)
    × (first ≡ none → second ≡ none → (reason : List ℕ) × (after ≡ log reason before))

module _ (instance_ : Instance) where
  abbrev pub Flagged : HostState → HostState → Type 0
  Flagged = FlaggedBy (instance_.funcs (codes "setThrew")) (instance_.funcs (codes "_setThrew"))

  set_threw-Flagged : (h : HostState) → Flagged h (set_threw instance_ h)
  unfolding set_threw optional_func func
  set_threw-Flagged h =
      cases (instance_.funcs (codes "setThrew")) (instance_.funcs (codes "_setThrew"))
    where
      names : List (List ℕ)
      names = threw_names instance_

      found : Option Func → Option Func → Option Func
      found first second = elim first [
        | some f ↦ some f
        | none ↦ elim second [ some f ↦ some f | none ↦ none ]
      ]

      looked : Option Func → Option Func → HostState × Option Func
      looked first second = elim (or_missing (codes "function") names h (found first second)) [
        | ok f ↦ (h, some f)
        | err error ↦ (log (codes "optional export absent: " ++ error) h, none)
      ]

      called : Func → HostState
      called f = (f.call (i32 1 ∷ i32 0 ∷ []) h).0

      same_call : (f g : Func) → some f ≡ some g → called f ≡ called g
      same_call f g e = ap (λ (o : Option Func). elim o [ some k ↦ called k | none ↦ h ]) e

      cases :
          (first second : Option Func)
          → FlaggedBy first second h (call_threw instance_ (looked first second))
      cases (some f) second = ((λ g e. same_call f g e), (λ g e. cc), (λ e. cc))
      cases none (some f) = ((λ g e. cc), (λ g _ e. same_call f g e), (λ _ e. cc))
      cases none none = ((λ g e. cc), (λ g _ e. cc), (λ _ _. (_, refl)))

module _ (instance_ : Instance) (name : List ℕ) (types : List ValType) where
  -- What the handler gives for the outcome of the call.
  abbrev pub Contained : HostState × Result (List ℕ) (List Val) → HostState → List Val → Type 0
  Contained q h' out =
      ((e : List ℕ)
        → q.1 ≡ err e
        → (out ≡ map zero_of types)
          × (flagged : HostState) × Flagged instance_ q.0 flagged
          × (h' ≡ log (codes "caught in " ++ (name ++ (codes ": " ++ e))) flagged))
      × ((r : List Val) → q.1 ≡ ok r → (out ≡ r) × (h' ≡ q.0))

module _ (instance_ : Instance) (table_export : Option (List ℕ)) (debug : Val → List ℕ)
    (name : List ℕ) (types : List ValType) (index : ℕ) (args results : List Val) (h : HostState)
    (sized : length results ≡ length types) where
  -- The handler of a trampoline, behind the checks that every host function starts with: a table
  -- index without a callable function is an error that changes nothing, and every other call returns.
  -- Where the callee returns, its results and its state are the answer. Where it fails, the answer is
  -- a zero of each declared result type; the failure was flagged to the module, by `setThrew` called
  -- with 1 and 0 if the module exports it by either name, and then logged.
  pub invoke-Contained :
      ((error : List ℕ)
        → table_entry instance_ table_export (as_u64 index) h ≡ err error
        → invoke instance_ table_export debug name types (i32 index ∷ args) results h
          ≡ (h, err error))
      × ((callee : Func)
          → table_entry instance_ table_export (as_u64 index) h ≡ ok callee
          → (out : List Val) × (h' : HostState) × (invoke instance_ table_export debug name types
                (i32 index ∷ args)
                results
                h
              ≡ (h', ok out))
            × Contained instance_ name types (callee.call args h) h' out)
  unfolding invoke
  invoke-Contained = (
    (λ error e. ap behind e),
    λ callee e.
        let answer = after_call instance_ table_export name types results (callee.call args h) in
        (answer.1, answer.0, ap behind e, from (callee.call args h)),
  )
    where
      behind : Result (List ℕ) Func → HostState × Result (List ℕ) (List Val)
      behind q = elim q [
        | err error ↦ (h, err error)
        | ok c ↦
            let (s, out) = after_call instance_ table_export name types results (c.call args h) in
            (s, ok out)
      ]

      from :
          (q : HostState × Result (List ℕ) (List Val))
          → Contained instance_ name types q
              (after_call instance_ table_export name types results q).0
              (after_call instance_ table_export name types results q).1
      from (s, ok r) = ((λ e no_error. cc), (λ r' same. (ground arith, refl)))
      from (s, err e) = (
        (λ e' same. (
          zero_all-map results types sized,
          set_threw instance_ s,
          set_threw-Flagged instance_ s,
          ground arith,
        )),
        (λ r' no_result. cc),
      )
