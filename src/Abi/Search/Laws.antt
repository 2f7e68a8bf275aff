-- ===== src/Abi/Search/Laws.antt =====
-- The searches against the bodies of a module, one by one.
use wa_wasm_oracle.Prelude.{
  ℕ, suc, ◌+◌, ◌-◌, ◌^◌, ◌≡◌, ◌≤◌, ◌<◌, refl, sym, ap, ◌∙◌, arith, Bool, false, ◌||◌, List, [], ◌∷◌,
  ◌++◌, Option, none, some, leb, if◌then◌else◌, length, get_elem?,
}
use mathlib.Core.List.{append-nil, append_assoc}
use wa_wasm_oracle.Prelude.Result.{Result, ok, err, ◌>>=◌}
use wa_wasm_oracle.Prelude.Words.{u32}
use wa_wasm_oracle.Abi.{Operator, Reader, Body, Payload, AbiError}
use wa_wasm_oracle.Abi.Layout.{Layout, read}
use wa_wasm_oracle.Abi.Scan.{contains}
use wa_wasm_oracle.Abi.Search.Bodies.{bodies, run_bodies, visit_bodies-run}
use wa_wasm_oracle.Abi.Search.{visit_bodies, calls_it, has_call, add_caller, find_callers}

-- Whether one of a body's operators is a call of a function.
abbrev pub any_call : ℕ → Reader Operator → Bool
any_call callee [] = false
any_call callee (some op ∷ operators) = calls_it callee op || any_call callee operators
any_call callee (none ∷ operators) = any_call callee operators

abbrev pub calls_in : ℕ → Option Body → Bool
calls_in callee (some (some operators)) = any_call callee operators
calls_in callee _ = false

has_call-any_call :
    (callee : ℕ) (operators : Reader Operator) (b : Bool)
    → has_call callee operators ≡ ok b
    → b ≡ any_call callee operators
has_call-any_call callee [] b e = ground arith
has_call-any_call callee (none ∷ operators) b e = cc
has_call-any_call callee (some op ∷ operators) b e =
    ground (arith, has_call-any_call callee operators b)

append_nothing : (xs : List ℕ) → xs ++ [] ≡ xs
append_nothing [] = refl
append_nothing (x ∷ xs) = ap (λ rest. x ∷ rest) (append_nothing xs)

pub contains-append :
    (i : ℕ) (xs ys : List ℕ) → contains i (xs ++ ys) ≡ contains i xs || contains i ys
contains-append i [] ys = refl
contains-append i (x ∷ xs) ys = ground (arith, contains-append i xs ys)

module _ (callee imported : ℕ) where
  -- The callers that the bodies from a local index on add.
  abbrev pub callers_from : ℕ → List Body → List ℕ
  callers_from k [] = []
  callers_from k (body ∷ rest) =
      (if calls_in callee (some body) then u32 (imported + k) ∷ [] else [])
      ++ callers_from (suc k) rest

  add_caller-calls :
      (f : ℕ) (body : Body) (callers after : List ℕ)
      → add_caller callee f body callers ≡ ok after
      → after ≡ callers ++ (if calls_in callee (some body) then f ∷ [] else [])
  add_caller-calls f none callers after e = cc
  add_caller-calls f (some operators) callers after e = from (has_call callee operators) refl e
    where
      from :
          (q : Result AbiError Bool)
          → has_call callee operators ≡ q
          → (q >>= λ found. ok (if found then callers ++ (f ∷ []) else callers)) ≡ ok after
          → after ≡ callers ++ (if any_call callee operators then f ∷ [] else [])
      from (ok b) k g =
          ground (arith, has_call-any_call callee operators b k, append_nothing callers)
      from (err x) k g = cc

  contains-callers_from :
      (k : ℕ) (rest : List Body) (f : ℕ)
      → imported + k + length rest ≤ 2 ^ 32
      → contains f (callers_from k rest) ≡ (
          if leb (imported + k) f
          then calls_in callee (get_elem? rest (f - (imported + k)))
          else false)
  contains-callers_from k [] f fits = ground arith
  contains-callers_from k (body ∷ rest) f fits = ground (
    arith,
    contains-append f (if calls_in callee (some body) then u32 (imported + k) ∷ [] else [])
        (callers_from (suc k) rest),
    contains-callers_from (suc k) rest f (omega arith),
    small,
    ahead,
    here,
  )
    where
      small : u32 (imported + k) ≡ imported + k
      small = omega arith

      ahead :
          imported + k < f
          → get_elem? (body ∷ rest) (f - (imported + k)) ≡ get_elem? rest (f - (imported + suc k))
      ahead h =
          let e : f - (imported + k) ≡ suc (f - (imported + suc k)) = omega arith in
          ap (get_elem? (body ∷ rest)) e

      here : imported + k ≡ f → get_elem? (body ∷ rest) (f - (imported + k)) ≡ some body
      here h = let e : f - (imported + k) ≡ 0 = omega arith in ap (get_elem? (body ∷ rest)) e

  callers-run :
      (k : ℕ) (bs : List Body) (callers after : List ℕ)
      → run_bodies (add_caller callee) imported k bs callers ≡ ok after
      → after ≡ callers ++ callers_from k bs
  callers-run k [] callers after e = ground (arith, append-nil callers)
  callers-run k (body ∷ bs) callers after e =
      from (λ s g. callers-run (suc k) bs s after g)
        (add_caller callee (u32 (imported + k)) body callers) refl e
    where
      from :
          ((s : List ℕ)
            → run_bodies (add_caller callee) imported (suc k) bs s ≡ ok after
            → after ≡ s ++ callers_from (suc k) bs)
          → (q : Result AbiError (List ℕ)) → add_caller callee (u32 (imported + k)) body callers ≡ q
          → (q >>= λ s. run_bodies (add_caller callee) imported (suc k) bs s) ≡ ok after
          → after ≡ callers ++ callers_from k (body ∷ bs)
      from others (ok s) h g =
          others s g
          ∙ ap (λ (c : List ℕ). c ++ callers_from (suc k) bs) (add_caller-calls _ body callers s h)
          ∙ append_assoc callers _ (callers_from (suc k) bs)
      from others (err x) h g = cc

-- `find_callers` finds a function if and only if the function has a body in the module and one of
-- the body's operators calls the callee directly or as a tail call: no caller is missed and none
-- is made up. This is for a search that succeeds in a module of at most 2^32 functions.
pub find_callers-exact :
    (payloads : Reader Payload) (callee : ℕ) (m : Layout) (callers : List ℕ) (f : ℕ)
    → read payloads ≡ ok m
    → m.imported_funcs + length (bodies payloads) ≤ 2 ^ 32
    → find_callers payloads callee ≡ ok callers
    → contains f callers ≡ (
        if leb m.imported_funcs f
        then calls_in callee (get_elem? (bodies payloads) (f - m.imported_funcs))
        else false)
unfolding find_callers
find_callers-exact payloads callee m callers f loaded fits e =
    ap (contains f) (
      callers-run callee m.imported_funcs 0 (bodies payloads) [] callers
        (visit_bodies-run (add_caller callee) m.imported_funcs payloads [] callers found))
    ∙ contains-callers_from callee m.imported_funcs 0 (bodies payloads) f (omega arith)
    ∙ ap
        (λ (n : ℕ).
          if leb n f then calls_in callee (get_elem? (bodies payloads) (f - n)) else false)
        (omega arith)
  where
    found : visit_bodies (add_caller callee) m.imported_funcs payloads [] ≡ ok callers
    found =
        ap
          (λ q. q >>= λ (m : Layout). visit_bodies (add_caller callee) m.imported_funcs payloads [])
          (sym loaded)
        ∙ e
