-- ===== src/Runtime/Laws.antt =====
-- The entry point and the queue.
use wa_wasm_oracle.Prelude.{
  ℕ, ◌≡◌, refl, ap, sym, ◌∙◌, arith, Bool, true, List, [], ◌∷◌, ◌++◌, Option, none, some,
  if◌then◌else◌, length, replicate, ◌==◌, length-replicate,
}
use wa_wasm_oracle.Prelude.Result.{err}
use wa_wasm_oracle.Prelude.Text.{codes}
use wa_wasm_oracle.Exports.{Instance, Func}
use wa_wasm_oracle.Runtime.{
  call, run_main, find_entry, entry_names, main_code, call_with, wrong_count,
}
use wa_wasm_oracle.State.{HostState}
use wa_wasm_oracle.Turn.{Waits}
use wa_wasm_oracle.Vals.{Val, i32}

module _ (instance_ : Instance) (waits : Waits) where
  find_entry-exported :
      (names : List (List ℕ)) (name : List ℕ) (f : Func)
      → find_entry instance_ waits names ≡ some (name, f)
      → instance_.funcs name ≡ some f
  find_entry-exported [] name f e = cc
  find_entry-exported (n ∷ names) name f e =
      from (find_entry-exported names name f) (instance_.funcs n) refl e
    where
      from :
          (find_entry instance_ waits names ≡ some (name, f) → instance_.funcs name ≡ some f)
          → (q : Option Func) → instance_.funcs n ≡ q
          → elim q [ some g ↦ some (n, g) | none ↦ find_entry instance_ waits names ]
            ≡ some (name, f)
          → instance_.funcs name ≡ some f
      from later none is k = later k
      from later (some g) is k =
          let pair : (n, g) ≡ (name, f) =
            ap (λ (o : Option (List ℕ × Func)). elim o [ some p ↦ p | none ↦ (name, f) ]) k in
          sym (ap (λ (p : List ℕ × Func). instance_.funcs p.0) pair)
          ∙ is
          ∙ ap (λ (p : List ℕ × Func). some p.1) pair

  -- Where the module has an entry point, the arguments that `run_main` passes are as many as it
  -- takes, so that the call is never refused for their number: the host takes a turn, calls the entry
  -- point once, hands the turn on, and answers the exit code of the outcome.
  pub run_main-calls :
      (name : List ℕ) (f : Func) (h : HostState)
      → find_entry instance_ waits (entry_names instance_ waits) ≡ some (name, f)
      → run_main instance_ waits h
        ≡ main_code instance_ waits
            (call_with instance_ waits name f (replicate (length f.params) (i32 0)) h)
  unfolding run_main call
  run_main-calls name f h found =
      ap
        (λ (o : Option (List ℕ × Func)). elim o [
          | none ↦ (h, err (codes "module has no WASI entry point"))
          | some (n, g) ↦
              main_code instance_ waits
                (call instance_ waits n (replicate (length g.params) (i32 0)) h)
        ])
        found
      ∙ ap (main_code instance_ waits) called
    where
      args : List Val
      args = replicate (length f.params) (i32 0)

      counts : (n m : ℕ) → n ≡ m → (n == m) ≡ true
      counts n m e = ground arith

      same_count : (length args == length f.params) ≡ true
      same_count = counts _ _ (length-replicate (length f.params) (i32 0))

      called : call instance_ waits name args h ≡ call_with instance_ waits name f args h
      called =
          ap
            (λ (o : Option Func). elim o [
              | none ↦ (h, err (codes "no exported function `" ++ (name ++ codes "`")))
              | some g ↦
                  if length args == length g.params
                  then call_with instance_ waits name g args h
                  else (h, err (wrong_count instance_ waits name (length g.params) (length args)))
            ])
            (find_entry-exported (entry_names instance_ waits) name f found)
          ∙ ap
              (λ (b : Bool).
                if b
                then call_with instance_ waits name f args h
                else (h, err (wrong_count instance_ waits name (length f.params) (length args))))
              same_count
