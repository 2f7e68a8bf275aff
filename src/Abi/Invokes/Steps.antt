-- ===== src/Abi/Invokes/Steps.antt =====
-- What the walk of `find_invoke_imports` over one body keeps true.
use wa_wasm_oracle.Prelude.{
  ℕ, zero, suc, ◌+◌, ◌-◌, ◌≡◌, ◌≤◌, ◌<◌, refl, sym, ap, ◌∙◌, subst, arith, Bool, true, false, List,
  [], ◌∷◌, Option, none, some, ◌&&◌, ◌==◌, ltb, leb, if◌then◌else◌, take, get_elem?, All,
}
use wa_wasm_oracle.Prelude.Map.{nat_ord, insert}
use wa_wasm_oracle.Prelude.Result.{ok, ok_inj}
use wa_wasm_oracle.Abi.{
  Operator, i32_const, i32_store, i32_load, call, Reader, for_each, reading_instruction,
}
use wa_wasm_oracle.Abi.Invokes.{
  InvokeScan, lookbehind, lookahead, begin_body, cleared_address, loaded_address, clear_at,
  read_back, await, examine, advance, invoke_operator,
}
use wa_wasm_oracle.Abi.Invokes.Shape.{At, IsClear, IsCall, IsInvoke, cleared-window, loaded-window}

module _ (body : Reader Operator) (imported : ℕ) (P : ℕ × ℕ → Type 0)
    (intro : (f a : ℕ) → f < imported → IsInvoke body f a → P (f, a)) where
  -- The window holds the operators in front of a position.
  Window : ℕ → List Operator → Type 0
  Window n [] = Unit
  Window n (op ∷ w) = (1 ≤ n) × At body (n - 1) op × Window (n - 1) w

  Cleared : ℕ → Option (ℕ × ℕ) → Type 0
  Cleared n none = Unit
  Cleared n (some (a, c)) = (c < n) × IsClear body c a

  Pending : ℕ → Option (ℕ × ℕ × ℕ) → Type 0
  Pending n none = Unit
  Pending n (some (f, a, p)) = (p < n) × (f < imported) × IsCall body f a p

  abbrev IsTrue : InvokeScan → Type 0
  IsTrue s =
      Window s.position s.window
      × Cleared s.position s.cleared
      × Pending s.position s.pending
      × All P s.found

  insert-All : (f a : ℕ) (m : List (ℕ × ℕ)) → P (f, a) → All P m → All P (insert f a m)
  unfolding insert
  insert-All f a [] p h = (p, tt)
  insert-All f a ((j, v) ∷ m) p (q, h) = ground (arith, insert-All f a m p h)

  Window-take : (k n : ℕ) (w : List Operator) → Window n w → Window n (take k w)
  unfolding Window
  Window-take zero n w h = tt
  Window-take (suc k) n [] h = tt
  Window-take (suc k) n (op ∷ w) (a, b, h) = (a, b, Window-take k (n - 1) w h)

  Cleared-later : (n : ℕ) (c : Option (ℕ × ℕ)) → Cleared n c → Cleared (suc n) c
  unfolding Cleared
  Cleared-later n none h = tt
  Cleared-later n (some (a, c)) (lt, h) = (omega arith, h)

  Pending-later : (n : ℕ) (p : Option (ℕ × ℕ × ℕ)) → Pending n p → Pending (suc n) p
  unfolding Pending
  Pending-later n none h = tt
  Pending-later n (some (f, a, p)) (lt, small, h) = (omega arith, small, h)

  -- What examining an operator leaves is true of the position behind it.
  abbrev IsAfter : ℕ → InvokeScan → Type 0
  IsAfter n s = Cleared (suc n) s.cleared × Pending (suc n) s.pending × All P s.found

  clear_at-IsAfter :
      (s : InvokeScan) (o : ℕ)
      → IsTrue s
      → At body s.position (i32_store o)
      → IsAfter s.position (clear_at (cleared_address s.window) s)
  unfolding Window Cleared
  clear_at-IsAfter s o (w, c, p, f) here = from (cleared_address s.window) refl
    where
      from : (q : Option ℕ) → cleared_address s.window ≡ q → IsAfter s.position (clear_at q s)
      from none e = (Cleared-later _ _ c, Pending-later _ _ p, f)
      from (some a) e =
          let (t, shape) = cleared-window s.window a e in
          let (one, zero_at, (two, addr_at, more)) = subst (Window s.position) shape w in
          let e : s.position - 1 - 1 ≡ s.position - 2 = omega arith in
          let clear : IsClear body s.position a =
            (o, omega arith, subst (λ (n : ℕ). At body n (i32_const a)) e addr_at, zero_at, here) in
          ((omega arith, clear), Pending-later _ _ p, f)

  read_back-IsAfter :
      (s : InvokeScan) (o : ℕ)
      → IsTrue s
      → At body s.position (i32_load o)
      → IsAfter s.position (read_back (loaded_address s.window) s.pending s)
  unfolding Window Pending
  read_back-IsAfter s o (w, c, p, f) here = from (loaded_address s.window) refl s.pending p
    where
      kept : (q : Option (ℕ × ℕ × ℕ)) → s.pending ≡ q → IsAfter s.position s
      kept q e = (Cleared-later _ _ c, Pending-later _ _ p, f)

      from :
          (q : Option ℕ)
          → loaded_address s.window ≡ q
          → (call_at : Option (ℕ × ℕ × ℕ)) → Pending s.position call_at
          → IsAfter s.position (read_back q call_at s)
      from none e call_at k = kept s.pending refl
      from (some a) e none k = kept s.pending refl
      from (some a) e (some (g, expected, at)) (lt, small, called) =
          on (a == expected) (λ b. ground arith) (leb (s.position - at) lookahead)
            (λ b. ground arith)
        where
          found : (a ≡ expected) → s.position - at ≤ 3 → P (g, expected)
          found same near =
              let (t, shape) = loaded-window s.window a e in
              let (one, addr_at, more) = subst (Window s.position) shape w in
              intro g expected small (
                at,
                s.position,
                o,
                called,
                lt,
                near,
                subst (λ (n : ℕ). At body (s.position - 1) (i32_const n)) same addr_at,
                here,
              )

          on :
              (x : Bool)
              → (x ≡ true → a ≡ expected)
              → (y : Bool) → (y ≡ true → s.position - at ≤ 3)
              → IsAfter s.position (
                  if x && y
                  then record s { found = insert g expected s.found; pending = none }
                  else s)
          on false hx y hy = kept s.pending refl
          on true hx false hy = kept s.pending refl
          on true hx true hy =
              (Cleared-later _ _ c, tt, insert-All g expected s.found (found (hx refl) (hy refl)) f)

  await-IsAfter :
      (s : InvokeScan) (f : ℕ)
      → IsTrue s
      → f < imported
      → At body s.position (call f)
      → IsAfter s.position (await f s.cleared s)
  unfolding Cleared Pending
  await-IsAfter s f (w, c, p, fs) small here = from s.cleared c
    where
      from : (q : Option (ℕ × ℕ)) → Cleared s.position q → IsAfter s.position (await f q s)
      from none k = (Cleared-later _ _ c, Pending-later _ _ p, fs)
      from (some (a, at)) (lt, clear) = on (leb (s.position - at) lookbehind) (λ b. ground arith)
        where
          on :
              (x : Bool)
              → (x ≡ true → s.position - at ≤ 24)
              → IsAfter s.position (if x then record s { pending = some (f, a, s.position) } else s)
          on false hx = (Cleared-later _ _ c, Pending-later _ _ p, fs)
          on true hx =
              (Cleared-later _ _ c, (omega arith, small, (at, clear, lt, hx refl, here)), fs)

  examine-IsAfter :
      (op : Operator) (s : InvokeScan)
      → IsTrue s
      → At body s.position op
      → IsAfter s.position (examine imported op s)
  examine-IsAfter (i32_store o) s h here = clear_at-IsAfter s o h here
  examine-IsAfter (i32_load o) s h here = read_back-IsAfter s o h here
  examine-IsAfter (call f) s (w, c, p, fs) here = on (ltb f imported) (λ b. ground arith)
    where
      on :
          (x : Bool)
          → (x ≡ true → f < imported)
          → IsAfter s.position (if x then await f s.cleared s else s)
      on true small = await-IsAfter s f (w, c, p, fs) (small refl) here
      on false small = (Cleared-later _ _ c, Pending-later _ _ p, fs)
  examine-IsAfter _ s (w, c, p, fs) here = (Cleared-later _ _ c, Pending-later _ _ p, fs)

  examine-window : (op : Operator) (s : InvokeScan) → (examine imported op s).window ≡ s.window
  examine-window op s = ground arith

  examine-position :
      (op : Operator) (s : InvokeScan) → (examine imported op s).position ≡ s.position
  examine-position op s = ground arith

  step-IsTrue :
      (op : Operator) (s : InvokeScan)
      → IsTrue s
      → At body s.position op
      → IsTrue (advance imported op (examine imported op s))
  unfolding Window
  step-IsTrue op s (w, c, p, fs) here =
      let (c', p', fs') = examine-IsAfter op s (w, c, p, fs) here in
      let wide : Window (suc s.position) (op ∷ s.window) = (
        omega arith,
        subst (λ (n : ℕ). At body n op) (omega arith) here,
        subst (λ (n : ℕ). Window n s.window) (omega arith) w,
      ) in
      let seen = Window-take 3 (suc s.position) (op ∷ s.window) wide in
      rw (examine-position op s, examine-window op s) (seen, c', p', fs')

  operators-IsTrue :
      (left : Reader Operator) (s s' : InvokeScan)
      → ((j : ℕ) → get_elem? left j ≡ get_elem? body (s.position + j))
      → IsTrue s
      → for_each reading_instruction (invoke_operator imported) left s ≡ ok s'
      → IsTrue s'
  unfolding invoke_operator
  operators-IsTrue [] s s' same h e = subst IsTrue (ok_inj _ refl e) h
  operators-IsTrue (none ∷ left) s s' same h e = cc
  operators-IsTrue (some op ∷ left) s s' same h e =
      let s1 = advance imported op (examine imported op s) in
      let base : s.position + 0 ≡ s.position = omega arith in
      let here = subst (λ (n : ℕ). At body n op) base (sym (same 0)) in
      let moved : s1.position ≡ suc s.position = ap suc (examine-position op s) in
      operators-IsTrue left s1 s' (λ j. same (suc j) ∙ ap (get_elem? body) (omega (arith, moved)))
        (step-IsTrue op s h here) e

  pub body-All :
      (found : List (ℕ × ℕ)) (s' : InvokeScan)
      → All P found
      → for_each reading_instruction (invoke_operator imported) body (begin_body found) ≡ ok s'
      → All P s'.found
  unfolding Window Cleared Pending
  body-All found s' h e =
      (operators-IsTrue body (begin_body found) s' (λ j. ap (get_elem? body) (omega arith))
        (tt, tt, tt, h) e).3
