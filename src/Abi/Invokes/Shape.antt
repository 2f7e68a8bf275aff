-- ===== src/Abi/Invokes/Shape.antt =====
-- The shape of a trampoline's call site, position by position.
use wa_wasm_oracle.Prelude.{ℕ, zero, ◌-◌, ◌≡◌, ◌≤◌, ◌<◌, arith, List, ◌∷◌, some, get_elem?}
use wa_wasm_oracle.Prelude.Map.{nat_ord}
use wa_wasm_oracle.Abi.{Operator, i32_const, i32_store, i32_load, call, Reader}
use wa_wasm_oracle.Abi.Invokes.{cleared_address, loaded_address}

-- An operator stands at a position of a body.
abbrev pub At : Reader Operator → ℕ → Operator → Type 0
At body n op = get_elem? body n ≡ some (some op)

-- `i32.const a / i32.const 0 / i32.store`, the store at position `c`.
abbrev pub IsClear : Reader Operator → ℕ → ℕ → Type 0
IsClear body c a =
    (o : ℕ) × (2 ≤ c)
    × At body (c - 2) (i32_const a)
    × At body (c - 1) (i32_const 0)
    × At body c (i32_store o)

-- A call of `f` at `p`, at most 24 operators behind such a store.
abbrev pub IsCall : Reader Operator → ℕ → ℕ → ℕ → Type 0
IsCall body f a p = (c : ℕ) × IsClear body c a × (c < p) × (p - c ≤ 24) × At body p (call f)

-- The flag is read back at most three operators behind the call.
abbrev pub IsInvoke : Reader Operator → ℕ → ℕ → Type 0
IsInvoke body f a =
    (p : ℕ) × (r : ℕ) × (o : ℕ) × IsCall body f a p
    × (p < r)
    × (r - p ≤ 3)
    × At body (r - 1) (i32_const a)
    × At body r (i32_load o)

pub cleared-window :
    (w : List Operator) (a : ℕ)
    → cleared_address w ≡ some a
    → (t : List Operator) × (w ≡ i32_const 0 ∷ i32_const a ∷ t)
cleared-window (i32_const zero ∷ i32_const addr ∷ t) a e = (t, ground arith)
cleared-window _ a e = cc

pub loaded-window :
    (w : List Operator) (a : ℕ)
    → loaded_address w ≡ some a
    → (t : List Operator) × (w ≡ i32_const a ∷ t)
loaded-window (i32_const addr ∷ t) a e = (t, ground arith)
loaded-window _ a e = cc
