-- ===== src/Abi/Scan/Origins.antt =====
-- The walk of `scan_body` against a symbolic run of the same operators: where it takes an operand
-- for a parameter, the operand is the argument or arithmetic on it.
use wa_wasm_oracle.Prelude.{
  ℕ, ◌≡◌, refl, ◌≢◌, arith, Bool, true, false, List, [], ◌∷◌, ◌==◌, if◌then◌else◌, subst,
}
use wa_wasm_oracle.Abi.{Operator, br, br_table, return_op, else_op}
use wa_wasm_oracle.Abi.Arms.{Arm, arm}
use wa_wasm_oracle.Abi.Scan.{
  Origin, param, derived, other_origin, Scan, param_of, contains, without, retire_if_clobbered,
  take_arm, begin_scan, top, rest, carried,
}
use wa_wasm_oracle.Abi.Scan.Laws.{scan_all, scan_one}

-- A value of the symbolic run.
pub data Value : Type 0 where
  argument : ℕ → Value
  reckoning : Value → Value → Value
  unknown : Value

pub data Occurs (i : ℕ) : Value → Type 0 where
  itself : Occurs i (argument i)
  left : {l r : Value} → Occurs i l → Occurs i (reckoning l r)
  right : {l r : Value} → Occurs i r → Occurs i (reckoning l r)

pub record Machine : Type 0 where
  pub locals : ℕ → Value
  pub values : List Value

abbrev pub assign : (ℕ → Value) → ℕ → Value → ℕ → Value
assign locals i v j = if i == j then v else locals j

-- One operator, by its arm, where control goes on behind it. A call leaves any stack.
pub data Step : Arm → Machine → Machine → Type 0 where
  get :
      {i : ℕ} {l : ℕ → Value} {vs : List Value}
      → Step
          (Arm.gets i)
          (record { locals = l; values = vs })
          (record { locals = l; values = l i ∷ vs })
  set :
      {i : ℕ} {l : ℕ → Value} {v : Value} {vs : List Value}
      → Step
          (Arm.sets i)
          (record { locals = l; values = v ∷ vs })
          (record { locals = assign l i v; values = vs })
  tee :
      {i : ℕ} {l : ℕ → Value} {v : Value} {vs : List Value}
      → Step
          (Arm.tees i)
          (record { locals = l; values = v ∷ vs })
          (record { locals = assign l i v; values = v ∷ vs })
  drop_one :
      {l : ℕ → Value} {v : Value} {vs : List Value}
      → Step Arm.drops (record { locals = l; values = v ∷ vs }) (record { locals = l; values = vs })
  load :
      {w : ℕ} {l : ℕ → Value} {a : Value} {vs : List Value}
      → Step
          (Arm.loads w)
          (record { locals = l; values = a ∷ vs })
          (record { locals = l; values = unknown ∷ vs })
  store :
      {w : ℕ} {l : ℕ → Value} {v a : Value} {vs : List Value}
      → Step
          (Arm.stores w)
          (record { locals = l; values = v ∷ a ∷ vs })
          (record { locals = l; values = vs })
  compare_two :
      {l : ℕ → Value} {a b : Value} {vs : List Value}
      → Step Arm.compares
          (record { locals = l; values = b ∷ a ∷ vs })
          (record { locals = l; values = unknown ∷ vs })
  test :
      {l : ℕ → Value} {v : Value} {vs : List Value}
      → Step Arm.tests
          (record { locals = l; values = v ∷ vs })
          (record { locals = l; values = unknown ∷ vs })
  compute :
      {l : ℕ → Value} {a b : Value} {vs : List Value}
      → Step Arm.computes
          (record { locals = l; values = b ∷ a ∷ vs })
          (record { locals = l; values = reckoning a b ∷ vs })
  forward :
      {l : ℕ → Value} {vs ws : List Value}
      → Step Arm.forwards (record { locals = l; values = vs }) (record { locals = l; values = ws })
  produce :
      {l : ℕ → Value} {vs : List Value}
      → Step Arm.produces
          (record { locals = l; values = vs })
          (record { locals = l; values = unknown ∷ vs })
  keep : {m : Machine} → Step Arm.keeps m m
  branch :
      {l : ℕ → Value} {c : Value} {vs : List Value}
      → Step Arm.branches
          (record { locals = l; values = c ∷ vs })
          (record { locals = l; values = vs })
  select :
      {l : ℕ → Value} {c a b : Value} {vs : List Value}
      → Step Arm.selects
          (record { locals = l; values = c ∷ b ∷ a ∷ vs })
          (record { locals = l; values = unknown ∷ vs })

-- Whether a run can go on with the next operator of the body. Behind a `br`, a `br_table` and a
-- `return` it cannot, and at an `else` it leaves the branch that it is in.
abbrev pub goes_on : Operator → Bool
goes_on (br _) = false
goes_on (br_table _ _) = false
goes_on return_op = false
goes_on else_op = false
goes_on op = true

-- A run of the operators in their order: into the first branch of an `if`, and past a `br_if` whose
-- condition is zero.
pub data Falls : List Operator → Machine → Machine → Type 0 where
  done : {m : Machine} → Falls [] m m
  then_step :
      {op : Operator} {ops : List Operator} {m n k : Machine}
      → goes_on op ≡ true
      → Step (arm op) m n
      → Falls ops n k
      → Falls (op ∷ ops) m k

abbrev pub entry_machine : Machine
entry_machine = record { locals = argument; values = [] }

-- What an origin claims of a value.
abbrev pub Claims : Origin → Value → Type 0
Claims (param i) v = Occurs i v
Claims (derived i) v = Occurs i v
Claims other_origin v = Unit

-- The operands that the walk holds are on top of the run's.
abbrev pub Matches : List Origin → List Value → Type 0
Matches [] vs = Unit
Matches (o ∷ os) [] = ⊥
Matches (o ∷ os) (v ∷ vs) = Claims o v × Matches os vs

abbrev pub Agrees : Scan → Machine → Type 0
Agrees s m = ((i : ℕ) → contains i s.live ≡ true → Occurs i (m.locals i)) × Matches s.stack m.values

contains-without :
    (i j : ℕ) (live : List ℕ)
    → contains j (without i live) ≡ true
    → (i ≢ j) × (contains j live ≡ true)
contains-without i j [] h = absurd (no h)
  where
    no : false ≡ true → ⊥
    no e = cc
contains-without i j (k ∷ live) h = ground (arith, contains-without i j live)

-- A write to a local keeps the claim on every slot that stays live.
module _ (live : List ℕ) (locals : ℕ → Value)
    (agrees : (i : ℕ) → contains i live ≡ true → Occurs i (locals i)) (i : ℕ) (v : Value) where
  assign-agrees :
      (o : Origin)
      → Claims o v
      → (j : ℕ) → contains j (retire_if_clobbered live i o) ≡ true
      → Occurs j (assign locals i v j)
  unfolding retire_if_clobbered
  assign-agrees other_origin c j h =
      let (ne, alive) = contains-without i j live h in ground (arith, agrees j alive)
  assign-agrees (param k) c j h =
      ground
        (arith, agrees j, contains-without i j live, λ (e : k ≡ j). subst (λ n. Occurs n v) e c)
  assign-agrees (derived k) c j h =
      ground
        (arith, agrees j, contains-without i j live, λ (e : k ≡ j). subst (λ n. Occurs n v) e c)

Claims-top :
    (os : List Origin) (v : Value) (vs : List Value) → Matches os (v ∷ vs) → Claims (top os) v
Claims-top [] v vs h = tt
Claims-top (o ∷ os) v vs h = h.0

Matches-rest :
    (os : List Origin) (v : Value) (vs : List Value) → Matches os (v ∷ vs) → Matches (rest os) vs
Matches-rest [] v vs h = tt
Matches-rest (o ∷ os) v vs h = h.1

Claims-carried :
    (l r : Origin) (a b : Value)
    → Claims l a
    → Claims r b
    → Claims (carried (param_of l) (param_of r)) (reckoning a b)
Claims-carried (param i) r a b p q = left p
Claims-carried (derived i) r a b p q = left p
Claims-carried other_origin (param i) a b p q = right q
Claims-carried other_origin (derived i) a b p q = right q
Claims-carried other_origin other_origin a b p q = tt

step-Agrees :
    (a : Arm) (s : Scan) (m n : Machine) → Step a m n → Agrees s m → Agrees (take_arm a s) n
unfolding take_arm
step-Agrees _ s _ _ (get {i} {l}) (live, ops) = (live, (on (contains i s.live) refl, ops))
  where
    on : (b : Bool) → contains i s.live ≡ b → Claims (if b then param i else other_origin) (l i)
    on true e = live i e
    on false e = tt
step-Agrees _ s _ _ (set {i} {l} {v} {vs}) (live, ops) = (
  assign-agrees s.live l live i v (top s.stack) (Claims-top s.stack v vs ops),
  Matches-rest s.stack v vs ops,
)
step-Agrees _ s _ _ (tee {i} {l} {v} {vs}) (live, ops) =
    (assign-agrees s.live l live i v (top s.stack) (Claims-top s.stack v vs ops), ops)
step-Agrees _ s _ _ (drop_one {vs}) (live, ops) = (live, Matches-rest s.stack _ vs ops)
step-Agrees _ s _ _ (load {vs}) (live, ops) = (live, (tt, Matches-rest s.stack _ vs ops))
step-Agrees _ s _ _ (store {vs}) (live, ops) =
    (live, Matches-rest (rest s.stack) _ vs (Matches-rest s.stack _ _ ops))
step-Agrees _ s _ _ (compare_two {vs}) (live, ops) =
    (live, (tt, Matches-rest (rest s.stack) _ vs (Matches-rest s.stack _ _ ops)))
step-Agrees _ s _ _ (test {vs}) (live, ops) = (live, (tt, Matches-rest s.stack _ vs ops))
step-Agrees _ s _ _ (compute {a} {b} {vs}) (live, ops) =
    let below = Matches-rest s.stack b (a ∷ vs) ops in
    (
      live,
      (
        Claims-carried (top (rest s.stack)) (top s.stack) a b (Claims-top (rest s.stack) a vs below)
            (Claims-top s.stack b (a ∷ vs) ops),
        Matches-rest (rest s.stack) a vs below,
      ),
    )
step-Agrees _ s _ _ forward (live, ops) = (live, tt)
step-Agrees _ s _ _ produce (live, ops) = (live, (tt, ops))
step-Agrees _ s _ _ keep h = h
step-Agrees _ s _ _ (branch {vs}) (live, ops) = (live, Matches-rest s.stack _ vs ops)
step-Agrees _ s _ _ (select {vs}) (live, ops) = (
  live,
  (
    tt,
    Matches-rest (rest (rest s.stack)) _ vs
        (Matches-rest (rest s.stack) _ _ (Matches-rest s.stack _ _ ops)),
  ),
)

module _ (debug : Operator → List ℕ) (limit : ℕ) (segments : List (ℕ × List ℕ)) where
  Falls-Agrees :
      (ops : List Operator) (s : Scan) (m n : Machine)
      → Falls ops m n
      → Agrees s m
      → Agrees (scan_all debug limit segments ops s) n
  Falls-Agrees _ s m _ done h = h
  Falls-Agrees _ s m n (then_step {op} {ops} {n = middle} on first others) h =
      Falls-Agrees ops (scan_one debug limit segments op s) middle n others
        (step-Agrees (arm op) _ m middle first h)

-- Behind operators that the scan has an arm for and that a run executes in their order, without a
-- jump, the `i`th argument occurs in each operand that the scan holds for parameter `i`, as it is or
-- in sums, differences, products and shifts, and in the value of the local `i` while the scan counts
-- that local as live. The operands are aligned from the top of the stack. Nothing is said of an
-- operator without an arm, nor of code behind a jump.
pub scan_all-Agrees :
    (debug : Operator → List ℕ) (limit : ℕ) (segments : List (ℕ × List ℕ)) (params : ℕ)
    (ops : List Operator) (m : Machine)
    → Falls ops entry_machine m
    → Agrees (scan_all debug limit segments ops (begin_scan params)) m
scan_all-Agrees debug limit segments params ops m path =
    Falls-Agrees debug limit segments ops (begin_scan params) entry_machine m path
      ((λ i h. itself), tt)
