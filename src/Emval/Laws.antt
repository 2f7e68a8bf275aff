-- ===== src/Emval/Laws.antt =====
-- The reference counting of `val` handles.
use wa_wasm_oracle.Prelude.{
  ℕ, ◌+◌, ◌-◌, ◌^◌, ◌≤◌, ◌<◌, ◌≡◌, ◌≢◌, Option, none, some, arith, Option-cases, inl, inr, ltb,
  if◌then◌else◌,
}
use wa_wasm_oracle.Prelude.Map as Map
use wa_wasm_oracle.Prelude.Map.{nat_ord, lookup-insert, lookup-remove, same_iff}
use wa_wasm_oracle.Prelude.Words.{add32}
use wa_wasm_oracle.Values.{Value}
use wa_wasm_oracle.Emval.{EmvalTable, Entry, store, get, incref, decref, refs}

-- Live handles lie between 1 and `next`, and each has a reference.
abbrev pub IsSound : ℕ → ℕ → Option Entry → Type 0
IsSound next h none = Unit
IsSound next h (some e) = (0 < h) × (h ≤ next) × (0 < e.refcount) × (e.refcount < 2 ^ 32)

abbrev pub IsValid : EmvalTable → Type 0
IsValid t = (h : ℕ) → IsSound t.next h (Map.lookup h t.values)

-- In a valid table, while fewer than 2^32 handles were issued, `insert` gives a new handle that is not 0, with one
-- reference and the value behind it, and leaves every other handle alone.
pub store_lem :
    (v : Value) (t : EmvalTable)
    → IsValid t
    → t.next + 1 < 2 ^ 32
    → let (t', h) = store v t in
      (h ≢ 0)
      × (get h t ≡ none)
      × (get h t' ≡ some v)
      × (refs h t' ≡ 1)
      × ((j : ℕ) → j ≢ h → (get j t' ≡ get j t) × (refs j t' ≡ refs j t))
unfolding store get
store_lem v t valid room =
    let fits : add32 t.next 1 ≡ t.next + 1 = omega arith in
    let added =
      λ (j : ℕ). lookup-insert (t.next + 1) j (record { value = v; refcount = 1 }) t.values in
    (
      omega arith,
      rw fits (ground (arith, valid (t.next + 1))),
      rw fits (ground (arith, added (t.next + 1))),
      rw fits (ground (arith, added (t.next + 1))),
      λ j ne. rw fits (ground (arith, added j)),
    )

pub store-IsValid :
    (v : Value) (t : EmvalTable) → IsValid t → t.next + 1 < 2 ^ 32 → IsValid (store v t).0
unfolding store
store-IsValid v t valid room = λ j.
    ground
      (arith, valid j, lookup-insert (t.next + 1) j (record { value = v; refcount = 1 }) t.values)

-- In a valid table, while the count fits 32 bits, `incref` adds one reference to a live handle, keeps
-- every value, and touches nothing else.
pub incref_lem :
    (h : ℕ) (t : EmvalTable)
    → IsValid t
    → refs h t + 1 < 2 ^ 32
    → (refs h (incref h t) ≡ (if ltb 0 (refs h t) then refs h t + 1 else 0))
      × (get h (incref h t) ≡ get h t)
      × ((j : ℕ) → j ≢ h → (get j (incref h t) ≡ get j t) × (refs j (incref h t) ≡ refs j t))
unfolding incref get
incref_lem h t valid room = elim (Option-cases (Map.lookup h t.values)) [
  | inl gone ↦ (ground (arith, gone), ground (arith, gone), λ j ne. ground (arith, gone))
  | inr (e, live) ↦
      let added =
        λ (j : ℕ). lookup-insert h j (record e { refcount = add32 e.refcount 1 }) t.values in
      (
        ground (arith, live, valid h, added h),
        ground (arith, live, added h),
        λ j ne. (ground (arith, live, added j), ground (arith, live, added j)),
      )
]

-- In a valid table `decref` takes one reference, the value is gone exactly when none is left, and other
-- handles keep their values and references.
pub decref_lem :
    (h : ℕ) (t : EmvalTable)
    → IsValid t
    → (refs h (decref h t) ≡ refs h t - 1)
      × (get h (decref h t) ≡ (if ltb 1 (refs h t) then get h t else none))
      × ((j : ℕ) → j ≢ h → (get j (decref h t) ≡ get j t) × (refs j (decref h t) ≡ refs j t))
unfolding decref get
decref_lem h t valid = elim (Option-cases (Map.lookup h t.values)) [
  | inl gone ↦ (ground (arith, gone), ground (arith, gone), λ j ne. ground (arith, gone))
  | inr (e, live) ↦
      let kept = λ (j : ℕ). lookup-insert h j (record e { refcount = e.refcount - 1 }) t.values in
      let dropped = λ (j : ℕ). lookup-remove h j t.values in
      (
        ground (arith, live, valid h, kept h, dropped h),
        ground (arith, live, valid h, kept h, dropped h),
        λ j ne. (ground (arith, live, kept j, dropped j), ground (arith, live, kept j, dropped j)),
      )
]

-- After `decref` in a valid table the live handles still lie between 1 and `next`, and each has a reference below 2^32.
pub decref-IsValid : (h : ℕ) (t : EmvalTable) → IsValid t → IsValid (decref h t)
unfolding decref
decref-IsValid h t valid = λ j. elim (Option-cases (Map.lookup h t.values)) [
  | inl gone ↦ ground (arith, valid j, gone)
  | inr (e, live) ↦ ground (
    arith,
    live,
    valid h,
    valid j,
    lookup-insert h j (record e { refcount = e.refcount - 1 }) t.values,
    lookup-remove h j t.values,
  )
]
