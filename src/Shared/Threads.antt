-- ===== src/Shared/Threads.antt =====
-- What several threads do to the shared state: the numbers of log lines under any interleaving,
-- the threads inside guest code, thread ids, mailboxes, and the count of live threads.
use wa_wasm_oracle.Prelude.{
  ℕ, zero, suc, ◌+◌, ◌-◌, ◌^◌, ◌≤◌, ◌<◌, ◌≡◌, ◌≢◌, ◌∙◌, List, [], ◌∷◌, arith, All, Bool, true,
  false, ◌%◌, max, ap, Option, none, some,
}
use wa_wasm_oracle.Prelude.Map.{
  contains_key, insert, lookup-insert_self, lookup-remove_self, lookup-remove_ne, lookup-insert_ne,
  nat_ord,
}
use wa_wasm_oracle.Shared.{
  SharedHost, entered_wasm, left_wasm, allocate_thread_id, thread_started, thread_finished,
  notify_mailbox, take_mailbox,
}

-- How many threads are inside guest code at each moment of a run, and the highest such number.
pub data Crossing : Type 0 where
  enter leave : Crossing

abbrev pub cross : Crossing → SharedHost → SharedHost
cross enter = entered_wasm
cross leave = left_wasm

abbrev pub crossings : List Crossing → SharedHost → SharedHost
crossings [] s = s
crossings (c ∷ cs) s = crossings cs (cross c s)

abbrev pub peak : List Crossing → SharedHost → ℕ
peak [] s = s.in_wasm
peak (c ∷ cs) s = max s.in_wasm (peak cs (cross c s))

in_wasm-le-peak : (cs : List Crossing) (s : SharedHost) → s.in_wasm ≤ peak cs s
in_wasm-le-peak [] s = omega arith
in_wasm-le-peak (c ∷ cs) s = omega arith

-- `max_in_wasm` is the highest number of threads that were inside guest code at any one moment of
-- the run, for a run that starts with the maximum at least at the present number.
pub max_in_wasm-crossings :
    (cs : List Crossing) (s : SharedHost)
    → s.in_wasm ≤ s.max_in_wasm
    → (crossings cs s).max_in_wasm ≡ max s.max_in_wasm (peak cs s)
unfolding entered_wasm left_wasm
max_in_wasm-crossings [] s h = omega arith
max_in_wasm-crossings (enter ∷ cs) s h =
    max_in_wasm-crossings cs (entered_wasm s) (omega arith)
    ∙ omega (arith, in_wasm-le-peak cs (entered_wasm s))
max_in_wasm-crossings (leave ∷ cs) s h =
    max_in_wasm-crossings cs (left_wasm s) (omega arith) ∙ omega arith

abbrev pub IsAbsent : ℕ → List ℕ → Type 0
IsAbsent n = All (λ m. m ≢ n)

abbrev pub IsDistinct : List ℕ → Type 0
IsDistinct [] = Unit
IsDistinct (n ∷ ns) = IsAbsent n ns × IsDistinct ns

-- Threads that get an id.
abbrev pub take_ids : ℕ → SharedHost → List ℕ
take_ids zero s = []
take_ids (suc n) s = let (s', id) = allocate_thread_id s in id ∷ take_ids n s'

take_ids-above :
    (n lo : ℕ) (s : SharedHost)
    → lo ≤ s.next_thread_id
    → s.next_thread_id + n < 2 ^ 64
    → All (λ id. lo ≤ id) (take_ids n s)
unfolding allocate_thread_id
take_ids-above zero lo s h w = tt
take_ids-above (suc n) lo s h w =
    (h, take_ids-above n lo (allocate_thread_id s).0 (omega arith) (omega arith))

All-map {ℓ κ μ} :
    {A : Type ℓ} (P : A → Type κ) (Q : A → Type μ) (xs : List A)
    → ((x : A) → P x → Q x)
    → All P xs
    → All Q xs
All-map P Q [] f h = tt
All-map P Q (x ∷ xs) f h = (f x h.0, All-map P Q xs f h.1)

-- Below 2^64 allocations the ids of guest threads are distinct, and never 0, the instantiating
-- thread's, if the counter starts above 0.
pub take_ids-IsDistinct :
    (n : ℕ) (s : SharedHost)
    → 0 < s.next_thread_id
    → s.next_thread_id + n < 2 ^ 64
    → IsDistinct (take_ids n s) × IsAbsent 0 (take_ids n s)
unfolding allocate_thread_id
take_ids-IsDistinct zero s pos w = (tt, tt)
take_ids-IsDistinct (suc n) s pos w =
    let s' = (allocate_thread_id s).0 in
    let above = take_ids-above n (suc s.next_thread_id) s' (omega arith) (omega arith) in
    let rest = take_ids-IsDistinct n s' (omega arith) (omega arith) in
    (
      (
        All-map (λ id. suc s.next_thread_id ≤ id) (λ id. id ≢ s.next_thread_id) (take_ids n s')
            (λ id h. omega arith) above,
        rest.0,
      ),
      (omega arith, rest.1),
    )

abbrev is_some {ℓ} : {A : Type ℓ} → Option A → Bool
is_some (some a) = true
is_some none = false

-- For two different threads, mail that was posted to a thread is taken exactly once, and the mail of other threads stays.
pub take-notify_mailbox :
    (t u : ℕ) (s : SharedHost)
    → t ≢ u
    → let (s', got) = take_mailbox t (notify_mailbox t s) in
      (got ≡ true)
      × ((take_mailbox t s').1 ≡ false)
      × ((take_mailbox u s').1 ≡ (take_mailbox u s).1)
unfolding take_mailbox notify_mailbox
take-notify_mailbox t u s ne = (
  rw (lookup-insert_self t tt s.mailboxes, contains_key),
  rw (lookup-remove_self t (insert t tt s.mailboxes), contains_key),
  ap is_some
      (lookup-remove_ne t u (insert t tt s.mailboxes) ne ∙ lookup-insert_ne t u tt s.mailboxes ne),
)

-- A finished thread undoes the count of its start, also across the wrap.
pub finished-started : (s : SharedHost) → s.live < 2 ^ 64 → thread_finished (thread_started s) ≡ s
unfolding thread_started thread_finished
finished-started s h =
    let live : ((s.live + 1) % 2 ^ 64 + (2 ^ 64 - 1)) % 2 ^ 64 ≡ s.live = omega arith in
    ap (λ n. record s { live = n }) live
