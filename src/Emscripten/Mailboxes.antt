-- ===== src/Emscripten/Mailboxes.antt =====
-- A notification of a mailbox, and the wait that it ends.
use wa_wasm_oracle.Prelude.{
  ℕ, ◌≡◌, ◌≢◌, refl, ap, subst, sym, ◌∙◌, arith, Bool, true, false, List, [], ◌∷◌, Option, none,
  some, if◌then◌else◌, ◌==◌,
}
use wa_wasm_oracle.Prelude.Map.{
  nat_ord, lookup, remove, contains_key, lookup-insert_self, lookup-remove_self,
}
use wa_wasm_oracle.Exports.{Instance}
use wa_wasm_oracle.Emscripten.{
  as_u64, check_mailbox, notify_mailbox_postmessage, thread_mailbox_await,
}
use wa_wasm_oracle.Shared.{notify_mailbox, take_mailbox}
use wa_wasm_oracle.State.{HostState}

remove-absent : (k : ℕ) (m : List (ℕ × Unit {0})) → lookup k m ≡ none → remove k m ≡ m
unfolding lookup remove
remove-absent k [] e = refl
remove-absent k ((j, u) ∷ m) e = ground (arith, remove-absent k m)

-- The state once the notification of the thread's own mailbox is taken.
abbrev pub consumed : HostState → HostState
consumed h = record h {
  shared = record h.shared { mailboxes = remove h.thread_id h.shared.mailboxes };
}

module _ (instance_ : Instance) where
  await-pending :
      (g : HostState)
      → contains_key g.thread_id g.shared.mailboxes ≡ true
      → thread_mailbox_await instance_ g ≡ check_mailbox instance_ (consumed g)
  unfolding thread_mailbox_await take_mailbox
  await-pending g e = ap (λ b. if b then check_mailbox instance_ (consumed g) else consumed g) e

  await-nothing :
      (g : HostState)
      → contains_key g.thread_id g.shared.mailboxes ≡ false
      → thread_mailbox_await instance_ g ≡ consumed g
  unfolding thread_mailbox_await take_mailbox
  await-nothing g e = ap (λ b. if b then check_mailbox instance_ (consumed g) else consumed g) e

  -- Without a notification a wait changes nothing.
  await-idle :
      (g : HostState)
      → contains_key g.thread_id g.shared.mailboxes ≡ false
      → thread_mailbox_await instance_ g ≡ g
  await-idle g e =
      await-nothing g e
      ∙ ap (λ m. record g { shared = record g.shared { mailboxes = m } })
          (remove-absent g.thread_id g.shared.mailboxes
            (absent (lookup g.thread_id g.shared.mailboxes) e))
    where
      absent :
          (o : Option (Unit {0}))
          → (elim o as (λ _. Bool) [ some v ↦ true | none ↦ false ]) ≡ false
          → o ≡ none
      absent none h = refl
      absent (some v) h = cc

  -- A notification from another thread stays until the thread that it is for waits: that wait takes
  -- the notification first, then runs the guest's handler on the state without it. Behind the wait,
  -- if the handler's run left the thread without a new notification, another wait runs nothing and
  -- changes nothing.
  pub thread_mailbox_await-notify :
      (target current : ℕ) (h : HostState)
      → h.thread_id ≡ as_u64 target
      → as_u64 target ≢ as_u64 current
      → let notified = notify_mailbox_postmessage instance_ target current h in
        let waited = thread_mailbox_await instance_ notified in
        (contains_key h.thread_id notified.shared.mailboxes ≡ true)
        × (contains_key h.thread_id (consumed notified).shared.mailboxes ≡ false)
        × (waited ≡ check_mailbox instance_ (consumed notified))
        × (contains_key waited.thread_id waited.shared.mailboxes ≡ false
            → thread_mailbox_await instance_ waited ≡ waited)
  unfolding notify_mailbox_postmessage notify_mailbox
  thread_mailbox_await-notify target current h mine others = subst Once (sym silent) once
    where
      Once : HostState → Type 0
      Once n =
          (contains_key h.thread_id n.shared.mailboxes ≡ true)
          × (contains_key h.thread_id
                (record n {
                  shared = record n.shared { mailboxes = remove n.thread_id n.shared.mailboxes };
                }).shared.mailboxes
              ≡ false)
          × (thread_mailbox_await instance_ n ≡ check_mailbox instance_ (consumed n))
          × (contains_key (thread_mailbox_await instance_ n).thread_id
                  (thread_mailbox_await instance_ n).shared.mailboxes
                ≡ false
              → thread_mailbox_await instance_ (thread_mailbox_await instance_ n)
                ≡ thread_mailbox_await instance_ n)

      posted : HostState
      posted = record h { shared = notify_mailbox (as_u64 target) h.shared }

      silent : notify_mailbox_postmessage instance_ target current h ≡ posted
      silent = ap (λ b. if b then check_mailbox instance_ posted else posted) (differ others)
        where
          differ : as_u64 target ≢ as_u64 current → (as_u64 target == as_u64 current) ≡ false
          differ ne = ground arith

      there : lookup h.thread_id posted.shared.mailboxes ≡ some tt
      there =
          ap (λ (k : ℕ). lookup k posted.shared.mailboxes) mine
          ∙ lookup-insert_self (as_u64 target) tt h.shared.mailboxes

      gone : lookup h.thread_id (consumed posted).shared.mailboxes ≡ none
      gone = lookup-remove_self h.thread_id posted.shared.mailboxes

      pending : contains_key h.thread_id posted.shared.mailboxes ≡ true
      pending = ap (λ (o : Option (Unit {0})). elim o [ some v ↦ true | none ↦ false ]) there

      once : Once posted
      once = (
        pending,
        ap (λ (o : Option (Unit {0})). elim o [ some v ↦ true | none ↦ false ]) gone,
        await-pending posted pending,
        await-idle (thread_mailbox_await instance_ posted),
      )
