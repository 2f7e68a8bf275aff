-- ===== src/Turn/Laws.antt =====
-- What a thread that asked for the turn gets.
use wa_wasm_oracle.Prelude.{
  ℕ, ◌+◌, ◌-◌, ◌≡◌, ◌⊎◌, refl, ap, ◌∙◌, arith, Bool, true, false, List, [], ◌∷◌, Option, none, some,
  ◌==◌, if◌then◌else◌,
}
use wa_wasm_oracle.Schedule.{Scheduler, begin_acquire, poll_turn, take_turn, turn_timeout}
use wa_wasm_oracle.State.{HostState}
use wa_wasm_oracle.Turn.{Waits, with_scheduler, if_granted, wait_turn, acquire}

abbrev pub holder_of : HostState → Option ℕ
holder_of h = h.shared.scheduler.holder

poll_turn-holder :
    (thread deadline now : ℕ) (s s' : Scheduler)
    → poll_turn thread deadline now s ≡ some s'
    → s'.holder ≡ some thread
unfolding poll_turn
poll_turn-holder thread deadline now s s' e = ground arith

poll_turn-deadline :
    (thread deadline : ℕ) (s : Scheduler)
    → (s' : Scheduler) × (poll_turn thread deadline deadline s ≡ some s')
unfolding poll_turn
poll_turn-deadline thread deadline s = on s.holder
  where
    on :
        (o : Option ℕ)
        → (s' : Scheduler) × ((elim o [
          | none ↦ some (take_turn thread s)
          | some holder ↦
              if holder == thread
              then some (take_turn thread s)
              else if deadline - deadline == 0
              then some (take_turn thread (record s { forced = s.forced + 1 }))
              else none
        ])
            ≡ some s')
    on none = (take_turn thread s, refl)
    on (some holder) = other (holder == thread) (deadline - deadline == 0) (no_time deadline)
      where
        no_time : (d : ℕ) → (d - d == 0) ≡ true
        no_time d = ground arith

        other :
            (b c : Bool)
            → c ≡ true
            → (s' : Scheduler) × ((if b
                  then some (take_turn thread s)
                  else if c
                  then some (take_turn thread (record s { forced = s.forced + 1 }))
                  else none)
                ≡ some s')
        other true c e = (take_turn thread s, refl)
        other false true e = (take_turn thread (record s { forced = s.forced + 1 }), refl)
        other false false e = cc

wait_turn-holder :
    (thread deadline : ℕ) (looks : List (ℕ × (HostState → HostState))) (h : HostState)
    → holder_of (wait_turn thread deadline looks h) ≡ some thread
unfolding wait_turn
wait_turn-holder thread deadline [] h =
    let (s, e) = poll_turn-deadline thread deadline h.shared.scheduler in
    ap (λ o. holder_of (if_granted o h)) e
    ∙ poll_turn-holder thread deadline deadline h.shared.scheduler s e
wait_turn-holder thread deadline ((now, others) ∷ looks) h =
    on (poll_turn thread deadline now h.shared.scheduler) refl
      (wait_turn-holder thread deadline looks (others h))
  where
    on :
        (o : Option Scheduler)
        → poll_turn thread deadline now h.shared.scheduler ≡ o
        → holder_of (wait_turn thread deadline looks (others h)) ≡ some thread
        → holder_of (elim o [
          | some s ↦ with_scheduler s h
          | none ↦ wait_turn thread deadline looks (others h)
        ])
          ≡ some thread
    on (some s) e later = poll_turn-holder thread deadline now h.shared.scheduler s e
    on none e later = later

poll_turn-free :
    (thread deadline now : ℕ) (s : Scheduler)
    → (s.holder ≡ none) ⊎ (s.holder ≡ some thread)
    → poll_turn thread deadline now s ≡ some (take_turn thread s)
unfolding poll_turn
poll_turn-free thread deadline now s free = ground (arith, free)

wait_turn-free :
    (thread deadline : ℕ) (looks : List (ℕ × (HostState → HostState))) (h : HostState)
    → (holder_of h ≡ none) ⊎ (holder_of h ≡ some thread)
    → wait_turn thread deadline looks h ≡ with_scheduler (take_turn thread h.shared.scheduler) h
unfolding wait_turn
wait_turn-free thread deadline [] h free =
    ap (λ o. if_granted o h) (poll_turn-free thread deadline deadline h.shared.scheduler free)
wait_turn-free thread deadline ((now, others) ∷ looks) h free =
    ap
      (λ (o : Option Scheduler). elim o [
        | some s ↦ with_scheduler s h
        | none ↦ wait_turn thread deadline looks (others h)
      ])
      (poll_turn-free thread deadline now h.shared.scheduler free)

pub acquire-holder :
    (w : Waits) (thread : ℕ) (h : HostState)
    → (h.shared.scheduler.enabled ≡ true → holder_of (acquire w thread h) ≡ some thread)
      × (h.shared.scheduler.enabled ≡ true
          → (holder_of h ≡ none) ⊎ (holder_of h ≡ some thread)
          → acquire w thread h
            ≡ with_scheduler (record h.shared.scheduler { holder = some thread }) h)
      × (h.shared.scheduler.enabled ≡ false → acquire w thread h ≡ h)
unfolding acquire begin_acquire
acquire-holder w thread h = (
  (λ on.
      ap (λ b. holder_of (behind (asked b))) on
      ∙ wait_turn-holder thread deadline (w.looks asking) asking),
  (λ on free.
      ap (λ b. behind (asked b)) on
      ∙ wait_turn-free thread deadline (w.looks asking) asking free
      ∙ ap (λ n. with_scheduler (record h.shared.scheduler { holder = some thread; waiting = n }) h)
          (counted h.shared.scheduler.waiting)),
  (λ off. ap (λ b. behind (asked b)) off),
)
  where
    deadline : ℕ
    deadline = w.clock h + turn_timeout h.shared.scheduler

    one_more : Scheduler
    one_more = record h.shared.scheduler { waiting = h.shared.scheduler.waiting + 1 }

    asking : HostState
    asking = with_scheduler one_more h

    asked : Bool → Option (ℕ × Scheduler)
    asked b = if b then some (deadline, one_more) else none

    behind : Option (ℕ × Scheduler) → HostState
    behind o = elim o [
      | none ↦ h
      | some (d, s) ↦ let g = with_scheduler s h in wait_turn thread d (w.looks g) g
    ]

    counted : (n : ℕ) → n + 1 - 1 ≡ n
    counted n = omega arith
