-- ===== src/Host/Laws.antt =====
-- Turns at the crossings between host and guest.
use wa_wasm_oracle.Prelude.{
  ℕ, ◌≡◌, ◌≢◌, refl, ap, sym, ◌∙◌, arith, Bool, true, false, List, Option, none, some,
  if◌then◌else◌,
}
use wa_wasm_oracle.Host.{
  Watch, Watched, exiting_host, entering_host, note_growth, report_if, report_broken_watch,
  report_text, is_enough, watch_intact, enter, push_sighting, noted,
}
use wa_wasm_oracle.Memory.{Mem}
use wa_wasm_oracle.Schedule as Schedule
use wa_wasm_oracle.Schedule.{Scheduler}
use wa_wasm_oracle.Shared as Shared
use wa_wasm_oracle.Shared.{
  SharedHost, left_wasm, entered_wasm, note_memory_size, record_growth, push_line, reserve_seq,
}
use wa_wasm_oracle.State as State
use wa_wasm_oracle.State.{HostState}
use wa_wasm_oracle.Turn as Turn
use wa_wasm_oracle.Turn.{Waits, acquire}
use wa_wasm_oracle.Turn.Laws.{acquire-holder}

abbrev turns_of : HostState → Scheduler
turns_of h = h.shared.scheduler

abbrev pub turns : Watched → Scheduler
turns s = s.host.shared.scheduler

release-gone :
    (thread : ℕ) (s : Scheduler)
    → s.enabled ≡ true
    → (Schedule.release thread s).holder ≢ some thread
unfolding Schedule.release
release-gone thread s on held = ground (arith, on, held)

record_growth-turns :
    (line : List ℕ) (s : SharedHost) → (record_growth line s).scheduler ≡ s.scheduler
unfolding record_growth
record_growth-turns line s = ground arith

log-turns :
    (line : List ℕ) (h : HostState) → (State.log line h).shared.scheduler ≡ h.shared.scheduler
unfolding Shared.log push_line reserve_seq
log-turns line h = ground arith

module _ (frames : HostState → List (List ℕ)) (hex : ℕ → List ℕ) (others : Watch → Watch) where
  note_growth-turns :
      (h : HostState) → (note_growth frames hex others h).shared.scheduler ≡ h.shared.scheduler
  unfolding note_growth note_memory_size
  note_growth-turns h = grown h.guest.memory
    where
      noted_by :
          (size : ℕ) (o : Option ℕ)
          → (noted frames hex others size h
              (record h.shared { last_size = size }, o)).shared.scheduler
            ≡ h.shared.scheduler
      noted_by size none = refl
      noted_by size (some previous) = record_growth-turns _ _

      grown :
          (o : Option Mem)
          → turns_of (elim o [
            | none ↦ h
            | some m ↦ noted frames hex others m.size h (note_memory_size m.size h.shared)
          ])
            ≡ turns_of h
      grown none = refl
      grown (some m) = noted_by m.size _

  report_broken_watch-turns :
      (wrote sound : Bool) (s : Watched)
      → turns (report_broken_watch frames hex others wrote sound s) ≡ turns s
  unfolding report_broken_watch
  report_broken_watch-turns wrote sound s = on s.watch
    where
      pushed :
          (enough : Bool) (broken watch : Watch) (report : List ℕ)
          → turns (
              if enough
              then record s { watch = some broken }
              else record s { watch = some watch; host = State.log report s.host })
            ≡ turns s
      pushed true broken watch report = refl
      pushed false broken watch report = log-turns report s.host

      on :
          (o : Option Watch)
          → turns (elim o [
            | none ↦ s
            | some w ↦
                let broken = record w { broken = true } in
                let thread = s.host.thread_id in
                let report = report_text frames hex others wrote sound w.at s.host in
                if is_enough thread sound broken
                then record s { watch = some broken }
                else record s {
                  watch = some (push_sighting (thread, sound, report) (others broken));
                  host = State.log report s.host;
                }
          ])
            ≡ turns s
      on none = refl
      on (some w) = pushed _ _ _ _

  report_if-turns :
      (intact : Option Bool) (s : Watched) → turns (report_if frames hex others intact s) ≡ turns s
  unfolding report_if
  report_if-turns (some false) s = report_broken_watch-turns _ _ s
  report_if-turns (some true) s = refl
  report_if-turns none s = refl

  module _ (waits : Waits) (s : Watched) where
    -- With scheduling on and turns strict, a thread has the turn when it goes from the host into guest
    -- code, whatever the others do while it waits for it, and does not have it when it comes from
    -- guest code into the host; where turns are not strict, no crossing touches the turns. What the
    -- memory watch and the record of growth do on the way changes none of that.
    pub crossing-turns :
        (turns s).enabled ≡ true
        → ((turns s).strict ≡ true
            → ((turns (exiting_host frames hex others waits s)).holder ≡ some s.host.thread_id)
              × ((turns (entering_host frames hex others s)).holder ≢ some s.host.thread_id))
          × ((turns s).strict ≡ false
              → (turns (exiting_host frames hex others waits s) ≡ turns s)
                × (turns (entering_host frames hex others s) ≡ turns s))
    unfolding exiting_host entering_host entered_wasm left_wasm Turn.release
    crossing-turns on = (
      (λ strict. (
        ap (λ b. (turns (exit_if b)).holder) strict ∙ (acquire-holder waits thread s.host).0 on,
        λ held.
            release-gone thread (turns reported) (ap (λ t. t.enabled) reported-turns ∙ on)
              (ap (λ b. (turns (enter_if b)).holder) (sym strict) ∙ held),
      )),
      (λ loose.
          (ap (λ b. turns (exit_if b)) loose, ap (λ b. turns (enter_if b)) loose ∙ reported-turns)),
    )
      where
        thread : ℕ
        thread = s.host.thread_id

        intact : Option Bool
        intact = watch_intact s.watch s.host.guest.memory

        left : Watched
        left = record s {
          host = note_growth frames hex others (record s.host { shared = left_wasm s.host.shared });
        }

        reported : Watched
        reported = report_if frames hex others intact left

        reported-turns : turns reported ≡ turns s
        reported-turns =
            report_if-turns intact left
            ∙ note_growth-turns (record s.host { shared = left_wasm s.host.shared })

        exit_if : Bool → Watched
        exit_if b =
            if b
            then record s {
              host = enter frames hex others (acquire waits thread s.host);
              entering = intact;
            }
            else record s { host = enter frames hex others s.host; entering = none }

        enter_if : Bool → Watched
        enter_if b =
            if b then record reported { host = Turn.release thread reported.host } else reported
