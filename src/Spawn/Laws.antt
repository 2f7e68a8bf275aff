-- ===== src/Spawn/Laws.antt =====
-- The turns and the count of guest threads.
use wa_wasm_oracle.Prelude.{
  ℕ, ◌≢◌, ◌⊎◌, inl, inr, true, ◌+◌, ◌^◌, ◌≡◌, ◌<◌, refl, ap, sym, subst, ◌∙◌, arith, List, [], ◌∷◌,
  ◌++◌, Option, none, some,
}
use wa_wasm_oracle.Prelude.Int.{pos}
use wa_wasm_oracle.Prelude.Result.{Result, ok, err}
use wa_wasm_oracle.Prelude.Text.{codes}
use wa_wasm_oracle.Exports.{Instance, Func}
use wa_wasm_oracle.Shared.{
  SharedHost, allocate_thread_id, thread_started, thread_finished, reserve_seq, push_line,
}
use wa_wasm_oracle.Shared as Shared
use wa_wasm_oracle.Spawn.{
  in_context, table_entry, bind_thread, exit_thread, finish_routine, run_routine, after_binding,
  run_thread, thread_text, spawn,
}
use wa_wasm_oracle.State.{HostState, log}
use wa_wasm_oracle.Schedule as Schedule
use wa_wasm_oracle.Turn.{Waits, acquire, release}
use wa_wasm_oracle.Vals.{i32}

-- The thread does not have the turn.
abbrev pub IsReleased : ℕ → HostState → Type 0
IsReleased id h = h.shared.scheduler.enabled ≡ true → h.shared.scheduler.holder ≢ some id

release-IsReleased : (id : ℕ) (h : HostState) → IsReleased id (release id h)
unfolding release Schedule.release
release-IsReleased id h = ground arith

log-IsReleased :
    (id : ℕ) (text : List ℕ) (h : HostState) → IsReleased id h → IsReleased id (log text h)
unfolding Shared.log
log-IsReleased id text h released = ground (arith, released)

module _ (table_export : Option (List ℕ)) (bring_up : HostState → Result (List ℕ) Instance)
    (yield_now : HostState → HostState) (waits : Waits) (hex : ℕ → List ℕ) (instance_ : Instance)
    (id : ℕ) where
  -- What a thread leaves: a state without its turn, behind which nothing of the guest's ran but
  -- `_emscripten_thread_exit`.
  abbrev pub Leaves : HostState → Type 0
  Leaves end =
      (h : HostState) × IsReleased id h
      × ((end ≡ h) ⊎ (end ≡ exit_thread table_export bring_up yield_now waits hex instance_ h))

  run_routine-Leaves :
      (start_routine arg : ℕ) (h : HostState)
      → IsReleased id h
      → Leaves
          (run_routine table_export bring_up yield_now waits hex instance_ id start_routine arg h).0
  run_routine-Leaves start_routine arg h released =
      from (table_entry table_export instance_ start_routine h)
    where
      finished :
          (q : HostState × Result (List ℕ) (Unit {0}))
          → Leaves (finish_routine table_export bring_up yield_now waits hex instance_ id q).0
      finished (g, outcome) =
          (_, log-IsReleased id _ (release id g) (release-IsReleased id g), inr refl)

      behind : Result (List ℕ) Func → HostState × Result (List ℕ) (Unit {0})
      behind q = elim q [
        | err error ↦ (h, err error)
        | ok entry ↦ finish_routine table_export bring_up yield_now waits hex instance_ id (
            in_context (codes "thread entry point") (
              entry.call (i32 arg ∷ []) (
                acquire waits id (
                  log
                    (thread_text table_export bring_up yield_now waits hex id
                      (codes "entering routine"))
                    h))))
      ]

      from : (q : Result (List ℕ) Func) → Leaves (behind q).0
      from (err error) = (h, released, inl refl)
      from (ok entry) = finished _

-- A guest thread whose runtime and thread-local storage were initialised gives its turn up before it
-- ends, whether its entry is no function, its routine returns, or the routine traps: while scheduling
-- is on, there is a state in which it does not hold the turn, and the guest code that it runs behind
-- that state is at most `_emscripten_thread_exit`. What that call itself leaves is not claimed.
pub run_thread-Leaves :
    (table_export : Option (List ℕ)) (bring_up : HostState → Result (List ℕ) Instance)
    (yield_now : HostState → HostState) (waits : Waits) (hex : ℕ → List ℕ)
    (thread_ptr start_routine arg : ℕ) (h h1 : HostState) (instance_ : Instance)
    → bring_up h ≡ ok instance_
    → bind_thread table_export bring_up yield_now waits hex instance_ h.thread_id thread_ptr h
      ≡ (h1, ok tt)
    → Leaves table_export bring_up yield_now waits hex instance_ h.thread_id
        (run_thread table_export bring_up yield_now waits hex thread_ptr start_routine arg h).0
unfolding run_thread
run_thread-Leaves table_export bring_up yield_now waits hex thread_ptr start_routine arg h h1
      instance_ up bound =
    subst (λ z. Leaves table_export bring_up yield_now waits hex instance_ h.thread_id z.0)
      (sym entered)
      (run_routine-Leaves table_export bring_up yield_now waits hex instance_ h.thread_id
        start_routine arg (release h.thread_id h1) (release-IsReleased h.thread_id h1))
  where
    behind : Result (List ℕ) Instance → HostState × Result (List ℕ) (Unit {0})
    behind q = elim q [
      | err error ↦ (h, err error)
      | ok i ↦
          after_binding table_export bring_up yield_now waits hex i h.thread_id start_routine arg
            (bind_thread table_export bring_up yield_now waits hex i h.thread_id thread_ptr h)
    ]

    entered :
        run_thread table_export bring_up yield_now waits hex thread_ptr start_routine arg h
        ≡ run_routine table_export bring_up yield_now waits hex instance_ h.thread_id start_routine
            arg
            (release h.thread_id h1)
    entered =
        ap behind up
        ∙ ap
            (after_binding table_export bring_up yield_now waits hex instance_ h.thread_id
              start_routine arg)
            bound

log-live : (thread : ℕ) (text : List ℕ) (s : SharedHost) → (Shared.log thread text s).live ≡ s.live
unfolding Shared.log
log-live thread text s = ground arith

-- A request for a thread counts one more live thread and answers 0 exactly if the host starts one;
-- where the host refuses, the count is what it was, and the guest is told to try again.
pub spawn-live :
    (s : SharedHost) (refusal : Option (List ℕ))
    → s.live + 1 < 2 ^ 64
    → ((refusal ≡ none) → ((spawn refusal s).0.live ≡ s.live + 1) × ((spawn refusal s).2 ≡ pos 0))
      × ((e : List ℕ)
          → refusal ≡ some e
          → ((spawn refusal s).0.live ≡ s.live) × ((spawn refusal s).2 ≡ pos 11))
unfolding spawn allocate_thread_id thread_started thread_finished
spawn-live s none small = ((λ e. (omega arith, refl)), (λ e no. cc))
spawn-live s (some error) small = (
  (λ e. cc),
  λ e same. (
    omega (
      arith,
      log-live 0 (codes "pthread_create: host refused: " ++ error)
          (thread_started (allocate_thread_id s).0),
    ),
    refl,
  ),
)
