-- ===== src/Shared/Tests.antt =====
-- Concrete runs of the shared state: crates/oracle-core/src/shared.rs.
use wa_wasm_oracle.Prelude.{refl, [], ◌∷◌, arith}
use wa_wasm_oracle.Prelude.Text.{codes}
use wa_wasm_oracle.Shared.{SharedHost, fresh_shared, log, push_line, reserve_seq}
use wa_wasm_oracle.Shared.Log.{IsBounded, log-IsBounded}
use wa_wasm_oracle.Shared.Numbers.{
  IsNumbered, Logging, LogSteps, LogSteps-IsNumbered, push, reserve, start, step,
}

fresh-IsBounded : IsBounded fresh_shared
fresh-IsBounded = record { few_calls = omega arith; few_lines = omega arith; short_lines = tt }

log-IsBounded_example : IsBounded (log 1 (codes "started") fresh_shared)
log-IsBounded_example = log-IsBounded 1 (codes "started") fresh_shared fresh-IsBounded

abbrev idle : Logging
idle = record { shared = fresh_shared; reserved = [] }

abbrev took_first : SharedHost
took_first = (reserve_seq fresh_shared).0

abbrev took_second : SharedHost
took_second = (reserve_seq took_first).0

-- Two threads take numbers, and the second pushes its line first.
abbrev one_pushed : Logging
one_pushed = record { shared = push_line 1 2 (codes "second") took_second; reserved = 0 ∷ [] }

idle-IsNumbered : IsNumbered idle
idle-IsNumbered = record { once = λ n. omega arith; below = λ n h. refl }

idle-one_pushed : LogSteps idle one_pushed
unfolding reserve_seq
idle-one_pushed =
    step
      (step (step start (reserve fresh_shared [] (omega arith)))
        (reserve took_first (0 ∷ []) (omega arith)))
      (push took_second [] (0 ∷ []) 1 2 (codes "second"))

LogSteps-IsNumbered_example : IsNumbered one_pushed
LogSteps-IsNumbered_example = LogSteps-IsNumbered idle-one_pushed idle-IsNumbered
