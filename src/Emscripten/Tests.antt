-- ===== src/Emscripten/Tests.antt =====
-- Concrete runs of the emscripten imports: crates/oracle-core/src/emscripten.rs.
use wa_wasm_oracle.Prelude.{ℕ, ◌+◌, ◌*◌, ◌≡◌, refl, arith, true, false, List, [], ◌∷◌, none, some}
use wa_wasm_oracle.Prelude.Int.{pos}
use wa_wasm_oracle.Prelude.Map.{nat_ord, contains_key}
use wa_wasm_oracle.Prelude.Result.{Result, ok, err}
use wa_wasm_oracle.Prelude.Text.{codes}
use wa_wasm_oracle.Exports.{Instance, Func, table, callable, i32_type, i64_type}
use wa_wasm_oracle.Emscripten.Heap.{page}
use wa_wasm_oracle.Emscripten.{
  getentropy, get_random_bytes_js, notify_mailbox_postmessage, thread_mailbox_await, check_mailbox,
  as_u64,
}
use wa_wasm_oracle.Emscripten.Invokes.{invoke, table_entry}
use wa_wasm_oracle.Emscripten.Invokes.Laws.{Contained, invoke-Contained}
use wa_wasm_oracle.Emscripten.Mailboxes.{consumed, thread_mailbox_await-notify}
use wa_wasm_oracle.Emscripten.Random.{getentropy-fills}
use wa_wasm_oracle.Memory.{Mem, read}
use wa_wasm_oracle.Random.{random_bytes, seed_for}
use wa_wasm_oracle.Shared.{fresh_shared}
use wa_wasm_oracle.State.{HostState, for_thread, refuse}
use wa_wasm_oracle.Vals.{Val, i32}

abbrev one_page : Mem
one_page = record { size = 65536; cell = λ p. 0 }

-- Thread 3, in a module of one page.
abbrev third_thread : HostState
third_thread = record (for_thread fresh_shared 3 refuse) {
  guest = record { memory = some one_page; linear = none };
}

abbrev bare : Instance
bare = record { funcs = λ name. none; tables = λ name. none; memories = λ name. none }

abbrev grow_by : ℕ → Mem → Result (List ℕ) Mem
grow_by delta m = ok (record m { size = m.size + delta * page })

getentropy-fills_example :
    (get_random_bytes_js bare 8 16 third_thread ≡ (getentropy bare 16 8 third_thread).0)
    × ((getentropy bare 16 8 third_thread).1 ≡ pos 0
        → (read (getentropy bare 16 8 third_thread).0.guest 16 8
            ≡ ok (random_bytes 8 third_thread.rng).1)
          × ((getentropy bare 16 8 third_thread).0.rng ≡ (random_bytes 8 third_thread.rng).0))
unfolding for_thread seed_for
getentropy-fills_example = getentropy-fills bare 16 8 third_thread (omega arith)

abbrev notified_third : HostState
notified_third = notify_mailbox_postmessage bare 3 1 third_thread

thread_mailbox_await-notify_example :
    (contains_key third_thread.thread_id notified_third.shared.mailboxes ≡ true)
    × (contains_key third_thread.thread_id (consumed notified_third).shared.mailboxes ≡ false)
    × (thread_mailbox_await bare notified_third ≡ check_mailbox bare (consumed notified_third))
    × (contains_key
            (thread_mailbox_await bare notified_third).thread_id
            (thread_mailbox_await bare notified_third).shared.mailboxes
          ≡ false
        → thread_mailbox_await bare (thread_mailbox_await bare notified_third)
          ≡ thread_mailbox_await bare notified_third)
unfolding for_thread
thread_mailbox_await-notify_example =
    thread_mailbox_await-notify bare 3 1 third_thread refl (omega arith)

-- A table of functions that fail.
abbrev failing : Func
failing = record { params = []; results = []; call = λ args h. (h, err (codes "thrown")) }

abbrev failing_table : Instance
failing_table = record {
  funcs = λ name. none;
  tables = λ name. some (λ index. callable failing);
  memories = λ name. none;
}

invoke-Contained_example :
    ((error : List ℕ)
      → table_entry failing_table none (as_u64 5) third_thread ≡ err error
      → invoke failing_table none
          (λ v. [])
          (codes "invoke_ij")
          (i32_type ∷ i64_type ∷ [])
          (i32 5 ∷ [])
          (i32 9 ∷ i32 9 ∷ [])
          third_thread
        ≡ (third_thread, err error))
    × ((callee : Func)
        → table_entry failing_table none (as_u64 5) third_thread ≡ ok callee
        → (out : List Val) × (h' : HostState) × (invoke failing_table none
              (λ v. [])
              (codes "invoke_ij")
              (i32_type ∷ i64_type ∷ [])
              (i32 5 ∷ [])
              (i32 9 ∷ i32 9 ∷ [])
              third_thread
            ≡ (h', ok out))
          × Contained failing_table
              (codes "invoke_ij")
              (i32_type ∷ i64_type ∷ [])
              (callee.call [] third_thread)
              h'
              out)
invoke-Contained_example =
    invoke-Contained failing_table none (λ v. []) (codes "invoke_ij") (i32_type ∷ i64_type ∷ []) 5
      [] (i32 9 ∷ i32 9 ∷ []) third_thread refl

-- The failing call is met: the table's entry is the function that fails.
entry_five : table_entry failing_table none (as_u64 5) third_thread ≡ ok failing
unfolding table_entry table
entry_five = refl
