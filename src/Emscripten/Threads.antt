-- ===== src/Emscripten/Threads.antt =====
-- The main thread's start and requests for threads: `__emscripten_init_main_thread_js` and
-- `pthread_create` of crates/oracle-core/src/emscripten.rs.
use wa_wasm_oracle.Prelude.{
  ℕ, Bool, true, false, List, [], ◌∷◌, ◌++◌, Option, none, some, length, take, min,
}
use wa_wasm_oracle.Prelude.Int.{ℤ, pos}
use wa_wasm_oracle.Prelude.Result.{Result, ok, err}
use wa_wasm_oracle.Prelude.Text.{codes}
use wa_wasm_oracle.Exports.{Instance, func}
use wa_wasm_oracle.State.{HostState, ThreadPolicy, refuse, pretend_success, spawn, log}
use wa_wasm_oracle.Vals.{Val, i32}

module _ (instance_ : Instance) where
  abbrev pub init_names : Bool → List (List ℕ)
  init_names true = codes "__emscripten_thread_init" ∷ codes "_emscripten_thread_init" ∷ []
  init_names false = codes "__emscripten_thread_init" ∷ []

  abbrev pub main_thread_args : ℕ → List Val
  main_thread_args thread_ptr = i32 thread_ptr ∷ i32 1 ∷ i32 1 ∷ i32 0 ∷ i32 0 ∷ i32 0 ∷ []

  -- A call whose failure is logged behind a prefix.
  abbrev pub logging_failure : List ℕ → HostState × Result (List ℕ) (List Val) → HostState
  logging_failure prefix (h, ok results) = h
  logging_failure prefix (h, err error) = log (prefix ++ error) h

  abbrev pub init_tls : HostState → HostState
  init_tls h = elim (instance_.funcs (codes "_emscripten_tls_init")) [
    | none ↦ h
    | some tls ↦ logging_failure (codes "_emscripten_tls_init (main): ") (tls.call [] h)
  ]

  unfoldable pub init_main_thread_js : ℕ → HostState → HostState
  init_main_thread_js thread_ptr h = elim (func instance_ (init_names h.register_main_thread) h) [
    | err error ↦ h
    | ok init ↦ init_tls (
        logging_failure (codes "__emscripten_init_main_thread_js: ")
          (init.call (take (min (length init.params) 6) (main_thread_args thread_ptr)) h))
  ]

-- The spawner of the instance, if it has one: the errno of a request.
module _ (spawner : Option (ℕ → ℕ → ℕ → HostState → HostState × ℤ)) where
  abbrev pub eagain : ℤ
  eagain = pos 11

  abbrev pub answer_request : ThreadPolicy → ℕ → ℕ → ℕ → HostState → HostState × ℤ × List ℕ
  answer_request refuse thread_ptr routine arg h =
      (h, eagain, codes "refused, host is single-threaded")
  answer_request pretend_success thread_ptr routine arg h =
      (h, pos 0, codes "reported as started, but never runs")
  answer_request spawn thread_ptr routine arg h = elim spawner [
    | none ↦ (h, eagain, codes "no spawner on this instance")
    | some start ↦ let (h', code) = start thread_ptr routine arg h in (h', code, codes "started")
  ]

  unfoldable pub pthread_create : ℕ → ℕ → ℕ → HostState → HostState × ℤ
  pthread_create thread_ptr routine arg h =
      let (h', code, note) = answer_request h.threads thread_ptr routine arg h in
      (log (codes "pthread_create: " ++ note) h', code)
