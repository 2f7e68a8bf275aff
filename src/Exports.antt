-- ===== src/Exports.antt =====
-- Looking things up in the guest's exports: crates/oracle-core/src/exports.rs, and `sync_memory` of
-- state.rs. What the instance exports, and what its functions do when they are called, is
-- wasmtime's and the guest's.
use wa_wasm_oracle.Prelude.{
  ℕ, ◌+◌, Bool, false, ◌&&◌, ◌||◌, List, [], ◌∷◌, ◌++◌, Option, none, some, map, leb, ◌==◌,
  if◌then◌else◌, length,
}
use wa_wasm_oracle.Prelude.Result.{Result, ok, err}
use wa_wasm_oracle.Prelude.Sort.{decimal}
use wa_wasm_oracle.Prelude.Text.{codes, bytes_eq}
use wa_wasm_oracle.Memory.{Mem}
use wa_wasm_oracle.State.{HostState, log}
use wa_wasm_oracle.Vals.{Val}

pub data ValType : Type 0 where
  i32_type i64_type f32_type f64_type v128_type ref_type : ValType

-- A guest function: its signature, and what a call of it does. A call that fails has a message.
pub record Func : Type 0 where
  pub params : List ValType
  pub results : List ValType
  pub call : List Val → HostState → HostState × Result (List ℕ) (List Val)

pub data TableEntry : Type 0 where
  callable : Func → TableEntry
  no_function : List ℕ → TableEntry
  null_entry out_of_bounds_entry : TableEntry

abbrev pub Table : Type 0
Table = ℕ → TableEntry

-- What an instance exports under a name.
pub record Instance : Type 0 where
  pub funcs : List ℕ → Option Func
  pub tables : List ℕ → Option Table
  pub memories : List ℕ → Option Mem

-- `trim_start_matches('_')` and `to_ascii_lowercase`.
abbrev pub trim_underscores : List ℕ → List ℕ
trim_underscores [] = []
trim_underscores (c ∷ text) = if c == 95 then trim_underscores text else c ∷ text

abbrev pub to_lower : ℕ → ℕ
to_lower c = if leb 65 c && leb c 90 then c + 32 else c

abbrev pub normalise : List ℕ → List ℕ
normalise name = map to_lower (trim_underscores name)

abbrev pub is_among : List ℕ → List (List ℕ) → Bool
is_among name [] = false
is_among name (n ∷ names) = bytes_eq n name || is_among name names

unfoldable pub near_misses : List (List ℕ) → List (List ℕ) → List (List ℕ)
near_misses [] wanted = []
near_misses (name ∷ available) wanted =
    let rest = near_misses available wanted in
    if is_among (normalise name) (map normalise wanted) then name ∷ rest else rest

-- `{:?}` of a list of names. Names of exports are printable here; a quote and a backslash are
-- escaped.
abbrev pub escape : List ℕ → List ℕ
escape [] = []
escape (c ∷ text) = if c == 34 || c == 92 then 92 ∷ c ∷ escape text else c ∷ escape text

abbrev pub quoted : List ℕ → List ℕ
quoted name = codes "\"" ++ (escape name ++ codes "\"")

abbrev pub quoted_more : List (List ℕ) → List ℕ
quoted_more [] = codes "]"
quoted_more (n ∷ names) = codes ", " ++ (quoted n ++ quoted_more names)

abbrev pub debug_names : List (List ℕ) → List ℕ
debug_names [] = codes "[]"
debug_names (n ∷ names) = codes "[" ++ (quoted n ++ quoted_more names)

-- The dash of the message is three bytes.
abbrev pub spelling : List ℕ
spelling = 32 ∷ 0xe2 ∷ 0x80 ∷ 0x94 ∷ codes " spelling?"

abbrev pub suggest : List (List ℕ) → List (List ℕ) → List ℕ
suggest available [] =
    codes "; the module exports " ++ (decimal (length available) ++ codes " names, none like it")
suggest available (c ∷ close) =
    codes "; the module does export " ++ (debug_names (c ∷ close) ++ spelling)

abbrev pub suggestion : Option (List (List ℕ)) → List (List ℕ) → List ℕ
suggestion none wanted = []
suggestion (some available) wanted = suggest available (near_misses available wanted)

unfoldable pub missing : List ℕ → List (List ℕ) → HostState → List ℕ
unfolding near_misses
missing kind wanted h =
    codes "module exports no "
    ++ (kind
        ++ (codes " named any of " ++ (debug_names wanted ++ suggestion h.shared.exports wanted)))

-- The first of the names that is exported.
abbrev pub first_of {ℓ} : {A : Type ℓ} → (List ℕ → Option A) → List (List ℕ) → Option A
first_of get [] = none
first_of get (n ∷ names) = elim (get n) [ some a ↦ some a | none ↦ first_of get names ]

abbrev pub or_missing {ℓ} :
    {A : Type ℓ} → List ℕ → List (List ℕ) → HostState → Option A → Result (List ℕ) A
or_missing kind wanted h (some a) = ok a
or_missing kind wanted h none = err (missing kind wanted h)

module _ (instance_ : Instance) where
  unfoldable pub func : List (List ℕ) → HostState → Result (List ℕ) Func
  func names h = or_missing (codes "function") names h (first_of instance_.funcs names)

  unfoldable pub table : List (List ℕ) → HostState → Result (List ℕ) Table
  table names h = or_missing (codes "table") names h (first_of instance_.tables names)

  -- The state, since an absence is logged.
  unfoldable pub optional_func : List (List ℕ) → HostState → HostState × Option Func
  unfolding func
  optional_func names h = elim (func names h) [
    | ok f ↦ (h, some f)
    | err error ↦ (log (codes "optional export absent: " ++ error) h, none)
  ]

  abbrev pub memory_name : HostState → List ℕ
  memory_name h = elim (h.memory_export) [ some name ↦ name | none ↦ codes "memory" ]

  abbrev pub refresh : Option Mem → HostState → HostState
  refresh none h = h
  refresh (some window) h = record h { guest = record h.guest { linear = some window } }

  unfoldable pub sync_memory : HostState → HostState
  sync_memory h = elim (h.guest.memory) [
    | some m ↦ h
    | none ↦ refresh (instance_.memories (memory_name h)) h
  ]
