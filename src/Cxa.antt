-- ===== src/Cxa.antt =====
-- C++ exceptions of emscripten modules: crates/oracle-core/src/cxa.rs, and `optional_func` of
-- crates/oracle-core/src/exports.rs. The module's own functions are parameters.
mod Tests
pub mod Laws
use wa_wasm_oracle.Prelude.{
  ℕ, suc, zero, ◌+◌, ◌-◌, ◌*◌, ◌^◌, Bool, true, false, not, List, [], ◌∷◌, ◌++◌, Option, none, some,
  ltb, leb, ◌==◌, if◌then◌else◌, ◌||◌, ◌&&◌, length, min, drop,
}
use wa_wasm_oracle.Prelude.Result.{Result, ok, err, ◌>>=◌, unwrap_or}
use wa_wasm_oracle.Prelude.Sort.{decimal}
use wa_wasm_oracle.Prelude.Text.{codes, bytes_eq, starts_with}
use wa_wasm_oracle.Prelude.Words.{u32, add32, le_bytes}
use wa_wasm_oracle.Memory.{MemError, usize_max, read_u32, read_cstr}
use wa_wasm_oracle.State.{HostState, InFlight, none_in_flight, write_memory, log}
use wa_wasm_oracle.Vals.{Val, i32, int_arg, set_first}

abbrev pub header_size : ℕ
header_size = 24

abbrev pub type_offset : ℕ
type_offset = 4

abbrev pub caught_offset : ℕ
caught_offset = 12

abbrev pub adjusted_ptr_offset : ℕ
adjusted_ptr_offset = 16

-- What the module exports for its exceptions: a call answers the state and its result, `none` or
-- `false` where the call fails. `absent` is the line that the lookup of a missing name logs, and
-- `hex` is `{:#x}`.
pub record Exports : Type 0 where
  pub get_exception_message : Option (ℕ → ℕ → ℕ → HostState → HostState × Bool)
  pub malloc : Option (ℕ → HostState → HostState × Option ℕ)
  pub free : Option (ℕ → HostState → HostState)
  pub set_temp_ret0 : Option (ℕ → HostState → HostState)
  pub cxa_can_catch : Option (ℕ → ℕ → ℕ → HostState → HostState × Option ℕ)
  pub absent : List ℕ → HostState → List ℕ
  pub hex : ℕ → List ℕ

-- `let _ = …write(…)`: a write that fails changes nothing.
abbrev pub try_write : ℕ → List ℕ → HostState → HostState
try_write ptr bytes h = unwrap_or (write_memory ptr bytes h) h

unfoldable pub exception_type : HostState → ℕ → ℕ
exception_type h ptr =
    if ltb ptr header_size
    then 0
    else unwrap_or (read_u32 h.guest (ptr - header_size + type_offset)) 0

-- `read_u32(…).ok().and_then(|ptr| read_cstr(ptr).ok()).unwrap_or_default()`
abbrev pub text_behind : HostState → ℕ → List ℕ
text_behind h ptr = unwrap_or (read_u32 h.guest ptr >>= λ p. read_cstr h.guest p) []

abbrev pub describe : List ℕ → List ℕ → Option (List ℕ)
describe [] [] = none
describe [] (c ∷ text) = some (c ∷ text)
describe (t ∷ type_name) [] = some (t ∷ type_name)
describe (t ∷ type_name) (c ∷ text) = some ((t ∷ type_name) ++ (codes ": " ++ (c ∷ text)))

module _ (e : Exports) where
  -- `optional_func`: the absence of an export is logged.
  abbrev pub optional_func {ℓ} : {F : Type ℓ} → List ℕ → Option F → HostState → HostState
  optional_func name (some f) h = h
  optional_func name none h = log (e.absent name h) h

  abbrev pub free_buffer : ℕ → HostState → HostState
  free_buffer buffer h =
      let h' = optional_func (codes "free") e.free h in
      elim (e.free) [ some f ↦ f buffer h' | none ↦ h' ]

  -- `message_of` behind the allocation of its buffer.
  abbrev pub message_in :
      (ℕ → ℕ → ℕ → HostState → HostState × Bool) → ℕ → ℕ → HostState → HostState × Option (List ℕ)
  message_in get ptr buffer h =
      if buffer == 0
      then (h, none)
      else (let (h', worked) = get ptr buffer (add32 buffer 4) h in
          if not worked
          then (h', none)
          else (let type_name = text_behind h' buffer in
              let text = text_behind h' (add32 buffer 4) in
              (free_buffer buffer h', describe type_name text)))

  abbrev pub message_of : ℕ → HostState → HostState × Option (List ℕ)
  message_of ptr h = elim (e.get_exception_message) [
    | none ↦ (optional_func (codes "__get_exception_message") e.get_exception_message h, none)
    | some get ↦ elim (e.malloc) [
      | none ↦ (optional_func (codes "malloc") e.malloc h, none)
      | some malloc ↦
          let (h', out) = malloc 8 h in
          elim out [ none ↦ (h', none) | some buffer ↦ message_in get ptr (u32 buffer) h' ]
    ]
  ]

  -- The header's type word, which `throw` writes before it unwinds.
  abbrev pub mark_type : ℕ → ℕ → HostState → HostState
  mark_type ptr type_id h =
      if leb header_size ptr
      then try_write (ptr - header_size + type_offset) (le_bytes 4 type_id) h
      else h

  -- `throw`: the state, and the message of the error that unwinds the guest.
  unfoldable pub throw : ℕ → ℕ → HostState → HostState × List ℕ
  throw ptr type_id h =
      let (h', described) = message_of ptr (mark_type ptr type_id h) in
      let h'' = record h' { in_flight = record { ptr = ptr; type_id = type_id } } in
      elim described [
        | some message ↦ let line = codes "C++ exception: " ++ message in (log line h'', line)
        | none ↦ (
          h'',
          codes "C++ exception at "
              ++ (e.hex ptr ++ (codes " (type " ++ (decimal type_id ++ codes ")"))),
        )
      ]

  unfoldable pub set_temp_ret0 : ℕ → HostState → HostState
  set_temp_ret0 value h =
      let h' = optional_func (codes "setTempRet0") e.set_temp_ret0 h in
      elim (e.set_temp_ret0) [ some f ↦ f value h' | none ↦ h' ]

  abbrev pub matched : Option ℕ → Bool
  matched (some r) = not (u32 r == 0)
  matched none = false

  -- The loop over the candidates, for the thrown object and its type.
  unfoldable pub catch_loop : ℕ → ℕ → ℕ → List ℕ → HostState → HostState × ℕ
  unfolding set_temp_ret0
  catch_loop ptr type_id header [] h = (set_temp_ret0 type_id h, ptr)
  catch_loop ptr type_id header (candidate ∷ candidates) h =
      let skip = catch_loop ptr type_id header candidates in
      elim ((candidate == 0) || (candidate == type_id)) [
        | true ↦ (set_temp_ret0 candidate h, ptr)
        | false ↦ elim (e.cxa_can_catch) [
          | none ↦ skip h
          | some can_catch ↦
              let (h', r) = can_catch candidate type_id (add32 header adjusted_ptr_offset) h in
              elim (matched r) [
                | true ↦
                    let h'' = set_temp_ret0 candidate h' in
                    (h'', unwrap_or (read_u32 h''.guest (add32 header adjusted_ptr_offset)) ptr)
                | false ↦ skip h'
              ]
        ]
      ]

  -- The type that matching goes by: the header's, or the one in flight where the header has none.
  abbrev pub thrown_type : HostState → ℕ → ℕ → ℕ
  thrown_type h ptr type_id =
      let recorded = exception_type h ptr in if recorded == 0 then type_id else recorded

  unfoldable pub find_matching_catch : List ℕ → HostState → HostState × ℕ
  unfolding catch_loop exception_type
  find_matching_catch candidates h =
      let ptr = h.in_flight.ptr in
      if ptr == 0
      then (set_temp_ret0 0 h, 0)
      else (let header = ptr - header_size in
          let h' = try_write (add32 header adjusted_ptr_offset) (le_bytes 4 ptr) h in
          let type_id = thrown_type h' ptr h.in_flight.type_id in
          if type_id == 0
          then (set_temp_ret0 0 h', ptr)
          else catch_loop ptr type_id header candidates
              (optional_func (codes "__cxa_can_catch") e.cxa_can_catch h'))

  unfoldable pub cxa_throw : List Val → HostState → HostState × List ℕ
  unfolding throw
  cxa_throw params h = throw (int_arg params 0) (int_arg params 1) h

  -- `__cxa_rethrow` and `__resumeException`: the pointer is the argument where the import takes one.
  unfoldable pub cxa_rethrow : Bool → List Val → HostState → HostState × List ℕ
  unfolding throw exception_type
  cxa_rethrow takes_pointer params h =
      let ptr = if takes_pointer then int_arg params 0 else h.in_flight.ptr in
      throw ptr (exception_type h ptr) h

-- The digits of a `usize`, with what was read before them.
abbrev pub parse_digits : ℕ → List ℕ → Option ℕ
parse_digits value [] = some value
parse_digits value (c ∷ text) =
    let next = parse_digits (value * 10 + (c - 48)) text in
    if not (leb 48 c && leb c 57) || ltb usize_max (value * 10 + (c - 48)) then none else next

-- `parse::<usize>`, which takes a plus sign and needs a digit.
unfoldable pub parse_usize : List ℕ → Option ℕ
parse_usize [] = none
parse_usize (c ∷ []) = parse_digits 0 (c ∷ [])
parse_usize (c ∷ d ∷ text) =
    if c == 43 then parse_digits 0 (d ∷ text) else parse_digits 0 (c ∷ d ∷ text)

abbrev pub find_matching_catch_prefix : List ℕ
find_matching_catch_prefix = codes "__cxa_find_matching_catch_"

-- The number of candidates that the name of a `__cxa_find_matching_catch_N` tells.
unfoldable pub find_matching_catch_arity : List ℕ → Option ℕ
unfolding parse_usize
find_matching_catch_arity name =
    if starts_with find_matching_catch_prefix name
    then elim (parse_usize (drop 26 name)) [ none ↦ none | some total ↦ some (total - 2) ]
    else none

abbrev pub args_from : List Val → ℕ → ℕ → List ℕ
args_from params index zero = []
args_from params index (suc left) = int_arg params index ∷ args_from params (index + 1) left

module _ (e : Exports) where
  unfoldable pub cxa_find_matching_catch :
      ℕ → List Val → List Val → HostState → HostState × List Val
  unfolding find_matching_catch
  cxa_find_matching_catch count params results h =
      let (h', caught) = find_matching_catch e (args_from params 0 (min count (length params))) h in
      (h', set_first (i32 caught) results)

-- `__cxa_get_exception_ptr` and `llvm_eh_typeid_for`.
unfoldable pub cxa_identity : List Val → List Val → List Val
cxa_identity params results = set_first (i32 (int_arg params 0)) results

unfoldable pub cxa_begin_catch : List Val → List Val → HostState → HostState × List Val
cxa_begin_catch params results h =
    let ptr = int_arg params 0 in
    let h' =
      if leb header_size ptr then try_write (ptr - header_size + caught_offset) (1 ∷ []) h else h in
    (h', set_first (i32 ptr) results)

unfoldable pub cxa_end_catch : HostState → HostState
cxa_end_catch h = record h { in_flight = none_in_flight }

unfoldable pub cxa_uncaught_exceptions : List Val → HostState → List Val
cxa_uncaught_exceptions results h = set_first (i32 (if h.in_flight.ptr == 0 then 0 else 1)) results
