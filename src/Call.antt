-- ===== src/Call.antt =====
-- Calling the functions that a module registered with embind: crates/oracle-core/src/call.rs, with
-- `malloc` and `free` of runtime.rs. What the module's functions do is a parameter.
mod Tests
pub mod Encode
pub mod Embind
pub mod Strings
use wa_wasm_oracle.Prelude.{
  ℕ, ◌+◌, ◌*◌, ◌^◌, Bool, true, false, not, List, [], ◌∷◌, ◌++◌, map, Option, none, some, ltb, ◌==◌,
  if◌then◌else◌, ◌||◌, length,
}
use wa_wasm_oracle.Prelude.Int.{ℤ, pos, negsuc}
use wa_wasm_oracle.Prelude.Map as Map
use wa_wasm_oracle.Prelude.Map.{nat_ord}
use wa_wasm_oracle.Prelude.Result.{Result, ok, err}
use wa_wasm_oracle.Prelude.Text.{codes, bytes_eq, from_utf8_lossy}
use wa_wasm_oracle.Prelude.Words.{u32, add32, le_bytes, pattern32, pattern64, signed32, signed64}
use wa_wasm_oracle.Embind.{EmbindClass, EmbindFunction, settle, type_name}
use wa_wasm_oracle.Emval.{get, decref}
use wa_wasm_oracle.Memory.{MemError, read, read_u32}
use wa_wasm_oracle.State.{HostState, write_memory}
use wa_wasm_oracle.Values.{
  Value, Handle, Floats, void, bool, int, double, str, object, bytes, string_list, int_list,
}
use wa_wasm_oracle.Vals.{Val, i32, i64, f32, f64, other}

-- How a registered type is passed.
pub data Wire : Type 0 where
  void_wire bool_wire i32_wire i64_wire f32_wire f64_wire std_string emval_wire : Wire
  class_wire : ℕ → Wire

-- Why a call is refused; a guest call that fails gives `guest_failed`.
pub data CallError : Type 0 where
  no_function no_types wrong_count unknown_type unknown_class no_constructor no_method : CallError
  cannot_pass wrong_handle wrong_elements out_of_memory no_memory no_value long_string : CallError
  unexpected_result not_callable guest_failed : CallError

-- The functions of the module: an entry of its function table, and its allocator. A call answers the
-- state that it left and its results, or none where it fails; `has_entry` says whether an index names
-- a function.
pub record Guests : Type 0 where
  pub has_entry : ℕ → HostState → Bool
  pub table_call : ℕ → List Val → HostState → HostState × Option (List Val)
  pub malloc_call : ℕ → HostState → HostState × Option (List Val)
  pub free_call : ℕ → HostState → HostState

-- A step that can fail, and what it did to the state before it failed.
abbrev pub Run {ℓ} : Type ℓ → Type ℓ
Run A = HostState → HostState × Result CallError A

infixr 20 ◌>>=!◌
abbrev pub ◌>>=!◌ {ℓ κ} : {A : Type ℓ} {B : Type κ} → Run A → (A → Run B) → Run B
(m >>=! k) h = let (h', r) = m h in elim r [ ok a ↦ k a h' | err e ↦ (h', err e) ]

abbrev pub give {ℓ} : {A : Type ℓ} → A → Run A
give a h = (h, ok a)

abbrev pub fail {ℓ} : {A : Type ℓ} → CallError → Run A
fail e h = (h, err e)

-- `ok_or_else(…)?`
abbrev pub need {ℓ} : {A : Type ℓ} → CallError → Option A → Run A
need e (some a) h = (h, ok a)
need e none h = (h, err e)

-- `?` on a memory access.
abbrev pub need_memory {ℓ} : {A : Type ℓ} → Result MemError A → Run A
need_memory (ok a) h = (h, ok a)
need_memory (err e) h = (h, err no_memory)

abbrev pub one_of : List ℕ → List (List ℕ) → Bool
one_of name [] = false
one_of name (n ∷ ns) = bytes_eq name n || one_of name ns

abbrev pub i32_names : List (List ℕ)
i32_names =
    codes "char"
    ∷ codes "signed char"
    ∷ codes "unsigned char"
    ∷ codes "short"
    ∷ codes "unsigned short"
    ∷ codes "int"
    ∷ codes "unsigned int"
    ∷ codes "long"
    ∷ codes "unsigned long"
    ∷ []

abbrev pub i64_names : List (List ℕ)
i64_names = codes "int64_t" ∷ codes "uint64_t" ∷ codes "long long" ∷ codes "unsigned long long" ∷ []

unfoldable pub primitive_wire : List ℕ → Option Wire
primitive_wire name =
    if bytes_eq name (codes "void")
    then some void_wire
    else if bytes_eq name (codes "bool")
    then some bool_wire
    else if one_of name i32_names
    then some i32_wire
    else if one_of name i64_names
    then some i64_wire
    else if bytes_eq name (codes "float")
    then some f32_wire
    else if bytes_eq name (codes "double")
    then some f64_wire
    else if one_of name (codes "std::string" ∷ codes "std::basic_string<unsigned char>" ∷ [])
    then some std_string
    else if bytes_eq name (codes "emscripten::val")
    then some emval_wire
    else none

-- `embind_class`: the class after a settled copy of the registry.
unfoldable pub embind_class : HostState → ℕ → Option EmbindClass
embind_class h type_id = Map.lookup type_id (settle h.embind).classes

abbrev pub class_wire_of : ℕ → Option EmbindClass → Option Wire
class_wire_of type_id (some c) = some (class_wire type_id)
class_wire_of type_id none = none

unfoldable pub wire_for : HostState → ℕ → Option Wire
unfolding primitive_wire embind_class
wire_for h type_id = elim (primitive_wire (type_name h.embind type_id)) [
  | some wire ↦ some wire
  | none ↦ class_wire_of type_id (embind_class h type_id)
]

-- What a call must release when it is over.
pub record Owned : Type 0 where
  pub allocations : List ℕ
  pub objects : List Handle

abbrev pub nothing_owned : Owned
nothing_owned = record { allocations = []; objects = [] }

abbrev pub max_string : ℕ
max_string = 16 * 1024 * 1024

unfoldable pub read_std_string : ℕ → Run (List ℕ)
read_std_string ptr h =
    if ptr == 0
    then (h, ok [])
    else ((need_memory (read_u32 h.guest ptr) >>=! λ len.
          if ltb max_string len
          then fail long_string
          else (need_memory (read h.guest (add32 ptr 4) len) >>=! λ raw.
              give (from_utf8_lossy raw)))
        h)

abbrev pub first_i32 : Option (List Val) → Option ℕ
first_i32 (some (i32 v ∷ vs)) = some (u32 v)
first_i32 _ = none

module _ (g : Guests) where
  -- `Runtime::malloc`: a null pointer is a failure.
  unfoldable pub malloc : ℕ → Run ℕ
  malloc len h =
      let (h', results) = g.malloc_call len h in
      elim (first_i32 results) [
        | none ↦ (h', err out_of_memory)
        | some ptr ↦ if ptr == 0 then (h', err out_of_memory) else (h', ok ptr)
      ]

  -- The block of a string: its length, its bytes and a NUL.
  unfoldable pub write_std_string : List ℕ → Run ℕ
  unfolding malloc
  write_std_string text = malloc (add32 4 (u32 (length text) + 1)) >>=! λ ptr. λ h.
      elim (write_memory ptr (le_bytes 4 (u32 (length text)) ++ (text ++ (0 ∷ []))) h) [
        | ok h' ↦ (h', ok ptr)
        | err e ↦ (h, err no_memory)
      ]

  unfoldable pub release : Handle → HostState → HostState
  unfolding embind_class
  release handle h = elim (embind_class h handle.class_type) [
    | none ↦ h
    | some class ↦
        if class.destructor == 0 || not (g.has_entry class.destructor h)
        then h
        else (g.table_call class.destructor (i32 handle.ptr ∷ []) h).0
  ]

  abbrev pub release_objects : List Handle → HostState → HostState
  release_objects [] h = h
  release_objects (handle ∷ handles) h = release_objects handles (release handle h)

  abbrev pub free_all : List ℕ → HostState → HostState
  free_all [] h = h
  free_all (ptr ∷ ptrs) h = free_all ptrs (g.free_call ptr h)

  unfoldable pub release_owned : Owned → HostState → HostState
  unfolding release
  release_owned owned h = free_all owned.allocations (release_objects owned.objects h)
