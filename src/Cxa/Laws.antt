-- ===== src/Cxa/Laws.antt =====
-- How an exception is matched: crates/oracle-core/src/cxa.rs.
use wa_wasm_oracle.Prelude.{
  ℕ, ◌+◌, ◌-◌, ◌^◌, ◌≤◌, ◌<◌, ◌≡◌, ◌≢◌, inl, refl, List, [], ◌∷◌, none, arith, ◌==◌, if◌then◌else◌,
  ◌||◌, ltb,
}
use wa_wasm_oracle.Prelude.Result.{Result, ok, err, unwrap_or}
use wa_wasm_oracle.Prelude.Text.{codes}
use wa_wasm_oracle.Prelude.Words.{le_bytes, add32}
use wa_wasm_oracle.Memory.{Guest, MemError, read_u32, read}
use wa_wasm_oracle.Memory.Laws.{read_u32-write, read-write_disjoint}
use wa_wasm_oracle.State.{HostState, write_memory}
use wa_wasm_oracle.State.Laws.{write_memory-success}
use wa_wasm_oracle.Cxa.{
  Exports, header_size, type_offset, try_write, exception_type, mark_type, set_temp_ret0,
  catch_loop, find_matching_catch, adjusted_ptr_offset, optional_func,
}

-- The type that `throw` writes into the header of a thrown object is the one that matching reads.
pub exception_type-mark_type :
    (e : Exports) (ptr type_id : ℕ) (h h' : HostState)
    → header_size ≤ ptr
    → type_id < 2 ^ 32
    → write_memory (ptr - header_size + type_offset) (le_bytes 4 type_id) h ≡ ok h'
    → exception_type (mark_type e ptr type_id h) ptr ≡ type_id
unfolding exception_type
exception_type-mark_type e ptr type_id h h' at small w =
    let back =
      read_u32-write h.guest h'.guest (ptr - header_size + type_offset) type_id small
        ((write_memory-success _ _ h h' w).1) in
    ground (arith, at, w, back)

read_u32-apart : (g g' : Guest) (p : ℕ) → read g p 4 ≡ read g' p 4 → read_u32 g p ≡ read_u32 g' p
unfolding read_u32
read_u32-apart g g' p e = ground (arith, e)

-- Writing into the header behind the type, or failing to, keeps the type.
exception_type-try_write :
    (offset : ℕ) (bytes : List ℕ) (ptr : ℕ) (h : HostState)
    → header_size ≤ ptr
    → 8 ≤ offset
    → exception_type (try_write (ptr - header_size + offset) bytes h) ptr ≡ exception_type h ptr
unfolding exception_type
exception_type-try_write offset bytes ptr h at far =
    from (write_memory (ptr - header_size + offset) bytes h) refl
  where
    from :
        (r : Result MemError HostState)
        → write_memory (ptr - header_size + offset) bytes h ≡ r
        → (if ltb ptr header_size
            then 0
            else unwrap_or (read_u32 (unwrap_or r h).guest (ptr - header_size + type_offset)) 0)
          ≡ (if ltb ptr header_size
              then 0
              else unwrap_or (read_u32 h.guest (ptr - header_size + type_offset)) 0)
    from (err x) w = refl
    from (ok h') w =
        let same = read_u32-apart h'.guest h.guest (ptr - header_size + type_offset) (
          read-write_disjoint h.guest h'.guest (ptr - header_size + offset)
            (ptr - header_size + type_offset) 4 bytes ((write_memory-success _ _ h h' w).1)
            (inl (omega arith))) in
        ground (arith, same)

-- The first candidate that is `catch (...)` or the thrown type itself, or else the thrown type.
abbrev pub selected : ℕ → List ℕ → ℕ
selected type_id [] = type_id
selected type_id (c ∷ cs) = if (c == 0) || (c == type_id) then c else selected type_id cs

catch_loop-selected :
    (e : Exports) (ptr type_id header : ℕ) (candidates : List ℕ) (h : HostState)
    → e.cxa_can_catch ≡ none
    → catch_loop e ptr type_id header candidates h
      ≡ (set_temp_ret0 e (selected type_id candidates) h, ptr)
unfolding catch_loop
catch_loop-selected e ptr type_id header [] h none_there = refl
catch_loop-selected e ptr type_id header (c ∷ cs) h none_there =
    ground (arith, none_there, catch_loop-selected e ptr type_id header cs h none_there)

-- Where the module has no `__cxa_can_catch` and an exception is in flight whose header holds its
-- type, matching answers the thrown object, and `tempRet0` is set to the first candidate that is
-- `catch (...)` or the thrown type, or else to the thrown type.
pub find_matching_catch-selected :
    (e : Exports) (candidates : List ℕ) (h : HostState)
    → e.cxa_can_catch ≡ none
    → header_size ≤ h.in_flight.ptr
    → h.in_flight.ptr < 2 ^ 32
    → exception_type h h.in_flight.ptr ≢ 0
    → find_matching_catch e candidates h ≡ (
      set_temp_ret0 e (selected (exception_type h h.in_flight.ptr) candidates) (
          optional_func e (codes "__cxa_can_catch") e.cxa_can_catch (
            try_write
              (h.in_flight.ptr - header_size + adjusted_ptr_offset)
              (le_bytes 4 h.in_flight.ptr)
              h)),
      h.in_flight.ptr,
    )
unfolding find_matching_catch
find_matching_catch-selected e candidates h none_there at small typed =
    let ptr = h.in_flight.ptr in
    let place : add32 (ptr - header_size) adjusted_ptr_offset
        ≡ ptr - header_size + adjusted_ptr_offset =
      omega arith in
    let h' = try_write (ptr - header_size + adjusted_ptr_offset) (le_bytes 4 ptr) h in
    let kept : exception_type h' ptr ≡ exception_type h ptr =
      exception_type-try_write adjusted_ptr_offset (le_bytes 4 ptr) ptr h at (omega arith) in
    ground (
      arith,
      place,
      kept,
      typed,
      catch_loop-selected e ptr (exception_type h ptr) (ptr - header_size) candidates
          (optional_func e (codes "__cxa_can_catch") e.cxa_can_catch h') none_there,
    )
