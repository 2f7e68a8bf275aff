-- ===== src/State/Laws.antt =====
-- What a memory write leaves alone in `HostState`: crates/oracle-core/src/state.rs.
use wa_wasm_oracle.Prelude.{ℕ, ◌≡◌, refl, List, arith}
use wa_wasm_oracle.Prelude.Result.{Result, ok, err}
use wa_wasm_oracle.Memory.{Guest, MemError, write}
use wa_wasm_oracle.State.{HostState, write_memory}

-- A memory write changes the mapping alone.
pub write_memory-success :
    (ptr : ℕ) (bytes : List ℕ) (h h' : HostState)
    → write_memory ptr bytes h ≡ ok h'
    → (h' ≡ record h { guest = h'.guest }) × (write h.guest ptr bytes ≡ ok h'.guest)
write_memory-success ptr bytes h h' e = from (write h.guest ptr bytes) refl
  where
    from :
        (r : Result MemError Guest)
        → write h.guest ptr bytes ≡ r
        → (h' ≡ record h { guest = h'.guest }) × (write h.guest ptr bytes ≡ ok h'.guest)
    from (ok g) is = ground (arith, e, is)
    from (err x) is = ground (arith, e, is)
