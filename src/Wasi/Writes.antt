-- ===== src/Wasi/Writes.antt =====
-- The whole of `fd_write`, with its count in guest memory: crates/oracle-core/src/wasi.rs.
use wa_wasm_oracle.Prelude.Result.{Result}
