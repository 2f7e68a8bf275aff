-- ===== src/Abi/Arms.antt =====
-- The arms of the match on an operator in `scan_body` of crates/oracle-core/src/abi.rs.
use wa_wasm_oracle.Prelude.{ℕ}
use wa_wasm_oracle.Abi.{
  Operator, local_get, local_set, local_tee, global_get, i32_const, i64_const, f32_const, f64_const,
  i32_load, i64_load, f32_load, f64_load, i32_load8_u, i32_load8_s, i64_load8_u, i64_load8_s,
  i32_load16_u, i32_load16_s, i64_load16_u, i64_load16_s, i32_store, i64_store, f32_store,
  f64_store, i32_store8, i64_store8, i32_store16, i64_store16, i32_eq, i32_ne, i32_lt_s, i32_lt_u,
  i32_gt_s, i32_gt_u, i32_le_s, i32_le_u, i32_ge_s, i32_ge_u, i32_eqz, i32_add, i32_sub, i32_mul,
  i32_shl, call, call_indirect, memory_size, block_op, loop_op, else_op, end_op, return_op, nop,
  if_op, select_op, drop_op, br, br_if, br_table,
}

-- The arms of the match on an operator. A load and a store carry their width.
pub data Arm : Type 0 where
  gets sets tees loads stores : ℕ → Arm
  drops compares tests computes forwards produces keeps branches selects anything : Arm

unfoldable pub arm : Operator → Arm
arm (local_get i) = gets i
arm (local_set i) = sets i
arm drop_op = drops
arm (local_tee i) = tees i
arm (i32_load _) = loads 4
arm (f32_load _) = loads 4
arm (i64_load _) = loads 8
arm (f64_load _) = loads 8
arm (i32_load8_u _) = loads 1
arm (i32_load8_s _) = loads 1
arm (i64_load8_u _) = loads 1
arm (i64_load8_s _) = loads 1
arm (i32_load16_u _) = loads 2
arm (i32_load16_s _) = loads 2
arm (i64_load16_u _) = loads 2
arm (i64_load16_s _) = loads 2
arm (i32_store _) = stores 4
arm (f32_store _) = stores 4
arm (i64_store _) = stores 8
arm (f64_store _) = stores 8
arm (i32_store8 _) = stores 1
arm (i64_store8 _) = stores 1
arm (i32_store16 _) = stores 2
arm (i64_store16 _) = stores 2
arm i32_eq = compares
arm i32_ne = compares
arm i32_lt_s = compares
arm i32_lt_u = compares
arm i32_gt_s = compares
arm i32_gt_u = compares
arm i32_le_s = compares
arm i32_le_u = compares
arm i32_ge_s = compares
arm i32_ge_u = compares
arm i32_eqz = tests
arm i32_add = computes
arm i32_sub = computes
arm i32_mul = computes
arm i32_shl = computes
arm (call _) = forwards
arm (call_indirect _) = forwards
arm (i32_const _) = produces
arm (i64_const _) = produces
arm (f32_const _) = produces
arm (f64_const _) = produces
arm (global_get _) = produces
arm memory_size = produces
arm block_op = keeps
arm loop_op = keeps
arm else_op = keeps
arm end_op = keeps
arm return_op = keeps
arm nop = keeps
arm if_op = branches
arm (br_if _) = branches
arm (br_table _ _) = branches
arm (br _) = keeps
arm select_op = selects
arm _ = anything
