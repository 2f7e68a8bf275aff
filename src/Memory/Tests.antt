-- ===== src/Memory/Tests.antt =====
-- Concrete runs of the guest memory: crates/oracle-core/src/state.rs.
use wa_wasm_oracle.Prelude.{ℕ, zero, suc, ◌≡◌, refl, List, [], ◌∷◌, none, some, arith}
use wa_wasm_oracle.Prelude.Result.{ok}
use wa_wasm_oracle.Memory.{Guest, Mem, cells, put_all, read, read_cstr, write}
use wa_wasm_oracle.Memory.Laws.{read-write_same}
use wa_wasm_oracle.Memory.Strings.{HasNoNul, read_cstr-write}

-- One page, first filled with zeros, then with "Hi" and a NUL at 8; and a page of the letter A.
abbrev page : Mem
page = record { size = 65536; cell = λ p. 0 }

abbrev blank : Guest
blank = record { memory = none; linear = some page }

abbrev greeting : List ℕ
greeting = 72 ∷ 105 ∷ 0 ∷ []

abbrev greeted : Guest
greeted = record {
  memory = none;
  linear = some (record { size = 65536; cell = put_all (λ p. 0) 8 greeting });
}

abbrev letters : Mem
letters = record { size = 65536; cell = λ p. 65 }

blank-greeted : write blank 8 greeting ≡ ok greeted
unfolding write
blank-greeted = refl

cells-letters : (p n : ℕ) → HasNoNul (cells letters.cell p n)
unfolding cells
cells-letters p zero = tt
cells-letters p (suc n) = (omega arith, cells-letters (suc p) n)

read-write_same_example : read greeted 8 3 ≡ ok greeting
read-write_same_example = read-write_same blank greeted 8 greeting blank-greeted

read_cstr-write_example : read_cstr greeted 8 ≡ ok (72 ∷ 105 ∷ [])
read_cstr-write_example =
    read_cstr-write blank greeted 8 (72 ∷ 105 ∷ []) page (omega arith) (omega arith)
      (omega arith, (omega arith, tt)) (omega arith, (omega arith, tt)) (omega arith) refl
      (omega arith) blank-greeted
