-- ===== src/Runtime/Stubs.antt =====
-- What the trace tells of stubbed imports and of calls: `stubs_called` and `all_calls_to` of
-- crates/oracle-core/src/runtime.rs, `hot_calls` and `total_calls` of shared.rs.
pub mod Laws
use Prim.Native.Nat.{compare, Ordering}
use wa_wasm_oracle.Prelude.{
  ℕ, ◌+◌, Bool, true, false, List, [], ◌∷◌, Option, none, some, leb, if◌then◌else◌,
}
use wa_wasm_oracle.Prelude.Map.{bytes_ord, bytes_cmp, lookup, insert}
use wa_wasm_oracle.Prelude.Sort.{sort_by}
use wa_wasm_oracle.Prelude.Text.{bytes_eq}
use wa_wasm_oracle.Exports.{is_among}
use wa_wasm_oracle.Shared.{HostCall, SharedHost, symbol}

abbrev pub symbol_of : HostCall → List ℕ
symbol_of c = symbol c.module_name c.name

-- `*counts.entry(symbol).or_default() += 1`
abbrev pub or_zero : Option ℕ → ℕ
or_zero (some n) = n
or_zero none = 0

abbrev pub count_stubs : List (List ℕ) → List HostCall → List (List ℕ × ℕ) → List (List ℕ × ℕ)
count_stubs stubbed [] counts = counts
count_stubs stubbed (c ∷ calls) counts = count_stubs stubbed calls (
    if is_among (symbol_of c) stubbed
    then insert (symbol_of c) (or_zero (lookup (symbol_of c) counts) + 1) counts
    else counts)

abbrev pub more_called : List ℕ × ℕ → List ℕ × ℕ → Bool
more_called a b = leb b.1 a.1

unfoldable pub stubs_called : Option (List (List ℕ)) → SharedHost → List (List ℕ × ℕ)
stubs_called none s = []
stubs_called (some stubbed) s = sort_by more_called (count_stubs stubbed s.trace.calls [])

abbrev pub calls_to : List ℕ → List HostCall → List HostCall
calls_to key [] = []
calls_to key (c ∷ calls) =
    if bytes_eq (symbol_of c) key then c ∷ calls_to key calls else calls_to key calls

unfoldable pub all_calls_to : List ℕ → SharedHost → List HostCall
all_calls_to key s = calls_to key s.trace.calls

-- By the count, and by the name where the counts are equal.
abbrev pub hotter : List ℕ × ℕ → List ℕ × ℕ → Bool
hotter a b = elim (compare b.1 a.1) [
  | Ordering.lt ↦ true
  | Ordering.gt ↦ false
  | Ordering.eq ↦ elim (bytes_cmp a.0 b.0) [ Ordering.gt ↦ false | _ ↦ true ]
]

unfoldable pub hot_calls : SharedHost → List (List ℕ × ℕ)
hot_calls s = sort_by hotter s.trace.counts

abbrev pub sum_counts : List (List ℕ × ℕ) → ℕ
sum_counts [] = 0
sum_counts ((key, n) ∷ counts) = n + sum_counts counts

unfoldable pub total_calls : SharedHost → ℕ
total_calls s = sum_counts s.trace.counts
