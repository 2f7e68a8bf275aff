-- ===== src/Calendar.antt =====
-- The `struct tm` of `localtime` and `gmtime`: `BrokenDownTime` of
-- crates/oracle-core/src/emscripten.rs.
mod Tests
pub mod Days
pub mod Clock
use wa_wasm_oracle.Prelude.{
  ℕ, suc, ◌+◌, ◌-◌, ◌*◌, ◌/◌, ◌%◌, ◌^◌, List, [], ◌∷◌, Option, none, some, ltb, leb, if◌then◌else◌,
  ◌&&◌,
}
use wa_wasm_oracle.Prelude.Int.{ℤ, pos, negsuc, ◌+ℤ◌, ◌-ℤ◌, ◌*ℤ◌, pos_part, neg_part}
use wa_wasm_oracle.Prelude.Result.{Result, ok, err, ◌>>=◌}
use wa_wasm_oracle.Prelude.Words.{add32, le_bytes, pattern32}
use wa_wasm_oracle.Memory.{MemError}
use wa_wasm_oracle.State.{HostState, write_memory}

-- `div_euclid` and `rem_euclid` for a positive divisor: rounding down, and a remainder from 0.
unfoldable pub div_euclid : ℤ → ℕ → ℤ
div_euclid (pos n) m = pos (n / m)
div_euclid (negsuc n) m = negsuc (n / m)

unfoldable pub rem_euclid : ℤ → ℕ → ℕ
rem_euclid (pos n) m = n % m
rem_euclid (negsuc n) m = m - 1 - n % m

pub record BrokenDownTime : Type 0 where
  pub sec : ℤ
  pub min : ℤ
  pub hour : ℤ
  pub mday : ℤ
  pub mon : ℤ
  pub year : ℤ
  pub wday : ℤ
  pub yday : ℤ

-- The year of an era, from the day of the era, both from 0.
unfoldable pub year_of_era : ℕ → ℕ
year_of_era doe = (doe - doe / 1460 + doe / 36524 - doe / 146096) / 365

-- The days before a year of an era.
unfoldable pub days_before : ℕ → ℕ
days_before yoe = 365 * yoe + yoe / 4 - yoe / 100

-- `i64::from(month <= 2)`
abbrev pub january_or_february : ℕ → ℕ
january_or_february month = if leb month 2 then 1 else 0

-- `days_from_civil`, with a month and a day that are numbers from 1.
unfoldable pub days_from_civil : ℤ → ℕ → ℕ → ℤ
unfolding div_euclid ◌-ℤ◌ ◌+ℤ◌ ◌*ℤ◌
days_from_civil year month day =
    let y = year -ℤ pos (january_or_february month) in
    let era = div_euclid y 400 in
    let yoe = pos_part (y -ℤ era *ℤ pos 400) in
    let mp : ℕ = if ltb 2 month then month - 3 else month + 9 in
    let doy = (153 * mp + 2) / 5 + day - 1 in
    let doe = yoe * 365 + yoe / 4 - yoe / 100 + doy in (era *ℤ pos 146097 +ℤ pos doe) -ℤ pos 719468

-- `i32::try_from`
abbrev pub to_i32 : ℤ → Option ℤ
to_i32 (pos n) = if ltb n (2 ^ 31) then some (pos n) else none
to_i32 (negsuc n) = if ltb n (2 ^ 31) then some (negsuc n) else none

-- `?` on an option.
infixr 20 ◌>>=?◌
abbrev pub ◌>>=?◌ {ℓ κ} : {A : Type ℓ} {B : Type κ} → Option A → (A → Option B) → Option B
none >>=? f = none
some a >>=? f = f a

-- The civil date of a day count: year, month and day of the month.
unfoldable pub civil : ℤ → ℤ × ℕ × ℕ
unfolding div_euclid rem_euclid year_of_era days_before ◌+ℤ◌ ◌*ℤ◌
civil days =
    let z = days +ℤ pos 719468 in
    let era = div_euclid z 146097 in
    let doe = rem_euclid z 146097 in
    let yoe = year_of_era doe in
    let doy = doe - days_before yoe in
    let mp = (5 * doy + 2) / 153 in
    let day = doy - (153 * mp + 2) / 5 + 1 in
    let month : ℕ = if ltb mp 10 then mp + 3 else mp - 9 in
    ((pos yoe +ℤ era *ℤ pos 400) +ℤ pos (january_or_february month), month, day)

-- The fields that `i32::try_from(…).ok()?` lets pass.
unfoldable pub collect : (sec min hour mday mon year wday yday : Option ℤ) → Option BrokenDownTime
collect sec min hour mday mon year wday yday = sec >>=? λ sec'. min >>=? λ min'. hour >>=? λ hour'.
    mday >>=? λ mday'. mon >>=? λ mon'. year >>=? λ year'. wday >>=? λ wday'. yday >>=? λ yday'.
    some (record {
      sec = sec';
      min = min';
      hour = hour';
      mday = mday';
      mon = mon';
      year = year';
      wday = wday';
      yday = yday';
    })

-- `from_unix`; `none` where a field leaves `i32`.
unfoldable pub from_unix : ℤ → Option BrokenDownTime
unfolding civil days_from_civil div_euclid rem_euclid ◌+ℤ◌ ◌-ℤ◌ collect
from_unix time =
    let days = div_euclid time 86400 in
    let secs_of_day = rem_euclid time 86400 in
    let (year, month, day) = civil days in
    collect (to_i32 (pos (secs_of_day % 60))) (to_i32 (pos ((secs_of_day / 60) % 60)))
      (to_i32 (pos (secs_of_day / 3600))) (to_i32 (pos day)) (to_i32 (pos month -ℤ pos 1))
      (to_i32 (year -ℤ pos 1900)) (to_i32 (pos (rem_euclid (days +ℤ pos 4) 7)))
      (to_i32 (days -ℤ days_from_civil year 1 1))

-- The loop of `write`: a word for each field, four bytes apart; an error keeps the words before it.
unfoldable pub write_fields : List ℤ → ℕ → ℕ → HostState → Result MemError HostState
write_fields [] ptr index h = ok h
write_fields (v ∷ vs) ptr index h =
    write_memory (add32 ptr (index * 4)) (le_bytes 4 (pattern32 v)) h >>= λ h'.
    write_fields vs ptr (index + 1) h'

unfoldable pub fields_of : BrokenDownTime → List ℤ
fields_of t =
    t.sec ∷ t.min ∷ t.hour ∷ t.mday ∷ t.mon ∷ t.year ∷ t.wday ∷ t.yday ∷ pos 0 ∷ pos 0 ∷ pos 0 ∷ []

unfoldable pub write_time : BrokenDownTime → ℕ → HostState → Result MemError HostState
unfolding write_fields fields_of
write_time t ptr h = write_fields (fields_of t) ptr 0 h
