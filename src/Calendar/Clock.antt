-- ===== src/Calendar/Clock.antt =====
-- The fields of a broken-down time determine the moment: `from_unix` of
-- crates/oracle-core/src/emscripten.rs.
use wa_wasm_oracle.Prelude.{ℕ, ◌+◌, ◌*◌, ◌/◌, ◌%◌, ◌≤◌, ◌≡◌, ap, ◌∙◌, Option, some, arith}
use wa_wasm_oracle.Prelude.Int.{ℤ, pos, negsuc, ◌+ℤ◌, ◌-ℤ◌, ◌*ℤ◌, pos_part, int_laws}
use wa_wasm_oracle.Calendar.{
  BrokenDownTime, div_euclid, rem_euclid, civil, days_from_civil, from_unix, to_i32, collect,
}
use wa_wasm_oracle.Calendar.Days.{days_from_civil-civil, civil_bounds}

collect-some :
    (sec min hour mday mon year wday yday : Option ℤ) (t : BrokenDownTime)
    → collect sec min hour mday mon year wday yday ≡ some t
    → (sec ≡ some t.sec)
      × (min ≡ some t.min)
      × (hour ≡ some t.hour)
      × (mday ≡ some t.mday)
      × (mon ≡ some t.mon)
      × (year ≡ some t.year)
unfolding collect
collect-some sec min hour mday mon year wday yday t e = (
  ground (arith, e),
  ground (arith, e),
  ground (arith, e),
  ground (arith, e),
  ground (arith, e),
  ground (arith, e),
)

to_i32-some : (x y : ℤ) → to_i32 x ≡ some y → y ≡ x
to_i32-some (pos n) y e = ground arith
to_i32-some (negsuc n) y e = ground arith

second_back : (time : ℤ) → div_euclid time 86400 *ℤ pos 86400 +ℤ pos (rem_euclid time 86400) ≡ time
unfolding div_euclid rem_euclid ◌+ℤ◌ ◌*ℤ◌
second_back (pos n) = ground arith
second_back (negsuc n) = ground arith

-- What each field of the result is.
from_unix-fields :
    (time : ℤ) (t : BrokenDownTime)
    → from_unix time ≡ some t
    → (t.sec ≡ pos (rem_euclid time 86400 % 60))
      × (t.min ≡ pos ((rem_euclid time 86400 / 60) % 60))
      × (t.hour ≡ pos (rem_euclid time 86400 / 3600))
      × (t.mday ≡ pos ((civil (div_euclid time 86400)).2))
      × (t.mon ≡ pos ((civil (div_euclid time 86400)).1) -ℤ pos 1)
      × (t.year ≡ (civil (div_euclid time 86400)).0 -ℤ pos 1900)
unfolding from_unix
from_unix-fields time t e =
    let (sec, min, hour, mday, mon, year) = collect-some _ _ _ _ _ _ _ _ t e in
    (
      to_i32-some _ t.sec sec,
      to_i32-some _ t.min min,
      to_i32-some _ t.hour hour,
      to_i32-some _ t.mday mday,
      to_i32-some _ t.mon mon,
      to_i32-some _ t.year year,
    )

year_back : (y : ℤ) → (y -ℤ pos 1900) +ℤ pos 1900 ≡ y
year_back y = omega int_laws

month_back_pos : (m : ℕ) → 1 ≤ m → pos_part (pos m -ℤ pos 1) + 1 ≡ m
unfolding ◌-ℤ◌
month_back_pos m h = ground arith

seconds_back : (s : ℕ) → s / 3600 * 3600 + (s / 60) % 60 * 60 + s % 60 ≡ s
seconds_back s = omega arith

-- The year, month, day, hour, minute and second of a broken-down time give back the Unix time that
-- it was made from.
pub from_unix_lem :
    (time : ℤ) (t : BrokenDownTime)
    → from_unix time ≡ some t
    → days_from_civil (t.year +ℤ pos 1900) (pos_part t.mon + 1) (pos_part t.mday) *ℤ pos 86400
        +ℤ pos (pos_part t.hour * 3600 + pos_part t.min * 60 + pos_part t.sec)
      ≡ time
from_unix_lem time t e =
    let (sec, min, hour, mday, mon, year) = from_unix-fields time t e in
    let days = div_euclid time 86400 in
    let secs = rem_euclid time 86400 in
    let (low, high, first, last) = civil_bounds days in
    let y : t.year +ℤ pos 1900 ≡ (civil days).0 =
      ap (λ (z : ℤ). z +ℤ pos 1900) year ∙ year_back ((civil days).0) in
    let m : pos_part t.mon + 1 ≡ (civil days).1 =
      ap (λ (z : ℤ). pos_part z + 1) mon ∙ month_back_pos ((civil days).1) low in
    let d : pos_part t.mday ≡ (civil days).2 = ap pos_part mday in
    let s : pos_part t.hour * 3600 + pos_part t.min * 60 + pos_part t.sec ≡ secs =
      (rw (sec, min, hour) (seconds_back secs)) in
    rw (y, m, d, s, days_from_civil-civil days) (second_back time)
