-- ===== src/Calendar/Tests.antt =====
-- Concrete dates: crates/oracle-core/src/emscripten.rs.
use wa_wasm_oracle.Prelude.{◌+◌, ◌*◌, ◌≡◌, refl, some}
use wa_wasm_oracle.Prelude.Int.{pos, pos_part, ◌+ℤ◌, ◌-ℤ◌, ◌*ℤ◌}
use wa_wasm_oracle.Calendar.{
  BrokenDownTime, civil, collect, days_before, days_from_civil, div_euclid, from_unix, rem_euclid,
  year_of_era,
}
use wa_wasm_oracle.Calendar.Clock.{from_unix_lem}

-- 2024-02-29 23:59:58, a Thursday.
abbrev leap_day : BrokenDownTime
leap_day = record {
  sec = pos 58;
  min = pos 59;
  hour = pos 23;
  mday = pos 29;
  mon = pos 1;
  year = pos 124;
  wday = pos 4;
  yday = pos 59;
}

from_unix-leap_day : from_unix (pos 1709251198) ≡ some leap_day
unfolding from_unix civil days_from_civil collect div_euclid rem_euclid year_of_era days_before ◌+ℤ◌
    ◌-ℤ◌ ◌*ℤ◌
from_unix-leap_day = refl

from_unix_lem_example :
    days_from_civil (leap_day.year +ℤ pos 1900) (pos_part leap_day.mon + 1) (pos_part leap_day.mday)
        *ℤ pos 86400
      +ℤ pos (pos_part leap_day.hour * 3600 + pos_part leap_day.min * 60 + pos_part leap_day.sec)
    ≡ pos 1709251198
from_unix_lem_example = from_unix_lem (pos 1709251198) leap_day from_unix-leap_day
