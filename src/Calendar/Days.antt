-- ===== src/Calendar/Days.antt =====
-- The civil calendar of `from_unix` and `days_from_civil`.
use wa_wasm_oracle.Prelude.{
  ℕ, ◌+◌, ◌-◌, ◌*◌, ◌/◌, ◌≤◌, ◌<◌, ◌≡◌, refl, ap, ap₂, ◌∙◌, ltb, if◌then◌else◌, arith,
}
use wa_wasm_oracle.Prelude.Int.{ℤ, pos, negsuc, ◌+ℤ◌, ◌-ℤ◌, ◌*ℤ◌, pos_part, int_laws}
use wa_wasm_oracle.Calendar.{
  year_of_era, days_before, div_euclid, rem_euclid, civil, days_from_civil, january_or_february,
}

-- The year of an era's day is one of the era's 400, and the day lies within 366 days of its start.
year_of_era_lem :
    (doe : ℕ)
    → doe < 146097
    → (year_of_era doe < 400)
      × (days_before (year_of_era doe) ≤ doe)
      × (doe ≤ days_before (year_of_era doe) + 365)
unfolding year_of_era days_before
year_of_era_lem doe h = (omega arith, omega arith, omega arith)

era_of : (yoe : ℕ) (era : ℤ) → yoe < 400 → div_euclid (pos yoe +ℤ era *ℤ pos 400) 400 ≡ era
unfolding div_euclid ◌+ℤ◌ ◌*ℤ◌
era_of yoe (pos n) h = ground arith
era_of yoe (negsuc n) h = ground arith

rest_of : (yoe : ℕ) (era : ℤ) → pos_part ((pos yoe +ℤ era *ℤ pos 400) -ℤ era *ℤ pos 400) ≡ yoe
unfolding ◌+ℤ◌ ◌*ℤ◌ ◌-ℤ◌
rest_of yoe (pos n) = ground arith
rest_of yoe (negsuc n) = ground arith

rem_small : (z : ℤ) → rem_euclid z 146097 < 146097
unfolding rem_euclid
rem_small (pos n) = omega arith
rem_small (negsuc n) = omega arith

day_back :
    (days : ℤ)
    → (div_euclid (days +ℤ pos 719468) 146097 *ℤ pos 146097
          +ℤ pos (rem_euclid (days +ℤ pos 719468) 146097))
        -ℤ pos 719468
      ≡ days
unfolding div_euclid rem_euclid ◌+ℤ◌ ◌*ℤ◌ ◌-ℤ◌
day_back (pos n) = ground arith
day_back (negsuc n) = ground arith

-- The month number of `civil` is one of 12 and the day of the month one of 31.
pub civil_bounds :
    (days : ℤ)
    → (1 ≤ (civil days).1) × ((civil days).1 ≤ 12) × (1 ≤ (civil days).2) × ((civil days).2 ≤ 31)
unfolding civil
civil_bounds days =
    let doe = rem_euclid (days +ℤ pos 719468) 146097 in
    let (a, b, c) = year_of_era_lem doe (rem_small (days +ℤ pos 719468)) in
    (ground (arith, b, c), ground (arith, b, c), ground (arith, b, c), ground (arith, b, c))

-- A day of a year that starts in March comes back from its month and day.
month_back :
    (doy : ℕ)
    → doy ≤ 365
    → (let mp = (5 * doy + 2) / 153 in
        let month : ℕ = if ltb mp 10 then mp + 3 else mp - 9 in
        (153 * (if ltb 2 month then month - 3 else month + 9) + 2) / 5
        + (doy - (153 * mp + 2) / 5 + 1)
        - 1)
      ≡ doy
month_back doy h = ground arith

-- The day count of a day of a year, the year counted from March.
abbrev day_of : ℤ → ℕ → ℤ
day_of y doy =
    let era = div_euclid y 400 in
    let yoe = pos_part (y -ℤ era *ℤ pos 400) in
    (era *ℤ pos 146097 +ℤ pos (yoe * 365 + yoe / 4 - yoe / 100 + doy)) -ℤ pos 719468

shifted_day :
    (yoe : ℕ) (era : ℤ) (doy : ℕ)
    → yoe < 400
    → day_of (pos yoe +ℤ era *ℤ pos 400) doy
      ≡ (era *ℤ pos 146097 +ℤ pos (days_before yoe + doy)) -ℤ pos 719468
unfolding days_before
shifted_day yoe era doy h =
    let commuted : yoe * 365 + yoe / 4 - yoe / 100 + doy ≡ 365 * yoe + yoe / 4 - yoe / 100 + doy =
      omega arith in
    rw (era_of yoe era h, rest_of yoe era, commuted) refl

-- `days_from_civil` gives back the day that `from_unix` split into a civil date.
pub days_from_civil-civil :
    (days : ℤ) → days_from_civil ((civil days).0) ((civil days).1) ((civil days).2) ≡ days
unfolding civil days_from_civil
days_from_civil-civil days =
    let z = days +ℤ pos 719468 in
    let doe = rem_euclid z 146097 in
    let era = div_euclid z 146097 in
    let yoe = year_of_era doe in
    let (a, b, c) = year_of_era_lem doe (rem_small z) in
    let shifted = pos yoe +ℤ era *ℤ pos 400 in
    let mp = (5 * (doe - days_before yoe) + 2) / 153 in
    let month : ℕ = if ltb mp 10 then mp + 3 else mp - 9 in
    let late : pos (january_or_february month) ≡ pos (january_or_february month) = refl in
    let same : (shifted +ℤ pos (january_or_february month)) -ℤ pos (january_or_february month)
        ≡ shifted =
      omega int_laws in
    let monthly : (153 * (if ltb 2 month then month - 3 else month + 9) + 2) / 5
          + ((doe - days_before yoe) - (153 * mp + 2) / 5 + 1)
          - 1
        ≡ doe - days_before yoe =
      month_back (doe - days_before yoe) (omega arith) in
    ap₂ day_of same monthly
    ∙ shifted_day yoe era (doe - days_before yoe) a
    ∙ ap (λ (n : ℕ). (era *ℤ pos 146097 +ℤ pos n) -ℤ pos 719468)
        (let e : days_before yoe + (doe - days_before yoe) ≡ doe = omega arith in e)
    ∙ day_back days
