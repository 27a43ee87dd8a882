-- ===== src/InputFreshness/Timestamp/Civil.antt =====
-- src/input_freshness.rs: the days that parse_iso8601_utc_secs computes are those of the calendar.
use proof_of_context_impl.Prelude.{
  ℕ, zero, suc, ◌+◌, ◌-◌, ◌*◌, ◌/◌, ◌≤◌, ◌≡◌, refl, ◌∙◌, true, false, arith, leb, if◌then◌else◌,
}
use proof_of_context_impl.Prelude.Int.{ℤ, pos, sub_ℕ, sub_ℕ-le, ◌+ℤ◌, ◌-ℤ◌, ◌*ℤ◌, ◌/ℤ◌, is_negative}
use proof_of_context_impl.InputFreshness.Timestamp.{days_from_civil}
use proof_of_context_impl.InputFreshness.Timestamp.Calendar.{
  days_in_month, days_before_month, day_number, IsDate, leap_step, days_before_year_closed,
  days_before_month_closed,
}

-- The day of a year that starts in March, and the day in its 400 years, without negative numbers.
abbrev march_day : ℕ → ℕ → ℕ
march_day s d = (s * 153 + 2) / 5 + d - 1

abbrev march_based : ℕ → ℕ → ℕ → ℕ
march_based n s d =
    n / 400 * 146097
    + ((n - n / 400 * 400) * 365
        + (n - n / 400 * 400) / 4
        - (n - n / 400 * 400) / 100
        + march_day s d)

-- The years of an era, counted on.
era_years :
    (n x : ℕ)
    → n / 400 * 146097
        + ((n - n / 400 * 400) * 365 + (n - n / 400 * 400) / 4 - (n - n / 400 * 400) / 100 + x)
        + n / 100
      ≡ 365 * n + n / 4 + n / 400 + x
era_years n x = omega arith

shift60 : (a : ℕ) → sub_ℕ a 719468 ≡ sub_ℕ (a + 60) 719528
unfolding sub_ℕ
shift60 a = ground arith

-- days_from_civil, over the year that starts in March and the month counted from there.
abbrev era_days : ℤ → ℤ → ℤ → ℤ
era_days y shifted day =
    let era = (if is_negative y then y -ℤ pos 399 else y) /ℤ 400 in
    let yoe = y -ℤ era *ℤ 400 in
    let doy = (shifted *ℤ 153 +ℤ pos 2) /ℤ 5 +ℤ day -ℤ pos 1 in
    let doe = yoe *ℤ 365 +ℤ yoe /ℤ 4 -ℤ yoe /ℤ 100 +ℤ doy in era *ℤ 146097 +ℤ doe -ℤ pos 719468

era_days_lem :
    (n s d : ℕ) → 1 ≤ d → era_days (pos n) (pos s) (pos d) ≡ sub_ℕ (march_based n s d) 719468
era_days_lem n s d some_day =
    rw
      (
        sub_ℕ-le n (n / 400 * 400) (omega arith),
        sub_ℕ-le ((n - n / 400 * 400) * 365 + (n - n / 400 * 400) / 4) ((n - n / 400 * 400) / 100)
            (omega arith),
        sub_ℕ-le ((s * 153 + 2) / 5 + d) 1 (omega arith),
      )
      refl

-- From March on.
late :
    (y m d : ℕ)
    → 3 ≤ m
    → 1 ≤ d
    → days_from_civil (pos y) (pos m) (pos d) ≡ sub_ℕ (march_based y (m - 3) d) 719468
unfolding days_from_civil
late y m d march some_day =
    let test : leb m 2 ≡ false = ground arith in
    rw (test, sub_ℕ-le m 3 march) (era_days_lem y (m - 3) d some_day)

early :
    (y m d : ℕ)
    → 1 ≤ y
    → m ≤ 2
    → 1 ≤ d
    → days_from_civil (pos y) (pos m) (pos d) ≡ sub_ℕ (march_based (y - 1) (m + 9) d) 719468
unfolding days_from_civil
early y m d some_year first some_day =
    let test : leb m 2 ≡ true = ground arith in
    rw (test, sub_ℕ-le y 1 some_year) (era_days_lem (y - 1) (m + 9) d some_day)

late_count :
    (n k d : ℕ)
    → k ≤ 9
    → 1 ≤ d
    → march_based (suc n) (suc (suc (suc k)) - 3) d + 60 ≡ day_number (suc n) (suc (suc (suc k))) d
unfolding day_number
late_count n k d some_month some_day =
    let month : suc (suc (suc k)) - 3 ≡ k = omega arith in
    rw month (
      omega (
        arith,
        era_years (suc n) (march_day k d),
        days_before_year_closed n,
        days_before_month_closed (suc n) k some_month,
        leap_step n,
      ))

-- The first two months.
january : (n d : ℕ) → 1 ≤ d → march_based (suc n - 1) 10 d + 60 ≡ day_number (suc n) 1 d
unfolding day_number days_before_month
january n d some_day =
    let year : suc n - 1 ≡ n = omega arith in
    rw year (omega (arith, era_years n (march_day 10 d), days_before_year_closed n))

february : (n d : ℕ) → 1 ≤ d → march_based (suc n - 1) 11 d + 60 ≡ day_number (suc n) 2 d
unfolding day_number days_before_month days_in_month
february n d some_day =
    let year : suc n - 1 ≡ n = omega arith in
    rw year (omega (arith, era_years n (march_day 11 d), days_before_year_closed n))

epoch : day_number 1970 1 1 ≡ 719528
unfolding day_number days_before_month
epoch = omega (arith, days_before_year_closed 1969)

from_count : (a b : ℕ) → a + 60 ≡ b → sub_ℕ a 719468 ≡ sub_ℕ b (day_number 1970 1 1)
from_count a b e = rw (← e, epoch) (shift60 a)

-- The days computed are those of the calendar, counted from the first of January 1970.
pub days_from_civil_lem :
    (y m d : ℕ)
    → 1 ≤ y
    → IsDate y m d
    → days_from_civil (pos y) (pos m) (pos d) ≡ sub_ℕ (day_number y m d) (day_number 1970 1 1)
days_from_civil_lem zero m d some_year date = absurd (omega arith)
days_from_civil_lem (suc n) zero d some_year date = absurd (omega (arith, date.month_low))
days_from_civil_lem (suc n) (suc zero) d some_year date =
    early (suc n) 1 d some_year (omega arith) date.day_low
    ∙ from_count _ _ (january n d date.day_low)
days_from_civil_lem (suc n) (suc (suc zero)) d some_year date =
    early (suc n) 2 d some_year (omega arith) date.day_low
    ∙ from_count _ _ (february n d date.day_low)
days_from_civil_lem (suc n) (suc (suc (suc k))) d some_year date =
    late (suc n) (suc (suc (suc k))) d (omega arith) date.day_low
    ∙ from_count _ _ (late_count n k d (omega (arith, date.month_high)) date.day_low)
