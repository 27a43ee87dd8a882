-- ===== src/InputFreshness/Timestamp/Calendar.antt =====
-- The Gregorian calendar, by counting: what src/input_freshness.rs computes in closed form.
use proof_of_context_impl.Prelude.{
  ℕ, zero, suc, ◌+◌, ◌-◌, ◌*◌, ◌/◌, ◌%◌, ◌≤◌, ◌<◌, ◌≡◌, refl, inl, inr, Bool, not, ◌&&◌, ◌||◌,
  arith, ◌==◌, if◌then◌else◌, Bool-cases, leb, leb→le,
}

abbrev pub is_leap : ℕ → Bool
is_leap y = y % 4 == 0 && not (y % 100 == 0) || y % 400 == 0

unfoldable pub leap_days : ℕ → ℕ
leap_days y = if is_leap y then 1 else 0

unfoldable pub days_in_month : ℕ → ℕ → ℕ
days_in_month y m =
    if m == 2 then 28 + leap_days y else if m == 4 || m == 6 || m == 9 || m == 11 then 30 else 31

-- The days before the first of January, from the year 0 on.
unfoldable pub days_before_year : ℕ → ℕ
days_before_year zero = 0
days_before_year (suc y) = days_before_year y + (365 + leap_days y)

-- The days of the year before the first of the month, where January is 1.
unfoldable pub days_before_month : ℕ → ℕ → ℕ
days_before_month y zero = 0
days_before_month y (suc zero) = 0
days_before_month y (suc (suc m)) = days_before_month y (suc m) + days_in_month y (suc m)

unfoldable pub day_number : ℕ → ℕ → ℕ → ℕ
day_number y m d = days_before_year y + days_before_month y m + (d - 1)

-- A date of the calendar.
pub record IsDate (y m d : ℕ) : Type 0 where
  pub month_low : 1 ≤ m
  pub month_high : m ≤ 12
  pub day_low : 1 ≤ d
  pub day_high : d ≤ days_in_month y m

-- How the leap years up to `y` grow.
pub leap_step :
    (y : ℕ) → suc y / 4 + y / 100 + suc y / 400 ≡ y / 4 + suc y / 100 + y / 400 + leap_days (suc y)
unfolding leap_days
leap_step y = ground arith

first_year : days_before_year 1 ≡ 366
unfolding days_before_year leap_days
first_year = refl

-- The leap years below a year, counted by divisions.
pub days_before_year_closed :
    (y : ℕ) → days_before_year (suc y) + y / 100 ≡ 365 * suc y + y / 4 + y / 400 + 1
unfolding days_before_year
days_before_year_closed zero = omega (arith, first_year)
days_before_year_closed (suc y) = omega (arith, days_before_year_closed y, leap_step y)

-- From March on, the months go by the rule of 153 days in five months.
month_step :
    (y m : ℕ)
    → m ≤ 8
    → (153 * suc m + 2) / 5 ≡ (153 * m + 2) / 5 + days_in_month y (suc (suc (suc m)))
unfolding days_in_month
month_step y m h = ground arith

first_months : (y : ℕ) → days_in_month y 1 + days_in_month y 2 ≡ 59 + leap_days y
unfolding days_in_month
first_months y = omega arith

pub days_before_month_closed :
    (y m : ℕ)
    → m ≤ 9
    → days_before_month y (suc (suc (suc m))) ≡ 59 + leap_days y + (153 * m + 2) / 5
unfolding days_before_month
days_before_month_closed y zero h = omega (arith, first_months y)
days_before_month_closed y (suc m) h =
    omega (arith, days_before_month_closed y m (omega arith), month_step y m (omega arith))

pub days_of_month : (y m : ℕ) → days_in_month y m ≤ 31
unfolding days_in_month leap_days
days_of_month y m = ground arith

month_room : (y k : ℕ) → k ≤ 9 → (153 * k + 2) / 5 + days_in_month y (suc (suc (suc k))) ≤ 306
month_room y k h = elim (Bool-cases (leb k 8)) [
  | inl early ↦ omega (arith, leb→le k 8 early, month_step y k (leb→le k 8 early))
  | inr late ↦
      let above : 8 < k = ground arith in omega (arith, days_of_month y (suc (suc (suc k))))
]

-- A date lies in its year.
pub day_of_year : (y m d : ℕ) → IsDate y m d → days_before_month y m + d ≤ 365 + leap_days y
unfolding days_before_month
day_of_year y zero d date = absurd (omega (arith, date.month_low))
day_of_year y (suc zero) d date = omega (arith, date.day_high, days_of_month y 1)
day_of_year y (suc (suc zero)) d date =
    omega (arith, date.day_high, days_of_month y 1, first_months y)
day_of_year y (suc (suc (suc k))) d date =
    let some_month : k ≤ 9 = omega (arith, date.month_high) in
    omega (arith, date.day_high, days_before_month_closed y k some_month, month_room y k some_month)

-- From 1970 on the days are not negative, and before they are.
pub since_1970 : (y m d : ℕ) → 1970 ≤ y → day_number 1970 1 1 ≤ day_number y m d
unfolding day_number days_before_month
since_1970 zero m d h = absurd (omega arith)
since_1970 (suc n) m d h = omega (arith, days_before_year_closed 1969, days_before_year_closed n)

pub before_1970 :
    (y m d : ℕ) → IsDate y m d → 1 ≤ y → y < 1970 → day_number y m d < day_number 1970 1 1
unfolding day_number days_before_month
before_1970 zero m d date some_year h = absurd (omega arith)
before_1970 (suc n) m d date some_year h = omega (
  arith,
  days_before_year_closed 1969,
  days_before_year_closed n,
  leap_step n,
  day_of_year (suc n) m d date,
  date.day_low,
)
