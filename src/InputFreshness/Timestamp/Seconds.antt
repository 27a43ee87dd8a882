-- ===== src/InputFreshness/Timestamp/Seconds.antt =====
-- src/input_freshness.rs: the seconds that parse_iso8601_utc_secs makes of a date and a time.
use proof_of_context_impl.Prelude.{
  ℕ, suc, ◌+◌, ◌-◌, ◌*◌, ◌≤◌, ◌<◌, ◌≡◌, refl, true, arith, leb, if◌then◌else◌, inl, inr, ap,
  Bool-cases, leb→le,
}
use proof_of_context_impl.Prelude.Bytes.{Bytes}
use proof_of_context_impl.Prelude.Int.{
  ℤ, pos, negsuc, sub_ℕ, sub_ℕ-le, sub_ℕ-lt, neg_of_suc, ◌+ℤ◌, ◌*ℤ◌,
}
use proof_of_context_impl.Error.{context_root_malformed, ok, err}
use proof_of_context_impl.InputFreshness.Timestamp.{is_boundary, parse_iso8601_utc_secs, to_u64}
use proof_of_context_impl.InputFreshness.Timestamp.Calendar.{
  day_number, IsDate, days_of_month, since_1970, before_1970,
}
use proof_of_context_impl.InputFreshness.Timestamp.Civil.{days_from_civil_lem}
use proof_of_context_impl.InputFreshness.Timestamp.Text.{
  iso, iso_long, year_field, month_field, day_field, hour_field, min_field, sec_field,
}

-- A time of the day.
pub record IsTime (h m s : ℕ) : Type 0 where
  pub hour_high : h < 24
  pub min_high : m < 60
  pub sec_high : s < 60

abbrev since_epoch : ℕ → ℕ → ℕ → ℕ
since_epoch y m d = day_number y m d - day_number 1970 1 1

abbrev of_day : ℕ → ℕ → ℕ → ℕ
of_day h m s = h * 3600 + m * 60 + s

-- The seconds as an integer, from the days.
abbrev total : ℤ → ℕ → ℕ → ℕ → ℤ
total days h m s = days *ℤ 86400 +ℤ pos (h * 3600) +ℤ pos (m * 60) +ℤ pos s

later_total :
    (a b h m s : ℕ) → b ≤ a → total (sub_ℕ a b) h m s ≡ pos ((a - b) * 86400 + of_day h m s)
later_total a b h m s le = rw (sub_ℕ-le a b le) (ap pos (omega arith))

negative_total : (k h m s : ℕ) → IsTime h m s → (n : ℕ) × (total (negsuc k) h m s ≡ negsuc n)
negative_total k h m s time =
    let at : ℕ = suc k * 86400 - 1 in
    (
      at - h * 3600 - m * 60 - s,
      rw
          (
            neg_of_suc (suc k * 86400) at (omega arith),
            sub_ℕ-lt (h * 3600) (suc at) (at - h * 3600) (omega arith),
            sub_ℕ-lt (m * 60) (suc (at - h * 3600)) (at - h * 3600 - m * 60) (omega arith),
            sub_ℕ-lt s (suc (at - h * 3600 - m * 60)) (at - h * 3600 - m * 60 - s) (omega arith),
          )
          refl,
    )

seconds_of :
    (y mo d h mi s : ℕ)
    → 1 ≤ y
    → IsDate y mo d
    → IsTime h mi s
    → to_u64 (total (sub_ℕ (day_number y mo d) (day_number 1970 1 1)) h mi s) ≡ (
        if leb 1970 y
        then ok (since_epoch y mo d * 86400 + of_day h mi s)
        else err (context_root_malformed "timestamp"))
seconds_of y mo d h mi s low date time = elim (Bool-cases (leb 1970 y)) [
  | inl late ↦
      rw
        (
          late,
          later_total (day_number y mo d) (day_number 1970 1 1) h mi s
              (since_1970 y mo d (leb→le 1970 y late)),
        )
        refl
  | inr early ↦
      let year : y < 1970 = ground arith in
      let below = before_1970 y mo d date low year in
      let gap : ℕ = day_number 1970 1 1 - day_number y mo d - 1 in
      rw
        (
          early,
          sub_ℕ-lt (day_number y mo d) (day_number 1970 1 1) gap (omega (arith, below)),
          (negative_total gap h mi s time).1,
        )
        refl
]

-- The text of a date, from the year 1 on, and of a time of the day is read as the seconds since the
-- first of January 1970, days and leap days counted one by one; before that day it is refused.
-- What follows the seconds does not matter, if it begins with a whole character.
pub parse_iso8601_utc_secs-iso :
    (y mo d h mi s : ℕ) (rest : Bytes)
    → 1 ≤ y
    → y < 10000
    → IsDate y mo d
    → IsTime h mi s
    → is_boundary rest 0 ≡ true
    → parse_iso8601_utc_secs (iso y mo d h mi s rest) ≡ (
        if leb 1970 y
        then ok (since_epoch y mo d * 86400 + of_day h mi s)
        else err (context_root_malformed "timestamp"))
unfolding parse_iso8601_utc_secs
parse_iso8601_utc_secs-iso y mo d h mi s rest low high date time whole =
    let days = days_from_civil_lem y mo d low date in
    let short : (mo < 100) × (d < 100) =
      omega (arith, date.month_high, date.day_high, days_of_month y mo) in
    rw
      (
        iso_long y mo d h mi s rest,
        year_field y mo d h mi s rest high,
        month_field y mo d h mi s rest short.0,
        day_field y mo d h mi s rest short.1,
        hour_field y mo d h mi s rest (omega (arith, time.hour_high)),
        min_field y mo d h mi s rest (omega (arith, time.min_high)),
        sec_field y mo d h mi s rest (omega (arith, time.sec_high)) whole,
        days,
      )
      (seconds_of y mo d h mi s low date time)
