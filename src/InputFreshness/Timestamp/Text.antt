-- ===== src/InputFreshness/Timestamp/Text.antt =====
-- src/input_freshness.rs: what parse_iso8601_utc_secs reads from the text of a date and a time.
use proof_of_context_impl.Prelude.{
  ℕ, ◌+◌, ◌-◌, ◌*◌, ◌/◌, ◌%◌, ◌<◌, ◌≡◌, refl, true, false, ◌||◌, some, [], ◌∷◌, length, arith, leb,
  ltb, ◌∙◌, ◌==◌,
}
use proof_of_context_impl.Prelude.Bytes.{Bytes}
use proof_of_context_impl.Prelude.Int.{pos}
use proof_of_context_impl.Error.{ok}
use proof_of_context_impl.InputFreshness.Timestamp.{
  is_boundary, slice, digits_from, parse_digits, parse_i64, num,
}

-- Digits before `rest`.
abbrev two : ℕ → Bytes → Bytes
two n rest = (b'0' + n / 10) ∷ (b'0' + n % 10) ∷ rest

abbrev four : ℕ → Bytes → Bytes
four n rest = two (n / 100) (two (n % 100) rest)

-- The form `YYYY-MM-DDTHH:MM:SS` before `rest`.
unfoldable pub iso : ℕ → ℕ → ℕ → ℕ → ℕ → ℕ → Bytes → Bytes
iso year month day hour min sec rest =
    four year
      (b'-' ∷ two month (b'-' ∷ two day (b'T' ∷ two hour (b':' ∷ two min (b':' ∷ two sec rest)))))

digit_step :
    (acc q n : ℕ) (cs : Bytes)
    → q < 10
    → acc * 10 + q ≡ n
    → digits_from acc ((b'0' + q) ∷ cs) ≡ digits_from n cs
unfolding digits_from
digit_step acc q n cs h e =
    let low : leb b'0' (b'0' + q) ≡ true = ground arith in
    let high : leb (b'0' + q) b'9' ≡ true = ground arith in
    let same : acc * 10 + (b'0' + q - b'0') ≡ n = omega arith in rw (low, high, same) refl

unsigned :
    (q : ℕ) (cs : Bytes) (v : ℕ)
    → digits_from 0 ((b'0' + q) ∷ cs) ≡ some v
    → parse_i64 ((b'0' + q) ∷ cs) ≡ some (pos v)
unfolding parse_i64 parse_digits
unsigned q cs v e =
    let plus : (b'0' + q == b'+') ≡ false = ground arith in
    let minus : (b'0' + q == b'-') ≡ false = ground arith in rw (plus, minus, e) refl

parse_two : (n : ℕ) → n < 100 → parse_i64 (two n []) ≡ some (pos n)
unfolding digits_from
parse_two n h = unsigned (n / 10) ((b'0' + n % 10) ∷ []) n (
    rw
      (
        digit_step 0 (n / 10) (n / 10) ((b'0' + n % 10) ∷ []) (omega arith) (omega arith),
        digit_step (n / 10) (n % 10) n [] (omega arith) (omega arith),
      )
      refl)

parse_four : (n : ℕ) → n < 10000 → parse_i64 (four n []) ≡ some (pos n)
unfolding digits_from
parse_four n h = unsigned (n / 100 / 10) ((b'0' + n / 100 % 10) ∷ two (n % 100) []) n (
    digit_step 0 (n / 100 / 10) (n / 1000) ((b'0' + n / 100 % 10) ∷ two (n % 100) []) (omega arith)
      (omega arith)
    ∙ digit_step (n / 1000) (n / 100 % 10) (n / 100) (two (n % 100) []) (omega arith) (omega arith)
    ∙ digit_step (n / 100) (n % 100 / 10) (n / 10) ((b'0' + n % 100 % 10) ∷ []) (omega arith)
        (omega arith)
    ∙ digit_step (n / 10) (n % 100 % 10) n [] (omega arith) (omega arith))

digit-boundary : (q : ℕ) → q < 10 → (ltb (b'0' + q) 128 || leb 192 (b'0' + q)) ≡ true
digit-boundary q h = ground arith

module _ (year month day hour min sec : ℕ) (rest : Bytes) where
  pub year_field : year < 10000 → num (iso year month day hour min sec rest) 0 4 ≡ ok (pos year)
  unfolding num slice is_boundary iso
  year_field h = rw (digit-boundary (year / 100 / 10) (omega arith), parse_four year h) refl

  pub month_field : month < 100 → num (iso year month day hour min sec rest) 5 7 ≡ ok (pos month)
  unfolding num slice is_boundary iso
  month_field h = rw (digit-boundary (month / 10) (omega arith), parse_two month h) refl

  pub day_field : day < 100 → num (iso year month day hour min sec rest) 8 10 ≡ ok (pos day)
  unfolding num slice is_boundary iso
  day_field h = rw (digit-boundary (day / 10) (omega arith), parse_two day h) refl

  pub hour_field : hour < 100 → num (iso year month day hour min sec rest) 11 13 ≡ ok (pos hour)
  unfolding num slice is_boundary iso
  hour_field h = rw (digit-boundary (hour / 10) (omega arith), parse_two hour h) refl

  pub min_field : min < 100 → num (iso year month day hour min sec rest) 14 16 ≡ ok (pos min)
  unfolding num slice is_boundary iso
  min_field h = rw (digit-boundary (min / 10) (omega arith), parse_two min h) refl

  sec-start : sec < 100 → is_boundary (iso year month day hour min sec rest) 17 ≡ true
  unfolding is_boundary iso
  sec-start h = digit-boundary (sec / 10) (omega arith)

  sec-end : is_boundary (iso year month day hour min sec rest) 19 ≡ is_boundary rest 0
  unfolding is_boundary iso
  sec-end = refl

  pub sec_field :
      sec < 100
      → is_boundary rest 0 ≡ true
      → num (iso year month day hour min sec rest) 17 19 ≡ ok (pos sec)
  unfolding num slice iso
  sec_field h e = rw (sec-start h, sec-end, e, parse_two sec h) refl

  pub iso_long : ltb (length (iso year month day hour min sec rest)) 19 ≡ false
  unfolding iso
  iso_long = ground arith
