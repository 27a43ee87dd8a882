-- ===== src/InputFreshness/Timestamp.antt =====
-- src/input_freshness.rs: parse_iso8601_utc_secs, of the build with `real-anchors`.
pub mod Calendar
pub mod Civil
pub mod Text
pub mod Seconds
use proof_of_context_impl.Prelude.{
  and_then, ℕ, zero, suc, ◌+◌, ◌-◌, ◌*◌, Bool, true, false, not, ◌&&◌, ◌||◌, Option, none, some,
  List, [], ◌∷◌, length, take, drop, get_elem?, ltb, leb, ◌==◌, if◌then◌else◌,
}
use proof_of_context_impl.Prelude.Bytes.{Bytes}
use proof_of_context_impl.Prelude.Int.{
  ℤ, pos, negsuc, neg, ◌+ℤ◌, ◌-ℤ◌, ◌*ℤ◌, ◌/ℤ◌, le_const, is_negative,
}
use proof_of_context_impl.Error.{PocError, context_root_malformed, Result, ok, err, ok_or, ◌>>=◌}

-- A byte that begins a character of UTF-8, or the end of the text.
unfoldable pub is_boundary : Bytes → ℕ → Bool
is_boundary ts i = elim (get_elem? ts i) [ none ↦ true | some c ↦ ltb c 128 || leb 192 c ]

-- `ts.get(from..to)` inside the text
unfoldable pub slice : Bytes → ℕ → ℕ → Option Bytes
unfolding is_boundary
slice ts from to =
    if is_boundary ts from && is_boundary ts to
    then some (take (to - from) (drop from ts))
    else none

unfoldable pub digits_from : ℕ → Bytes → Option ℕ
digits_from acc [] = some acc
digits_from acc (c ∷ cs) =
    if leb b'0' c && leb c b'9' then digits_from (acc * 10 + (c - b'0')) cs else none

-- One digit at least.
unfoldable pub parse_digits : Bytes → Option ℕ
unfolding digits_from
parse_digits [] = none
parse_digits (c ∷ cs) = digits_from 0 (c ∷ cs)

abbrev map_option : (ℕ → ℤ) → Option ℕ → Option ℤ
map_option f none = none
map_option f (some n) = some (f n)

-- `s.parse::<i64>().ok()`, for a text of at most 18 characters
unfoldable pub parse_i64 : Bytes → Option ℤ
unfolding parse_digits
parse_i64 [] = none
parse_i64 (c ∷ cs) =
    if c == b'+'
    then map_option pos (parse_digits cs)
    else if c == b'-'
    then map_option neg (parse_digits cs)
    else map_option pos (parse_digits (c ∷ cs))

-- the closure `num`
unfoldable pub num : Bytes → ℕ → ℕ → Result PocError ℤ
unfolding slice parse_i64
num ts from to = ok_or (and_then (slice ts from to) parse_i64) (context_root_malformed "timestamp")

-- The days from 1970-01-01 to a date of the Gregorian calendar.
unfoldable pub days_from_civil : ℤ → ℤ → ℤ → ℤ
days_from_civil year month day =
    let y = if le_const month 2 then year -ℤ pos 1 else year in
    let era = (if is_negative y then y -ℤ pos 399 else y) /ℤ 400 in
    let yoe = y -ℤ era *ℤ 400 in
    let shifted = if le_const month 2 then month +ℤ pos 9 else month -ℤ pos 3 in
    let doy = (shifted *ℤ 153 +ℤ pos 2) /ℤ 5 +ℤ day -ℤ pos 1 in
    let doe = yoe *ℤ 365 +ℤ yoe /ℤ 4 -ℤ yoe /ℤ 100 +ℤ doy in era *ℤ 146097 +ℤ doe -ℤ pos 719468

-- `u64::try_from(total)`, where `total` is below 2^64
abbrev pub to_u64 : ℤ → Result PocError ℕ
to_u64 (pos n) = ok n
to_u64 (negsuc n) = err (context_root_malformed "timestamp")

unfoldable pub parse_iso8601_utc_secs : Bytes → Result PocError ℕ
parse_iso8601_utc_secs ts =
    if ltb (length ts) 19 then err (context_root_malformed "timestamp") else do
      year ← num ts 0 4
      month ← num ts 5 7
      day ← num ts 8 10
      hour ← num ts 11 13
      min ← num ts 14 16
      sec ← num ts 17 19
      let days = days_from_civil year month day
      to_u64 (days *ℤ 86400 +ℤ hour *ℤ 3600 +ℤ min *ℤ 60 +ℤ sec)
