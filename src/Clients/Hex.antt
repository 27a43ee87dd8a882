-- ===== src/Clients/Hex.antt =====
-- `u64::from_str_radix` with the radix 16, and `strip_prefix`, which src/clients/block.rs calls.
pub mod Value
use proof_of_context_impl.Prelude.{
  ℕ, ◌+◌, ◌-◌, ◌*◌, ◌&&◌, Option, none, some, List, [], ◌∷◌, leb, ltb, ◌==◌, if◌then◌else◌,
}
use proof_of_context_impl.Prelude.Bytes.{Bytes, text}
use proof_of_context_impl.Prelude.Word.{u64_mod}
use proof_of_context_impl.Error.{Result, ok, err}

-- char::to_digit(16)
unfoldable pub to_digit : ℕ → Option ℕ
to_digit c =
    if leb b'0' c && leb c b'9'
    then some (c - b'0')
    else if leb b'a' c && leb c b'f'
    then some (c - b'a' + 10)
    else if leb b'A' c && leb c b'F'
    then some (c - b'A' + 10)
    else none

-- `checked_mul` and `checked_add`, digit by digit
unfoldable pub digits_from : ℕ → Bytes → Result Bytes ℕ
digits_from acc [] = ok acc
digits_from acc (c ∷ cs) = elim (to_digit c) [
  | none ↦ err (text "invalid digit found in string")
  | some x ↦
      let rest = digits_from (acc * 16 + x) cs in
      if ltb (acc * 16) u64_mod && ltb (acc * 16 + x) u64_mod
      then rest
      else err (text "number too large to fit in target type")
]

-- The digits behind a plus sign that does not stand alone.
abbrev pub unsigned_part : Bytes → Bytes
unsigned_part [] = []
unsigned_part (c ∷ []) = c ∷ []
unsigned_part (c ∷ d ∷ cs) = if c == b'+' then d ∷ cs else c ∷ d ∷ cs

unfoldable pub from_str_radix_16 : Bytes → Result Bytes ℕ
from_str_radix_16 [] = err (text "cannot parse integer from empty string")
from_str_radix_16 (c ∷ cs) = digits_from 0 (unsigned_part (c ∷ cs))

-- `s.strip_prefix(prefix)`
unfoldable pub strip_prefix : Bytes → Bytes → Option Bytes
strip_prefix [] s = some s
strip_prefix (p ∷ prefix) [] = none
strip_prefix (p ∷ prefix) (c ∷ s) =
    let rest = strip_prefix prefix s in if c == p then rest else none
