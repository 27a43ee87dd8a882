-- ===== src/Prelude/Decimal.antt =====
-- The texts that `format!` makes of numbers: decimal digits, and the `{:?}` of a byte vector and of
-- an ASCII string.
pub mod Laws
use Prim.Native.Nat.{ℕ, zero, suc, ◌+◌, ◌-◌, ◌*◌, ◌/◌, ◌%◌, ◌<◌}
use mathlib.Core.List.{List, [], ◌∷◌, ◌++◌}
use mathlib.Core.Bool.{◌||◌}
use proof_of_context_impl.Prelude.Tests.{ltb, if◌then◌else◌, ◌==◌}
use proof_of_context_impl.Prelude.Bytes.{Bytes, text}

-- The digits of a number below 10 ^ (fuel + 1).
unfoldable pub digits : ℕ → ℕ → Bytes
digits zero n = (b'0' + n % 10) ∷ []
digits (suc fuel) n =
    let front = digits fuel (n / 10) in
    if ltb n 10 then (b'0' + n) ∷ [] else front ++ (b'0' + n % 10) ∷ []

-- A u64 has at most 20 digits.
unfoldable pub decimal : ℕ → Bytes
decimal n = digits 19 n

-- The elements, and the bracket that closes.
unfoldable pub debug_items : Bytes → Bytes
debug_items [] = text "]"
debug_items (b ∷ bs) = text ", " ++ (decimal b ++ debug_items bs)

-- `{:?}` of a `Vec<u8>`.
unfoldable pub debug_list : Bytes → Bytes
debug_list [] = text "[]"
debug_list (b ∷ bs) = text "[" ++ (decimal b ++ debug_items bs)

abbrev hex_digit : ℕ → ℕ
hex_digit n = if ltb n 10 then b'0' + n else b'a' + (n - 10)

-- `{:?}` of a character inside a string.
unfoldable pub escape : ℕ → Bytes
escape c =
    if c == 0
    then text "\\0"
    else if c == 9
    then text "\\t"
    else if c == 10
    then text "\\n"
    else if c == 13
    then text "\\r"
    else if c == 34 || c == 92
    then 92 ∷ c ∷ []
    else if ltb c 16
    then text "\\u{" ++ (hex_digit c ∷ text "}")
    else if ltb c 32 || c == 127
    then text "\\u{" ++ (hex_digit (c / 16) ∷ hex_digit (c % 16) ∷ text "}")
    else c ∷ []

unfoldable pub escapes : Bytes → Bytes
escapes [] = []
escapes (c ∷ cs) = escape c ++ escapes cs

-- `{:?}` of a string of ASCII characters.
unfoldable pub debug_text : Bytes → Bytes
debug_text s = 34 ∷ (escapes s ++ 34 ∷ [])
