-- ===== src/Prelude/Word.antt =====
-- Machine words: the arithmetic of `u64` and `u128` that the program uses, and the little-endian
-- byte strings of `to_le_bytes`.
use Prim.Native.Nat.{ℕ, zero, suc, ◌+◌, ◌-◌, ◌*◌, ◌/◌, ◌%◌, ◌<◌, min}
use mathlib.Core.Path.{◌≡◌, refl, ap, sym, ◌∙◌}
use mathlib.Core.List.{List, [], ◌∷◌, ◌++◌}
use native.Mathlib.Omega.{arith}
use proof_of_context_impl.Prelude.Tests.{ltb, if◌then◌else◌}
use proof_of_context_impl.Prelude.Lists.{length, All, append_split}
use proof_of_context_impl.Prelude.Bytes.{Bytes, IsArray}

-- 2^64, and the largest u64.
abbrev pub u64_mod : ℕ
u64_mod = 18446744073709551616

abbrev pub u64_max : ℕ
u64_max = 18446744073709551615

abbrev pub u128_mod : ℕ
u128_mod = 340282366920938463463374607431768211456

abbrev pub u32_mod : ℕ
u32_mod = 4294967296

-- `a + b` on u64, in a release build (`overflow-checks` off): it wraps.
abbrev pub wrapping_add : ℕ → ℕ → ℕ
wrapping_add a b = (a + b) % u64_mod

-- `u64::saturating_mul`.
abbrev pub saturating_mul : ℕ → ℕ → ℕ
saturating_mul a b = min (a * b) u64_max

-- `saturating_sub`.
abbrev pub saturating_sub : ℕ → ℕ → ℕ
saturating_sub a b = a - b

-- `abs_diff`.
abbrev pub abs_diff : ℕ → ℕ → ℕ
abs_diff a b = if ltb a b then b - a else a - b

-- `to_le_bytes` of a word of the given number of bytes.
unfoldable pub le_bytes : ℕ → ℕ → List ℕ
le_bytes zero x = []
le_bytes (suc w) x = (x % 256) ∷ le_bytes w (x / 256)

pub length-le_bytes : (w x : ℕ) → length (le_bytes w x) ≡ w
unfolding le_bytes
length-le_bytes zero x = refl
length-le_bytes (suc w) x = ap suc (length-le_bytes w (x / 256))

pub le_bytes-All : (w x : ℕ) → All (λ b. b < 256) (le_bytes w x)
unfolding le_bytes
le_bytes-All zero x = tt
le_bytes-All (suc w) x = (omega arith, le_bytes-All w (x / 256))

-- The words of `w` bytes.
abbrev pub word_mod : ℕ → ℕ
word_mod zero = 1
word_mod (suc w) = 256 * word_mod w

-- Words of one width with equal bytes are equal.
pub le_bytes-injective :
    (w x y : ℕ) → x < word_mod w → y < word_mod w → le_bytes w x ≡ le_bytes w y → x ≡ y
unfolding le_bytes
le_bytes-injective zero x y hx hy h = omega arith
le_bytes-injective (suc w) x y hx hy h =
    let low : x % 256 ≡ y % 256 = cc in
    let high : x / 256 ≡ y / 256 =
      le_bytes-injective w (x / 256) (y / 256) (omega arith) (omega arith) (cc) in
    omega arith

-- Words of one width in front of two byte strings.
pub word_split :
    (w x y : ℕ) {us vs : Bytes}
    → le_bytes w x ++ us ≡ le_bytes w y ++ vs
    → (le_bytes w x ≡ le_bytes w y) × (us ≡ vs)
word_split w x y h =
    append_split (le_bytes w x) (le_bytes w y) (length-le_bytes w x ∙ sym (length-le_bytes w y)) h

-- Arrays of one size in front of two byte strings.
pub array_split :
    {w : ℕ} (xs ys : Bytes) {us vs : Bytes}
    → IsArray w xs
    → IsArray w ys
    → xs ++ us ≡ ys ++ vs
    → (xs ≡ ys) × (us ≡ vs)
array_split xs ys p q h = append_split xs ys (p.size ∙ sym q.size) h
