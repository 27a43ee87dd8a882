-- ===== src/Prelude/Int.antt =====
-- `i64` without overflow: integers over the native numbers, with the division of the language, which
-- drops the fraction.
use Prim.Native.Nat.{ℕ, zero, suc, ◌+◌, ◌-◌, ◌*◌, ◌/◌, ◌≤◌}
use mathlib.Core.Path.{◌≡◌, refl, ap}
use mathlib.Core.Bool.{Bool, true, false}
use native.Mathlib.Omega.{arith}
use proof_of_context_impl.Prelude.Tests.{leb, if◌then◌else◌}

-- `negsuc n` is -(n + 1).
pub data ℤ : Type 0 where
  pos : ℕ → ℤ
  negsuc : ℕ → ℤ

-- -n
abbrev pub neg : ℕ → ℤ
neg zero = pos 0
neg (suc n) = negsuc n

-- m - n
unfoldable pub sub_ℕ : ℕ → ℕ → ℤ
sub_ℕ m n = if leb n m then pos (m - n) else negsuc (n - m - 1)

infixl 65 ◌+ℤ◌ ◌-ℤ◌
infixl 70 ◌*ℤ◌ ◌/ℤ◌
abbrev pub ◌+ℤ◌ : ℤ → ℤ → ℤ
pos a +ℤ pos b = pos (a + b)
pos a +ℤ negsuc b = sub_ℕ a (suc b)
negsuc a +ℤ pos b = sub_ℕ b (suc a)
negsuc a +ℤ negsuc b = negsuc (suc (a + b))

abbrev pub ◌-ℤ◌ : ℤ → ℤ → ℤ
pos a -ℤ pos b = sub_ℕ a b
pos a -ℤ negsuc b = pos (a + suc b)
negsuc a -ℤ pos b = negsuc (a + b)
negsuc a -ℤ negsuc b = sub_ℕ b a

-- by a constant
abbrev pub ◌*ℤ◌ : ℤ → ℕ → ℤ
pos a *ℤ k = pos (a * k)
negsuc a *ℤ k = neg (suc a * k)

abbrev pub ◌/ℤ◌ : ℤ → ℕ → ℤ
pos a /ℤ k = pos (a / k)
negsuc a /ℤ k = neg (suc a / k)

-- a ≤ k
abbrev pub le_const : ℤ → ℕ → Bool
le_const (pos a) k = leb a k
le_const (negsuc a) k = true

abbrev pub is_negative : ℤ → Bool
is_negative (pos a) = false
is_negative (negsuc a) = true

pub sub_ℕ-le : (m n : ℕ) → n ≤ m → sub_ℕ m n ≡ pos (m - n)
unfolding sub_ℕ
sub_ℕ-le m n h = ground arith

pub sub_ℕ-lt : (m n k : ℕ) → m + suc k ≡ n → sub_ℕ m n ≡ negsuc k
unfolding sub_ℕ
sub_ℕ-lt m n k h = let above : leb n m ≡ false = ground arith in rw above (ap negsuc (omega arith))

pub neg_of_suc : (n k : ℕ) → n ≡ suc k → neg n ≡ negsuc k
neg_of_suc n k h = rw h refl
