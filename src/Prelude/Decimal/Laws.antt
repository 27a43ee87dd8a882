-- ===== src/Prelude/Decimal/Laws.antt =====
-- The texts of numbers and of byte vectors determine them.
use Prim.Native.Nat.{ℕ, zero, suc, ◌+◌, ◌-◌, ◌*◌, ◌/◌, ◌%◌, ◌≤◌, ◌<◌}
use mathlib.Core.Path.{◌≡◌, refl, sym, ap, ◌∙◌}
use mathlib.Core.Logic.{◌≢◌, inl, inr}
use mathlib.Core.List.{[], ◌∷◌, ◌++◌}
use native.Mathlib.Omega.{arith}
use proof_of_context_impl.Prelude.Tests.{ltb, Bool-cases, ltb→lt}
use proof_of_context_impl.Prelude.Lists.{All, All-append}
use proof_of_context_impl.Prelude.Bytes.{Bytes}
use proof_of_context_impl.Prelude.Decimal.{digits, decimal, debug_items, debug_list}

-- The number that digits stand for, behind those of `acc`.
abbrev value : ℕ → Bytes → ℕ
value acc [] = acc
value acc (d ∷ ds) = value (acc * 10 + (d - b'0')) ds

value-snoc :
    (acc : ℕ) (ds : Bytes) (d : ℕ) → value acc (ds ++ d ∷ []) ≡ value acc ds * 10 + (d - b'0')
value-snoc acc [] d = refl
value-snoc acc (x ∷ ds) d = value-snoc (acc * 10 + (x - b'0')) ds d

abbrev pow10 : ℕ → ℕ
pow10 zero = 10
pow10 (suc k) = 10 * pow10 k

value-digits : (fuel n : ℕ) → n < pow10 fuel → value 0 (digits fuel n) ≡ n
unfolding digits
value-digits zero n small = omega arith
value-digits (suc fuel) n small = elim (Bool-cases (ltb n 10)) [
  | inl one ↦ rw one (omega arith)
  | inr more ↦
      rw (more, value-snoc 0 (digits fuel (n / 10)) (b'0' + n % 10))
        (omega (arith, value-digits fuel (n / 10) (omega arith)))
]

abbrev IsDigit : ℕ → Type 0
IsDigit d = (48 ≤ d) × (d < 58)

digits-IsDigit : (fuel n : ℕ) → All IsDigit (digits fuel n)
unfolding digits
digits-IsDigit zero n = omega arith
digits-IsDigit (suc fuel) n = elim (Bool-cases (ltb n 10)) [
  | inl one ↦ rw one (omega (arith, ltb→lt n 10 one))
  | inr more ↦ rw more (
      All-append IsDigit (digits fuel (n / 10)) ((b'0' + n % 10) ∷ [])
        (digits-IsDigit fuel (n / 10)) (omega arith))
]

-- What does not go on with a digit.
abbrev Ends : Bytes → Type 0
Ends [] = Unit
Ends (c ∷ cs) = ¬ (IsDigit c)

-- Digits end where the digits end.
digits_split :
    (xs ys : Bytes) {us vs : Bytes}
    → All IsDigit xs
    → All IsDigit ys
    → Ends us
    → Ends vs
    → xs ++ us ≡ ys ++ vs
    → (xs ≡ ys) × (us ≡ vs)
digits_split [] [] dx dy eu ev h = (refl, h)
digits_split [] (y ∷ ys) {us = []} dx dy eu ev h = cc
digits_split [] (y ∷ ys) {us = u ∷ us} dx dy eu ev h =
    let same : u ≡ y = cc in absurd (eu (rw same dy.0))
digits_split (x ∷ xs) [] {vs = []} dx dy eu ev h = cc
digits_split (x ∷ xs) [] {vs = v ∷ vs} dx dy eu ev h =
    let same : x ≡ v = cc in absurd (ev (rw (← same) dx.0))
digits_split (x ∷ xs) (y ∷ ys) {us} {vs} dx dy eu ev h =
    let rest : (xs ≡ ys) × (us ≡ vs) = digits_split xs ys dx.1 dy.1 eu ev (cc) in
    (cc rest.0, rest.1)

snoc-ne-nil : (xs : Bytes) (x : ℕ) → xs ++ x ∷ [] ≢ []
snoc-ne-nil [] x h = cc
snoc-ne-nil (y ∷ ys) x h = cc

digits-ne-nil : (fuel n : ℕ) → digits fuel n ≢ []
unfolding digits
digits-ne-nil zero n h = cc
digits-ne-nil (suc fuel) n h = elim (Bool-cases (ltb n 10)) [
  | inl one ↦ absurd (cc (rw one at h))
  | inr more ↦ snoc-ne-nil (digits fuel (n / 10)) (b'0' + n % 10) (rw more at h)
]

-- A number in front of a text that does not go on with a digit.
pub decimal_split :
    (a b : ℕ) {us vs : Bytes}
    → a < 100000000000000000000
    → b < 100000000000000000000
    → Ends us
    → Ends vs
    → decimal a ++ us ≡ decimal b ++ vs
    → (a ≡ b) × (us ≡ vs)
unfolding decimal
decimal_split a b ha hb eu ev h =
    let (e, rest) =
      digits_split (digits 19 a) (digits 19 b) (digits-IsDigit 19 a) (digits-IsDigit 19 b) eu ev
        h in
    (sym (value-digits 19 a ha) ∙ ap (value 0) e ∙ value-digits 19 b hb, rest)

debug_items-Ends : (bs : Bytes) → Ends (debug_items bs)
unfolding debug_items
debug_items-Ends [] = λ d. absurd (omega arith)
debug_items-Ends (b ∷ bs) = λ d. absurd (omega arith)

drop_one : {x y : ℕ} {us vs : Bytes} → x ∷ us ≡ y ∷ vs → us ≡ vs
drop_one h = cc

drop_two : {x x' y y' : ℕ} {us vs : Bytes} → x ∷ y ∷ us ≡ x' ∷ y' ∷ vs → us ≡ vs
drop_two h = cc

abbrev pub AreBytes : Bytes → Type 0
AreBytes = All (λ b. b < 256)

debug_items-injective :
    (bs cs : Bytes) → AreBytes bs → AreBytes cs → debug_items bs ≡ debug_items cs → bs ≡ cs
unfolding debug_items
debug_items-injective [] [] vb vc h = refl
debug_items-injective [] (c ∷ cs) vb vc h = ground arith
debug_items-injective (b ∷ bs) [] vb vc h = ground arith
debug_items-injective (b ∷ bs) (c ∷ cs) vb vc h =
    let (same, rest) =
      decimal_split b c (omega arith) (omega arith) (debug_items-Ends bs) (debug_items-Ends cs)
        (drop_two h) in
    cc (same, debug_items-injective bs cs vb.1 vc.1 rest)

-- No list of numbers reads like the empty one.
decimal-ne-end : (b : ℕ) (bs : Bytes) → debug_list [] ≢ debug_list (b ∷ bs)
unfolding debug_list decimal
decimal-ne-end b bs h = digits-ne-nil 19 b (
    sym
      (digits_split [] (digits 19 b) tt (digits-IsDigit 19 b) (λ d. absurd (omega arith))
        (debug_items-Ends bs) (drop_one h)).0)

pub debug_list-injective :
    (bs cs : Bytes) → AreBytes bs → AreBytes cs → debug_list bs ≡ debug_list cs → bs ≡ cs
unfolding debug_list
debug_list-injective [] [] vb vc h = refl
debug_list-injective [] (c ∷ cs) vb vc h = absurd (decimal-ne-end c cs h)
debug_list-injective (b ∷ bs) [] vb vc h = absurd (decimal-ne-end b bs (sym h))
debug_list-injective (b ∷ bs) (c ∷ cs) vb vc h =
    let (same, rest) =
      decimal_split b c (omega arith) (omega arith) (debug_items-Ends bs) (debug_items-Ends cs)
        (drop_one h) in
    cc (same, debug_items-injective bs cs vb.1 vc.1 rest)
