-- ===== src/Prelude/Bytes.antt =====
-- Byte strings: `[u8; N]`, `Vec<u8>` and the UTF-8 of `String`, with the order of slices and `str`.
use Prim.Native.Nat.{ℕ, ◌<◌, compare, Ordering}
use Prim.Native.Nat.Ordering.{lt, eq, gt}
use Prim.Native.Char.{code}
use Prim.Native.String.{String}
use mathlib.Core.Path.{◌≡◌, refl}
use mathlib.Core.Logic.{◌↔◌, ◌⊎◌, inl, inr}
use mathlib.Core.Option.{Option, none, some}
use mathlib.Core.Bool.{Bool, true, false}
use mathlib.Core.List.{List, [], ◌∷◌}
use native.Mathlib.Omega.{arith}
use native.Mathlib.Decide.{ℕ_discrete}
use proof_of_context_impl.Prelude.Lists.{length, All}

abbrev pub Bytes : Type 0
Bytes = List ℕ

-- An array `[u8; w]`.
pub record IsArray (w : ℕ) (bs : Bytes) : Type 0 where
  pub size : length bs ≡ w
  pub bytes : All (λ b. b < 256) bs

-- The bytes of an ASCII literal.
abbrev pub text : String → Bytes
text String.[] = []
text (String.◌∷◌ c s) = code c ∷ text s

-- Lexicographic comparison, as `Ord` of `[u8]` and of `str`.
unfoldable pub cmp : Bytes → Bytes → Ordering
cmp [] [] = eq
cmp [] (y ∷ ys) = lt
cmp (x ∷ xs) [] = gt
cmp (x ∷ xs) (y ∷ ys) = elim (compare x y) [ lt ↦ lt | eq ↦ cmp xs ys | gt ↦ gt ]

pub cmp_refl : (a : Bytes) → cmp a a ≡ eq
unfolding cmp
cmp_refl [] = refl
cmp_refl (x ∷ xs) = ground (arith, cmp_refl xs)

pub eq_of_cmp : (a b : Bytes) → cmp a b ≡ eq → a ≡ b
unfolding cmp
eq_of_cmp [] [] h = refl
eq_of_cmp [] (y ∷ ys) h = cc
eq_of_cmp (x ∷ xs) [] h = cc
eq_of_cmp (x ∷ xs) (y ∷ ys) h = ground (arith, eq_of_cmp xs ys)

pub lt_of_gt : (a b : Bytes) → cmp a b ≡ gt → cmp b a ≡ lt
unfolding cmp
lt_of_gt [] [] h = cc
lt_of_gt [] (y ∷ ys) h = cc
lt_of_gt (x ∷ xs) [] h = refl
lt_of_gt (x ∷ xs) (y ∷ ys) h = ground (arith, lt_of_gt xs ys)

pub gt_of_lt : (a b : Bytes) → cmp a b ≡ lt → cmp b a ≡ gt
unfolding cmp
gt_of_lt [] [] h = cc
gt_of_lt [] (y ∷ ys) h = refl
gt_of_lt (x ∷ xs) [] h = cc
gt_of_lt (x ∷ xs) (y ∷ ys) h = ground (arith, gt_of_lt xs ys)

pub lt_trans : (a b c : Bytes) → cmp a b ≡ lt → cmp b c ≡ lt → cmp a c ≡ lt
unfolding cmp
lt_trans [] [] c h k = cc
lt_trans [] (y ∷ ys) [] h k = cc
lt_trans [] (y ∷ ys) (z ∷ zs) h k = refl
lt_trans (x ∷ xs) [] c h k = cc
lt_trans (x ∷ xs) (y ∷ ys) [] h k = cc
lt_trans (x ∷ xs) (y ∷ ys) (z ∷ zs) h k = ground (arith, lt_trans xs ys zs)

-- `==` of byte arrays and of strings.
infix 50 ◌==◌
abbrev pub ◌==◌ : Bytes → Bytes → Bool
a == b = elim (cmp a b) [ eq ↦ true | _ ↦ false ]

pub ==_iff : (a b : Bytes) → ((a == b) ≡ true) ↔ (a ≡ b)
==_iff a b = (λ h. ground (arith, eq_of_cmp a b), λ h. ground (arith, cmp_refl a))

pub Bytes-discrete : Discrete Bytes
Bytes-discrete = hlevel ℕ_discrete

-- `key == Some(expected)` for the `expected` that a pin holds, and true where there is none.
abbrev pub pin_ok : Option Bytes → Option Bytes → Bool
pin_ok none key = true
pin_ok (some expected) none = false
pin_ok (some expected) (some key) = key == expected

abbrev pub Pinned : Option Bytes → Option Bytes → Type 0
Pinned pin key = (pin ≡ none) ⊎ (pin ≡ key)

pub pin_ok_iff : (pin key : Option Bytes) → (pin_ok pin key ≡ true) ↔ Pinned pin key
pin_ok_iff none key = (λ _. inl refl, λ _. refl)
pin_ok_iff (some x) none = (λ h. cc h, λ h. elim h [ inl e ↦ cc e | inr e ↦ cc e ])
pin_ok_iff (some x) (some y) =
    (λ h. inr (cc ((==_iff y x).0 h)), λ h. elim h [ inl e ↦ cc e | inr e ↦ (==_iff y x).1 (cc e) ])
