-- ===== src/Clients/Hex/Value.antt =====
-- What src/clients/block.rs reads from hexadecimal digits: their value, where that is a u64.
use proof_of_context_impl.Prelude.{
  ℕ, ◌+◌, ◌*◌, ◌≤◌, ◌<◌, ◌≡◌, ◌≢◌, ◌↔◌, ◌⊎◌, refl, inl, inr, Option, some, [], ◌∷◌, arith, and_then,
  Option-cases, ap, ◌++◌, sym, ◌∙◌,
}
use proof_of_context_impl.Prelude.Bytes.{Bytes}
use proof_of_context_impl.Prelude.Word.{u64_mod}
use proof_of_context_impl.Error.{ok, ok-injective}
use proof_of_context_impl.Clients.Hex.{
  to_digit, digits_from, unsigned_part, from_str_radix_16, strip_prefix,
}

-- The number of any size that digits stand for, behind those of `acc`.
unfoldable pub value : ℕ → Bytes → Option ℕ
value acc [] = some acc
value acc (c ∷ cs) = and_then (to_digit c) (λ x. value (acc * 16 + x) cs)

-- The code of a digit from 0 to 9, or of a letter from a to f in lower or in upper case.
abbrev pub IsDigit : ℕ → ℕ → Type 0
IsDigit c x =
    ((x < 10) × (c ≡ 48 + x)) ⊎ ((10 ≤ x) × (x < 16) × ((c + 10 ≡ 97 + x) ⊎ (c + 10 ≡ 65 + x)))

-- Nothing but digits, which stand for this number behind those of `acc`.
abbrev pub HasValue : ℕ → Bytes → ℕ → Type 0
HasValue acc [] n = acc ≡ n
HasValue acc (c ∷ cs) n = (x : ℕ) × IsDigit c x × HasValue (acc * 16 + x) cs n

-- At least one digit, perhaps behind a plus sign, with a value that is a u64.
abbrev pub IsHex : Bytes → ℕ → Type 0
IsHex t n =
    (n < u64_mod) × ((ds : Bytes) × ((t ≡ ds) ⊎ (t ≡ 43 ∷ ds)) × (ds ≢ []) × HasValue 0 ds n)

to_digit_iff : (c x : ℕ) → (to_digit c ≡ some x) ↔ IsDigit c x
unfolding to_digit
to_digit_iff c x = (λ h. ground arith, λ h. ground arith)

value_iff : (acc : ℕ) (cs : Bytes) (n : ℕ) → (value acc cs ≡ some n) ↔ HasValue acc cs n
unfolding value
value_iff acc [] n = (λ h. ground arith, λ h. ap some h)
value_iff acc (c ∷ cs) n = (
  λ h. elim (Option-cases (to_digit c)) [
    | inl e ↦ absurd (ground arith)
    | inr (x, e) ↦ (x, (to_digit_iff c x).0 e, (value_iff (acc * 16 + x) cs n).0 (rw e at h))
  ],
  λ (x, d, rest). rw ((to_digit_iff c x).1 d, (value_iff (acc * 16 + x) cs n).1 rest) refl,
)

no_sign : (cs : Bytes) (n : ℕ) → ¬ HasValue 0 (43 ∷ cs) n
no_sign cs n (x, d, rest) = ground arith

unsigned-HasValue : (ds : Bytes) (n : ℕ) → HasValue 0 ds n → unsigned_part ds ≡ ds
unsigned-HasValue [] n h = refl
unsigned-HasValue (c ∷ []) n h = refl
unsigned-HasValue (c ∷ d ∷ cs) n (x, digit, rest) = ground arith

-- Behind a sign or without one.
unsigned_cases :
    (c : ℕ) (cs : Bytes)
    → (c ∷ cs ≡ unsigned_part (c ∷ cs)) ⊎ (c ∷ cs ≡ 43 ∷ unsigned_part (c ∷ cs))
unsigned_cases c [] = inl refl
unsigned_cases c (d ∷ cs) = ground arith

unsigned-ne-nil : (c : ℕ) (cs : Bytes) → unsigned_part (c ∷ cs) ≢ []
unsigned-ne-nil c [] h = cc h
unsigned-ne-nil c (d ∷ cs) h = ground arith

unsigned-sign : (ds : Bytes) → ds ≢ [] → unsigned_part (43 ∷ ds) ≡ ds
unsigned-sign [] h = absurd (h refl)
unsigned-sign (d ∷ ds) h = refl

IsHex-of_value :
    (c : ℕ) (cs : Bytes) (n : ℕ)
    → n < u64_mod
    → value 0 (unsigned_part (c ∷ cs)) ≡ some n
    → IsHex (c ∷ cs) n
IsHex-of_value c cs n small h =
    let ds = unsigned_part (c ∷ cs) in
    (small, (ds, unsigned_cases c cs, unsigned-ne-nil c cs, (value_iff 0 ds n).0 h))

value-IsHex : (t : Bytes) (n : ℕ) → IsHex t n → (t ≢ []) × (value 0 (unsigned_part t) ≡ some n)
value-IsHex t n (small, (ds, shape, some_digit, v)) = elim shape [
  | inl e ↦
      let bare : unsigned_part t ≡ ds = ap unsigned_part e ∙ unsigned-HasValue ds n v in
      (λ none_left. some_digit (sym e ∙ none_left), rw bare ((value_iff 0 ds n).1 v))
  | inr e ↦
      let signed : unsigned_part t ≡ ds = ap unsigned_part e ∙ unsigned-sign ds some_digit in
      (λ none_left. cc (e, none_left), rw signed ((value_iff 0 ds n).1 v))
]

value-le : (acc : ℕ) (cs : Bytes) (n : ℕ) → value acc cs ≡ some n → acc ≤ n
unfolding value
value-le acc [] n h = ground arith
value-le acc (c ∷ cs) n h = elim (Option-cases (to_digit c)) [
  | inl e ↦ absurd (ground arith)
  | inr (x, e) ↦
      let rest : value (acc * 16 + x) cs ≡ some n = rw e at h in
      omega (arith, value-le (acc * 16 + x) cs n rest)
]

digits_from-value :
    (acc : ℕ) (cs : Bytes) (n : ℕ)
    → acc < u64_mod
    → digits_from acc cs ≡ ok n
    → (value acc cs ≡ some n) × (n < u64_mod)
unfolding value digits_from
digits_from-value acc [] n small h =
    let same : acc ≡ n = ok-injective h in (ap some same, omega arith)
digits_from-value acc (c ∷ cs) n small h = elim (Option-cases (to_digit c)) [
  | inl e ↦ absurd (ground arith)
  | inr (x, e) ↦
      let (fits, rest) : (acc * 16 + x < u64_mod) × (digits_from (acc * 16 + x) cs ≡ ok n) =
        ground arith in
      let (v, le) = digits_from-value (acc * 16 + x) cs n fits rest in (rw (e, v) refl, le)
]

value-digits_from :
    (acc : ℕ) (cs : Bytes) (n : ℕ) → n < u64_mod → value acc cs ≡ some n → digits_from acc cs ≡ ok n
unfolding value digits_from
value-digits_from acc [] n small h = ground arith
value-digits_from acc (c ∷ cs) n small h = elim (Option-cases (to_digit c)) [
  | inl e ↦ absurd (ground arith)
  | inr (x, e) ↦
      let rest : value (acc * 16 + x) cs ≡ some n = rw e at h in
      let le = value-le (acc * 16 + x) cs n rest in
      let go = value-digits_from (acc * 16 + x) cs n small rest in ground arith
]

pub from_str_radix_16_iff : (t : Bytes) (n : ℕ) → (from_str_radix_16 t ≡ ok n) ↔ IsHex t n
unfolding from_str_radix_16
from_str_radix_16_iff [] n = (λ h. cc h, λ h. absurd ((value-IsHex [] n h).0 refl))
from_str_radix_16_iff (c ∷ cs) n = (
  λ h.
      let (v, small) = digits_from-value 0 (unsigned_part (c ∷ cs)) n (omega arith) h in
      IsHex-of_value c cs n small v,
  λ h. value-digits_from 0 (unsigned_part (c ∷ cs)) n h.0 (value-IsHex (c ∷ cs) n h).1,
)

pub strip_prefix_iff : (prefix s t : Bytes) → (strip_prefix prefix s ≡ some t) ↔ (s ≡ prefix ++ t)
unfolding strip_prefix
strip_prefix_iff [] s t = (λ h. ground arith, λ h. ap some h)
strip_prefix_iff (p ∷ prefix) [] t = (λ h. cc h, λ h. cc h)
strip_prefix_iff (p ∷ prefix) (c ∷ s) t =
    let (to, from) = strip_prefix_iff prefix s t in
    (
      λ h.
          let (head, rest) : (c ≡ p) × (strip_prefix prefix s ≡ some t) = ground arith in
          let tail = to rest in cc (head, tail),
      λ h.
          let head : c ≡ p = cc h in
          let tail : s ≡ prefix ++ t = cc h in let rest = from tail in ground arith,
    )
