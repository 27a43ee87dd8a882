-- ===== src/Error.antt =====
-- src/error.rs: the shared error type, and `Result` with the operator `?` as a bind.
use proof_of_context_impl.Prelude.{◌≡◌, refl, String, Option, none, some}
use proof_of_context_impl.Freshness.{FreshnessType}

pub data PocError : Type 0 where
  anchor_divergence : PocError
  invalid_signature : PocError
  invalid_attestation : PocError
  stale_freshness : FreshnessType → PocError
  context_root_malformed : String → PocError
  output_hash_mismatch : PocError
  root_mismatch : PocError
  oracle_unavailable : PocError
  commitment_expired : PocError
  unimplemented : String → PocError
  other : String → PocError

-- `Result<A, E>`, with the error type first.
pub data Result {ℓ κ} (E : Type κ) (A : Type ℓ) : Type (ℓ ⊔ κ) where
  ok : A → Result E A
  err : E → Result E A

infixl 5 ◌>>=◌ ◌>>◌
abbrev pub ◌>>=◌ {ℓ κ μ} :
    {E : Type μ} {A : Type ℓ} {B : Type κ} → Result E A → (A → Result E B) → Result E B
ok a >>= f = f a
err e >>= f = err e

abbrev pub ◌>>◌ {ℓ μ} : {E : Type μ} {B : Type ℓ} → Result E (Unit {0}) → Result E B → Result E B
m >> k = m >>= λ _. k

-- `o.ok_or(e)`.
abbrev pub ok_or {ℓ μ} : {E : Type μ} {A : Type ℓ} → Option A → E → Result E A
ok_or none e = err e
ok_or (some a) e = ok a

-- `r.map_err(f)`.
abbrev pub map_err {ℓ μ ν} :
    {E : Type μ} {F : Type ν} {A : Type ℓ} → (E → F) → Result E A → Result F A
map_err f (ok a) = ok a
map_err f (err e) = err (f e)

-- The two cases of a result, with the equation.
pub data Outcome {ℓ κ} {E : Type κ} {A : Type ℓ} (r : Result E A) : Type (ℓ ⊔ κ) where
  returned : (a : A) → r ≡ ok a → Outcome r
  failed : (e : E) → r ≡ err e → Outcome r

pub outcome {ℓ κ} : {E : Type κ} {A : Type ℓ} (r : Result E A) → Outcome r
outcome (ok a) = returned a refl
outcome (err e) = failed e refl

pub ok-injective {ℓ κ} :
    {E : Type κ} {A : Type ℓ} {a b : A} → ◌≡◌ {A = Result E A} (ok a) (ok b) → a ≡ b
ok-injective h = cc

-- Inversion of a successful sequence.
pub >>-eq-ok {ℓ κ} :
    {E : Type κ} {B : Type ℓ} (m : Result E (Unit {0})) (k : Result E B) {b : B}
    → (m >> k) ≡ ok b
    → (m ≡ ok tt) × (k ≡ ok b)
>>-eq-ok (ok a) k h = (refl, h)
>>-eq-ok (err e) k h = cc

-- Inversion of a successful bind.
pub >>=-eq-ok {ℓ κ μ} :
    {E : Type μ} {A : Type ℓ} {B : Type κ} {result : B} (step : Result E A) (next : A → Result E B)
    → (step >>= next) ≡ ok result
    → (value : A) × (step ≡ ok value) × (next value ≡ ok result)
>>=-eq-ok (err failure) next run = cc
>>=-eq-ok (ok value) next run = (value, refl, run)
