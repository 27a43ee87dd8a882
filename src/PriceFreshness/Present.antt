-- ===== src/PriceFreshness/Present.antt =====
-- src/price_freshness.rs: what the oracle accepts, and what it answers afterwards.
use proof_of_context_impl.Prelude.{
  ℕ, ◌-◌, ◌≡◌, ◌↔◌, refl, some, true, arith, if◌then◌else◌, Option-cases, inl, inr,
}
use proof_of_context_impl.Prelude.Bytes.{Bytes, ◌==◌, pin_ok, Pinned, pin_ok_iff}
use proof_of_context_impl.Crypto.{Crypto}
use proof_of_context_impl.Error.{ok}
use proof_of_context_impl.SortedMap
use proof_of_context_impl.SortedMap.Laws.{get-insert}
use proof_of_context_impl.Canonical.{Json}
use proof_of_context_impl.PriceFreshness.{
  PriceAttestation, signing_message, verify_signature, PriceFreshnessOracle, present_price,
  price_age_secs,
}

module _ (crypto : Crypto) (json : Json) where
  -- Signed: a signature and a key are there, the key parses, and the signature verifies under it over
  -- the message of this market, price and time.
  abbrev pub IsSigned : PriceAttestation → Type 0
  IsSigned a =
      (sig : Bytes) × (key : Bytes) × (a.signature ≡ some sig)
      × (a.public_key ≡ some key)
      × (crypto.key_ok key ≡ true)
      × (crypto.verify_ok key (signing_message json a) sig ≡ true)

  pub verify_signature_iff :
      (a : PriceAttestation) → (verify_signature crypto json a ≡ ok tt) ↔ IsSigned a
  unfolding verify_signature
  verify_signature_iff a = (
    λ h. elim (Option-cases a.signature) [
      | inl n ↦ absurd (ground arith)
      | inr (sig, s) ↦ elim (Option-cases a.public_key) [
        | inl n ↦ absurd (ground arith)
        | inr (key, k) ↦ (sig, key, s, k, ground arith, ground arith)
      ]
    ],
    λ h. ground arith,
  )

  -- A price that is accepted is signed and, where an operator is pinned, signed under the operator's
  -- key. From then on the oracle answers for its market with the age of that price, and for
  -- every other market as before.
  pub present_price_lem :
      (o : PriceFreshnessOracle) (a : PriceAttestation) (o' : PriceFreshnessOracle)
      → present_price crypto json o a ≡ ok o'
      → IsSigned a
        × Pinned o.expected_pubkey a.public_key
        × ((market : Bytes) (now : ℕ)
            → price_age_secs o' market now ≡ (
                if market == a.market_id
                then ok (now - a.price_as_of_secs)
                else price_age_secs o market now))
  unfolding present_price price_age_secs
  present_price_lem o a o' h =
      let facts : (verify_signature crypto json a ≡ ok tt)
          × (pin_ok o.expected_pubkey a.public_key ≡ true)
          × (o'.by_market ≡ SortedMap.insert a.market_id a o.by_market) =
        ground arith in
      (
        (verify_signature_iff a).0 facts.0,
        (pin_ok_iff o.expected_pubkey a.public_key).0 facts.1,
        λ market now. ground (arith, get-insert a.market_id market a o.by_market, facts.2),
      )

  pub present_price_accepts :
      (o : PriceFreshnessOracle) (a : PriceAttestation)
      → IsSigned a
      → Pinned o.expected_pubkey a.public_key
      → (o' : PriceFreshnessOracle) × (present_price crypto json o a ≡ ok o')
  unfolding present_price
  present_price_accepts o a s pin = (
    record o { by_market = SortedMap.insert a.market_id a o.by_market },
    rw ((verify_signature_iff a).1 s) (rw ((pin_ok_iff o.expected_pubkey a.public_key).1 pin) refl),
  )
