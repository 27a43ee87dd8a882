-- ===== src/PriceFreshness.antt =====
-- src/price_freshness.rs: signed price attestations, and the oracle over those presented.
pub mod Present
mod Tests
use proof_of_context_impl.Prelude.{ℕ, Bool, true, false, not, Option, none, some, if◌then◌else◌}
use proof_of_context_impl.Prelude.Bytes.{Bytes, text, pin_ok}
use proof_of_context_impl.Prelude.Word.{saturating_sub}
use proof_of_context_impl.Crypto.{Crypto}
use proof_of_context_impl.Error.{
  PocError, invalid_signature, oracle_unavailable, Result, ok, err, ok_or, ◌>>=◌, ◌>>◌,
}
use proof_of_context_impl.SortedMap
use proof_of_context_impl.SortedMap.{SortedMap}
use proof_of_context_impl.Canonical.{
  Value, number, string, object, end, field, Json, canonical_json,
}

pub record PriceAttestation : Type 0 where
  pub market_id : Bytes
  pub price : ℕ
  pub price_as_of_secs : ℕ
  pub signature : Option Bytes
  pub public_key : Option Bytes

unfoldable pub signing_message : Json → PriceAttestation → Bytes
signing_message json a = canonical_json json (
    object (
      field (text "domain") (string (text "poc/price/0.1")) (
        field (text "market_id") (string (json.hex a.market_id)) (
          field (text "price") (number a.price)
            (field (text "price_as_of_secs") (number a.price_as_of_secs) end)))))

unfoldable pub verify_signature : Crypto → Json → PriceAttestation → Result PocError (Unit {0})
verify_signature crypto json a = do
  sig_bytes ← ok_or a.signature invalid_signature
  pk_bytes ← ok_or a.public_key invalid_signature
  if not (crypto.key_ok pk_bytes)
      then err invalid_signature
      else if crypto.verify_ok pk_bytes (signing_message json a) sig_bytes
      then ok tt
      else err invalid_signature

pub record PriceFreshnessOracle : Type 0 where
  pub by_market : SortedMap PriceAttestation
  pub expected_pubkey : Option Bytes

abbrev pub new : Option Bytes → PriceFreshnessOracle
new expected_pubkey = record { by_market = SortedMap.empty; expected_pubkey = expected_pubkey }

-- The new state, or the error with which the state is left as it was.
unfoldable pub present_price :
    Crypto → Json → PriceFreshnessOracle → PriceAttestation → Result PocError PriceFreshnessOracle
present_price crypto json o attestation = do
  verify_signature crypto json attestation
  if not (pin_ok o.expected_pubkey attestation.public_key)
      then err invalid_signature
      else ok
          (record o { by_market = SortedMap.insert attestation.market_id attestation o.by_market })

unfoldable pub price_age_secs : PriceFreshnessOracle → Bytes → ℕ → Result PocError ℕ
price_age_secs o market_id now_secs = do
  att ← ok_or (SortedMap.get market_id o.by_market) oracle_unavailable
  ok (saturating_sub now_secs att.price_as_of_secs)
