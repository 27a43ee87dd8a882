-- ===== src/PriceFreshness/Tests.antt =====
-- src/price_freshness.rs: a signed price, presented to an oracle that pins its signer.
use proof_of_context_impl.Prelude.{ℕ, ◌-◌, ◌≡◌, refl, inr, ◌++◌, some, none, if◌then◌else◌}
use proof_of_context_impl.Prelude.Bytes.{Bytes, text, ◌==◌, ==_iff, Pinned}
use proof_of_context_impl.Fixtures.{crypto, json}
use proof_of_context_impl.Error.{ok}
use proof_of_context_impl.PriceFreshness.{
  PriceAttestation, PriceFreshnessOracle, new, signing_message, present_price, price_age_secs,
}
use proof_of_context_impl.PriceFreshness.Present.{
  IsSigned, present_price_lem, present_price_accepts,
}

abbrev unsigned : PriceAttestation
unsigned = record {
  market_id = text "ETH";
  price = 3000;
  price_as_of_secs = 100;
  signature = none;
  public_key = none;
}

abbrev signed : PriceAttestation
signed = record unsigned {
  signature = some (crypto.sign (text "key") (signing_message json unsigned));
  public_key = some (text "key");
}

abbrev pinned : PriceFreshnessOracle
pinned = new (some (text "key"))

signed-IsSigned : IsSigned crypto json signed
unfolding signing_message
signed-IsSigned = (
  crypto.sign (text "key") (signing_message json unsigned),
  text "key",
  refl,
  refl,
  refl,
  (==_iff (text "key" ++ signing_message json unsigned)
        (text "key" ++ signing_message json unsigned)).1
      refl,
)

accepted : (o : PriceFreshnessOracle) × (present_price crypto json pinned signed ≡ ok o)
accepted = present_price_accepts crypto json pinned signed signed-IsSigned (inr refl)

present_price_lem_example :
    IsSigned crypto json signed
    × Pinned (some (text "key")) (some (text "key"))
    × ((market : Bytes) (now : ℕ)
        → price_age_secs accepted.0 market now
          ≡ (if market == text "ETH" then ok (now - 100) else price_age_secs pinned market now))
present_price_lem_example = present_price_lem crypto json pinned signed accepted.0 accepted.1
