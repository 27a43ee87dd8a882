-- ===== src/Darkpool/Age.antt =====
-- src/darkpool.rs: a negotiated trade perishes.
use proof_of_context_impl.Prelude.{ℕ, ◌≤◌, ◌≡◌, List, [], ◌∷◌, arith, All}
use proof_of_context_impl.Prelude.Bytes.{Bytes}
use proof_of_context_impl.Crypto.{Crypto}
use proof_of_context_impl.Error.{ok}
use proof_of_context_impl.Commitment.{CommitmentVerifier}
use proof_of_context_impl.PriceFreshness.{PriceFreshnessOracle, price_age_secs}
use proof_of_context_impl.Darkpool.{DarkPoolThresholds, PartyContext, clear, verify_party_contexts}
use proof_of_context_impl.Darkpool.Party.{PriceWithin, QuoteInWindow, IsIntegral, IsFresh}
use proof_of_context_impl.Darkpool.Decision.{trade_clears_iff}

price_ages :
    (prices : PriceFreshnessOracle) (market : Bytes) (now later limit : ℕ)
    → now ≤ later
    → PriceWithin (price_age_secs prices market later) limit
    → PriceWithin (price_age_secs prices market now) limit
unfolding price_age_secs
price_ages prices market now later limit le h = ground arith

module _ (crypto : Crypto) (verifier : CommitmentVerifier) (prices : PriceFreshnessOracle)
    (t : DarkPoolThresholds) (now later : ℕ) where
  -- Every quote was made by `now`.
  abbrev pub IsQuoted : PartyContext → Type 0
  IsQuoted p = p.quote_created_at_secs ≤ now

  party_earlier :
      (ps : List PartyContext)
      → now ≤ later
      → All IsQuoted ps
      → All
          (λ p.
            IsIntegral crypto verifier prices later t p × IsFresh crypto verifier prices later t p)
          ps
      → All
          (λ p. IsIntegral crypto verifier prices now t p × IsFresh crypto verifier prices now t p)
          ps
  party_earlier [] le q h = tt
  party_earlier (p ∷ ps) le q h =
      let (integral, fresh) = h.0 in
      let window : QuoteInWindow p now t = omega (arith, fresh.window) in
      (
        (
          record { verified = integral.verified; bound = integral.bound },
          record {
            consistent = fresh.consistent;
            price = price_ages prices p.market_id now later t.max_price_age_secs le fresh.price;
            window = (q.0, window.1);
          },
        ),
        party_earlier ps le q.1 h.1,
      )

  -- A trade that clears at a later second also clears at every second from the last quote up to then:
  -- once it is too stale to settle, waiting does not help.
  pub trade_clears_earlier :
      (parties : List PartyContext)
      → now ≤ later
      → All IsQuoted parties
      → verify_party_contexts crypto verifier parties prices later t ≡ ok clear
      → verify_party_contexts crypto verifier parties prices now t ≡ ok clear
  trade_clears_earlier parties le quoted h =
      (trade_clears_iff crypto verifier prices now t parties).1 (
        party_earlier parties le quoted
          ((trade_clears_iff crypto verifier prices later t parties).0 h))
