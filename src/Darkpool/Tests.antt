-- ===== src/Darkpool/Tests.antt =====
-- src/darkpool.rs: a trade between two parties on one market.
use proof_of_context_impl.Prelude.{◌+◌, ◌≤◌, ◌≡◌, ◌≢◌, ◌↔◌, refl, List, [], ◌∷◌, All, arith, none}
use proof_of_context_impl.Prelude.Bytes.{text, cmp, ==_iff}
use proof_of_context_impl.Fixtures.{crypto, hash, root, commitment, verified}
use proof_of_context_impl.SortedMap
use proof_of_context_impl.Error.{ok, err, root_mismatch}
use proof_of_context_impl.Freshness.{input, settlement}
use proof_of_context_impl.Anchor.{tee_drand_consistent}
use proof_of_context_impl.Context.{merkle_root}
use proof_of_context_impl.Commitment.{CommitmentVerifier}
use proof_of_context_impl.Mock.Verifier.{mock_verifier}
use proof_of_context_impl.PriceFreshness.{PriceFreshnessOracle, price_age_secs}
use proof_of_context_impl.Darkpool
use proof_of_context_impl.Darkpool.{
  PartyContext, PartyVerdict, check_parties, check_integrity, violations_of, price_stale,
  settle_stale, PartyIntegrityError, intent, response, clear, rejected, verify_party_contexts,
}
use proof_of_context_impl.Darkpool.Party.{IsIntegral, IsFresh}
use proof_of_context_impl.Darkpool.Decision.{
  Judged, trade_clears_iff, rejection_blames_stale_parties,
}
use proof_of_context_impl.Darkpool.Abort.{Aborts, trade-Aborts_iff}

abbrev verifier : CommitmentVerifier
verifier = mock_verifier crypto

abbrev prices : PriceFreshnessOracle
prices = record {
  by_market =
      SortedMap.insert (text "ETH")
        (record {
          market_id = text "ETH";
          price = 3000;
          price_as_of_secs = 1000;
          signature = none;
          public_key = none;
        })
        SortedMap.empty;
  expected_pubkey = none;
}

abbrev buyer : PartyContext
buyer = record {
  role = intent;
  commitment = commitment;
  root = root;
  market_id = text "ETH";
  quote_created_at_secs = 990;
}

abbrev seller : PartyContext
seller = record buyer { role = response; quote_created_at_secs = 995 }

abbrev parties : List PartyContext
parties = buyer ∷ seller ∷ []

trade_clears_iff_example :
    (verify_party_contexts crypto verifier parties prices 1020 Darkpool.default ≡ ok clear)
    ↔ All
        (λ p.
          IsIntegral crypto verifier prices 1020 Darkpool.default p
          × IsFresh crypto verifier prices 1020 Darkpool.default p)
        parties
trade_clears_iff_example = trade_clears_iff crypto verifier prices 1020 Darkpool.default parties

party-IsFresh :
    (p : PartyContext)
    → p.commitment ≡ commitment
    → p.market_id ≡ text "ETH"
    → p.quote_created_at_secs ≤ 1020
    → 1020 ≤ p.quote_created_at_secs + 600
    → IsFresh crypto verifier prices 1020 Darkpool.default p
unfolding tee_drand_consistent price_age_secs SortedMap.get SortedMap.insert cmp
party-IsFresh p c m lo hi = record {
  consistent = rw c refl;
  price = rw m (omega arith);
  window = (lo, hi);
}

integral :
    (p : PartyContext)
    → p.commitment ≡ commitment
    → p.root ≡ root
    → IsIntegral crypto verifier prices 1020 Darkpool.default p
integral p c r = record { verified = rw c verified; bound = rw (c, r) refl }

trade_clears : verify_party_contexts crypto verifier parties prices 1020 Darkpool.default ≡ ok clear
trade_clears = (trade_clears_iff crypto verifier prices 1020 Darkpool.default parties).1 (
  (integral buyer refl refl, party-IsFresh buyer refl refl (omega arith) (omega arith)),
  ((integral seller refl refl, party-IsFresh seller refl refl (omega arith) (omega arith)), tt),
)

-- a party that discloses other weights than it committed to
abbrev swapped : PartyContext
swapped = record seller { root = record root { weights_hash = hash 7 } }

abbrev seller_mismatch : PartyIntegrityError
seller_mismatch = record { role = response; source = root_mismatch }

trade-Aborts_iff_example :
    (verify_party_contexts crypto verifier (buyer ∷ swapped ∷ []) prices 1020 Darkpool.default
      ≡ err seller_mismatch)
    ↔ Aborts crypto verifier prices 1020 Darkpool.default seller_mismatch (buyer ∷ swapped ∷ [])
trade-Aborts_iff_example =
    trade-Aborts_iff crypto verifier prices 1020 Darkpool.default (buyer ∷ swapped ∷ [])
      seller_mismatch

-- The quote of the buyer has outlived its window, and so has the price.
abbrev blamed : List PartyVerdict
blamed = record { role = intent; violations = input ∷ settlement ∷ [] } ∷ []

late :
    verify_party_contexts crypto verifier (buyer ∷ []) prices 1700 Darkpool.default
    ≡ ok (rejected blamed)
unfolding verify_party_contexts check_parties check_integrity violations_of price_stale settle_stale
    tee_drand_consistent price_age_secs SortedMap.get SortedMap.insert cmp
late = rw (verified, (==_iff (merkle_root crypto root) (merkle_root crypto root)).1 refl) refl

rejection_blames_stale_parties_example :
    (blamed ≢ []) × Judged crypto verifier prices 1700 Darkpool.default (buyer ∷ []) blamed
rejection_blames_stale_parties_example =
    rejection_blames_stale_parties crypto verifier prices 1700 Darkpool.default (buyer ∷ []) blamed
      late
