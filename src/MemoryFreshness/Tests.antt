-- ===== src/MemoryFreshness/Tests.antt =====
-- examples/memory_freshness.rs: the reads of the demo.
use mathlib.Core.List.{Permᴰ, Memᴰ}
use proof_of_context_impl.Prelude.{
  ℕ, ap, ◌≢◌, ◌≡◌, ◌⊎◌, inl, inr, refl, sym, ◌∙◌, List, [], ◌∷◌, arith,
}
use proof_of_context_impl.Prelude.Bytes.{Bytes, text}
use proof_of_context_impl.Crypto.{CollisionAmong}
use proof_of_context_impl.Fixtures.{crypto, crypto-IsCrypto, at_block}
use proof_of_context_impl.Freshness.{default_base_mainnet}
use proof_of_context_impl.Renewal.{
  RenewalOutcome, still_valid, protected_by_prospective_only, expired_require_recommit,
}
use proof_of_context_impl.MemoryFreshness.{Pair, MemoryEntry, source_set_root, attest}
use proof_of_context_impl.MemoryFreshness.Sources.{
  Distinct, HashesOne, source_set_root_order, source_set_root-binds,
}
use proof_of_context_impl.MemoryFreshness.Life.{Reads, InGrace, read_lem}

abbrev config : Pair
config = (text "b", text "us-east")

abbrev spec : Pair
spec = (text "a", text "the region is us-east")

abbrev sources_v1 : List Pair
sources_v1 = config ∷ spec ∷ []

-- the same, listed the other way round
abbrev reordered : List Pair
reordered = spec ∷ config ∷ []

-- the first source has drifted
abbrev sources_v2 : List Pair
sources_v2 = (text "b", text "sa-east") ∷ spec ∷ []

abbrev entry : MemoryEntry
entry = record {
  name = text "deploy-region";
  fact = text "the project deploys to us-east";
  attestation =
      attest crypto (text "key") sources_v1 (text "the project deploys to us-east") (at_block 1000);
}

abbrev first_byte : Bytes → ℕ
first_byte [] = 0
first_byte (b ∷ bs) = b

other_ids : {x y : Pair} → x ≡ config → y ≡ spec → x.0 ≢ y.0
other_ids p q same =
    let e : config.0 ≡ spec.0 = ap (λ z. z.0) (sym p) ∙ same ∙ ap (λ z. z.0) q in
    absurd (omega (arith, ap first_byte e))

which : {x : Pair} → Memᴰ x sources_v1 → (x ≡ config) ⊎ (x ≡ spec)
which (Memᴰ.head p) = inl p
which (Memᴰ.tail (Memᴰ.head p)) = inr p
which (Memᴰ.tail (Memᴰ.tail m)) = elim m [ ]

same_id : (x y : Pair) → (x ≡ config) ⊎ (x ≡ spec) → (y ≡ config) ⊎ (y ≡ spec) → x.0 ≡ y.0 → x ≡ y
same_id x y (inl p) (inl q) same = p ∙ sym q
same_id x y (inl p) (inr q) same = absurd (other_ids p q same)
same_id x y (inr p) (inl q) same = absurd (other_ids q p (sym same))
same_id x y (inr p) (inr q) same = p ∙ sym q

sources_v1-Distinct : Distinct sources_v1
sources_v1-Distinct x y m k same = same_id x y (which m) (which k) same

source_set_root_order_example : source_set_root crypto sources_v1 ≡ source_set_root crypto reordered
source_set_root_order_example =
    source_set_root_order crypto sources_v1 reordered sources_v1-Distinct (Permᴰ.swap refl refl)

source_set_root-binds_example :
    Permᴰ sources_v1 reordered ⊎ CollisionAmong crypto (HashesOne crypto sources_v1 reordered)
source_set_root-binds_example =
    source_set_root-binds crypto crypto-IsCrypto sources_v1 reordered (omega arith) (omega arith)
      (source_set_root_order crypto sources_v1 reordered sources_v1-Distinct (Permᴰ.swap refl refl))

abbrev Answer : RenewalOutcome → Type 0
Answer =
    Reads crypto (text "key") sources_v1 (at_block 1000) entry reordered (at_block 1050)
      default_base_mainnet refl

read_lem_example :
    (Permᴰ sources_v1 reordered → Answer still_valid)
    × (Answer still_valid
        → Permᴰ sources_v1 reordered
          ⊎ CollisionAmong crypto (HashesOne crypto sources_v1 reordered))
    × (Answer still_valid
        ⊎ ((InGrace crypto
                (text "key")
                sources_v1
                (at_block 1000)
                entry
                reordered
                (at_block 1050)
                default_base_mainnet
                refl
              × Answer protected_by_prospective_only)
            ⊎ ((¬ InGrace crypto
                  (text "key")
                  sources_v1
                  (at_block 1000)
                  entry
                  reordered
                  (at_block 1050)
                  default_base_mainnet
                  refl)
                × Answer expired_require_recommit)))
read_lem_example =
    read_lem crypto (text "key") sources_v1 (at_block 1000) entry reordered (at_block 1050)
      default_base_mainnet refl crypto-IsCrypto sources_v1-Distinct (omega arith) (omega arith)
