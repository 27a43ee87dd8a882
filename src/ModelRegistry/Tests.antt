-- ===== src/ModelRegistry/Tests.antt =====
-- src/model_registry.rs: two epochs, two publishers, a quorum of one.
use mathlib.Core.List.{Memᴰ}
use proof_of_context_impl.Prelude.{
  ◌≤◌, ◌<◌, ◌≡◌, ◌↔◌, ◌⊎◌, refl, sym, ◌∙◌, true, some, List, [], ◌∷◌, arith, length,
}
use proof_of_context_impl.Prelude.Bytes.{Bytes, text, cmp}
use proof_of_context_impl.Fixtures.{crypto, json, hash, at_block}
use proof_of_context_impl.SortedMap.{SortedMap, IsSorted}
use proof_of_context_impl.Error.{ok, err, oracle_unavailable}
use proof_of_context_impl.ModelRegistry.{
  ModelEpoch, ModelLineage, QuorumSignature, QuorumModelOracle, signing_message, new, contains,
  present_lineage, model_epoch_distance, position_of, find_position, canonical_position_at,
  last_active,
}
use proof_of_context_impl.ModelRegistry.Quorum.{Signed, present_lineage_lem}

abbrev first : ModelEpoch
first = record { weights_hash = hash 1; epoch = 1; activation_block = 100 }

abbrev second : ModelEpoch
second = record { weights_hash = hash 2; epoch = 2; activation_block = 200 }

abbrev epochs : List ModelEpoch
epochs = first ∷ second ∷ []

distinct : (x y : ModelEpoch) → Memᴰ x epochs → Memᴰ y epochs → x.epoch ≡ y.epoch → x ≡ y
distinct x y (Memᴰ.head h) (Memᴰ.head k) e = h ∙ sym k
distinct x y (Memᴰ.head h) (Memᴰ.tail (Memᴰ.head k)) e = absurd (ground arith)
distinct x y (Memᴰ.tail (Memᴰ.head h)) (Memᴰ.head k) e = absurd (ground arith)
distinct x y (Memᴰ.tail (Memᴰ.head h)) (Memᴰ.tail (Memᴰ.head k)) e = h ∙ sym k
distinct x y (Memᴰ.head h) (Memᴰ.tail (Memᴰ.tail m)) e = elim m [ ]
distinct x y (Memᴰ.tail (Memᴰ.head h)) (Memᴰ.tail (Memᴰ.tail m)) e = elim m [ ]
distinct x y (Memᴰ.tail (Memᴰ.tail m)) k e = elim m [ ]

abbrev lineage : ModelLineage
lineage = record { epochs = epochs }

abbrev registry : QuorumModelOracle
registry = new (text "p" ∷ text "q" ∷ []) 1

abbrev signatures : List QuorumSignature
signatures =
    record {
      public_key = text "p";
      signature = crypto.sign (text "p") (signing_message json lineage);
    }
    ∷ []

present_lineage_lem_example :
    (signers : SortedMap (Unit {0})) × IsSorted signers
    × ((key : Bytes)
        → (contains signers key ≡ true)
          ↔ Signed crypto registry.publishers (signing_message json lineage) key signatures)
    × (((0 < 1)
          × (1 ≤ length signers)
          × (present_lineage crypto json registry lineage signatures
              ≡ ok (record registry { lineage = some lineage })))
        ⊎ (((registry.threshold ≡ 0) ⊎ (length signers < 1))
            × (present_lineage crypto json registry lineage signatures ≡ err oracle_unavailable)))
unfolding new
present_lineage_lem_example = present_lineage_lem crypto json registry lineage signatures

abbrev adopted : QuorumModelOracle
adopted = record registry { lineage = some lineage }

distance_at_150 : model_epoch_distance adopted (hash 1) (at_block 150) ≡ ok 0
unfolding model_epoch_distance position_of find_position canonical_position_at last_active cmp new
distance_at_150 = refl
