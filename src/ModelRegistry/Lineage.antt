-- ===== src/ModelRegistry/Lineage.antt =====
-- src/model_registry.rs: a lineage is its epochs in ascending order, however they were given.
use proof_of_context_impl.Prelude.{◌≡◌, arith, ap, List}
use proof_of_context_impl.Prelude.Sort.{
  IsOrder, Ascends, sort_by_order, sort_by-Ascends, sort_by-Perm,
}
use mathlib.Core.List.{Permᴰ, Memᴰ}
use proof_of_context_impl.Canonical.{Json}
use proof_of_context_impl.ModelRegistry.{
  ModelEpoch, ModelLineage, epoch_le, new_lineage, signing_message,
}

epoch_le-IsOrder : IsOrder epoch_le
epoch_le-IsOrder = record { total = λ x y h. ground arith; transitive = λ x y z h k. ground arith }

-- The lineage holds exactly the given epochs, each with its multiplicity, in ascending epoch number.
pub new_lineage_lem :
    (es : List ModelEpoch)
    → Ascends epoch_le (new_lineage es).epochs × Permᴰ (new_lineage es).epochs es
unfolding new_lineage
new_lineage_lem es = (sort_by-Ascends epoch_le epoch_le-IsOrder es, sort_by-Perm epoch_le es)

abbrev lineage_of : List ModelEpoch → ModelLineage
lineage_of epochs = record { epochs = epochs }

-- If no two different epochs share a number, publishers who list the same epochs in different orders
-- build one lineage and sign one message.
pub lineage_order :
    (json : Json) (es fs : List ModelEpoch)
    → Permᴰ es fs
    → ((x y : ModelEpoch) → Memᴰ x es → Memᴰ y es → x.epoch ≡ y.epoch → x ≡ y)
    → (new_lineage es ≡ new_lineage fs)
      × (signing_message json (new_lineage es) ≡ signing_message json (new_lineage fs))
unfolding new_lineage
lineage_order json es fs p distinct =
    let same =
      sort_by_order epoch_le epoch_le-IsOrder p (λ x y m k h i. distinct x y m k (ground arith)) in
    let same_lineage : new_lineage es ≡ new_lineage fs = ap lineage_of same in
    (same_lineage, ap (signing_message json) same_lineage)
