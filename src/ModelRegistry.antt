-- ===== src/ModelRegistry.antt =====
-- src/model_registry.rs: the model lineage, and the oracle that adopts one on a quorum.
pub mod Lineage
pub mod Quorum
pub mod Distance
mod Tests
use proof_of_context_impl.Prelude.{
  ℕ, zero, suc, ◌+◌, max, Bool, true, false, ◌&&◌, not, Option, none, some, List, [], ◌∷◌, leb, ltb,
  length, if◌then◌else◌,
}
use proof_of_context_impl.Prelude.Bytes.{Bytes, text, ◌==◌}
use proof_of_context_impl.Prelude.Word.{saturating_sub}
use proof_of_context_impl.Prelude.Sort.{sort_by}
use proof_of_context_impl.Crypto.{Crypto}
use proof_of_context_impl.Error.{PocError, oracle_unavailable, Result, ok, err, ok_or, ◌>>=◌}
use proof_of_context_impl.SortedMap
use proof_of_context_impl.SortedMap.{SortedMap}
use proof_of_context_impl.Anchor.{TripleAnchor}
use proof_of_context_impl.Context.{Hash32}
use proof_of_context_impl.Canonical
use proof_of_context_impl.Canonical.{
  Value, number, string, array, object, Items, nil, cons, end, field, Json, canonical_json,
}
use proof_of_context_impl.Oracle.{CanonicalStateOracle}

pub record ModelEpoch : Type 0 where
  pub weights_hash : Hash32
  pub epoch : ℕ
  pub activation_block : ℕ

pub record ModelLineage : Type 0 where
  pub epochs : List ModelEpoch

-- The order of `sort_by_key(|e| e.epoch)`.
abbrev pub epoch_le : ModelEpoch → ModelEpoch → Bool
epoch_le e f = leb e.epoch f.epoch

-- ModelLineage::new
unfoldable pub new_lineage : List ModelEpoch → ModelLineage
new_lineage epochs = record { epochs = sort_by epoch_le epochs }

abbrev pub epoch_value : Json → ModelEpoch → Value
epoch_value json e = object (
    field (text "weights_hash") (string (json.hex e.weights_hash)) (
      field (text "epoch") (number e.epoch)
        (field (text "activation_block") (number e.activation_block) end)))

abbrev pub epoch_values : Json → List ModelEpoch → Items
epoch_values json [] = nil
epoch_values json (e ∷ es) = cons (epoch_value json e) (epoch_values json es)

unfoldable pub canonical_value : Json → ModelLineage → Value
canonical_value json l = object (
    field (text "epochs") (array (epoch_values json l.epochs))
      (field (text "version") (string (text "f_m/0.1")) end))

unfoldable pub canonical_hash : Crypto → Json → ModelLineage → Hash32
canonical_hash crypto json l = Canonical.canonical_hash crypto json (canonical_value json l)

unfoldable pub signing_message : Json → ModelLineage → Bytes
signing_message json l = canonical_json json (canonical_value json l)

-- `iter().position(..)`, counted from `i`.
unfoldable pub find_position : ℕ → Hash32 → List ModelEpoch → Option ℕ
find_position i weights_hash [] = none
find_position i weights_hash (e ∷ es) =
    if e.weights_hash == weights_hash then some i else find_position (i + 1) weights_hash es

unfoldable pub position_of : ModelLineage → Hash32 → Option ℕ
position_of l weights_hash = find_position 0 weights_hash l.epochs

-- `enumerate().filter(..).map(..).max()`, counted from `i`.
unfoldable pub last_active : ℕ → ℕ → List ModelEpoch → Option ℕ
last_active i block [] = none
last_active i block (e ∷ es) =
    let rest = last_active (i + 1) block es in
    if leb e.activation_block block
    then (elim rest [ none ↦ some i | some j ↦ some (max i j) ])
    else rest

unfoldable pub canonical_position_at : ModelLineage → ℕ → Option ℕ
canonical_position_at l block = last_active 0 block l.epochs

pub record QuorumSignature : Type 0 where
  pub public_key : Bytes
  pub signature : Bytes

pub record QuorumModelOracle : Type 0 where
  -- `BTreeSet<[u8; 32]>`
  pub publishers : SortedMap (Unit {0})
  pub threshold : ℕ
  pub lineage : Option ModelLineage

-- `publishers.into_iter().collect()`
abbrev pub collect_keys : List Bytes → SortedMap (Unit {0})
collect_keys [] = SortedMap.empty
collect_keys (k ∷ ks) = SortedMap.insert k tt (collect_keys ks)

unfoldable pub new : List Bytes → ℕ → QuorumModelOracle
new publishers threshold = record {
  publishers = collect_keys publishers;
  threshold = threshold;
  lineage = none;
}

-- `set.contains(key)`
abbrev pub contains : SortedMap (Unit {0}) → Bytes → Bool
contains keys key = elim (SortedMap.get key keys) [ some _ ↦ true | none ↦ false ]

-- One round of the loop over the signatures, on `distinct_valid`.
unfoldable pub add_valid :
    Crypto
    → SortedMap (Unit {0})
    → Bytes
    → QuorumSignature
    → SortedMap (Unit {0})
    → SortedMap (Unit {0})
add_valid crypto publishers message sig distinct_valid =
    if not (contains publishers sig.public_key)
    then distinct_valid
    else if not (crypto.key_ok sig.public_key)
    then distinct_valid
    else if crypto.verify_ok sig.public_key message sig.signature
    then SortedMap.insert sig.public_key tt distinct_valid
    else distinct_valid

unfoldable pub collect_valid :
    Crypto
    → SortedMap (Unit {0})
    → Bytes
    → List QuorumSignature
    → SortedMap (Unit {0})
    → SortedMap (Unit {0})
collect_valid crypto publishers message [] distinct_valid = distinct_valid
collect_valid crypto publishers message (sig ∷ sigs) distinct_valid =
    collect_valid crypto publishers message sigs
      (add_valid crypto publishers message sig distinct_valid)

-- QuorumModelOracle::lineage
abbrev adopted_lineage : QuorumModelOracle → Option ModelLineage
adopted_lineage o = o.lineage

-- The new state, or the error with which the state is left as it was.
unfoldable pub present_lineage :
    Crypto
    → Json
    → QuorumModelOracle
    → ModelLineage
    → List QuorumSignature
    → Result PocError QuorumModelOracle
present_lineage crypto json o lineage signatures =
    if leb o.threshold 0
    then err oracle_unavailable
    else let message = signing_message json lineage in
      let distinct_valid = collect_valid crypto o.publishers message signatures SortedMap.empty in
      if ltb (length distinct_valid) o.threshold
      then err oracle_unavailable
      else ok (record o { lineage = some lineage })

unfoldable pub model_epoch_distance : QuorumModelOracle → Hash32 → TripleAnchor → Result PocError ℕ
model_epoch_distance o weights_hash now = do
  lineage ← ok_or o.lineage oracle_unavailable
  committed ← ok_or (position_of lineage weights_hash) oracle_unavailable
  canonical ← ok_or (canonical_position_at lineage now.block_height) oracle_unavailable
  ok (saturating_sub canonical committed)

-- impl CanonicalStateOracle for QuorumModelOracle
abbrev pub canonical_state_oracle : QuorumModelOracle → CanonicalStateOracle
canonical_state_oracle o = record {
  model_epoch_distance = λ weights_hash now. model_epoch_distance o weights_hash now;
  input_lag_blocks = λ input_manifest_root now. err oracle_unavailable;
}
