-- ===== src/InputFreshness/Witness.antt =====
-- src/input_freshness.rs: the attestations that back one inference, their root and their block.
use Prim.Native.Nat.Ordering.{lt, eq, gt}
use proof_of_context_impl.Prelude.{
  ℕ, ◌/◌, min, Bool, true, false, not, ◌&&◌, Option, none, some, List, [], ◌∷◌, ltb, if◌then◌else◌,
}
use proof_of_context_impl.Prelude.Bytes.{Bytes, text, cmp, pin_ok, ◌==◌}
use proof_of_context_impl.Prelude.Word.{saturating_sub}
use proof_of_context_impl.Prelude.Sort.{sort_by}
use proof_of_context_impl.Crypto.{Crypto}
use proof_of_context_impl.Error.{
  PocError, context_root_malformed, invalid_signature, oracle_unavailable, Result, ok, err, ok_or,
  ◌>>=◌, ◌>>◌,
}
use proof_of_context_impl.Anchor.{TripleAnchor, base_block_period_secs}
use proof_of_context_impl.Context.{Hash32}
use proof_of_context_impl.Canonical
use proof_of_context_impl.Canonical.{
  Value, number, string, array, object, Items, nil, cons, end, field, Json,
}
use proof_of_context_impl.InputFreshness.Attestation.{
  InputAttestation, from_poc_json, verify_signature, as_of_block,
}

pub record InputFreshnessWitness : Type 0 where
  pub attestations : List InputAttestation

-- The body of the loop in InputFreshnessWitness::from_poc_blocks.
unfoldable pub checked_attestation :
    Crypto → Json → Option Bytes → Value → Result PocError InputAttestation
checked_attestation crypto json expected_pubkey block = do
  att ← from_poc_json json block
  if not (att.freshness_type == text "f_i")
      then err (context_root_malformed "freshness_type != f_i")
      else verify_signature crypto json att
        >> (if not (pin_ok expected_pubkey att.public_key) then err invalid_signature else ok att)

unfoldable pub checked_attestations :
    Crypto → Json → Option Bytes → List Value → Result PocError (List InputAttestation)
checked_attestations crypto json expected_pubkey [] = ok []
checked_attestations crypto json expected_pubkey (block ∷ blocks) = do
  att ← checked_attestation crypto json expected_pubkey block
  atts ← checked_attestations crypto json expected_pubkey blocks
  ok (att ∷ atts)

unfoldable pub from_poc_blocks :
    Crypto → Json → List Value → Option Bytes → Result PocError InputFreshnessWitness
from_poc_blocks crypto json [] expected_pubkey = err (context_root_malformed "empty witness")
from_poc_blocks crypto json (block ∷ blocks) expected_pubkey = do
  attestations ← checked_attestations crypto json expected_pubkey (block ∷ blocks)
  ok (record { attestations = attestations })

-- The comparison of the descriptors: by endpoint, then by payload hash.
abbrev pub descriptor_le : InputAttestation → InputAttestation → Bool
descriptor_le a b = elim (cmp a.endpoint b.endpoint) [
  | lt ↦ true
  | eq ↦ (elim (cmp a.payload_hash b.payload_hash) [ gt ↦ false | _ ↦ true ])
  | gt ↦ false
]

abbrev pub source_value : Json → InputAttestation → Value
source_value json a = object (
    field (text "endpoint") (string a.endpoint) (
      field (text "payload_hash") (string (json.hex a.payload_hash))
        (field (text "source_id") (string a.source_id) end)))

abbrev pub source_values : Json → List InputAttestation → Items
source_values json [] = nil
source_values json (a ∷ rest) = cons (source_value json a) (source_values json rest)

unfoldable pub input_manifest_root : Crypto → Json → InputFreshnessWitness → Hash32
input_manifest_root crypto json w = Canonical.canonical_hash crypto json (
    object (
      field (text "sources") (array (source_values json (sort_by descriptor_le w.attestations)))
        (field (text "version") (string (text "f_i/0.1")) end)))

-- `min_block.map_or(as_of, |m| m.min(as_of))`
abbrev pub min_with : Option ℕ → ℕ → ℕ
min_with none as_of = as_of
min_with (some m) as_of = min m as_of

-- The loop of InputFreshnessWitness::as_of_block, over `min_block`.
unfoldable pub stalest_from :
    Bool → TripleAnchor → Bool → List InputAttestation → Option ℕ → Result PocError (Option ℕ)
stalest_from real_anchors now enforce_horizon [] min_block = ok min_block
stalest_from real_anchors now enforce_horizon (att ∷ atts) min_block =
    elim (as_of_block real_anchors att) [
      | err e ↦ err e
      | ok as_of ↦
          let lag = saturating_sub now.block_height as_of in
          let horizon_blocks = att.freshness_horizon_secs / base_block_period_secs in
          let rest =
            stalest_from real_anchors now enforce_horizon atts (some (min_with min_block as_of)) in
          if enforce_horizon && ltb horizon_blocks lag then err oracle_unavailable else rest
    ]

-- InputFreshnessWitness::as_of_block
unfoldable pub witness_as_of_block :
    Bool → InputFreshnessWitness → TripleAnchor → Bool → Result PocError ℕ
witness_as_of_block real_anchors w now enforce_horizon = do
  min_block ← stalest_from real_anchors now enforce_horizon w.attestations none
  ok_or min_block oracle_unavailable
