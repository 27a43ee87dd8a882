-- ===== src/InputFreshness/Attestation.antt =====
-- src/input_freshness.rs: one signed input attestation.
use proof_of_context_impl.Prelude.{
  String, ℕ, ◌-◌, ◌/◌, Bool, leb, and_then, not, Option, none, some, ◌++◌, if◌then◌else◌,
}
use proof_of_context_impl.Prelude.Bytes.{Bytes, text}
use proof_of_context_impl.Crypto.{Crypto}
use proof_of_context_impl.Error.{
  PocError, context_root_malformed, invalid_signature, oracle_unavailable, Result, ok, err, ok_or,
  ◌>>=◌,
}
use proof_of_context_impl.Anchor.{base_mainnet_genesis_unix, base_block_period_secs}
use proof_of_context_impl.Context.{Hash32}
use proof_of_context_impl.InputFreshness.Timestamp.{parse_iso8601_utc_secs}
use proof_of_context_impl.Canonical.{Value, Json}

pub record InputAttestation : Type 0 where
  pub source_id : Bytes
  pub endpoint : Bytes
  pub payload_hash : Hash32
  pub timestamp : Bytes
  pub freshness_horizon_secs : ℕ
  pub anchor_block_height : Option ℕ
  pub signature : Option Bytes
  pub public_key : Option Bytes
  pub freshness_type : Bytes

module _ (json : Json) (poc : Value) where
  -- The closure `s`: a text field, or the error that names it.
  abbrev pub text_field : String → Result PocError Bytes
  text_field k = ok_or (and_then (json.get poc (text k)) json.as_str) (context_root_malformed k)

  -- `signature`, `public_key`: absent, or hexadecimal of the size.
  unfoldable pub optional_hex : ℕ → String → Result PocError (Option Bytes)
  optional_hex size k = elim (and_then (json.get poc (text k)) json.as_str) [
    | none ↦ ok none
    | some hex ↦ elim (json.decode_hex size hex) [
      | none ↦ err (context_root_malformed k)
      | some bytes ↦ ok (some bytes)
    ]
  ]

  unfoldable pub from_poc_json : Result PocError InputAttestation
  from_poc_json = do
    payload_hash_hex ← text_field "payload_hash"
    payload_hash ←
        ok_or (json.decode_hex 32 payload_hash_hex) (context_root_malformed "payload_hash")
    freshness_horizon_secs ←
        ok_or (and_then (json.get poc (text "freshness_horizon_seconds")) json.as_u64)
          (context_root_malformed "freshness_horizon_seconds")
    let anchor_block_height =
        and_then (and_then (json.get poc (text "anchors")) (λ a. json.get a (text "block_height")))
          json.as_u64
    signature ← optional_hex 64 "signature"
    public_key ← optional_hex 32 "public_key"
    source_id ← text_field "source_id"
    endpoint ← text_field "endpoint"
    timestamp ← text_field "timestamp"
    freshness_type ← text_field "freshness_type"
    ok (record {
      source_id = source_id;
      endpoint = endpoint;
      payload_hash = payload_hash;
      timestamp = timestamp;
      freshness_horizon_secs = freshness_horizon_secs;
      anchor_block_height = anchor_block_height;
      signature = signature;
      public_key = public_key;
      freshness_type = freshness_type;
    })

unfoldable pub signing_message : Json → InputAttestation → Bytes
signing_message json a =
    text "{\"payload_hash\":"
    ++ json.quote (json.hex a.payload_hash)
    ++ text ",\"source_id\":"
    ++ json.quote a.source_id
    ++ text ",\"endpoint\":"
    ++ json.quote a.endpoint
    ++ text ",\"timestamp\":"
    ++ json.quote a.timestamp
    ++ text ",\"freshness_horizon_seconds\":"
    ++ json.number_text a.freshness_horizon_secs
    ++ text ",\"freshness_type\":"
    ++ json.quote a.freshness_type
    ++ text "}"

unfoldable pub verify_signature : Crypto → Json → InputAttestation → Result PocError (Unit {0})
verify_signature crypto json a = do
  sig_bytes ← ok_or a.signature invalid_signature
  pk_bytes ← ok_or a.public_key invalid_signature
  if not (crypto.key_ok pk_bytes)
      then err invalid_signature
      else if crypto.verify_ok pk_bytes (signing_message json a) sig_bytes
      then ok tt
      else err invalid_signature

-- The fallback under `real-anchors`: the block period in which the timestamp lies.
unfoldable pub timestamp_block : InputAttestation → Result PocError ℕ
timestamp_block a = do
  secs ← parse_iso8601_utc_secs a.timestamp
  if leb base_mainnet_genesis_unix secs
      then ok ((secs - base_mainnet_genesis_unix) / base_block_period_secs)
      else err oracle_unavailable

-- InputAttestation::as_of_block, with or without `real-anchors`.
unfoldable pub as_of_block : Bool → InputAttestation → Result PocError ℕ
as_of_block real_anchors a = elim a.anchor_block_height [
  | some block ↦ ok block
  | none ↦ if real_anchors then timestamp_block a else err oracle_unavailable
]
