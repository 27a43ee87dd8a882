-- ===== src/InputFreshness/Tests.antt =====
-- src/input_freshness.rs: one signed attestation, presented and asked for.
use mathlib.Core.List.{Permᴰ, Memᴰ}
use proof_of_context_impl.Prelude.{
  ◌↔◌, ◌⊎◌, ◌/◌, ◌≤◌, ap, ◌≡◌, refl, sym, ◌∙◌, true, false, ◌+◌, ◌-◌, ◌*◌, none, some, [], ◌∷◌,
  arith, map, All,
}
use proof_of_context_impl.Prelude.Bytes.{Bytes, text, cmp, ==_iff}
use proof_of_context_impl.Fixtures.{crypto, json, hash, at_block}
use proof_of_context_impl.SortedMap
use proof_of_context_impl.Error.{ok, err, oracle_unavailable}
use proof_of_context_impl.Context.{Hash32}
use proof_of_context_impl.Canonical.{Value, string, number, object, field, end}
use proof_of_context_impl.InputFreshness.Attestation.{
  InputAttestation, from_poc_json, optional_hex, signing_message, verify_signature, as_of_block,
  timestamp_block,
}
use proof_of_context_impl.InputFreshness.Timestamp.{
  parse_iso8601_utc_secs, num, slice, is_boundary, parse_i64, days_from_civil,
}
use proof_of_context_impl.Prelude.Int.{sub_ℕ}
use proof_of_context_impl.InputFreshness.Timestamp.Calendar.{IsDate, day_number, days_in_month}
use proof_of_context_impl.InputFreshness.Timestamp.Text.{iso}
use proof_of_context_impl.InputFreshness.Timestamp.Seconds.{IsTime, parse_iso8601_utc_secs-iso}
use proof_of_context_impl.InputFreshness.Witness.{
  InputFreshnessWitness, checked_attestation, checked_attestations, from_poc_blocks,
  input_manifest_root, stalest_from, witness_as_of_block,
}
use proof_of_context_impl.InputFreshness.Oracle.{
  BaseOracleInputOracle, new, present_witness, input_lag_blocks,
}
use proof_of_context_impl.InputFreshness.Accept.{
  Backs, Indexed, with_block, single, present_witness_lem, anchor_is_unsigned,
}
use proof_of_context_impl.InputFreshness.Manifest.{Descriptor, descriptor, manifest_order}
use proof_of_context_impl.InputFreshness.Stalest.{Attained, Admits, witness_as_of_block_iff}

abbrev unsigned : InputAttestation
unsigned = record {
  source_id = text "s";
  endpoint = text "/prices";
  payload_hash = hash 5;
  timestamp = text "2026-01-01";
  freshness_horizon_secs = 600;
  anchor_block_height = some 1000;
  signature = none;
  public_key = none;
  freshness_type = text "f_i";
}

abbrev signature : Bytes
signature = crypto.sign (text "key") (signing_message json unsigned)

abbrev attestation : InputAttestation
attestation = record unsigned { signature = some signature; public_key = some (text "key") }

abbrev block : Value
block = object (
    field (text "payload_hash") (string (hash 5)) (
      field (text "freshness_horizon_seconds") (number 600) (
        field (text "anchors") (object (field (text "block_height") (number 1000) end)) (
          field (text "signature") (string signature) (
            field (text "public_key") (string (text "key")) (
              field (text "source_id") (string (text "s")) (
                field (text "endpoint") (string (text "/prices")) (
                  field (text "timestamp") (string (text "2026-01-01"))
                    (field (text "freshness_type") (string (text "f_i")) end)))))))))

abbrev witness : InputFreshnessWitness
witness = single attestation

abbrev pinned : BaseOracleInputOracle
pinned = new (some (text "key"))

abbrev root : Hash32
root = input_manifest_root crypto json witness

abbrev indexed : BaseOracleInputOracle
indexed = record pinned { witnesses = SortedMap.insert root witness pinned.witnesses }

parsed : from_poc_json json block ≡ ok attestation
unfolding from_poc_json optional_hex cmp
parsed = refl

verified : verify_signature crypto json attestation ≡ ok tt
unfolding verify_signature signing_message
verified = rw ((==_iff signature signature).1 refl) refl

presented : present_witness crypto json pinned (block ∷ []) ≡ ok (root, indexed)
unfolding present_witness from_poc_blocks checked_attestations checked_attestation cmp new
presented = rw (parsed, verified) refl

present_witness_lem_example :
    (w : InputFreshnessWitness) × Backs crypto json (some (text "key")) (block ∷ []) w.attestations
    × (root ≡ input_manifest_root crypto json w)
    × Indexed pinned w root indexed
unfolding new
present_witness_lem_example =
    present_witness_lem crypto json pinned indexed (block ∷ []) root presented

anchor_is_unsigned_example :
    (verify_signature crypto json (with_block attestation 8800)
      ≡ verify_signature crypto json attestation)
    × (input_manifest_root crypto json (single (with_block attestation 8800))
        ≡ input_manifest_root crypto json (single attestation))
    × ((witness_as_of_block false (single (with_block attestation 8800)) (at_block 9000) true
          ≡ ok 8800)
        ↔ ((true ≡ false) ⊎ (9000 - 8800 ≤ 600 / 2)))
    × (witness_as_of_block false (single (with_block attestation 9000)) (at_block 9000) true
        ≡ ok 9000)
anchor_is_unsigned_example =
    anchor_is_unsigned crypto json false attestation 8800 (at_block 9000) true

abbrev other : InputAttestation
other = record attestation { endpoint = text "/rates"; anchor_block_height = some 990 }

abbrev both : InputFreshnessWitness
both = record { attestations = attestation ∷ other ∷ [] }

abbrev swapped : InputFreshnessWitness
swapped = record { attestations = other ∷ attestation ∷ [] }

abbrev endpoint_of : Descriptor → Bytes
endpoint_of d = d.endpoint

endpoints_differ : text "/prices" ≡ text "/rates" → ⊥
endpoints_differ e = ground arith

distinct :
    (x y : Descriptor)
    → Memᴰ x (map descriptor both.attestations)
    → Memᴰ y (map descriptor both.attestations)
    → x.endpoint ≡ y.endpoint
    → x.payload_hash ≡ y.payload_hash
    → x ≡ y
distinct x y (Memᴰ.head h) (Memᴰ.head k) e f = h ∙ sym k
distinct x y (Memᴰ.head h) (Memᴰ.tail (Memᴰ.head k)) e f =
    absurd (endpoints_differ (ap endpoint_of (sym h) ∙ e ∙ ap endpoint_of k))
distinct x y (Memᴰ.tail (Memᴰ.head h)) (Memᴰ.head k) e f =
    absurd (endpoints_differ (ap endpoint_of (sym k) ∙ sym e ∙ ap endpoint_of h))
distinct x y (Memᴰ.tail (Memᴰ.head h)) (Memᴰ.tail (Memᴰ.head k)) e f = h ∙ sym k
distinct x y (Memᴰ.head h) (Memᴰ.tail (Memᴰ.tail m)) e f = elim m [ ]
distinct x y (Memᴰ.tail (Memᴰ.head h)) (Memᴰ.tail (Memᴰ.tail m)) e f = elim m [ ]
distinct x y (Memᴰ.tail (Memᴰ.tail m)) k e f = elim m [ ]

manifest_order_example :
    input_manifest_root crypto json both ≡ input_manifest_root crypto json swapped
manifest_order_example = manifest_order crypto json both swapped (Permᴰ.swap refl refl) distinct

witness_as_of_block_iff_example :
    (witness_as_of_block true both (at_block 1100) true ≡ ok 990)
    ↔ (All (Admits true (at_block 1100) true 990) both.attestations × Attained true 990 both)
witness_as_of_block_iff_example = witness_as_of_block_iff true both (at_block 1100) true 990

abbrev holding : BaseOracleInputOracle
holding = record pinned { witnesses = (hash 3, both) ∷ [] }

lag_at_1100 : input_lag_blocks true holding (hash 3) (at_block 1100) ≡ ok 110
unfolding input_lag_blocks witness_as_of_block stalest_from as_of_block SortedMap.get cmp new
lag_at_1100 = refl

-- Without the block of an anchor, the timestamp gives one under `real-anchors`.
abbrev late_2023 : Bytes
late_2023 = iso 2023 12 31 23 59 59 (text ".999Z")

abbrev unanchored : InputAttestation
unanchored = record unsigned { anchor_block_height = none; timestamp = late_2023 }

iso_late_2023 : late_2023 ≡ text "2023-12-31T23:59:59.999Z"
unfolding iso
iso_late_2023 = refl

last_day : IsDate 2023 12 31
unfolding days_in_month
last_day = record {
  month_low = omega arith;
  month_high = omega arith;
  day_low = omega arith;
  day_high = omega arith;
}

last_second : IsTime 23 59 59
last_second = record { hour_high = omega arith; min_high = omega arith; sec_high = omega arith }

parse_iso8601_utc_secs-iso_example :
    parse_iso8601_utc_secs (iso 2023 12 31 23 59 59 (text ".999Z"))
    ≡ ok ((day_number 2023 12 31 - day_number 1970 1 1) * 86400 + 86399)
unfolding is_boundary
parse_iso8601_utc_secs-iso_example =
    parse_iso8601_utc_secs-iso 2023 12 31 23 59 59 (text ".999Z") (omega arith) (omega arith)
      last_day last_second refl

from_timestamp : as_of_block true unanchored ≡ ok 8638926
unfolding as_of_block timestamp_block iso parse_iso8601_utc_secs num slice is_boundary parse_i64
    days_from_civil sub_ℕ
from_timestamp = refl

no_block : as_of_block false unanchored ≡ err oracle_unavailable
unfolding as_of_block
no_block = refl
