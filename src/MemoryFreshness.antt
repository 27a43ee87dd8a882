-- ===== src/MemoryFreshness.antt =====
-- examples/memory_freshness.rs: a memory entry, the root of its sources, its attestation and its read.
pub mod Sources
pub mod Life
mod Tests
use proof_of_context_impl.Prelude.{
  ℕ, zero, suc, map, Bool, true, false, Option, none, some, List, [], ◌∷◌, ◌++◌, length, Ordering,
}
use proof_of_context_impl.Prelude.Bytes.{Bytes, text, cmp}
use proof_of_context_impl.Prelude.Word.{le_bytes}
use proof_of_context_impl.Prelude.Sort.{sort_by}
use proof_of_context_impl.Crypto.{Crypto}
use proof_of_context_impl.Error.{ok, err}
use proof_of_context_impl.Freshness.{FreshnessThresholds}
use proof_of_context_impl.Anchor.{TripleAnchor}
use proof_of_context_impl.Attestation.{mock_software}
use proof_of_context_impl.Context.{Hash32}
use proof_of_context_impl.Commitment.{FreshnessCommitment, signing_digest}
use proof_of_context_impl.Renewal.{RenewalOutcome, evaluate}

pub record MemoryEntry : Type 0 where
  pub name : Bytes
  pub fact : Bytes
  pub attestation : FreshnessCommitment

-- `(id, content)`, or `(id, content_hash)`.
abbrev pub Pair : Type 0
Pair = Bytes × Bytes

-- A source with the hash of its content.
abbrev pub hash_content : Crypto → Pair → Pair
hash_content crypto p = (p.0, crypto.sha256 p.1)

-- `a.0.cmp(b.0)` is not `Greater`.
unfoldable pub id_le : Pair → Pair → Bool
id_le a b = elim (cmp a.0 b.0) [ Ordering.gt ↦ false | _ ↦ true ]

-- What the loop feeds to the hasher.
unfoldable pub pair_bytes : List Pair → Bytes
pair_bytes [] = []
pair_bytes (p ∷ pairs) = le_bytes 8 (length p.0) ++ (p.0 ++ (p.1 ++ pair_bytes pairs))

unfoldable pub source_set_root : Crypto → List Pair → Hash32
source_set_root crypto sources =
    crypto.sha256 (pair_bytes (sort_by id_le (map (hash_content crypto) sources)))

abbrev pub fact_hash : Crypto → Bytes → Hash32
fact_hash crypto fact = crypto.sha256 fact

abbrev pub zeros : ℕ → Bytes
zeros zero = []
zeros (suc n) = 0 ∷ zeros n

-- The commitment before it is signed.
abbrev pub unsigned : Crypto → Bytes → List Pair → Bytes → TripleAnchor → FreshnessCommitment
unsigned crypto key sources fact verified_at = record {
  context_root = source_set_root crypto sources;
  anchor = verified_at;
  output_hash = fact_hash crypto fact;
  signature = zeros 64;
  public_key = crypto.verifying_key key;
  attestation_chain = record {
    payload = text "memory-reverifier-software";
    vendor = mock_software;
  };
}

unfoldable pub attest : Crypto → Bytes → List Pair → Bytes → TripleAnchor → FreshnessCommitment
attest crypto key sources fact verified_at =
    let c = unsigned crypto key sources fact verified_at in
    record c { signature = crypto.sign key (signing_digest crypto c) }

-- The verdict of a read; `none` is the panic of `expect`. The fact is served with any verdict.
unfoldable pub read :
    MemoryEntry → Hash32 → TripleAnchor → FreshnessThresholds → Option RenewalOutcome
unfolding evaluate
read entry current_source_root now thresholds =
    elim (evaluate entry.attestation current_source_root now thresholds) [
      | ok verdict ↦ some verdict
      | err e ↦ none
    ]
