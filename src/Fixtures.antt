-- ===== src/Fixtures.antt =====
-- Concrete instances for the tests: small stand-ins for the crates, and sample data.
use proof_of_context_impl.Prelude.{
  ℕ, zero, suc, ◌%◌, ◌<◌, ◌≡◌, refl, ap, true, Option, none, some, [], ◌∷◌, ◌++◌, arith, length,
  All,
}
use proof_of_context_impl.Prelude.Bytes.{Bytes, IsArray, text, ◌==◌, ==_iff}
use proof_of_context_impl.Crypto.{Crypto, IsCrypto}
use proof_of_context_impl.Anchor.{TripleAnchor, IsAnchor}
use proof_of_context_impl.Context.{merkle_root, preimage, Hash32, ExecutionContextRoot, sdpa, bf16}
use proof_of_context_impl.Context.Encoding.{IsContext}
use proof_of_context_impl.Attestation.{mock_software}
use proof_of_context_impl.Commitment.{FreshnessCommitment, signing_preimage}
use proof_of_context_impl.Error.{ok}
use proof_of_context_impl.Mock.Committer.{MockCommitter, commit}
use proof_of_context_impl.Mock.Verifier.{verify}
use proof_of_context_impl.Mock.Verifier.Roundtrip.{commit-verify}
use proof_of_context_impl.Canonical.Order.{get_field}
use proof_of_context_impl.Canonical.{object, Value, string, number, Json}

-- The first `n` bytes, with zeros behind them.
abbrev pub pad : ℕ → Bytes → Bytes
pad zero m = []
pad (suc n) [] = 0 ∷ pad n []
pad (suc n) (x ∷ xs) = (x % 256) ∷ pad n xs

length-pad : (n : ℕ) (m : Bytes) → length (pad n m) ≡ n
length-pad zero m = refl
length-pad (suc n) [] = ap suc (length-pad n [])
length-pad (suc n) (x ∷ xs) = ap suc (length-pad n xs)

bytes-pad : (n : ℕ) (m : Bytes) → All (λ b. b < 256) (pad n m)
bytes-pad zero m = tt
bytes-pad (suc n) [] = (omega arith, bytes-pad n [])
bytes-pad (suc n) (x ∷ xs) = (omega arith, bytes-pad n xs)

pub pad-IsArray : (n : ℕ) (m : Bytes) → IsArray n (pad n m)
pad-IsArray n m = record { size = length-pad n m; bytes = bytes-pad n m }

-- A digest of the first bytes; a signature that holds its key and its message.
abbrev pub crypto : Crypto
crypto = record {
  sha256 = λ m. pad 32 m;
  key_ok = λ k. true;
  verify_ok = λ k m s. s == k ++ m;
  verifying_key = λ k. k;
  sign = λ k m. k ++ m;
}

pub crypto-IsCrypto : IsCrypto crypto
crypto-IsCrypto = record {
  digest_size = λ m. pad-IsArray 32 m;
  key_valid = λ k. refl;
  sign_valid = λ k m. (==_iff (k ++ m) (k ++ m)).1 refl;
}

abbrev pub as_str : Value → Option Bytes
as_str (string s) = some s
as_str _ = none

abbrev pub get : Value → Bytes → Option Value
get (object fs) k = get_field k fs
get _ k = none

abbrev pub as_u64 : Value → Option ℕ
as_u64 (number n) = some n
as_u64 _ = none

-- Texts without quotes or escapes, and a number as one byte.
abbrev pub json : Json
json = record {
  quote = λ s. s;
  bool_text = λ b. text "?";
  number_text = λ n. n ∷ [];
  negative_text = λ n. text "-";
  float_text = λ x. text "?";
  null_text = text "null";
  hex = λ b. b;
  decode_hex = λ n b. some b;
  get = get;
  as_str = as_str;
  as_u64 = as_u64;
}

-- A hash that starts with this byte.
abbrev pub hash : ℕ → Hash32
hash x = pad 32 (x ∷ [])

-- 100 seconds after the first round of Drand, in the third round after it.
abbrev pub anchor : TripleAnchor
anchor = record { block_height = 1000; tee_timestamp = 1595431150000000000; drand_round = 3 }

pub anchor-IsAnchor : IsAnchor anchor
anchor-IsAnchor = record {
  block_range = omega arith;
  tee_range = omega arith;
  drand_range = omega arith;
}

abbrev pub at_block : ℕ → TripleAnchor
at_block height = record anchor { block_height = height }

abbrev pub root : ExecutionContextRoot
root = record {
  weights_hash = hash 1;
  tokenizer_hash = hash 2;
  system_prompt_hash = hash 3;
  sampling_params = record { temperature = 0; top_k = 1; top_p = 0; seed = 7 };
  runtime_version = hash 4;
  attention_impl_id = sdpa;
  precision_mode = bf16;
  inference_config = record {
    max_tokens = 128;
    stop_sequences_root = hash 5;
    penalty_params_root = hash 6;
  };
  input_manifest_root = hash 8;
  kv_cache_root = none;
}

pub root-IsContext : IsContext root
root-IsContext = record {
  weights = pad-IsArray 32 (1 ∷ []);
  tokenizer = pad-IsArray 32 (2 ∷ []);
  prompt = pad-IsArray 32 (3 ∷ []);
  sampling = record {
    temperature = omega arith;
    top_k = omega arith;
    top_p = omega arith;
    seed = omega arith;
  };
  runtime = pad-IsArray 32 (4 ∷ []);
  config = record {
    max_tokens = omega arith;
    stop = pad-IsArray 32 (5 ∷ []);
    penalty = pad-IsArray 32 (6 ∷ []);
  };
  manifest = pad-IsArray 32 (8 ∷ []);
}

-- Another context, with the same digest under the stand-in for SHA-256.
abbrev pub lookalike : ExecutionContextRoot
lookalike = record root { tokenizer_hash = hash 77 }

pub lookalike-IsContext : IsContext lookalike
lookalike-IsContext = record {
  weights = root-IsContext.weights;
  tokenizer = pad-IsArray 32 (77 ∷ []);
  prompt = root-IsContext.prompt;
  sampling = root-IsContext.sampling;
  runtime = root-IsContext.runtime;
  config = root-IsContext.config;
  manifest = root-IsContext.manifest;
}

pub same_root : merkle_root crypto lookalike ≡ merkle_root crypto root
unfolding merkle_root preimage
same_root = refl

abbrev pub out : Bytes
out = hash 9

-- What a committer with the key `key` makes for this context and output.
abbrev pub commitment : FreshnessCommitment
commitment = record {
  context_root = merkle_root crypto root;
  anchor = anchor;
  output_hash = out;
  signature =
      crypto.sign (text "key")
        (crypto.sha256 (signing_preimage (merkle_root crypto root) anchor out));
  public_key = text "key";
  attestation_chain = record { payload = text "mock-software-attestation"; vendor = mock_software };
}

abbrev pub committer : MockCommitter
committer = record { signing_key = text "key"; identity = "worker" }

pub committed : commit crypto committer root out anchor ≡ ok commitment
unfolding commit signing_preimage
committed = refl

pub verified : verify crypto commitment ≡ ok tt
verified = commit-verify crypto committer root out anchor commitment crypto-IsCrypto committed
