-- ===== src/Reexecution.antt =====
-- examples/eigencompute_freshness_receipt.rs: a deterministic model, the receipt of its inference,
-- and the check by re-execution.
pub mod Cheats
pub mod Served
mod Tests
use proof_of_context_impl.Prelude.{Bool, ◌&&◌, Option, none, some, ◌++◌}
use proof_of_context_impl.Prelude.Bytes.{Bytes, text, ◌==◌}
use proof_of_context_impl.Crypto.{Crypto}
use proof_of_context_impl.Error.{Result, ok, err}
use proof_of_context_impl.Anchor.{TripleAnchor}
use proof_of_context_impl.Attestation.{nvidia_h100}
use proof_of_context_impl.Context.{
  Hash32, ExecutionContextRoot, flash_attention2, bf16, merkle_root,
}
use proof_of_context_impl.Commitment.{FreshnessCommitment}
use proof_of_context_impl.Mock.Committer.{MockCommitter, commit}

abbrev pub hash_label : Crypto → Bytes → Hash32
hash_label crypto s = crypto.sha256 s

unfoldable pub hash_output : Crypto → Bytes → Hash32
hash_output crypto bytes = crypto.sha256 (text "output-blob-v1" ++ bytes)

pub record MockEigenAiModel : Type 0 where
  pub weights_hash : Hash32
  pub tokenizer_hash : Hash32
  pub runtime_version : Hash32

abbrev pub canonical : Crypto → MockEigenAiModel
canonical crypto = record {
  weights_hash = hash_label crypto (text "eigenai/canonical-weights@v1");
  tokenizer_hash = hash_label crypto (text "eigenai/canonical-tokenizer@v1");
  runtime_version = hash_label crypto (text "cuda-12.4 + flash-attn-2.6.3");
}

abbrev pub shadow_substitute : Crypto → MockEigenAiModel
shadow_substitute crypto = record {
  weights_hash = hash_label crypto (text "eigenai/shadow-cheaper-weights@v0");
  tokenizer_hash = hash_label crypto (text "eigenai/canonical-tokenizer@v1");
  runtime_version = hash_label crypto (text "cuda-12.4 + flash-attn-2.6.3");
}

-- MockEigenAIModel::run
unfoldable pub infer : Crypto → MockEigenAiModel → Hash32 → Bytes
infer crypto model prompt_hash =
    crypto.sha256 (text "mock-eigenai-output-v1" ++ (model.weights_hash ++ prompt_hash))

pub record AgentRequest : Type 0 where
  pub system_prompt : Bytes
  pub input_manifest_root : Hash32

abbrev pub pyth_btc_query : Crypto → AgentRequest
pyth_btc_query crypto = record {
  system_prompt = text "Quote the BTC/USD mid from the supplied Pyth feed at the indicated slot.";
  input_manifest_root = hash_label crypto (text "pyth:BTC/USD@base-mainnet@slot-281520119");
}

abbrev pub prompt_hash : Crypto → AgentRequest → Hash32
prompt_hash crypto req = hash_label crypto req.system_prompt

-- The temperature is 0.0, and `top_p` has the bits of 1.0.
unfoldable pub build_root : Crypto → MockEigenAiModel → AgentRequest → ExecutionContextRoot
build_root crypto model req = record {
  weights_hash = model.weights_hash;
  tokenizer_hash = model.tokenizer_hash;
  system_prompt_hash = prompt_hash crypto req;
  sampling_params = record { temperature = 0; top_k = 1; top_p = 0x3f800000; seed = 7 };
  runtime_version = model.runtime_version;
  attention_impl_id = flash_attention2;
  precision_mode = bf16;
  inference_config = record {
    max_tokens = 64;
    stop_sequences_root = hash_label crypto (text "stop:[]");
    penalty_params_root = hash_label crypto (text "penalties:default");
  };
  input_manifest_root = req.input_manifest_root;
  kv_cache_root = none;
}

unfoldable pub reexecute_and_compare :
    Crypto → MockEigenAiModel → AgentRequest → FreshnessCommitment → Bool
reexecute_and_compare crypto model request receipt =
    let truth_output = infer crypto model (prompt_hash crypto request) in
    let truth_output_hash = hash_output crypto truth_output in
    let canonical_root = merkle_root crypto (build_root crypto model request) in
    receipt.context_root == canonical_root && receipt.output_hash == truth_output_hash

-- `none` is the panic of `expect`.
unfoldable pub forge_capacity_falsification :
    Crypto
    → MockCommitter
    → ExecutionContextRoot
    → Hash32
    → TripleAnchor
    → Option FreshnessCommitment
forge_capacity_falsification crypto committer root output_hash anchor =
    elim (commit crypto committer root output_hash anchor) [
      | ok honest ↦ some (record honest {
        attestation_chain = record {
          payload = text "mock-software-attestation";
          vendor = nvidia_h100;
        };
      })
      | err e ↦ none
    ]
