-- ===== src/Orchestrator/Steps.antt =====
-- examples/multi_agent_orchestrator.rs: the hashes of a step and of a chain of steps.
use proof_of_context_impl.Prelude.{◌++◌, [], ◌∷◌, List, none}
use proof_of_context_impl.Prelude.Bytes.{Bytes, text}
use proof_of_context_impl.Prelude.Decimal.{decimal, debug_list}
use proof_of_context_impl.Crypto.{Crypto}
use proof_of_context_impl.Context.{Hash32, ExecutionContextRoot, flash_attention2, bf16}
use proof_of_context_impl.Commitment.{FreshnessCommitment, signing_digest}
use proof_of_context_impl.Orchestrator.{AgentTask}

abbrev pub hash_label : Crypto → Bytes → Hash32
hash_label crypto s = crypto.sha256 s

unfoldable pub hash_output : Crypto → Bytes → Hash32
hash_output crypto bytes = crypto.sha256 (text "agent-output-v1" ++ bytes)

-- The temperature is 0.0, and `top_p` has the bits of 1.0.
unfoldable pub build_step_root : Crypto → Bytes → AgentTask → Bytes → ExecutionContextRoot
build_step_root crypto agent_id task output = record {
  weights_hash = hash_label crypto (text "agent:" ++ agent_id);
  tokenizer_hash = hash_label crypto (text "orchestrator/v1");
  system_prompt_hash = hash_label crypto (text "task:" ++ decimal task.task_id);
  sampling_params = record { temperature = 0; top_k = 1; top_p = 0x3f800000; seed = task.task_id };
  runtime_version = hash_label crypto (text "rust-orchestrator-v1");
  attention_impl_id = flash_attention2;
  precision_mode = bf16;
  inference_config = record {
    max_tokens = 0;
    stop_sequences_root = hash_label crypto (text "none");
    penalty_params_root = hash_label crypto (text "none");
  };
  input_manifest_root = hash_label crypto (text "input:" ++ debug_list task.input);
  kv_cache_root = none;
}

-- The digests, one after another.
unfoldable pub signing_digests : Crypto → List FreshnessCommitment → Bytes
signing_digests crypto [] = []
signing_digests crypto (c ∷ cs) = signing_digest crypto c ++ signing_digests crypto cs

unfoldable pub compute_chain_hash : Crypto → List FreshnessCommitment → Hash32
compute_chain_hash crypto cs =
    crypto.sha256 (text "orchestration-chain-v1" ++ signing_digests crypto cs)
