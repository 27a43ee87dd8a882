-- ===== src/Context.antt =====
-- src/context.rs: the execution-context root and the byte string that it hashes. A float is its
-- bit pattern: the source only writes its bytes.
pub mod Encoding
pub mod Binding
mod Tests
use proof_of_context_impl.Prelude.{ℕ, Option, none, some, [], ◌∷◌, ◌++◌, take}
use proof_of_context_impl.Prelude.Bytes.{Bytes}
use proof_of_context_impl.Prelude.Word.{le_bytes}
use proof_of_context_impl.Crypto.{Crypto}

abbrev pub Hash32 : Type 0
Hash32 = Bytes

pub record SamplingParams : Type 0 where
  -- `f32::to_bits` of the two floats
  pub temperature : ℕ
  pub top_k : ℕ
  pub top_p : ℕ
  pub seed : ℕ

pub data AttentionImpl : Type 0 where
  flash_attention2 sdpa flex_attention : AttentionImpl
  other : ℕ → AttentionImpl

pub data PrecisionMode : Type 0 where
  bf16 fp16 fp32 fp8 : PrecisionMode

pub record InferenceConfig : Type 0 where
  pub max_tokens : ℕ
  pub stop_sequences_root : Hash32
  pub penalty_params_root : Hash32

pub record ExecutionContextRoot : Type 0 where
  pub weights_hash : Hash32
  pub tokenizer_hash : Hash32
  pub system_prompt_hash : Hash32
  pub sampling_params : SamplingParams
  pub runtime_version : Hash32
  pub attention_impl_id : AttentionImpl
  pub precision_mode : PrecisionMode
  pub inference_config : InferenceConfig
  pub input_manifest_root : Hash32
  pub kv_cache_root : Option Hash32

-- SamplingParams::to_bytes
unfoldable pub sampling_bytes : SamplingParams → Bytes
sampling_bytes p =
    le_bytes 4 p.temperature ++ (le_bytes 4 p.top_k ++ (le_bytes 4 p.top_p ++ le_bytes 8 p.seed))

-- AttentionImpl::encoding: the two-byte buffer, and how many of its bytes are used.
unfoldable pub encoding : AttentionImpl → Bytes × ℕ
encoding flash_attention2 = (1 ∷ 0 ∷ [], 1)
encoding sdpa = (2 ∷ 0 ∷ [], 1)
encoding flex_attention = (3 ∷ 0 ∷ [], 1)
encoding (other tag) = (0x80 ∷ tag ∷ [], 2)

-- `&attn_enc[..attn_len]`
unfoldable pub attention_bytes : AttentionImpl → Bytes
unfolding encoding
attention_bytes a = let (attn_enc, attn_len) = encoding a in take attn_len attn_enc

unfoldable pub discriminant : PrecisionMode → ℕ
discriminant bf16 = 1
discriminant fp16 = 2
discriminant fp32 = 3
discriminant fp8 = 4

-- InferenceConfig::to_bytes
unfoldable pub config_bytes : InferenceConfig → Bytes
config_bytes c = le_bytes 4 c.max_tokens ++ (c.stop_sequences_root ++ c.penalty_params_root)

-- The last `match` of merkle_root.
unfoldable pub kv_cache_bytes : Option Hash32 → Bytes
kv_cache_bytes (some root) = 1 ∷ root
kv_cache_bytes none = 0 ∷ []

-- What merkle_root feeds to the hasher, in order.
unfoldable pub preimage : ExecutionContextRoot → Bytes
preimage r =
    r.weights_hash
    ++ (r.tokenizer_hash
        ++ (r.system_prompt_hash
            ++ (sampling_bytes r.sampling_params
                ++ (r.runtime_version
                    ++ (attention_bytes r.attention_impl_id
                        ++ (discriminant r.precision_mode
                            ∷ (config_bytes r.inference_config
                                ++ (r.input_manifest_root ++ kv_cache_bytes r.kv_cache_root))))))))

unfoldable pub merkle_root : Crypto → ExecutionContextRoot → Hash32
merkle_root crypto r = crypto.sha256 (preimage r)
