-- ===== src/Context/Encoding.antt =====
-- src/context.rs: the byte string under merkle_root determines every field of the context root.
use proof_of_context_impl.Prelude.{
  ◌<◌, ◌≡◌, refl, sym, ◌∙◌, Option, none, some, ◌∷◌, ◌++◌, arith, length, length-append,
  append_split,
}
use proof_of_context_impl.Prelude.Bytes.{Bytes, IsArray}
use proof_of_context_impl.Prelude.Word.{
  u32_mod, u64_mod, le_bytes, length-le_bytes, le_bytes-injective, word_split, array_split,
}
use proof_of_context_impl.Context.{
  SamplingParams, AttentionImpl, flash_attention2, sdpa, flex_attention, other, PrecisionMode,
  InferenceConfig, ExecutionContextRoot, Hash32, sampling_bytes, attention_bytes, discriminant,
  config_bytes, kv_cache_bytes, preimage,
}

-- The ranges of the fields: u32, u32, u32, u64.
pub record IsSampling (p : SamplingParams) : Type 0 where
  pub temperature : p.temperature < u32_mod
  pub top_k : p.top_k < u32_mod
  pub top_p : p.top_p < u32_mod
  pub seed : p.seed < u64_mod

pub record IsConfig (c : InferenceConfig) : Type 0 where
  pub max_tokens : c.max_tokens < u32_mod
  pub stop : IsArray 32 c.stop_sequences_root
  pub penalty : IsArray 32 c.penalty_params_root

pub record IsContext (r : ExecutionContextRoot) : Type 0 where
  pub weights : IsArray 32 r.weights_hash
  pub tokenizer : IsArray 32 r.tokenizer_hash
  pub prompt : IsArray 32 r.system_prompt_hash
  pub sampling : IsSampling r.sampling_params
  pub runtime : IsArray 32 r.runtime_version
  pub config : IsConfig r.inference_config
  pub manifest : IsArray 32 r.input_manifest_root

sampling-injective :
    (p q : SamplingParams)
    → IsSampling p
    → IsSampling q
    → sampling_bytes p ≡ sampling_bytes q
    → p ≡ q
unfolding sampling_bytes
sampling-injective p q v w h =
    let (t, h₁) = word_split 4 p.temperature q.temperature h in
    let (k, h₂) = word_split 4 p.top_k q.top_k h₁ in
    let (o, s) = word_split 4 p.top_p q.top_p h₂ in
    λ i. record {
      temperature =
          le_bytes-injective 4 p.temperature q.temperature v.temperature w.temperature t i;
      top_k = le_bytes-injective 4 p.top_k q.top_k v.top_k w.top_k k i;
      top_p = le_bytes-injective 4 p.top_p q.top_p v.top_p w.top_p o i;
      seed = le_bytes-injective 8 p.seed q.seed v.seed w.seed s i;
    }

length-sampling_bytes : (p : SamplingParams) → length (sampling_bytes p) ≡ 20
unfolding sampling_bytes le_bytes
length-sampling_bytes p = refl

config-injective :
    (c d : InferenceConfig) → IsConfig c → IsConfig d → config_bytes c ≡ config_bytes d → c ≡ d
unfolding config_bytes
config-injective c d v w h =
    let (t, h₁) = word_split 4 c.max_tokens d.max_tokens h in
    let (s, p) = array_split c.stop_sequences_root d.stop_sequences_root v.stop w.stop h₁ in
    λ i. record {
      max_tokens = le_bytes-injective 4 c.max_tokens d.max_tokens v.max_tokens w.max_tokens t i;
      stop_sequences_root = s i;
      penalty_params_root = p i;
    }

length-config_bytes : (c : InferenceConfig) → IsConfig c → length (config_bytes c) ≡ 68
unfolding config_bytes
length-config_bytes c v = omega (
  arith,
  length-append (le_bytes 4 c.max_tokens) (c.stop_sequences_root ++ c.penalty_params_root),
  length-append c.stop_sequences_root c.penalty_params_root,
  length-le_bytes 4 c.max_tokens,
  v.stop.size,
  v.penalty.size,
)

-- No encoding of an attention kernel is the beginning of another one.
pub attention-prefix_free :
    (a b : AttentionImpl) {us vs : Bytes}
    → attention_bytes a ++ us ≡ attention_bytes b ++ vs
    → (a ≡ b) × (us ≡ vs)
unfolding attention_bytes
attention-prefix_free flash_attention2 flash_attention2 h = ground arith
attention-prefix_free flash_attention2 sdpa h = ground arith
attention-prefix_free flash_attention2 flex_attention h = ground arith
attention-prefix_free flash_attention2 (other t) h = ground arith
attention-prefix_free sdpa flash_attention2 h = ground arith
attention-prefix_free sdpa sdpa h = ground arith
attention-prefix_free sdpa flex_attention h = ground arith
attention-prefix_free sdpa (other t) h = ground arith
attention-prefix_free flex_attention flash_attention2 h = ground arith
attention-prefix_free flex_attention sdpa h = ground arith
attention-prefix_free flex_attention flex_attention h = ground arith
attention-prefix_free flex_attention (other t) h = ground arith
attention-prefix_free (other t) flash_attention2 h = ground arith
attention-prefix_free (other t) sdpa h = ground arith
attention-prefix_free (other t) flex_attention h = ground arith
attention-prefix_free (other t) (other u) h = ground arith

discriminant-injective : (p q : PrecisionMode) → discriminant p ≡ discriminant q → p ≡ q
unfolding discriminant
discriminant-injective p q h = ground arith

kv_cache-injective : (a b : Option Hash32) → kv_cache_bytes a ≡ kv_cache_bytes b → a ≡ b
unfolding kv_cache_bytes
kv_cache-injective none none h = refl
kv_cache-injective none (some b) h = ground arith
kv_cache-injective (some a) none h = ground arith
kv_cache-injective (some a) (some b) h = ground arith

-- Two context roots with one preimage are equal in every field.
pub preimage-injective :
    (r s : ExecutionContextRoot) → IsContext r → IsContext s → preimage r ≡ preimage s → r ≡ s
unfolding preimage
preimage-injective r s v w h =
    let (e₁, h₁) = array_split r.weights_hash s.weights_hash v.weights w.weights h in
    let (e₂, h₂) = array_split r.tokenizer_hash s.tokenizer_hash v.tokenizer w.tokenizer h₁ in
    let (e₃, h₃) = array_split r.system_prompt_hash s.system_prompt_hash v.prompt w.prompt h₂ in
    let (b₄, h₄) =
      append_split (sampling_bytes r.sampling_params) (sampling_bytes s.sampling_params)
        (length-sampling_bytes r.sampling_params ∙ sym (length-sampling_bytes s.sampling_params))
        h₃ in
    let (e₅, h₅) = array_split r.runtime_version s.runtime_version v.runtime w.runtime h₄ in
    let (e₆, h₆) = attention-prefix_free r.attention_impl_id s.attention_impl_id h₅ in
    let (b₇, h₇) =
      append_split (discriminant r.precision_mode ∷ config_bytes r.inference_config)
        (discriminant s.precision_mode ∷ config_bytes s.inference_config)
        (omega (
          arith,
          length-config_bytes r.inference_config v.config,
          length-config_bytes s.inference_config w.config,
        ))
        h₆ in
    let (e₉, b₀) =
      array_split r.input_manifest_root s.input_manifest_root v.manifest w.manifest h₇ in
    let e₄ = sampling-injective r.sampling_params s.sampling_params v.sampling w.sampling b₄ in
    let e₇ = discriminant-injective r.precision_mode s.precision_mode (cc) in
    let e₈ = config-injective r.inference_config s.inference_config v.config w.config (cc) in
    λ i. record {
      weights_hash = e₁ i;
      tokenizer_hash = e₂ i;
      system_prompt_hash = e₃ i;
      sampling_params = e₄ i;
      runtime_version = e₅ i;
      attention_impl_id = e₆ i;
      precision_mode = e₇ i;
      inference_config = e₈ i;
      input_manifest_root = e₉ i;
      kv_cache_root = kv_cache-injective r.kv_cache_root s.kv_cache_root b₀ i;
    }
