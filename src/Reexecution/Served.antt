-- ===== src/Reexecution/Served.antt =====
-- examples/eigencompute_freshness_receipt.rs: a receipt that passes re-execution is for the model and
-- the request that are asked for.
use proof_of_context_impl.Prelude.{
  ◌++◌, ◌≡◌, ap, sym, ◌∙◌, ◌⊎◌, inl, inr, true, arith, after_prefix, both,
}
use proof_of_context_impl.Prelude.Bytes.{Bytes, text, IsArray}
use proof_of_context_impl.Prelude.Word.{array_split}
use proof_of_context_impl.Crypto.{Crypto, IsCrypto, CollisionAmong}
use proof_of_context_impl.Error.{ok}
use proof_of_context_impl.Anchor.{TripleAnchor}
use proof_of_context_impl.Context.{Hash32, preimage}
use proof_of_context_impl.Context.Encoding.{IsContext}
use proof_of_context_impl.Context.Binding.{equal_or_collide, contexts_or_collide}
use proof_of_context_impl.Commitment.{FreshnessCommitment}
use proof_of_context_impl.Mock.Committer.{MockCommitter, commit}
use proof_of_context_impl.Reexecution.{
  MockEigenAiModel, AgentRequest, hash_output, infer, prompt_hash, build_root,
  reexecute_and_compare,
}
use proof_of_context_impl.Reexecution.Cheats.{reexecute_iff, committed}

-- The hashes of a model and of a request's inputs have 32 bytes.
pub record IsModel (m : MockEigenAiModel) : Type 0 where
  pub weights : IsArray 32 m.weights_hash
  pub tokenizer : IsArray 32 m.tokenizer_hash
  pub runtime : IsArray 32 m.runtime_version

abbrev pub IsRequest : AgentRequest → Type 0
IsRequest req = IsArray 32 req.input_manifest_root

-- What is hashed for a receipt of a request: the context of the model that is claimed, the prompt,
-- and what the weights that work make of it.
pub data Hashes (crypto : Crypto) (claimed worker : MockEigenAiModel) (req : AgentRequest)
    : Bytes → Type 0 where
  context : Hashes crypto claimed worker req (preimage (build_root crypto claimed req))
  prompt : Hashes crypto claimed worker req req.system_prompt
  inference :
      Hashes crypto claimed worker req
        (text "mock-eigenai-output-v1" ++ (worker.weights_hash ++ crypto.sha256 req.system_prompt))
  blob : Hashes crypto claimed worker req (
      text "output-blob-v1"
      ++ crypto.sha256 (
          text "mock-eigenai-output-v1"
          ++ (worker.weights_hash ++ crypto.sha256 req.system_prompt)))

-- What is hashed for the receipt, and for its re-execution.
abbrev pub HashesEither :
    Crypto
    → MockEigenAiModel
    → MockEigenAiModel
    → MockEigenAiModel
    → AgentRequest
    → AgentRequest
    → Bytes
    → Type 0
HashesEither crypto model claimed worker req served m =
    Hashes crypto claimed worker served m ⊎ Hashes crypto model model req m

-- The two inputs hashed for an output are named.
abbrev HashesOutput : Crypto → (Bytes → Type 0) → Bytes → Bytes → Type 0
HashesOutput crypto Hashed weights p =
    Hashed (text "mock-eigenai-output-v1" ++ (weights ++ p))
    × Hashed
        (text "output-blob-v1" ++ crypto.sha256 (text "mock-eigenai-output-v1" ++ (weights ++ p)))

module _ (crypto : Crypto) where
  build_root-IsContext :
      (model : MockEigenAiModel) (req : AgentRequest)
      → IsCrypto crypto
      → IsModel model
      → IsRequest req
      → IsContext (build_root crypto model req)
  unfolding build_root
  build_root-IsContext model req laws v w = record {
    weights = v.weights;
    tokenizer = v.tokenizer;
    prompt = laws.digest_size _;
    sampling = record {
      temperature = omega arith;
      top_k = omega arith;
      top_p = omega arith;
      seed = omega arith;
    };
    runtime = v.runtime;
    config = record {
      max_tokens = omega arith;
      stop = laws.digest_size _;
      penalty = laws.digest_size _;
    };
    manifest = w;
  }

  -- Outputs with one hash come from one pair of weights and prompt.
  outputs_or_collide :
      (Hashed : Bytes → Type 0) (model worker : MockEigenAiModel) (p q : Hash32)
      → IsModel model
      → IsModel worker
      → HashesOutput crypto Hashed model.weights_hash p
      → HashesOutput crypto Hashed worker.weights_hash q
      → hash_output crypto (infer crypto model p) ≡ hash_output crypto (infer crypto worker q)
      → ((model.weights_hash ≡ worker.weights_hash) × (p ≡ q)) ⊎ CollisionAmong crypto Hashed
  unfolding hash_output infer
  outputs_or_collide Hashed model worker p q v w x y h =
      elim (equal_or_collide crypto Hashed x.1 y.1 h) [
        | inr k ↦ inr k
        | inl e ↦
            elim (equal_or_collide crypto Hashed x.0 y.0 (after_prefix (text "output-blob-v1") e)) [
              | inr k ↦ inr k
              | inl e' ↦ inl (
                  array_split model.weights_hash worker.weights_hash v.weights w.weights
                    (after_prefix (text "mock-eigenai-output-v1") e'))
            ]
      ]

  root_fields :
      (Hashed : Bytes → Type 0) (model claimed : MockEigenAiModel) (req served : AgentRequest)
      → Hashed served.system_prompt
      → Hashed req.system_prompt
      → build_root crypto claimed served ≡ build_root crypto model req
      → ((claimed ≡ model) × (served ≡ req)) ⊎ CollisionAmong crypto Hashed
  unfolding build_root
  root_fields Hashed model claimed req served p q e =
      elim (equal_or_collide crypto Hashed p q (ap (λ r. r.system_prompt_hash) e)) [
        | inr k ↦ inr k
        | inl asked ↦ inl (
          λ i. record {
            weights_hash = (e i).weights_hash;
            tokenizer_hash = (e i).tokenizer_hash;
            runtime_version = (e i).runtime_version;
          },
          λ i. record { system_prompt = asked i; input_manifest_root = (e i).input_manifest_root },
        )
      ]

  -- A receipt that a committer makes for the output of one model on one request, under the root of
  -- whatever model it claims, passes re-execution against a model and a request only if the claimed
  -- model and the served request are these, and the weights that made the output are those of the
  -- model; or two of the eight inputs hashed for the receipt and for the re-execution collide. So a
  -- substituted model and a changed request are found.
  pub served_is_requested :
      (m : MockCommitter) (a : TripleAnchor) (c : FreshnessCommitment)
      (model claimed worker : MockEigenAiModel) (req served : AgentRequest)
      → IsCrypto crypto
      → IsModel model
      → IsModel claimed
      → IsModel worker
      → IsRequest req
      → IsRequest served
      → commit crypto m
          (build_root crypto claimed served)
          (hash_output crypto (infer crypto worker (prompt_hash crypto served)))
          a
        ≡ ok c
      → reexecute_and_compare crypto model req c ≡ true
      → ((claimed ≡ model) × (served ≡ req) × (worker.weights_hash ≡ model.weights_hash))
        ⊎ CollisionAmong crypto (HashesEither crypto model claimed worker req served)
  served_is_requested m a c model claimed worker req served laws v w u r s made passes =
      let (root, out, _) =
        committed crypto m (build_root crypto claimed served)
          (hash_output crypto (infer crypto worker (prompt_hash crypto served))) a c made in
      let (root', out') = (reexecute_iff crypto model req c).0 passes in
      let Hashed : Bytes → Type 0 = HashesEither crypto model claimed worker req served in
      let binds =
        contexts_or_collide crypto Hashed (build_root crypto claimed served)
          (build_root crypto model req) (build_root-IsContext claimed served laws w s)
          (build_root-IsContext model req laws v r) (inl context) (inr context)
          (sym root ∙ root') in
      let weights =
        outputs_or_collide Hashed worker model (prompt_hash crypto served) (prompt_hash crypto req)
          u v (inl inference, inl blob) (inr inference, inr blob) (sym out ∙ out') in
      elim binds [
        | inr k ↦ inr k
        | inl e ↦
            both (root_fields Hashed model claimed req served (inl prompt) (inr prompt) e) weights
              (λ x y. (x.0, x.1, y.0))
      ]
