-- ===== src/Orchestrator/Binding.antt =====
-- examples/multi_agent_orchestrator.rs: what the root of a step and the hash of a chain bind, up to a
-- collision of SHA-256.
use proof_of_context_impl.Prelude.{
  ◌<◌, ◌≡◌, ◌≢◌, refl, ap, sym, ◌⊎◌, inl, inr, List, [], ◌∷◌, ◌++◌, map, All, arith, after_prefix,
  both,
}
use proof_of_context_impl.Prelude.Bytes.{Bytes, text, IsArray}
use proof_of_context_impl.Prelude.Word.{u64_mod, array_split}
use proof_of_context_impl.Prelude.Decimal.{debug_list}
use proof_of_context_impl.Prelude.Decimal.Laws.{AreBytes, debug_list-injective}
use proof_of_context_impl.Crypto.{Crypto, IsCrypto, CollisionAmong}
use proof_of_context_impl.Anchor.{TripleAnchor}
use proof_of_context_impl.Context.{Hash32, preimage, merkle_root}
use proof_of_context_impl.Context.Encoding.{IsContext}
use proof_of_context_impl.Context.Binding.{equal_or_collide, contexts_or_collide}
use proof_of_context_impl.Commitment.{FreshnessCommitment, signing_preimage, signing_digest}
use proof_of_context_impl.Commitment.Binding.{IsCommitment, commitments_or_collide}
use proof_of_context_impl.Orchestrator.{AgentTask}
use proof_of_context_impl.Orchestrator.Steps.{build_step_root, signing_digests, compute_chain_hash}

-- The ranges of the fields: a u64 and bytes.
pub record IsTask (t : AgentTask) : Type 0 where
  pub id_range : t.task_id < u64_mod
  pub input_bytes : AreBytes t.input

nil-ne-array : (xs us : Bytes) → IsArray 32 xs → [] ≢ xs ++ us
nil-ne-array [] us v h = absurd (omega (arith, v.size))
nil-ne-array (x ∷ xs) us v h = cc

-- What a digest signs.
abbrev pub signed : FreshnessCommitment → Hash32 × TripleAnchor × Hash32
signed c = (c.context_root, c.anchor, c.output_hash)

-- The inputs hashed for a step are named.
pub record HashesStep (crypto : Crypto) (Hashed : Bytes → Type 0) (id : Bytes) (t : AgentTask)
    : Type 0 where
  pub label : Hashed (text "agent:" ++ id)
  pub shown_input : Hashed (text "input:" ++ debug_list t.input)
  pub context : Hashed (preimage (build_step_root crypto id t []))

-- What a digest is made of.
abbrev pub to_sign : FreshnessCommitment → Bytes
to_sign c = signing_preimage c.context_root c.anchor c.output_hash

module _ (crypto : Crypto) (laws : IsCrypto crypto) (Hashed : Bytes → Type 0) where
  build_step_root-IsContext :
      (id : Bytes) (t : AgentTask) (out : Bytes)
      → IsTask t
      → IsContext (build_step_root crypto id t out)
  unfolding build_step_root
  build_step_root-IsContext id t out v = record {
    weights = laws.digest_size _;
    tokenizer = laws.digest_size _;
    prompt = laws.digest_size _;
    sampling = record {
      temperature = omega arith;
      top_k = omega arith;
      top_p = omega arith;
      seed = v.id_range;
    };
    runtime = laws.digest_size _;
    config = record {
      max_tokens = omega arith;
      stop = laws.digest_size _;
      penalty = laws.digest_size _;
    };
    manifest = laws.digest_size _;
  }

  step_fields :
      (id id' : Bytes) (t u : AgentTask)
      → IsTask t
      → IsTask u
      → HashesStep crypto Hashed id t
      → HashesStep crypto Hashed id' u
      → build_step_root crypto id t [] ≡ build_step_root crypto id' u []
      → ((id ≡ id') × (t ≡ u)) ⊎ CollisionAmong crypto Hashed
  unfolding build_step_root
  step_fields id id' t u v w p q e =
      both (equal_or_collide crypto Hashed p.label q.label (ap (λ r. r.weights_hash) e))
        (equal_or_collide crypto Hashed p.shown_input q.shown_input
          (ap (λ r. r.input_manifest_root) e))
        (λ labels inputs.
          let same_input =
            debug_list-injective t.input u.input v.input_bytes w.input_bytes
              (after_prefix (text "input:") inputs) in
          let same_task : t.task_id ≡ u.task_id = ap (λ r. r.sampling_params.seed) e in
          (
            after_prefix (text "agent:") labels,
            λ i. record { task_id = same_task i; input = same_input i },
          ))

  -- Two steps with one root are of agents with one identity, on the same task and input.
  pub build_step_root-binds :
      (id id' : Bytes) (t u : AgentTask)
      → IsTask t
      → IsTask u
      → HashesStep crypto Hashed id t
      → HashesStep crypto Hashed id' u
      → merkle_root crypto (build_step_root crypto id t [])
        ≡ merkle_root crypto (build_step_root crypto id' u [])
      → ((id ≡ id') × (t ≡ u)) ⊎ CollisionAmong crypto Hashed
  build_step_root-binds id id' t u v w p q h =
      elim (contexts_or_collide crypto Hashed (build_step_root crypto id t [])
        (build_step_root crypto id' u []) (build_step_root-IsContext id t [] v)
        (build_step_root-IsContext id' u [] w) p.context q.context h) [
          | inl e ↦ step_fields id id' t u v w p q e
          | inr c ↦ inr c
        ]

  signing_digests-binds :
      (cs ds : List FreshnessCommitment)
      → All IsCommitment cs
      → All IsCommitment ds
      → All (λ c. Hashed (to_sign c)) cs
      → All (λ d. Hashed (to_sign d)) ds
      → signing_digests crypto cs ≡ signing_digests crypto ds
      → (map signed cs ≡ map signed ds) ⊎ CollisionAmong crypto Hashed
  unfolding signing_digests signing_digest
  signing_digests-binds [] [] vc vd pc pd h = inl refl
  signing_digests-binds [] (d ∷ ds) vc vd pc pd h =
      absurd
        (nil-ne-array (signing_digest crypto d) (signing_digests crypto ds) (laws.digest_size _) h)
  signing_digests-binds (c ∷ cs) [] vc vd pc pd h = absurd (
      nil-ne-array (signing_digest crypto c) (signing_digests crypto cs) (laws.digest_size _)
        (sym h))
  signing_digests-binds (c ∷ cs) (d ∷ ds) vc vd pc pd h =
      let (first, rest) =
        array_split (signing_digest crypto c) (signing_digest crypto d) (laws.digest_size _)
          (laws.digest_size _) h in
      both (commitments_or_collide crypto Hashed c d vc.0 vd.0 pc.0 pd.0 first)
        (signing_digests-binds cs ds vc.1 vd.1 pc.1 pd.1 rest) (λ e es. cc (e.0, e.1, e.2, es))

  -- Two chains of commitments with one hash hold, in order, the same roots, anchors and outputs.
  pub compute_chain_hash-binds :
      (cs ds : List FreshnessCommitment)
      → All IsCommitment cs
      → All IsCommitment ds
      → All (λ c. Hashed (to_sign c)) cs
      → All (λ d. Hashed (to_sign d)) ds
      → Hashed (text "orchestration-chain-v1" ++ signing_digests crypto cs)
      → Hashed (text "orchestration-chain-v1" ++ signing_digests crypto ds)
      → compute_chain_hash crypto cs ≡ compute_chain_hash crypto ds
      → (map signed cs ≡ map signed ds) ⊎ CollisionAmong crypto Hashed
  unfolding compute_chain_hash
  compute_chain_hash-binds cs ds vc vd pc pd p q h = elim (equal_or_collide crypto Hashed p q h) [
    | inl e ↦
        signing_digests-binds cs ds vc vd pc pd (after_prefix (text "orchestration-chain-v1") e)
    | inr k ↦ inr k
  ]
