-- ===== src/InputFreshness/Manifest.antt =====
-- src/input_freshness.rs: when the manifest root does not depend on the order of presentation.
use Prim.Native.Nat.Ordering.{lt, eq, gt}
use mathlib.Core.List.{Permᴰ, Memᴰ}
use mathlib.Core.List.Permᴰ
use proof_of_context_impl.Prelude.{
  ◌≡◌, refl, ap, ◌∙◌, Bool, true, false, ◌⊎◌, inl, inr, List, [], ◌∷◌, map, arith,
}
use proof_of_context_impl.Prelude.Bytes.{
  Bytes, text, cmp, eq_of_cmp, lt_of_gt, gt_of_lt, cmp_refl, lt_trans,
}
use proof_of_context_impl.Prelude.Sort.{IsOrder, sort_by, sort_by_order, map-sort_by}
use proof_of_context_impl.Crypto.{Crypto}
use proof_of_context_impl.Canonical.{string, object, Items, nil, cons, end, field, Json}
use proof_of_context_impl.InputFreshness.Attestation.{InputAttestation}
use proof_of_context_impl.InputFreshness.Witness.{
  InputFreshnessWitness, descriptor_le, source_values, input_manifest_root,
}

-- What the manifest takes from an attestation.
pub record Descriptor : Type 0 where
  pub endpoint : Bytes
  pub payload_hash : Bytes
  pub source_id : Bytes

abbrev pub descriptor : InputAttestation → Descriptor
descriptor a = record {
  endpoint = a.endpoint;
  payload_hash = a.payload_hash;
  source_id = a.source_id;
}

abbrev le : Descriptor → Descriptor → Bool
le a b = elim (cmp a.endpoint b.endpoint) [
  | lt ↦ true
  | eq ↦ (elim (cmp a.payload_hash b.payload_hash) [ gt ↦ false | _ ↦ true ])
  | gt ↦ false
]

-- The two ways to be below.
abbrev Below : Descriptor → Descriptor → Type 0
Below x y =
    (cmp x.endpoint y.endpoint ≡ lt)
    ⊎ ((x.endpoint ≡ y.endpoint)
        × ((cmp x.payload_hash y.payload_hash ≡ lt) ⊎ (x.payload_hash ≡ y.payload_hash)))

le-Below : (x y : Descriptor) → le x y ≡ true → Below x y
le-Below x y h =
    ground (arith, eq_of_cmp x.endpoint y.endpoint, eq_of_cmp x.payload_hash y.payload_hash)

Below-trans : (x y z : Descriptor) → Below x y → Below y z → le x z ≡ true
Below-trans x y z (inl a) (inl b) = rw (le, lt_trans x.endpoint y.endpoint z.endpoint a b) refl
Below-trans x y z (inl a) (inr b) = rw (le, ← b.0, a) refl
Below-trans x y z (inr a) (inl b) = rw (le, a.0, b) refl
Below-trans x y z (inr (e, inl a)) (inr (f, inl b)) =
    rw (le, e, f, cmp_refl z.endpoint, lt_trans x.payload_hash y.payload_hash z.payload_hash a b)
      refl
Below-trans x y z (inr (e, inl a)) (inr (f, inr b)) =
    rw (le, e, f, cmp_refl z.endpoint, ← b, a) refl
Below-trans x y z (inr (e, inr a)) (inr (f, inl b)) = rw (le, e, f, cmp_refl z.endpoint, a, b) refl
Below-trans x y z (inr (e, inr a)) (inr (f, inr b)) =
    rw (le, e, f, cmp_refl z.endpoint, a, b, cmp_refl z.payload_hash) refl

le_antisym :
    (x y : Descriptor)
    → le x y ≡ true
    → le y x ≡ true
    → (x.endpoint ≡ y.endpoint) × (x.payload_hash ≡ y.payload_hash)
le_antisym x y h k = ground (
  arith,
  eq_of_cmp x.endpoint y.endpoint,
  gt_of_lt x.endpoint y.endpoint,
  cmp_refl y.endpoint,
  eq_of_cmp x.payload_hash y.payload_hash,
  gt_of_lt x.payload_hash y.payload_hash,
)

le-IsOrder : IsOrder le
le-IsOrder = record {
  total = λ x y h. ground (
    arith,
    lt_of_gt x.endpoint y.endpoint,
    eq_of_cmp x.endpoint y.endpoint,
    cmp_refl y.endpoint,
    lt_of_gt x.payload_hash y.payload_hash,
  );
  transitive = λ x y z h k. Below-trans x y z (le-Below x y h) (le-Below y z k);
}

abbrev items : Json → List Descriptor → Items
items json [] = nil
items json (d ∷ ds) =
    cons
      (object (
        field (text "endpoint") (string d.endpoint) (
          field (text "payload_hash") (string (json.hex d.payload_hash))
            (field (text "source_id") (string d.source_id) end))))
      (items json ds)

source_values_lem :
    (json : Json) (xs : List InputAttestation)
    → source_values json xs ≡ items json (map descriptor xs)
source_values_lem json [] = refl
source_values_lem json (x ∷ xs) = rw (source_values_lem json xs) refl

-- If no two sources with the same endpoint and payload hash differ, the root of the manifest is the
-- same in whatever order the attestations are presented.
pub manifest_order :
    (crypto : Crypto) (json : Json) (v w : InputFreshnessWitness)
    → Permᴰ v.attestations w.attestations
    → ((x y : Descriptor)
        → Memᴰ x (map descriptor v.attestations)
        → Memᴰ y (map descriptor v.attestations)
        → x.endpoint ≡ y.endpoint
        → x.payload_hash ≡ y.payload_hash
        → x ≡ y)
    → input_manifest_root crypto json v ≡ input_manifest_root crypto json w
unfolding input_manifest_root
manifest_order crypto json v w p distinct =
    let sorted : (xs : List InputAttestation)
        → source_values json (sort_by descriptor_le xs)
          ≡ items json (sort_by le (map descriptor xs)) =
      λ xs.
        source_values_lem json (sort_by descriptor_le xs)
        ∙ ap (items json) (map-sort_by descriptor descriptor_le le (λ x y. refl) xs) in
    let same =
      sort_by_order le le-IsOrder (Permᴰ.map descriptor p)
        (λ x y m k h i. distinct x y m k (le_antisym x y h i).0 (le_antisym x y h i).1) in
    rw (sorted v.attestations, sorted w.attestations, same) refl
