-- ===== src/ByteArray/Laws.antt =====
-- src/backing.rs: when a byte array is read, and what is left behind it.
use proof_of_context_impl.Prelude.{ℕ, zero, suc, ◌≡◌, ◌↔◌, refl, ap, [], ◌∷◌, ◌++◌, length, arith}
use proof_of_context_impl.Prelude.Bytes.{Bytes}
use proof_of_context_impl.Error.{Result, ok, err, ok-injective}
use proof_of_context_impl.ByteArray.{visit_bytes, visit_seq, push, next_of_list}

push-eq-ok :
    (b : ℕ) (r : Result Bytes Bytes × Bytes) (bs rest : Bytes)
    → push b r ≡ (ok bs, rest)
    → (cs : Bytes) × (r ≡ (ok cs, rest)) × (b ∷ cs ≡ bs)
push-eq-ok b (ok cs, s) bs rest h =
    let whole : b ∷ cs ≡ bs = ok-injective (ap (λ p. p.0) h) in
    (cs, ap (λ p. (ok cs, p.1)) h, whole)
push-eq-ok b (err e, s) bs rest h = absurd (cc (ap (λ p. p.0) h))

visited :
    (size : ℕ) (xs bs rest : Bytes)
    → visit_seq size next_of_list xs ≡ (ok bs, rest)
    → (length bs ≡ size) × (xs ≡ bs ++ rest)
unfolding visit_seq
visited zero xs bs rest h =
    let none_left : [] ≡ bs = ok-injective (ap (λ p. p.0) h) in
    let all_left : xs ≡ rest = ap (λ p. p.1) h in rw (← none_left) (refl, all_left)
visited (suc size) [] bs rest h = absurd (cc (ap (λ p. p.0) h))
visited (suc size) (x ∷ xs) bs rest h =
    let (cs, run, whole) = push-eq-ok x (visit_seq size next_of_list xs) bs rest h in
    let (sized, split) = visited size xs cs rest run in
    rw (← whole) (ap suc sized, ap (λ t. x ∷ t) split)

visits : (bs rest : Bytes) → visit_seq (length bs) next_of_list (bs ++ rest) ≡ (ok bs, rest)
unfolding visit_seq
visits [] rest = refl
visits (b ∷ bs) rest = rw (visits bs rest) refl

-- From bytes an array is read exactly when they are as many as it has, and then it is these bytes;
-- from a sequence exactly when that has at least as many elements, and then it is the first ones and
-- the others are left.
pub visit-array_iff :
    (size : ℕ) (xs bs rest : Bytes)
    → ((visit_bytes size xs ≡ ok bs) ↔ ((xs ≡ bs) × (length bs ≡ size)))
      × ((visit_seq size next_of_list xs ≡ (ok bs, rest))
          ↔ ((length bs ≡ size) × (xs ≡ bs ++ rest)))
unfolding visit_bytes
visit-array_iff size xs bs rest = (
  (
    λ h.
        let (same, sized) : (xs ≡ bs) × (length xs ≡ size) = ground arith in
        (same, rw (← same) sized),
    λ h. let sized : length xs ≡ size = rw h.0 h.1 in ground arith,
  ),
  (visited size xs bs rest, λ h. rw (← h.0, h.1) (visits bs rest)),
)
