-- ===== src/Freshness/Listing.antt =====
-- Lists of freshness types, as the gates report them.
use proof_of_context_impl.Prelude.{◌≡◌, ◌↔◌, refl, Bool, true, false, ◌||◌, List, [], ◌∷◌}
use proof_of_context_impl.Freshness.{FreshnessType, computational, model, input, settlement}

abbrev pub same_type : FreshnessType → FreshnessType → Bool
same_type computational computational = true
same_type model model = true
same_type input input = true
same_type settlement settlement = true
same_type _ _ = false

abbrev pub lists : FreshnessType → List FreshnessType → Bool
lists f [] = false
lists f (v ∷ vs) = same_type f v || lists f vs

-- A test that decides the negation.
pub not-true_iff {ℓ} : {P : Type ℓ} (b : Bool) → (b ≡ false) ↔ P → (b ≡ true) ↔ (¬ P)
not-true_iff true e = (λ _ p. cc (e.1 p), λ _. refl)
not-true_iff false e = (λ h. absurd (cc), λ n. absurd (n (e.0 refl)))
