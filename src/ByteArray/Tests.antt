-- ===== src/ByteArray/Tests.antt =====
-- src/backing.rs: an array of two bytes, from bytes and from a sequence of three.
use proof_of_context_impl.Prelude.{◌≡◌, ◌↔◌, refl, [], ◌∷◌, ◌++◌, length}
use proof_of_context_impl.Prelude.Bytes.{Bytes, text}
use proof_of_context_impl.Error.{ok, err}
use proof_of_context_impl.ByteArray.{visit_bytes, visit_seq, next_of_list}
use proof_of_context_impl.ByteArray.Laws.{visit-array_iff}

abbrev three : Bytes
three = 7 ∷ 8 ∷ 9 ∷ []

abbrev first_two : Bytes
first_two = 7 ∷ 8 ∷ []

abbrev left : Bytes
left = 9 ∷ []

too_short : visit_seq 3 next_of_list first_two ≡ (err (text "short sequence"), [])
unfolding visit_seq
too_short = refl

visit-array_iff_example :
    ((visit_bytes 2 three ≡ ok first_two) ↔ ((three ≡ first_two) × (length first_two ≡ 2)))
    × ((visit_seq 2 next_of_list three ≡ (ok first_two, left))
        ↔ ((length first_two ≡ 2) × (three ≡ first_two ++ left)))
visit-array_iff_example = visit-array_iff 2 three first_two left
