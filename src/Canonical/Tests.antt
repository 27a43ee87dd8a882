-- ===== src/Canonical/Tests.antt =====
-- src/canonical.rs: two field orders of one object.
use proof_of_context_impl.Prelude.{◌≡◌, arith}
use proof_of_context_impl.Prelude.Bytes.{Bytes, text, eq_of_cmp}
use proof_of_context_impl.Fixtures.{crypto, json}
use proof_of_context_impl.Canonical.{
  number, object, Fields, field, end, canonical_json, canonical_hash,
}
use proof_of_context_impl.Canonical.Order.{get_field, canonical_order}

abbrev a_then_b : Fields
a_then_b = field (text "a") (number 1) (field (text "b") (number 2) end)

abbrev b_then_a : Fields
b_then_a = field (text "b") (number 2) (field (text "a") (number 1) end)

a_is_not_b : (k : Bytes) → k ≡ text "a" → k ≡ text "b" → ⊥
a_is_not_b k h i = ground arith

same_values : (k : Bytes) → get_field k a_then_b ≡ get_field k b_then_a
same_values k = ground (arith, eq_of_cmp k (text "a"), eq_of_cmp k (text "b"), a_is_not_b k)

canonical_order_example :
    (canonical_json json (object a_then_b) ≡ canonical_json json (object b_then_a))
    × (canonical_hash crypto json (object a_then_b) ≡ canonical_hash crypto json (object b_then_a))
canonical_order_example = canonical_order crypto json a_then_b b_then_a same_values
