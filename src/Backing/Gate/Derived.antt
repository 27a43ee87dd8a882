-- ===== src/Backing/Gate/Derived.antt =====
-- src/backing.rs: a derivation cannot launder staleness.
use proof_of_context_impl.Prelude.{ℕ, ◌≤◌, ◌≡◌, ◌↔◌, ◌⊎◌, sym, some, arith, inl, inr}
use proof_of_context_impl.Prelude.Bytes.{Bytes}
use proof_of_context_impl.SortedMap.Laws.{values_of_get, get_of_values}
use proof_of_context_impl.Backing.Set.{BackingEntry, BackingSet, union}
use proof_of_context_impl.Backing.Set.Laws.{
  IsValid, get, set-union-IsValid, union_never_rejuvenates, union_invents_nothing,
}
use proof_of_context_impl.Backing.Gate.{AgePolicy, fresh, gate}
use proof_of_context_impl.Backing.Gate.Verdict.{IsCurrent, gate_fresh_iff}

-- The two sets give a source that both have one class.
abbrev pub SameClasses : BackingSet → BackingSet → Type 0
SameClasses a b =
    (k : Bytes) (x y : BackingEntry) → get k a ≡ some x → get k b ≡ some y → x.class ≡ y.class

-- A gate on a well-formed set, source by source.
pub gate_fresh_by_source :
    (s : BackingSet) (policy : AgePolicy) (now : ℕ)
    → IsValid s
    → gate s policy now ≡ fresh
    → (k : Bytes) (e : BackingEntry) → get k s ≡ some e
    → IsCurrent policy now e
gate_fresh_by_source s policy now v h k e found =
    get_of_values (IsCurrent policy now) k s.entries ((gate_fresh_iff s policy now).0 h) found

fresh_of_sources :
    (s : BackingSet) (policy : AgePolicy) (now : ℕ)
    → IsValid s
    → ((k : Bytes) (e : BackingEntry) → get k s ≡ some e → IsCurrent policy now e)
    → gate s policy now ≡ fresh
fresh_of_sources s policy now v h =
    (gate_fresh_iff s policy now).1 (values_of_get (IsCurrent policy now) s.entries v.sorted h)

-- An entry as old as a current one of its class is no evidence against it.
IsCurrent-of_older :
    (policy : AgePolicy) (now : ℕ) (u e : BackingEntry)
    → u.attested_at_secs ≤ e.attested_at_secs
    → u.class ≡ e.class
    → IsCurrent policy now u
    → IsCurrent policy now e
IsCurrent-of_older policy now u e le same c = (c.0, rw (← same) c.1, omega (arith, c.2))

-- The union has a no younger entry of the same class for every source of an operand.
older_in_union :
    (a b : BackingSet) (k : Bytes) (e : BackingEntry)
    → IsValid b
    → SameClasses a b
    → (get k a ≡ some e) ⊎ (get k b ≡ some e)
    → (u : BackingEntry) × (get k (union a b) ≡ some u)
      × (u.attested_at_secs ≤ e.attested_at_secs)
      × (u.class ≡ e.class)
older_in_union a b k e vb same known =
    let (u, found, older) = union_never_rejuvenates k a b e vb known in
    let class : u.class ≡ e.class = elim known [
      | inl at_a ↦ elim (union_invents_nothing k a b u vb found) [
        | inl p ↦ ground arith
        | inr q ↦ sym (same k e u at_a q)
      ]
      | inr at_b ↦ elim (union_invents_nothing k a b u vb found) [
        | inl p ↦ same k u e p at_b
        | inr q ↦ ground arith
      ]
    ] in
    (u, found, older, class)

IsCurrent-in_operand :
    (a b : BackingSet) (policy : AgePolicy) (now : ℕ) (k : Bytes) (e : BackingEntry)
    → IsValid a
    → IsValid b
    → SameClasses a b
    → gate (union a b) policy now ≡ fresh
    → (get k a ≡ some e) ⊎ (get k b ≡ some e)
    → IsCurrent policy now e
IsCurrent-in_operand a b policy now k e va vb same h known =
    let (u, found, older, class) = older_in_union a b k e vb same known in
    IsCurrent-of_older policy now u e older class
      (gate_fresh_by_source (union a b) policy now (set-union-IsValid a b va) h k u found)

-- Where the inputs of a derivation agree on the class of each source that they share, the derived set
-- is fresh exactly when both inputs are: no derivation turns a stale input into a fresh output, and
-- none makes fresh inputs stale.
pub union_fresh_iff :
    (a b : BackingSet) (policy : AgePolicy) (now : ℕ)
    → IsValid a
    → IsValid b
    → SameClasses a b
    → (gate (union a b) policy now ≡ fresh)
      ↔ ((gate a policy now ≡ fresh) × (gate b policy now ≡ fresh))
union_fresh_iff a b policy now va vb same =
    let vu = set-union-IsValid a b va in
    (
      λ h. (
        fresh_of_sources a policy now va
            (λ k e at_a. IsCurrent-in_operand a b policy now k e va vb same h (inl at_a)),
        fresh_of_sources b policy now vb
            (λ k e at_b. IsCurrent-in_operand a b policy now k e va vb same h (inr at_b)),
      ),
      λ h. fresh_of_sources (union a b) policy now vu λ k e found.
          elim (union_invents_nothing k a b e vb found) [
            | inl at_a ↦ gate_fresh_by_source a policy now va h.0 k e at_a
            | inr at_b ↦ gate_fresh_by_source b policy now vb h.1 k e at_b
          ],
    )
