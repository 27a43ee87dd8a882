-- ===== src/Backing/Gate/Verdict.antt =====
-- src/backing.rs: what the gate decides, entry by entry.
use proof_of_context_impl.Prelude.{
  ℕ, ◌+◌, ◌-◌, ◌≤◌, ◌≡◌, ◌≢◌, ◌↔◌, inl, inr, refl, none, some, List, [], ◌∷◌, arith, All, All-imp,
  Option-cases, ◌⊎◌, ◌∙◌,
}
use proof_of_context_impl.Prelude.Bytes.{Bytes}
use proof_of_context_impl.SortedMap
use proof_of_context_impl.Backing.Set.{BackingEntry, BackingSet, age_secs, iter}
use proof_of_context_impl.Backing.Gate.{
  AgePolicy, StaleEntry, fresh, stale, limit_for, check, stale_entries, gate,
}

-- The limit of a class: what the policy says of it, or the default for a class of which it says
-- nothing. Without a default such a class has no limit.
abbrev pub IsLimit : AgePolicy → Bytes → ℕ → Type 0
IsLimit policy class limit =
    (SortedMap.get class policy.max_age_secs_by_class ≡ some limit)
    ⊎ ((SortedMap.get class policy.max_age_secs_by_class ≡ none)
        × (policy.default_max_age_secs ≡ some limit))

limit_for_iff :
    (policy : AgePolicy) (class : Bytes) (limit : ℕ)
    → (limit_for policy class ≡ some limit) ↔ IsLimit policy class limit
unfolding limit_for
limit_for_iff policy class limit = (
  λ h. elim (Option-cases (SortedMap.get class policy.max_age_secs_by_class)) [
    | inl n ↦ inr (n, rw (limit_for, n) at h)
    | inr (x, e) ↦ inl (e ∙ rw (limit_for, e) at h)
  ],
  λ h. elim h [ inl e ↦ rw (limit_for, e) refl | inr e ↦ rw (limit_for, e.0) e.1 ],
)

-- The class of the entry has a limit, and the entry is no older.
abbrev pub IsCurrent : AgePolicy → ℕ → BackingEntry → Type 0
IsCurrent policy now e =
    (limit : ℕ) × IsLimit policy e.class limit × (now ≤ e.attested_at_secs + limit)

-- The finding for an entry: its age, 0 if it was attested later than now, and its limit if any.
abbrev pub finding : AgePolicy → ℕ → BackingEntry → StaleEntry
finding policy now e = record {
  entry = e;
  age_secs = now - e.attested_at_secs;
  limit_secs = limit_for policy e.class;
}

-- The findings for a list of entries: one for each entry that is not current, in order.
pub data Finds (policy : AgePolicy) (now : ℕ) : List BackingEntry → List StaleEntry → Type 0 where
  done : Finds policy now [] []
  skip :
      {e : BackingEntry} {es : List BackingEntry} {xs : List StaleEntry}
      → IsCurrent policy now e
      → Finds policy now es xs
      → Finds policy now (e ∷ es) xs
  report :
      {e : BackingEntry} {es : List BackingEntry} {xs : List StaleEntry}
      → ¬ IsCurrent policy now e
      → Finds policy now es xs
      → Finds policy now (e ∷ es) (finding policy now e ∷ xs)

check-none_iff :
    (policy : AgePolicy) (now : ℕ) (e : BackingEntry)
    → (check policy now e ≡ none) ↔ IsCurrent policy now e
unfolding check age_secs
check-none_iff policy now e = (
  λ h. elim (Option-cases (limit_for policy e.class)) [
    | inl n ↦ absurd (ground arith)
    | inr (limit, l) ↦ (limit, (limit_for_iff policy e.class limit).0 l, ground arith)
  ],
  λ h. let l = (limit_for_iff policy e.class h.0).1 h.1 in let le = h.2 in ground arith,
)

check-some :
    (policy : AgePolicy) (now : ℕ) (e : BackingEntry) (x : StaleEntry)
    → check policy now e ≡ some x
    → x ≡ finding policy now e
unfolding check age_secs
check-some policy now e x h = ground arith

stale_entries-Finds :
    (policy : AgePolicy) (now : ℕ) (es : List BackingEntry)
    → Finds policy now es (stale_entries policy now es)
unfolding stale_entries
stale_entries-Finds policy now [] = done
stale_entries-Finds policy now (e ∷ es) = elim (Option-cases (check policy now e)) [
  | inl n ↦
      rw (n, stale_entries)
        (skip ((check-none_iff policy now e).0 n) (stale_entries-Finds policy now es))
  | inr (x, s) ↦
      rw (s, check-some policy now e x s, stale_entries)
        (report (λ c. cc (s, (check-none_iff policy now e).1 c))
          (stale_entries-Finds policy now es))
]

no_stale_iff :
    (policy : AgePolicy) (now : ℕ) (es : List BackingEntry)
    → (stale_entries policy now es ≡ []) ↔ All (IsCurrent policy now) es
unfolding stale_entries
no_stale_iff policy now [] = (λ _. tt, λ _. refl)
no_stale_iff policy now (e ∷ es) =
    let head = check-none_iff policy now e in
    let rest = no_stale_iff policy now es in
    (
      λ h.
          let both : (check policy now e ≡ none) × (stale_entries policy now es ≡ []) =
            ground arith in
          (head.0 both.0, rest.0 both.1),
      λ h. rw (head.1 h.0, stale_entries) (rest.1 h.1),
    )

-- The gate answers `fresh` exactly when every entry of the set has a class that the policy knows, or
-- the policy has a default, and is no older than that limit; so an empty set is fresh, and an entry
-- of an unknown class without a default is stale.
pub gate_fresh_iff :
    (s : BackingSet) (policy : AgePolicy) (now : ℕ)
    → (gate s policy now ≡ fresh) ↔ All (IsCurrent policy now) (iter s)
unfolding gate
gate_fresh_iff s policy now =
    let iff = no_stale_iff policy now (iter s) in
    (λ h. iff.0 (ground arith), λ h. rw (iff.1 h, gate))

-- A stale verdict is not empty, and has one finding for each entry that is not current, in source
-- order, with the entry's age and its limit; current entries are not in it.
pub gate_stale_findings :
    (s : BackingSet) (policy : AgePolicy) (now : ℕ) (xs : List StaleEntry)
    → gate s policy now ≡ stale xs
    → (xs ≢ []) × Finds policy now (iter s) xs
unfolding gate
gate_stale_findings s policy now xs h =
    let found : (stale_entries policy now (iter s) ≡ xs) × (xs ≢ []) =
      (ground arith, λ e. ground arith) in
    (found.1, rw found.0 at (stale_entries-Finds policy now (iter s)))

-- Fresh at a later time is fresh at an earlier one: a backing set only ages.
pub gate_ages :
    (s : BackingSet) (policy : AgePolicy) (now later : ℕ)
    → now ≤ later
    → gate s policy later ≡ fresh
    → gate s policy now ≡ fresh
gate_ages s policy now later le h =
    (gate_fresh_iff s policy now).1 (
      All-imp (λ e c. (c.0, c.1, omega (arith, c.2))) (iter s)
        ((gate_fresh_iff s policy later).0 h))
