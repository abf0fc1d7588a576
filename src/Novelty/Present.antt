-- ===== src/Novelty/Present.antt =====
-- `collapseCurrent` keeps exactly the present facts.
use ramose.Base.{
  ℕ, ◌≡◌, ◌∙◌, refl, sym, ap, inl, inr, Bool, true, false, ◌&&◌, ◌||◌, not, Option, none, some,
  List, [], ◌∷◌, ◌++◌, All, arith, Ordering, keep, Bool-cases, if◌then◌else◌,
}
use ramose.Base.Sorted.{IsSorted, All-keep}
use ramose.Datom.{Datom, IndexId, comparator_for}
use ramose.Novelty.Facts.{same_between}
use ramose.Novelty.Steps.{collapse_skip, collapse_cont, collapse_new, collapse_first, plain_parts}
use ramose.Novelty.Collapse.{
  same_fact, visible, plain_after, is_plain, emit, collapse_from, collapse_current,
}

-- Some datom of the list is about the same fact.
unfoldable pub superseded : Datom → List Datom → Bool
superseded d [] = false
superseded d (x ∷ xs) = same_fact d x || superseded d xs

-- The specification: an assertion stands unless a later datom is about the same fact.
unfoldable pub present : List Datom → List Datom
unfolding superseded
present [] = []
present (d ∷ ds) = let rest = present ds in if d.op && not (superseded d ds) then d ∷ rest else rest

present_old : (p : Datom) (xs : List Datom) → superseded p xs ≡ true → present (p ∷ xs) ≡ present xs
unfolding present
present_old p xs h = ground arith

pub present_live :
    (p : Datom) (xs : List Datom)
    → superseded p xs ≡ false
    → present (p ∷ xs) ≡ emit (some p) ++ present xs
unfolding present emit
present_live p xs h = ground arith

superseded_head :
    (p d : Datom) (xs : List Datom) → same_fact p d ≡ true → superseded p (d ∷ xs) ≡ true
unfolding superseded
superseded_head p d xs e = ground arith

module _ (i : IndexId) where
  pub no_later :
      (p d : Datom) (xs : List Datom)
      → comparator_for i p d ≡ Ordering.lt
      → All (λ y. comparator_for i d y ≡ Ordering.lt) xs
      → same_fact p d ≡ false
      → superseded p xs ≡ false
  unfolding superseded
  no_later p d [] h k n = refl
  no_later p d (x ∷ xs) h k n = ground (arith, same_between i p d x h k.0, no_later p d xs h k.1 n)

  pub no_later_head :
      (p d : Datom) (xs : List Datom)
      → comparator_for i p d ≡ Ordering.lt
      → All (λ y. comparator_for i d y ≡ Ordering.lt) xs
      → same_fact p d ≡ false
      → superseded p (d ∷ xs) ≡ false
  unfolding superseded
  no_later_head p d xs h k n = ground (arith, no_later p d xs h k n)

  -- From a pending datom the loop yields the present facts of what is visible.
  pub collapse_from-some :
      (as_of : Option ℕ) (p : Datom) (ds : List Datom)
      → IsSorted (comparator_for i) (p ∷ ds)
      → collapse_from as_of (some p) ds ≡ present (p ∷ keep (visible as_of) ds)
  unfolding keep
  collapse_from-some as_of p [] s = unfold collapse_from emit present superseded in ground arith
  collapse_from-some as_of p (d ∷ ds) s = elim (Bool-cases (visible as_of d)) [
    | inr v ↦
        rw v (collapse_skip as_of (some p) d ds v ∙ collapse_from-some as_of p ds (s.0.1, s.1.1))
    | inl v ↦
        let ih = collapse_from-some as_of d ds s.1 in
        let rest = d ∷ keep (visible as_of) ds in
        rw v (elim (Bool-cases (same_fact p d)) [
          | inl e ↦
              collapse_cont as_of p d ds v e
              ∙ (ih ∙ sym (present_old p rest (superseded_head p d _ e)))
          | inr e ↦
              collapse_new as_of p d ds v e
              ∙ (ap (λ x. emit (some p) ++ x) ih
                  ∙ sym (
                      present_live p rest (
                        no_later_head p d (keep (visible as_of) ds) s.0.0
                          (All-keep (visible as_of) (λ y. comparator_for i d y ≡ Ordering.lt) ds
                            s.1.0)
                          e)))
        ])
  ]

  pub collapse_from-none :
      (as_of : Option ℕ) (ds : List Datom)
      → IsSorted (comparator_for i) ds
      → collapse_from as_of none ds ≡ present (keep (visible as_of) ds)
  unfolding keep
  collapse_from-none as_of [] s = unfold collapse_from emit present in refl
  collapse_from-none as_of (d ∷ ds) s = elim (Bool-cases (visible as_of d)) [
    | inr v ↦ rw v (collapse_skip as_of none d ds v ∙ collapse_from-none as_of ds s.1)
    | inl v ↦ rw v (collapse_first as_of d ds v ∙ collapse_from-some as_of d ds s)
  ]

  -- A plain slice is its own present view.
  plain_after-present :
      (as_of : Option ℕ) (p : Datom) (ds : List Datom)
      → IsSorted (comparator_for i) (p ∷ ds)
      → p.op ≡ true
      → plain_after as_of p ds ≡ true
      → present (p ∷ keep (visible as_of) ds) ≡ p ∷ ds
  unfolding keep
  plain_after-present as_of p [] s op h = unfold present superseded in ground arith
  plain_after-present as_of p (d ∷ ds) s op h =
      let f = plain_parts as_of p d ds h in
      rw f.1 (
        present_live p (d ∷ keep (visible as_of) ds) (
          no_later_head p d (keep (visible as_of) ds) s.0.0
            (All-keep (visible as_of) (λ y. comparator_for i d y ≡ Ordering.lt) ds s.1.0) f.2)
        ∙ (ap (λ x. emit (some p) ++ x) (plain_after-present as_of d ds s.1 f.0 f.3)
            ∙ (unfold emit in rw op)))

  pub plain-present :
      (as_of : Option ℕ) (ds : List Datom)
      → IsSorted (comparator_for i) ds
      → is_plain as_of ds ≡ true
      → present (keep (visible as_of) ds) ≡ ds
  unfolding keep is_plain
  plain-present as_of [] s h = unfold present in refl
  plain-present as_of (d ∷ ds) s h =
      let v : visible as_of d ≡ true = ground arith in
      rw v (plain_after-present as_of d ds s (ground arith) (ground arith))

  -- On a history strictly sorted in the order of some index, `collapseCurrent` returns exactly
  -- the assertions among the datoms visible at `as_of` that no later visible datom of the same
  -- entity, attribute and value supersedes, in order.
  pub collapse_current-present :
      (as_of : Option ℕ) (ds : List Datom)
      → IsSorted (comparator_for i) ds
      → collapse_current as_of ds ≡ present (keep (visible as_of) ds)
  collapse_current-present as_of ds s = elim (Bool-cases (is_plain as_of ds)) [
    | inl e ↦ unfold collapse_current in rw e (sym (plain-present as_of ds s e))
    | inr e ↦ unfold collapse_current in rw e (collapse_from-none as_of ds s)
  ]
