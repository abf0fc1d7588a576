-- ===== src/Novelty/View/Parts.antt =====
-- The loops of `currentView` over two lists in a row, and over a plain slice.
use ramose.Base.{
  ℕ, ◌≡◌, ◌⊎◌, ◌∙◌, refl, sym, ap, subst, inl, inr, true, Option, some, List, [], ◌∷◌, ◌++◌,
  append_assoc, append-nil, Bool-cases, concat, append-cons,
}
use ramose.Base.Sorted.{In}
use ramose.Datom.{Datom}
use ramose.Novelty.Collapse.{visible, plain_after, emit, continues, collapse_loop, collapse_from}
use ramose.Novelty.Steps.{collapse_new, plain_parts, loop_skip, loop_cont, loop_new}
use ramose.Novelty.View.{split_last, yield_some}

pub split_last-append :
    (d : Datom) (ds : List Datom) → (split_last d ds).0 ++ (split_last d ds).1 ∷ [] ≡ d ∷ ds
unfolding split_last
split_last-append d [] = refl
split_last-append d (x ∷ ds) = ap (λ (l : List Datom). d ∷ l) (split_last-append x ds)

pub split_last-run :
    (d : Datom) (ds ys : List Datom)
    → (d ∷ ds) ++ ys ≡ (split_last d ds).0 ++ (split_last d ds).1 ∷ ys
split_last-run d ds ys =
    ap (λ l. l ++ ys) (sym (split_last-append d ds))
    ∙ append-cons (split_last d ds).0 ys (split_last d ds).1

pub concat-yield : (ds : List Datom) → concat (yield_some ds) ≡ ds
unfolding yield_some
concat-yield [] = refl
concat-yield (d ∷ ds) = append-nil (d ∷ ds)

pub In-split_last : (d : Datom) (ds : List Datom) → In (split_last d ds).1 (d ∷ ds)
unfolding split_last
In-split_last d [] = inl refl
In-split_last d (x ∷ ds) = inr (In-split_last x ds)

module _ (as_of : Option ℕ) where
  from_loop :
      (p : Option Datom) (xs : List Datom) (r : List Datom × Option Datom)
      → collapse_loop as_of p xs ≡ r
      → collapse_from as_of p xs ≡ r.0 ++ emit r.1
  unfolding collapse_from
  from_loop p xs r e = ap (λ (r : List Datom × Option Datom). r.0 ++ emit r.1) e

  emit_first :
      (es : List Datom) (p : Option Datom) (xs : List Datom)
      → (es ++ (collapse_loop as_of p xs).0) ++ emit (collapse_loop as_of p xs).1
        ≡ es ++ collapse_from as_of p xs
  unfolding collapse_from
  emit_first es p xs =
      append_assoc es (collapse_loop as_of p xs).0 (emit (collapse_loop as_of p xs).1)

  -- The loop over two lists in a row.
  pub collapse_from-append :
      (p : Option Datom) (xs ys : List Datom)
      → collapse_from as_of p (xs ++ ys)
        ≡ (collapse_loop as_of p xs).0 ++ collapse_from as_of (collapse_loop as_of p xs).1 ys
  unfolding collapse_from
  collapse_from-append p [] ys = unfold collapse_loop in refl
  collapse_from-append p (x ∷ xs) ys = elim (Bool-cases (visible as_of x)) [
    | inr v ↦ rw (loop_skip as_of p x xs v) (
        from_loop p (x ∷ xs ++ ys) _ (loop_skip as_of p x (xs ++ ys) v)
        ∙ collapse_from-append p xs ys)
    | inl v ↦ elim (Bool-cases (continues p x)) [
      | inl e ↦ rw (loop_cont as_of p x xs v e) (
          from_loop p (x ∷ xs ++ ys) _ (loop_cont as_of p x (xs ++ ys) v e)
          ∙ collapse_from-append (some x) xs ys)
      | inr e ↦
          let r = collapse_loop as_of (some x) xs in
          rw (loop_new as_of p x xs v e) (
            from_loop p (x ∷ xs ++ ys) _ (loop_new as_of p x (xs ++ ys) v e)
            ∙ (emit_first (emit p) (some x) (xs ++ ys)
                ∙ (ap (λ l. emit p ++ l) (collapse_from-append (some x) xs ys)
                    ∙ sym (append_assoc (emit p) r.0 (collapse_from as_of r.1 ys)))))
    ]
  ]

  pub plain_run :
      (p : Datom) (xs ys : List Datom)
      → p.op ≡ true
      → plain_after as_of p xs ≡ true
      → collapse_from as_of (some p) (xs ++ ys)
        ≡ (split_last p xs).0 ++ collapse_from as_of (some (split_last p xs).1) ys
  unfolding split_last
  plain_run p [] ys op h = refl
  plain_run p (x ∷ xs) ys op h =
      let f = plain_parts as_of p x xs h in
      collapse_new as_of p x (xs ++ ys) f.1 f.2
      ∙ (ap (λ l. emit (some p) ++ l) (plain_run x xs ys f.0 f.3) ∙ (unfold emit in rw op))

  pub plain_last_op :
      (p : Datom) (xs : List Datom)
      → p.op ≡ true
      → plain_after as_of p xs ≡ true
      → (split_last p xs).1.op ≡ true
  unfolding split_last
  plain_last_op p [] op h = op
  plain_last_op p (x ∷ xs) op h = let f = plain_parts as_of p x xs h in plain_last_op x xs f.0 f.3

  -- What is pending behind the loop was pending before or is one of the datoms.
  pub loop_pending :
      (p : Option Datom) (xs : List Datom) (q : Datom)
      → (collapse_loop as_of p xs).1 ≡ some q
      → (p ≡ some q) ⊎ In q xs
  loop_pending p [] q h = unfold collapse_loop in inl h
  loop_pending p (x ∷ xs) q h = elim (Bool-cases (visible as_of x)) [
    | inr v ↦ weaken (
        loop_pending p xs q
          (subst (λ (r : List Datom × Option Datom). r.1 ≡ some q) (loop_skip as_of p x xs v) h))
    | inl v ↦ elim (Bool-cases (continues p x)) [
      | inl e ↦ newer (
          loop_pending (some x) xs q (
            subst (λ (r : List Datom × Option Datom). r.1 ≡ some q) (loop_cont as_of p x xs v e) h))
      | inr e ↦ newer (
          loop_pending (some x) xs q
            (subst (λ (r : List Datom × Option Datom). r.1 ≡ some q) (loop_new as_of p x xs v e) h))
    ]
  ]
    where
      weaken : (p ≡ some q) ⊎ In q xs → (p ≡ some q) ⊎ In q (x ∷ xs)
      weaken (inl e) = inl e
      weaken (inr m) = inr (inr m)

      newer : (some x ≡ some q) ⊎ In q xs → (p ≡ some q) ⊎ In q (x ∷ xs)
      newer (inl e) = inr (inl (cc))
      newer (inr m) = inr (inr m)
