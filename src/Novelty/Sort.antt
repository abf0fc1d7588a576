-- ===== src/Novelty/Sort.antt =====
-- `p.sort(cmp)` of JavaScript, a stable sort, and the removal of adjacent ties in `flush`.
use ramose.Base.{
  ◌≡◌, ◌≢◌, ◌↔◌, inl, inr, sym, subst, List, [], ◌∷◌, All, All-map, arith, Ordering, Ordering-cases,
}
use ramose.Base.Order.{IsWeakOrder}
use ramose.Base.Sorted.{In, IsSorted, All-lt_trans}

module _ {ℓ} {A : Type ℓ} (c : A → A → Ordering) where
  unfoldable pub insert : A → List A → List A
  insert x [] = x ∷ []
  insert x (y ∷ ys) = elim (c x y) [ Ordering.gt ↦ y ∷ insert x ys | _ ↦ x ∷ y ∷ ys ]

  unfoldable pub sort_by : List A → List A
  unfolding insert
  sort_by [] = []
  sort_by (x ∷ xs) = insert x (sort_by xs)

  -- `cmp(p[i - 1], p[i]) !== 0`, with `prev` for `p[i - 1]`
  unfoldable pub dedup_after : A → List A → List A
  dedup_after prev [] = []
  dedup_after prev (x ∷ xs) =
      let rest = dedup_after x xs in elim (c prev x) [ Ordering.eq ↦ rest | _ ↦ x ∷ rest ]

  unfoldable pub dedup : List A → List A
  unfolding dedup_after
  dedup [] = []
  dedup (x ∷ xs) = x ∷ dedup_after x xs

  -- In order, ties allowed.
  abbrev pub IsOrdered : List A → Type ℓ
  IsOrdered [] = Unit
  IsOrdered (x ∷ xs) = All (λ y. c x y ≢ Ordering.gt) xs × IsOrdered xs

module _ {A : Type 0} {c : A → A → Ordering} (o : IsWeakOrder c) where
  le_trans : (x y z : A) → c x y ≢ Ordering.gt → c y z ≢ Ordering.gt → c x z ≢ Ordering.gt
  le_trans x y z h k =
      ground (arith, o.trans x y z, o.cong x y z, o.cong y z x, o.swap x y, o.swap x z, o.swap y z)

  All-le_trans :
      (x y : A) (xs : List A)
      → c x y ≢ Ordering.gt
      → All (λ z. c y z ≢ Ordering.gt) xs
      → All (λ z. c x z ≢ Ordering.gt) xs
  All-le_trans x y xs h = All-map xs (λ z k. le_trans x y z h k)

  All-insert : (P : A → Type 0) (x : A) (ys : List A) → P x → All P ys → All P (insert c x ys)
  unfolding insert
  All-insert P x [] h k = (h, tt)
  All-insert P x (y ∷ ys) h k = elim (Ordering-cases (c x y)) [
    | inl e ↦ rw (e, insert, All) (h, (k.0, k.1))
    | inr (inl e) ↦ rw (e, insert, All) (h, (k.0, k.1))
    | inr (inr e) ↦ rw (e, insert, All) (k.0, All-insert P x ys h k.1)
  ]

  insert_gt :
      (x y : A) (ys : List A) → c x y ≡ Ordering.gt → insert c x (y ∷ ys) ≡ y ∷ insert c x ys
  unfolding insert
  insert_gt x y ys e = rw (e, insert)

  insert_le : (x y : A) (ys : List A) → c x y ≢ Ordering.gt → insert c x (y ∷ ys) ≡ x ∷ y ∷ ys
  unfolding insert
  insert_le x y ys h = ground arith

  IsOrdered-cons :
      (x y : A) (ys : List A)
      → c x y ≢ Ordering.gt
      → IsOrdered c (y ∷ ys)
      → IsOrdered c (x ∷ y ∷ ys)
  IsOrdered-cons x y ys h s = ((h, All-le_trans x y ys h s.0), s)

  insert-IsOrdered : (x : A) (ys : List A) → IsOrdered c ys → IsOrdered c (insert c x ys)
  insert-IsOrdered x [] s = unfold insert in (tt, tt)
  insert-IsOrdered x (y ∷ ys) s = elim (Ordering-cases (c x y)) [
    | inl e ↦ rw (insert_le x y ys (λ g. cc)) (IsOrdered-cons x y ys (λ g. cc) s)
    | inr (inl e) ↦ rw (insert_le x y ys (λ g. cc)) (IsOrdered-cons x y ys (λ g. cc) s)
    | inr (inr e) ↦ rw (insert_gt x y ys e) (
      All-insert (λ z. c y z ≢ Ordering.gt) x ys (ground (arith, o.swap x y)) s.0,
      insert-IsOrdered x ys s.1,
    )
  ]

  pub sort-IsOrdered : (xs : List A) → IsOrdered c (sort_by c xs)
  unfolding sort_by
  sort-IsOrdered [] = tt
  sort-IsOrdered (x ∷ xs) = insert-IsOrdered x (sort_by c xs) (sort-IsOrdered xs)

  In-insert : (z x : A) (ys : List A) → In z (insert c x ys) ↔ In z (x ∷ ys)
  In-insert z x [] = unfold insert in (λ m. m, λ m. m)
  In-insert z x (y ∷ ys) = elim (Ordering-cases (c x y)) [
    | inl e ↦ rw (insert_le x y ys (λ g. cc)) (λ m. m, λ m. m)
    | inr (inl e) ↦ rw (insert_le x y ys (λ g. cc)) (λ m. m, λ m. m)
    | inr (inr e) ↦
        rw (insert_gt x y ys e) (grind (arith, In-insert z x ys), grind (arith, In-insert z x ys))
  ]

  pub In-sort : (z : A) (xs : List A) → In z (sort_by c xs) ↔ In z xs
  unfolding sort_by
  In-sort z [] = (λ m. m, λ m. m)
  In-sort z (x ∷ xs) = (
    grind (arith, In-sort z xs, In-insert z x (sort_by c xs)),
    grind (arith, In-sort z xs, In-insert z x (sort_by c xs)),
  )

module _ {A : Type 0} {c : A → A → Ordering} (o : IsWeakOrder c)
    (tie : (x y : A) → c x y ≡ Ordering.eq → x ≡ y) where
  dedup_eq :
      (p x : A) (xs : List A) → c p x ≡ Ordering.eq → dedup_after c p (x ∷ xs) ≡ dedup_after c x xs
  unfolding dedup_after
  dedup_eq p x xs e = rw (e, dedup_after)

  dedup_ne :
      (p x : A) (xs : List A)
      → c p x ≢ Ordering.eq
      → dedup_after c p (x ∷ xs) ≡ x ∷ dedup_after c x xs
  unfolding dedup_after
  dedup_ne p x xs h = ground arith

  dedup_after-IsSorted :
      (p : A) (xs : List A) → IsOrdered c (p ∷ xs) → IsSorted c (p ∷ dedup_after c p xs)
  dedup_after-IsSorted p [] s = unfold dedup_after in (tt, tt)
  dedup_after-IsSorted p (x ∷ xs) s =
      let r : IsSorted c (x ∷ dedup_after c x xs) = dedup_after-IsSorted x xs s.1 in
      elim (Ordering-cases (c p x)) [
        | inl e ↦
            rw (dedup_ne p x xs (λ g. cc)) ((e, All-lt_trans o p x (dedup_after c x xs) e r.0), r)
        | inr (inl e) ↦
            rw (dedup_eq p x xs e)
              (subst (λ q. IsSorted c (q ∷ dedup_after c x xs)) (sym (tie p x e)) r)
        | inr (inr e) ↦ absurd (s.0.0 e)
      ]

  pub dedup-IsSorted : (xs : List A) → IsOrdered c xs → IsSorted c (dedup c xs)
  unfolding dedup
  dedup-IsSorted [] s = tt
  dedup-IsSorted (x ∷ xs) s = dedup_after-IsSorted x xs s

  In-dedup_after : (z p : A) (xs : List A) → In z (p ∷ dedup_after c p xs) ↔ In z (p ∷ xs)
  In-dedup_after z p [] = unfold dedup_after in (λ m. m, λ m. m)
  In-dedup_after z p (x ∷ xs) = elim (Ordering-cases (c p x)) [
    | inl e ↦
        rw (dedup_ne p x xs (λ g. cc))
          (grind (arith, In-dedup_after z x xs), grind (arith, In-dedup_after z x xs))
    | inr (inl e) ↦
        let q : p ≡ x = tie p x e in
        rw (dedup_eq p x xs e)
          (grind (arith, In-dedup_after z x xs), grind (arith, In-dedup_after z x xs))
    | inr (inr e) ↦
        rw (dedup_ne p x xs (λ g. cc))
          (grind (arith, In-dedup_after z x xs), grind (arith, In-dedup_after z x xs))
  ]

  pub In-dedup : (z : A) (xs : List A) → In z (dedup c xs) ↔ In z xs
  unfolding dedup
  In-dedup z [] = (λ m. m, λ m. m)
  In-dedup z (x ∷ xs) = In-dedup_after z x xs
