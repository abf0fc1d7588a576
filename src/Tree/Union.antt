-- ===== src/Tree/Union.antt =====
-- `sortedUnion` of tree.ts.
use ramose.Base.{
  ◌≡◌, ◌↔◌, ◌⊎◌, inl, inr, refl, sym, subst, List, [], ◌∷◌, All, arith, Ordering, Ordering-cases,
}
use ramose.Base.Order.{IsWeakOrder}
use ramose.Base.Sorted.{In, IsSorted, All-lt_trans}
use ramose.Tree.{sorted_union}

module _ {A : Type 0} (c : A → A → Ordering) (a : A) (as' : List A) (b : A) (bs : List A) where
  pub union_lt :
      c a b ≡ Ordering.lt → sorted_union c (a ∷ as') (b ∷ bs) ≡ a ∷ sorted_union c as' (b ∷ bs)
  unfolding sorted_union
  union_lt e = rw (e, sorted_union)

  pub union_gt :
      c a b ≡ Ordering.gt → sorted_union c (a ∷ as') (b ∷ bs) ≡ b ∷ sorted_union c (a ∷ as') bs
  unfolding sorted_union
  union_gt e = rw (e, sorted_union)

  pub union_eq : c a b ≡ Ordering.eq → sorted_union c (a ∷ as') (b ∷ bs) ≡ a ∷ sorted_union c as' bs
  unfolding sorted_union
  union_eq e = rw (e, sorted_union)

module _ {A : Type 0} (c : A → A → Ordering) where
  pub union-nil : (as' : List A) → sorted_union c as' [] ≡ as'
  unfolding sorted_union
  union-nil [] = refl
  union-nil (a ∷ as') = refl

  pub nil-union : (bs : List A) → sorted_union c [] bs ≡ bs
  unfolding sorted_union
  nil-union bs = refl

  pub All-union :
      (P : A → Type 0) (as' bs : List A) → All P as' → All P bs → All P (sorted_union c as' bs)
  All-union P [] bs h k = rw (nil-union bs) k
  All-union P (a ∷ as') [] h k = rw (union-nil (a ∷ as')) h
  All-union P (a ∷ as') (b ∷ bs) h k = elim (Ordering-cases (c a b)) [
    | inl e ↦ rw (union_lt c a as' b bs e) (h.0, All-union P as' (b ∷ bs) h.1 k)
    | inr (inl e) ↦ rw (union_eq c a as' b bs e) (h.0, All-union P as' bs h.1 k.1)
    | inr (inr e) ↦ rw (union_gt c a as' b bs e) (k.0, All-union P (a ∷ as') bs h k.1)
  ]

  pub In-union_of : (x : A) (as' bs : List A) → In x (sorted_union c as' bs) → In x as' ⊎ In x bs
  In-union_of x [] bs m = inr (subst (In x) (nil-union bs) m)
  In-union_of x (a ∷ as') [] m = inl (subst (In x) (union-nil (a ∷ as')) m)
  In-union_of x (a ∷ as') (b ∷ bs) m = elim (Ordering-cases (c a b)) [
    | inl e ↦ elim (subst (In x) (union_lt c a as' b bs e) m) [
      | inl p ↦ inl (inl p)
      | inr q ↦ grind (arith, In-union_of x as' (b ∷ bs) q)
    ]
    | inr (inl e) ↦ elim (subst (In x) (union_eq c a as' b bs e) m) [
      | inl p ↦ inl (inl p)
      | inr q ↦ grind (arith, In-union_of x as' bs q)
    ]
    | inr (inr e) ↦ elim (subst (In x) (union_gt c a as' b bs e) m) [
      | inl p ↦ inr (inl p)
      | inr q ↦ grind (arith, In-union_of x (a ∷ as') bs q)
    ]
  ]

module _ {A : Type 0} {c : A → A → Ordering} (o : IsWeakOrder c)
    (tie : (x y : A) → c x y ≡ Ordering.eq → x ≡ y) where
  pub In-union : (x : A) (as' bs : List A) → In x as' ⊎ In x bs → In x (sorted_union c as' bs)
  In-union x [] bs m = rw (nil-union c bs) (elim m [ inl u ↦ absurd u | inr u ↦ u ])
  In-union x (a ∷ as') [] m = rw (union-nil c (a ∷ as')) (elim m [ inl u ↦ u | inr u ↦ absurd u ])
  In-union x (a ∷ as') (b ∷ bs) m = elim (Ordering-cases (c a b)) [
    | inl e ↦ rw (union_lt c a as' b bs e) (grind (arith, In-union x as' (b ∷ bs)))
    | inr (inl e) ↦
        let p : a ≡ b = tie a b e in rw (union_eq c a as' b bs e) (grind (arith, In-union x as' bs))
    | inr (inr e) ↦ rw (union_gt c a as' b bs e) (grind (arith, In-union x (a ∷ as') bs))
  ]

  pub union-IsSorted :
      (as' bs : List A) → IsSorted c as' → IsSorted c bs → IsSorted c (sorted_union c as' bs)
  union-IsSorted [] bs sa sb = rw (nil-union c bs) sb
  union-IsSorted (a ∷ as') [] sa sb = rw (union-nil c (a ∷ as')) sa
  union-IsSorted (a ∷ as') (b ∷ bs) sa sb = elim (Ordering-cases (c a b)) [
    | inl e ↦ rw (union_lt c a as' b bs e) (
      All-union c (λ y. c a y ≡ Ordering.lt) as' (b ∷ bs) sa.0 (e, All-lt_trans o a b bs e sb.0),
      union-IsSorted as' (b ∷ bs) sa.1 sb,
    )
    | inr (inl e) ↦ rw (union_eq c a as' b bs e) (
      All-union c (λ y. c a y ≡ Ordering.lt) as' bs sa.0
          (subst (λ z. All (λ y. c z y ≡ Ordering.lt) bs) (sym (tie a b e)) sb.0),
      union-IsSorted as' bs sa.1 sb.1,
    )
    | inr (inr e) ↦
        let q : c b a ≡ Ordering.lt = ground (arith, o.swap a b) in
        rw (union_gt c a as' b bs e) (
          All-union c (λ y. c b y ≡ Ordering.lt) (a ∷ as') bs (q, All-lt_trans o b a as' q sa.0)
              sb.0,
          union-IsSorted (a ∷ as') bs sa sb.1,
        )
  ]

  -- For a consistent order in which only equal elements tie, `sortedUnion` of two strictly sorted
  -- lists is strictly sorted and has exactly the members of both.
  pub sorted_union_lem :
      (as' bs : List A)
      → IsSorted c as'
      → IsSorted c bs
      → IsSorted c (sorted_union c as' bs)
        × ((x : A) → In x (sorted_union c as' bs) ↔ (In x as' ⊎ In x bs))
  sorted_union_lem as' bs s t =
      (union-IsSorted as' bs s t, λ x. (In-union_of c x as' bs, In-union x as' bs))
