-- ===== src/Tree/Merge/Pieces.antt =====
-- The union of a sorted list that is cut in two with novelty that is cut at the same place.
use ramose.Base.{
  Bool-cases, ◌≤◌, ◌<◌, ◌≡◌, ◌∙◌, inl, inr, refl, ap, Bool, true, false, List, [], ◌∷◌, ◌++◌, All,
  All-append, arith, length, Ordering, Ordering-cases, take, drop,
}
use ramose.Base.Order.{IsWeakOrder}
use ramose.Base.Sorted.{IsSorted, IsSorted-ext, IsSorted-append, In-append, All-In, All-intro}
use ramose.Tree.{sorted_union}
use ramose.Tree.Union.{
  union-IsSorted, In-union, In-union_of, union-nil, nil-union, union_lt, union_eq, union_gt,
}
use ramose.Tree.Search.{passing, IsPartitioned}

module _ {A : Type 0} (c : A → A → Ordering) where
  abbrev pub IsBelow : List A → List A → Type 0
  IsBelow xs ys = All (λ x. All (λ y. c x y ≡ Ordering.lt) ys) xs

  pub IsSorted-join :
      (xs ys : List A) → IsSorted c xs → IsSorted c ys → IsBelow xs ys → IsSorted c (xs ++ ys)
  IsSorted-join [] ys s t b = t
  IsSorted-join (x ∷ xs) ys s t b =
      (All-append (λ y. c x y ≡ Ordering.lt) xs ys s.0 b.0, IsSorted-join xs ys s.1 t b.1)

  pub length-union : (xs ys : List A) → length xs ≤ length (sorted_union c xs ys)
  length-union [] ys = omega arith
  length-union (x ∷ xs) [] = rw (union-nil c (x ∷ xs)) (omega arith)
  length-union (x ∷ xs) (y ∷ ys) = elim (Ordering-cases (c x y)) [
    | inl e ↦ rw (union_lt c x xs y ys e) (omega (arith, length-union xs (y ∷ ys)))
    | inr (inl e) ↦ rw (union_eq c x xs y ys e) (omega (arith, length-union xs ys))
    | inr (inr e) ↦ rw (union_gt c x xs y ys e) (omega (arith, length-union (x ∷ xs) ys))
  ]

  pub union_some : (xs : List A) (y : A) (ys : List A) → 0 < length (sorted_union c xs (y ∷ ys))
  union_some [] y ys = rw (nil-union c (y ∷ ys)) (omega arith)
  union_some (x ∷ xs) y ys = omega (arith, length-union (x ∷ xs) (y ∷ ys))

  -- A union that is no longer than its first list is that list.
  pub union_same :
      (xs ys : List A) → length (sorted_union c xs ys) ≡ length xs → sorted_union c xs ys ≡ xs
  union_same [] ys h = nil_same (sorted_union c [] ys) h
    where
      nil_same : (zs : List A) → length zs ≡ 0 → zs ≡ []
      nil_same [] k = refl
      nil_same (z ∷ zs) k = absurd (omega (arith, k))
  union_same (x ∷ xs) [] h = union-nil c (x ∷ xs)
  union_same (x ∷ xs) (y ∷ ys) h = elim (Ordering-cases (c x y)) [
    | inl e ↦
        let p = union_lt c x xs y ys e in
        p ∙ ap (λ l. x ∷ l) (union_same xs (y ∷ ys) (omega (arith, ap length p, h)))
    | inr (inl e) ↦
        let p = union_eq c x xs y ys e in
        p ∙ ap (λ l. x ∷ l) (union_same xs ys (omega (arith, ap length p, h)))
    | inr (inr e) ↦
        let p = union_gt c x xs y ys e in
        absurd (omega (arith, ap length p, h, length-union (x ∷ xs) ys))
  ]

module _ {A : Type 0} {c : A → A → Ordering} (o : IsWeakOrder c)
    (tie : (x y : A) → c x y ≡ Ordering.eq → x ≡ y) where
  union-IsBelow :
      (xs ys us vs : List A)
      → IsBelow c xs us
      → IsBelow c xs vs
      → IsBelow c ys us
      → IsBelow c ys vs
      → IsBelow c (sorted_union c xs ys) (sorted_union c us vs)
  union-IsBelow xs ys us vs a b d e =
      All-intro (λ x. All (λ y. c x y ≡ Ordering.lt) (sorted_union c us vs)) (sorted_union c xs ys)
        (λ x m.
          All-intro (λ y. c x y ≡ Ordering.lt) (sorted_union c us vs)
            (λ y n. elim (In-union_of c x xs ys m) [
              | inl p ↦ elim (In-union_of c y us vs n) [
                | inl q ↦
                    All-In (λ z. c x z ≡ Ordering.lt) y us
                      (All-In (λ z. All (λ w. c z w ≡ Ordering.lt) us) x xs a p) q
                | inr q ↦
                    All-In (λ z. c x z ≡ Ordering.lt) y vs
                      (All-In (λ z. All (λ w. c z w ≡ Ordering.lt) vs) x xs b p) q
              ]
              | inr p ↦ elim (In-union_of c y us vs n) [
                | inl q ↦
                    All-In (λ z. c x z ≡ Ordering.lt) y us
                      (All-In (λ z. All (λ w. c z w ≡ Ordering.lt) us) x ys d p) q
                | inr q ↦
                    All-In (λ z. c x z ≡ Ordering.lt) y vs
                      (All-In (λ z. All (λ w. c z w ≡ Ordering.lt) vs) x ys e p) q
              ]
            ]))

  -- Cut at the same place, two lists have the unions of their parts, one behind the other.
  pub union-append :
      (xs us ys vs : List A)
      → IsSorted c (xs ++ us)
      → IsSorted c (ys ++ vs)
      → IsBelow c xs vs
      → IsBelow c ys us
      → sorted_union c (xs ++ us) (ys ++ vs) ≡ sorted_union c xs ys ++ sorted_union c us vs
  union-append xs us ys vs s t a b =
      let p = IsSorted-append c xs us s in
      let q = IsSorted-append c ys vs t in
      let l = sorted_union c xs ys in
      let r = sorted_union c us vs in
      IsSorted-ext o (sorted_union c (xs ++ us) (ys ++ vs)) (l ++ r)
        (union-IsSorted o tie (xs ++ us) (ys ++ vs) s t)
        (IsSorted-join c l r (union-IsSorted o tie xs ys p.0 q.0)
          (union-IsSorted o tie us vs p.1 q.1)
          (union-IsBelow xs ys us vs (All-intro _ xs p.2) a b (All-intro _ ys q.2)))
        (λ z m. (In-append z l r).1 (elim (In-union_of c z (xs ++ us) (ys ++ vs) m) [
          | inl n ↦ elim ((In-append z xs us).0 n) [
            | inl k ↦ inl (In-union o tie z xs ys (inl k))
            | inr k ↦ inr (In-union o tie z us vs (inl k))
          ]
          | inr n ↦ elim ((In-append z ys vs).0 n) [
            | inl k ↦ inl (In-union o tie z xs ys (inr k))
            | inr k ↦ inr (In-union o tie z us vs (inr k))
          ]
        ]))
        (λ z m. In-union o tie z (xs ++ us) (ys ++ vs) (elim ((In-append z l r).0 m) [
          | inl n ↦ elim (In-union_of c z xs ys n) [
            | inl k ↦ inl ((In-append z xs us).1 (inl k))
            | inr k ↦ inr ((In-append z ys vs).1 (inl k))
          ]
          | inr n ↦ elim (In-union_of c z us vs n) [
            | inl k ↦ inl ((In-append z xs us).1 (inr k))
            | inr k ↦ inr ((In-append z ys vs).1 (inr k))
          ]
        ]))

-- The first `passing` elements pass.
pub passing_front :
    {A : Type 0} (test : A → Bool) (xs : List A)
    → All (λ x. test x ≡ true) (take (passing test xs) xs)
unfolding passing
passing_front test [] = tt
passing_front test (x ∷ xs) = elim (Bool-cases (test x)) [
  | inl e ↦ rw e (e, passing_front test xs)
  | inr e ↦ rw e tt
]

pub passing_back :
    {A : Type 0} (test : A → Bool) (xs : List A)
    → IsPartitioned test xs
    → All (λ x. test x ≡ false) (drop (passing test xs) xs)
unfolding passing
passing_back test [] h = tt
passing_back test (x ∷ xs) h = elim (Bool-cases (test x)) [
  | inl e ↦ rw e (passing_back test xs h.1)
  | inr e ↦ rw e (e, h.0 e)
]
