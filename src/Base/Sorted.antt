-- ===== src/Base/Sorted.antt =====
-- Membership in a list, and lists in strictly increasing order of a comparator.
use ramose.Base.{
  ◌≡◌, ◌≢◌, ◌↔◌, ◌⊎◌, inl, inr, refl, sym, ap, subst, List, [], ◌∷◌, ◌++◌, All, arith, Ordering,
  Bool, true, keep, Bool-cases, ◌∙◌,
}
use ramose.Base.Order.{IsWeakOrder, eq_self}

module _ {A : Type 0} where
  -- `x` stands in the list.
  abbrev pub In : A → List A → Type 0
  In x [] = ⊥
  In x (y ∷ ys) = (x ≡ y) ⊎ In x ys

  pub In-append : (x : A) (xs ys : List A) → In x (xs ++ ys) ↔ (In x xs ⊎ In x ys)
  In-append x [] ys = (inr, elim [ inl h ↦ absurd h | inr h ↦ h ])
  In-append x (y ∷ xs) ys = (grind (arith, In-append x xs ys), grind (arith, In-append x xs ys))

  pub All-In : (P : A → Type 0) (x : A) (xs : List A) → All P xs → In x xs → P x
  All-In P x [] h m = absurd m
  All-In P x (y ∷ xs) h (inl e) = subst P (sym e) h.0
  All-In P x (y ∷ xs) h (inr m) = All-In P x xs h.1 m

  pub All-intro : (P : A → Type 0) (xs : List A) → ((x : A) → In x xs → P x) → All P xs
  All-intro P [] f = tt
  All-intro P (x ∷ xs) f = (f x (inl refl), All-intro P xs (λ y m. f y (inr m)))

  -- Strictly increasing, so without duplicates.
  abbrev pub IsSorted : (A → A → Ordering) → List A → Type 0
  IsSorted c [] = Unit
  IsSorted c (x ∷ xs) = All (λ y. c x y ≡ Ordering.lt) xs × IsSorted c xs

module _ {A : Type 0} {c : A → A → Ordering} (o : IsWeakOrder c) where
  pub All-lt_trans :
      (x y : A) (xs : List A)
      → c x y ≡ Ordering.lt
      → All (λ z. c y z ≡ Ordering.lt) xs
      → All (λ z. c x z ≡ Ordering.lt) xs
  All-lt_trans x y [] h k = tt
  All-lt_trans x y (z ∷ xs) h k = (o.trans x y z h k.0, All-lt_trans x y xs h k.1)

  not-In-self : (x : A) (xs : List A) → All (λ y. c x y ≡ Ordering.lt) xs → ¬ In x xs
  not-In-self x xs h m =
      let e : c x x ≡ Ordering.lt = All-In (λ y. c x y ≡ Ordering.lt) x xs h m in
      cc (e, eq_self o x)

  first_eq :
      (x y : A) (xs ys : List A)
      → IsSorted c (x ∷ xs)
      → IsSorted c (y ∷ ys)
      → In x (y ∷ ys)
      → In y (x ∷ xs)
      → x ≡ y
  first_eq x y xs ys sx sy (inl e) my = e
  first_eq x y xs ys sx sy (inr mx) (inl e) = sym e
  first_eq x y xs ys sx sy (inr mx) (inr my) =
      let p : c x y ≡ Ordering.lt = All-In (λ z. c x z ≡ Ordering.lt) y xs sx.0 my in
      let q : c y x ≡ Ordering.lt = All-In (λ z. c y z ≡ Ordering.lt) x ys sy.0 mx in
      cc (p, q, o.swap x y)

  -- A sorted list is determined by its members.
  pub IsSorted-ext :
      (xs ys : List A)
      → IsSorted c xs
      → IsSorted c ys
      → ((z : A) → In z xs → In z ys)
      → ((z : A) → In z ys → In z xs)
      → xs ≡ ys
  IsSorted-ext [] [] sx sy f g = refl
  IsSorted-ext [] (y ∷ ys) sx sy f g = absurd (g y (inl refl))
  IsSorted-ext (x ∷ xs) [] sx sy f g = absurd (f x (inl refl))
  IsSorted-ext (x ∷ xs) (y ∷ ys) sx sy f g =
      let e : x ≡ y = first_eq x y xs ys sx sy (f x (inl refl)) (g y (inl refl)) in
      cc (e, IsSorted-ext xs ys sx.1 sy.1 (rest xs ys x y e sx f) (rest ys xs y x (sym e) sy g))
    where
      strip : (z y : A) (ys : List A) → z ≢ y → In z (y ∷ ys) → In z ys
      strip z y ys n (inl e) = absurd (n e)
      strip z y ys n (inr m) = m

      rest :
          (us vs : List A) (u v : A)
          → u ≡ v
          → IsSorted c (u ∷ us)
          → ((z : A) → In z (u ∷ us) → In z (v ∷ vs))
          → (z : A) → In z us
          → In z vs
      rest us vs u v e s f z m =
          strip z v vs (λ p. not-In-self u us s.0 (subst (λ w. In w us) (p ∙ sym e) m))
            (f z (inr m))

module _ {A : Type 0} (p : A → Bool) where
  pub In-keep : (x : A) (xs : List A) → In x (keep p xs) ↔ (In x xs × (p x ≡ true))
  unfolding keep
  In-keep x [] = (λ m. absurd m, λ m. m.0)
  In-keep x (y ∷ xs) = elim (Bool-cases (p y)) [
    | inl e ↦ rw e ((λ m. grind (arith, In-keep x xs, e, m)), (λ m. grind (arith, In-keep x xs, m)))
    | inr e ↦ rw e (
      (λ m. (inr ((In-keep x xs).0 m).0, ((In-keep x xs).0 m).1)),
      (λ m. elim m.0 [ inl q ↦ absurd (cc (ap p q, m.1, e)) | inr q ↦ (In-keep x xs).1 (q, m.1) ]),
    )
  ]

  pub All-keep : (P : A → Type 0) (xs : List A) → All P xs → All P (keep p xs)
  unfolding keep
  All-keep P [] h = tt
  All-keep P (x ∷ xs) h = elim (Bool-cases (p x)) [
    | inl e ↦ rw e (h.0, All-keep P xs h.1)
    | inr e ↦ rw e (All-keep P xs h.1)
  ]

  pub keep-IsSorted : (c : A → A → Ordering) (xs : List A) → IsSorted c xs → IsSorted c (keep p xs)
  unfolding keep
  keep-IsSorted c [] s = tt
  keep-IsSorted c (x ∷ xs) s = elim (Bool-cases (p x)) [
    | inl e ↦ rw e (All-keep (λ y. c x y ≡ Ordering.lt) xs s.0, keep-IsSorted c xs s.1)
    | inr e ↦ rw e (keep-IsSorted c xs s.1)
  ]

pub All-split :
    {A : Type 0} (P : A → Type 0) (us vs : List A) → All P (us ++ vs) → All P us × All P vs
All-split P [] vs h = (tt, h)
All-split P (u ∷ us) vs h = let q = All-split P us vs h.1 in ((h.0, q.0), q.1)

module _ {A : Type 0} (c : A → A → Ordering) where
  -- A sorted concatenation: both parts are sorted, and the first is below the second.
  pub IsSorted-append :
      (xs ys : List A)
      → IsSorted c (xs ++ ys)
      → IsSorted c xs × IsSorted c ys × ((x : A) → In x xs → All (λ y. c x y ≡ Ordering.lt) ys)
  IsSorted-append [] ys s = (tt, s, λ x m. absurd m)
  IsSorted-append (x ∷ xs) ys s =
      let r = IsSorted-append xs ys s.1 in
      let a = All-split (λ y. c x y ≡ Ordering.lt) xs ys s.0 in
      (
        (a.0, r.0),
        r.1,
        λ z m. elim m [
          | inl e ↦ subst (λ w. All (λ y. c w y ≡ Ordering.lt) ys) (sym e) a.1
          | inr n ↦ r.2 z n
        ],
      )
