-- ===== src/Base/Order.antt =====
-- JavaScript comparators: a negative, zero or positive number is `lt`, `eq` or `gt`.
use ramose.Base.{ℕ, ◌≡◌, refl, arith, Ordering, compare, List, [], ◌∷◌}

-- `c || d` on comparator results.
abbrev pub or_else : Ordering → Ordering → Ordering
or_else Ordering.eq d = d
or_else Ordering.lt d = Ordering.lt
or_else Ordering.gt d = Ordering.gt

abbrev pub flip : Ordering → Ordering
flip Ordering.lt = Ordering.gt
flip Ordering.eq = Ordering.eq
flip Ordering.gt = Ordering.lt

-- A comparator that sorts consistently.
pub record IsWeakOrder {ℓ} {A : Type ℓ} (cmp : A → A → Ordering) : Type ℓ where
  pub swap : (x y : A) → cmp y x ≡ flip (cmp x y)
  pub trans : (x y z : A) → cmp x y ≡ Ordering.lt → cmp y z ≡ Ordering.lt → cmp x z ≡ Ordering.lt
  pub cong : (x y z : A) → cmp x y ≡ Ordering.eq → cmp x z ≡ cmp y z

pub compare-IsWeakOrder : IsWeakOrder compare
compare-IsWeakOrder = record {
  swap = λ x y. ground arith;
  trans = λ x y z h k. ground arith;
  cong = λ x y z h. ground arith;
}

pub compare-eq : (x y : ℕ) → compare x y ≡ Ordering.eq → x ≡ y
compare-eq x y h = ground arith

pub compare_refl : (x : ℕ) → compare x x ≡ Ordering.eq
compare_refl x = ground arith

module _ {ℓ} {A : Type ℓ} {c d : A → A → Ordering} where
  -- The lexicographic combination of two comparators.
  pub or_else-IsWeakOrder :
      IsWeakOrder c → IsWeakOrder d → IsWeakOrder (λ x y. or_else (c x y) (d x y))
  or_else-IsWeakOrder oc od = record {
    swap = λ x y. ground (arith, oc.swap x y, od.swap x y);
    trans = λ x y z h k. ground (
      arith,
      oc.trans x y z,
      od.trans x y z,
      oc.cong x y z,
      oc.cong y z x,
      oc.swap x z,
      oc.swap x y,
      oc.swap y z,
    );
    cong = λ x y z h. ground (arith, oc.cong x y z, od.cong x y z);
  }

-- A comparator of keys.
pub on-IsWeakOrder {ℓ κ} :
    {A : Type ℓ} {B : Type κ} {c : B → B → Ordering} (f : A → B)
    → IsWeakOrder c
    → IsWeakOrder (λ x y. c (f x) (f y))
on-IsWeakOrder f o = record {
  swap = λ x y. o.swap (f x) (f y);
  trans = λ x y z. o.trans (f x) (f y) (f z);
  cong = λ x y z. o.cong (f x) (f y) (f z);
}

module _ {ℓ} {A : Type ℓ} {c : A → A → Ordering} (o : IsWeakOrder c) where
  pub eq_self : (x : A) → c x x ≡ Ordering.eq
  eq_self x = ground (arith, o.swap x x)

  pub lt-of-lt-eq : (x y z : A) → c x y ≡ Ordering.lt → c y z ≡ Ordering.eq → c x z ≡ Ordering.lt
  lt-of-lt-eq x y z h k = ground (arith, o.cong y z x, o.swap x y, o.swap x z)

-- Lists by the first difference, a proper prefix first.
unfoldable pub compare_lists {ℓ} : {A : Type ℓ} → (A → A → Ordering) → List A → List A → Ordering
compare_lists c [] [] = Ordering.eq
compare_lists c [] (y ∷ ys) = Ordering.lt
compare_lists c (x ∷ xs) [] = Ordering.gt
compare_lists c (x ∷ xs) (y ∷ ys) = or_else (c x y) (compare_lists c xs ys)

module _ {ℓ} {A : Type ℓ} {c : A → A → Ordering} (o : IsWeakOrder c) where
  compare_lists-swap : (xs ys : List A) → compare_lists c ys xs ≡ flip (compare_lists c xs ys)
  unfolding compare_lists
  compare_lists-swap [] [] = refl
  compare_lists-swap [] (y ∷ ys) = refl
  compare_lists-swap (x ∷ xs) [] = refl
  compare_lists-swap (x ∷ xs) (y ∷ ys) = ground (arith, o.swap x y, compare_lists-swap xs ys)

  compare_lists-cong :
      (xs ys zs : List A)
      → compare_lists c xs ys ≡ Ordering.eq
      → compare_lists c xs zs ≡ compare_lists c ys zs
  unfolding compare_lists
  compare_lists-cong [] [] zs h = refl
  compare_lists-cong [] (y ∷ ys) zs h = cc
  compare_lists-cong (x ∷ xs) [] zs h = cc
  compare_lists-cong (x ∷ xs) (y ∷ ys) [] h = refl
  compare_lists-cong (x ∷ xs) (y ∷ ys) (z ∷ zs) h =
      ground (arith, o.cong x y z, compare_lists-cong xs ys zs)

  compare_lists_trans :
      (xs ys zs : List A)
      → compare_lists c xs ys ≡ Ordering.lt
      → compare_lists c ys zs ≡ Ordering.lt
      → compare_lists c xs zs ≡ Ordering.lt
  unfolding compare_lists
  compare_lists_trans [] [] zs h k = cc
  compare_lists_trans [] (y ∷ ys) [] h k = cc
  compare_lists_trans [] (y ∷ ys) (z ∷ zs) h k = refl
  compare_lists_trans (x ∷ xs) [] zs h k = cc
  compare_lists_trans (x ∷ xs) (y ∷ ys) [] h k = cc
  compare_lists_trans (x ∷ xs) (y ∷ ys) (z ∷ zs) h k =
      ground (arith, o.trans x y z, o.cong x y z, lt-of-lt-eq o x y z, compare_lists_trans xs ys zs)

  pub compare_lists-IsWeakOrder : IsWeakOrder (compare_lists c)
  compare_lists-IsWeakOrder = record {
    swap = compare_lists-swap;
    trans = compare_lists_trans;
    cong = compare_lists-cong;
  }
