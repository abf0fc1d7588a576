-- ===== src/Tree/Bounds.antt =====
-- `lowerBound` and `upperBound` of tree.ts, on datoms sorted in an index's order.
use ramose.Base.{
  zero, get_elem?-some, get_elem?, Option-cases, ◌/◌, ◌%◌, suc, ℕ, ◌+◌, ◌^◌, ◌≤◌, ◌<◌, max, ◌≡◌,
  refl, Bool, true, false, List, [], ◌∷◌, All, arith, length, keep, keep_none, slice, Ordering,
  Ordering-cases, inl, inr,
}
use ramose.Base.Sorted.{IsSorted}
use ramose.Datom.{Datom, IndexId, Prefix, compare_prefix, comparator_for}
use ramose.Datom.Ranges.{IsMonotone, compare_prefix-IsMonotone}
use ramose.Tree.{bisect, is_lt, is_le, lower_bound, upper_bound, lower_bound_from, upper_bound_from}
use ramose.Tree.Search.{passing, IsPartitioned, bisect_lem, bound_from_lem, passing-le}

-- `c === 0`
abbrev pub is_eq : Ordering → Bool
is_eq Ordering.lt = false
is_eq Ordering.eq = true
is_eq Ordering.gt = false

module _ {A : Type 0} (c : A → A → Ordering) (probe : A → Ordering) (m : IsMonotone c probe) where
  past_lt :
      (x : A) (xs : List A)
      → All (λ y. c x y ≡ Ordering.lt) xs
      → is_lt (probe x) ≡ false
      → All (λ y. is_lt (probe y) ≡ false) xs
  past_lt x [] h k = tt
  past_lt x (y ∷ xs) h k = (ground (arith, m.below x y), past_lt x xs h.1 k)

  past_le :
      (x : A) (xs : List A)
      → All (λ y. c x y ≡ Ordering.lt) xs
      → is_le (probe x) ≡ false
      → All (λ y. is_le (probe y) ≡ false) xs
  past_le x [] h k = tt
  past_le x (y ∷ xs) h k = (ground (arith, m.above x y), past_le x xs h.1 k)

  pub IsPartitioned-lt : (xs : List A) → IsSorted c xs → IsPartitioned (λ x. is_lt (probe x)) xs
  IsPartitioned-lt [] s = tt
  IsPartitioned-lt (x ∷ xs) s = (past_lt x xs s.0, IsPartitioned-lt xs s.1)

  pub IsPartitioned-le : (xs : List A) → IsSorted c xs → IsPartitioned (λ x. is_le (probe x)) xs
  IsPartitioned-le [] s = tt
  IsPartitioned-le (x ∷ xs) s = (past_le x xs s.0, IsPartitioned-le xs s.1)

module _ {A : Type 0} (probe : A → Ordering) where
  passing_none :
      (xs : List A) → All (λ y. is_lt (probe y) ≡ false) xs → passing (λ x. is_lt (probe x)) xs ≡ 0
  unfolding passing
  passing_none [] h = refl
  passing_none (x ∷ xs) h = ground arith

  past-ne :
      (xs : List A) → All (λ y. is_le (probe y) ≡ false) xs → All (λ y. is_eq (probe y) ≡ false) xs
  past-ne [] h = tt
  past-ne (x ∷ xs) h = (ground arith, past-ne xs h.1)

  -- Between the two passing counts stand the elements in the range.
  pub slice-passing :
      (xs : List A)
      → IsPartitioned (λ x. is_lt (probe x)) xs
      → IsPartitioned (λ x. is_le (probe x)) xs
      → slice xs (passing (λ x. is_lt (probe x)) xs) (passing (λ x. is_le (probe x)) xs)
        ≡ keep (λ x. is_eq (probe x)) xs
  unfolding passing keep
  slice-passing [] s t = refl
  slice-passing (x ∷ xs) s t = elim (Ordering-cases (probe x)) [
    | inl e ↦ ground (arith, slice-passing xs s.1 t.1)
    | inr (inl e) ↦ ground (arith, slice-passing xs s.1 t.1, passing_none xs (s.0 (rw e)))
    | inr (inr e) ↦ ground (arith, keep_none (λ y. is_eq (probe y)) xs (past-ne xs (t.0 (rw e))))
  ]

-- The bisection stays within the list.
bisect-le :
    (fuel : ℕ) (test : Datom → Bool) (ds : List Datom) (lo hi : ℕ)
    → lo ≤ length ds
    → hi ≤ length ds
    → bisect fuel test ds lo hi ≤ length ds
unfolding bisect
bisect-le zero test ds lo hi h k = h
bisect-le (suc fuel) test ds lo hi h k =
    let mid = (lo + hi) % 2 ^ 32 / 2 in
    elim (Option-cases (get_elem? ds mid)) [
      | inl e ↦ rw e (ground arith)
      | inr (d, e) ↦
          let inside : mid < length ds = get_elem?-some ds mid d e in
          rw e (
            ground (
              arith,
              bisect-le fuel test ds (mid + 1) hi (omega (arith, inside)) k,
              bisect-le fuel test ds lo mid h (omega (arith, inside)),
            ))
    ]

pub upper_bound-le : (i : IndexId) (ds : List Datom) (p : Prefix) → upper_bound i ds p ≤ length ds
unfolding upper_bound
upper_bound-le i ds p = bisect-le (length ds + 1) _ ds 0 (length ds) (omega arith) (omega arith)

module _ (i : IndexId) (ds : List Datom) (p : Prefix) (sorted : IsSorted (comparator_for i) ds)
    (short : length ds < 2 ^ 31) where
  pub lower_bound-passing : lower_bound i ds p ≡ passing (λ d. is_lt (compare_prefix i d p)) ds
  unfolding lower_bound
  lower_bound-passing =
      bisect_lem (λ d. is_lt (compare_prefix i d p)) (length ds + 1) ds 0 (length ds)
        (IsPartitioned-lt (comparator_for i) _ (compare_prefix-IsMonotone i p) ds sorted) short
        (omega arith) (passing-le _ ds) (omega arith) (omega arith)

  pub upper_bound-passing : upper_bound i ds p ≡ passing (λ d. is_le (compare_prefix i d p)) ds
  unfolding upper_bound
  upper_bound-passing =
      bisect_lem (λ d. is_le (compare_prefix i d p)) (length ds + 1) ds 0 (length ds)
        (IsPartitioned-le (comparator_for i) _ (compare_prefix-IsMonotone i p) ds sorted) short
        (omega arith) (passing-le _ ds) (omega arith) (omega arith)

  -- In a list of fewer than 2^31 datoms, strictly sorted in an index's order, the slice from
  -- `lowerBound` to `upperBound` holds exactly the datoms that match the prefix, in order.
  pub slice-bounds :
      slice ds (lower_bound i ds p) (upper_bound i ds p)
      ≡ keep (λ d. is_eq (compare_prefix i d p)) ds
  slice-bounds =
      rw (lower_bound-passing, upper_bound-passing)
        (slice-passing (λ d. compare_prefix i d p) ds
          (IsPartitioned-lt (comparator_for i) _ (compare_prefix-IsMonotone i p) ds sorted)
          (IsPartitioned-le (comparator_for i) _ (compare_prefix-IsMonotone i p) ds sorted))

module _ (i : IndexId) (ds : List Datom) (p : Prefix) (sorted : IsSorted (comparator_for i) ds)
    (short : length ds < 2 ^ 30) (from : ℕ) (inside : from ≤ length ds) where
  -- In a list of fewer than 2^30 datoms, strictly sorted in an index's order, and from a start
  -- within it, `lowerBoundFrom` and `upperBoundFrom` (with `comparePrefix` as comparator) find
  -- the larger of the start and what `lowerBound` and `upperBound` find.
  pub bounds_from :
      (lower_bound_from (compare_prefix i) ds p from ≡ max from (lower_bound i ds p))
      × (upper_bound_from (compare_prefix i) ds p from ≡ max from (upper_bound i ds p))
  unfolding lower_bound_from upper_bound_from
  bounds_from = (
    rw (lower_bound-passing i ds p sorted (omega arith)) (
        bound_from_lem (λ d. is_lt (compare_prefix i d p)) ds from
          (IsPartitioned-lt (comparator_for i) _ (compare_prefix-IsMonotone i p) ds sorted) short
          inside),
    rw (upper_bound-passing i ds p sorted (omega arith)) (
        bound_from_lem (λ d. is_le (compare_prefix i d p)) ds from
          (IsPartitioned-le (comparator_for i) _ (compare_prefix-IsMonotone i p) ds sorted) short
          inside),
  )
