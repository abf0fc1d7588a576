-- ===== src/Tree/Scan/Leaves.antt =====
-- What `scan` yields of a leaf.
use ramose.Base.{
  ◌≤◌, ltb→lt, ℕ, ◌^◌, ◌≤◌, ◌<◌, ◌-◌, ◌≡◌, ◌∙◌, refl, sym, ap, Bool, true, false, List, [], ◌∷◌,
  ◌++◌, append-nil, drop_all, All, arith, length, keep, slice, ltb, Bool-cases, inl, inr, take-nil,
}
use ramose.Base.Sorted.{IsSorted, All-split}
use ramose.Datom.{Datom, IndexId, Prefix, compare_prefix, comparator_for}
use ramose.Tree.{lower_bound, upper_bound, is_lt, is_le}
use ramose.Tree.Chunks.{IsChunk, stream}
use ramose.Tree.Search.{passing, IsPartitioned}
use ramose.Tree.Bounds.{upper_bound-le, is_eq, slice-bounds, lower_bound-passing}
use ramose.Tree.Scan.{yield_slice, first_leaf, next_leaf}

module _ (i : IndexId) (p : Prefix) where
  yield_slice_lem : (ds : List Datom) (s e : ℕ) → stream (yield_slice i p ds s e) ≡ slice ds s e
  unfolding yield_slice
  yield_slice_lem ds s e = elim (Bool-cases (ltb s e)) [
    | inl t ↦ rw t (append-nil (slice ds s e))
    | inr t ↦ let z : e - s ≡ 0 = ground arith in rw t (rw z refl)
  ]

  yield_slice_chunks :
      (ds : List Datom) (s e : ℕ) → e ≤ length ds → All IsChunk (yield_slice i p ds s e)
  unfolding yield_slice
  yield_slice_chunks ds s e h = elim (Bool-cases (ltb s e)) [
    | inl t ↦ rw t ((ltb→lt s e t, h), tt)
    | inr t ↦ rw t tt
  ]

  pub next_leaf_chunks : (ds : List Datom) → All IsChunk (next_leaf i p ds).0
  unfolding next_leaf
  next_leaf_chunks ds = yield_slice_chunks ds 0 (upper_bound i ds p) (upper_bound-le i ds p)

  pub first_leaf_chunks : (ds : List Datom) → All IsChunk (first_leaf i p ds).0
  unfolding first_leaf
  first_leaf_chunks ds = elim (Bool-cases (ltb (lower_bound i ds p) (length ds))) [
    | inl t ↦
        rw t
          (yield_slice_chunks ds (lower_bound i ds p) (upper_bound i ds p) (upper_bound-le i ds p))
    | inr t ↦ rw t tt
  ]

  -- Past the last that is not greater stand only greater ones.
  pub passing-zero :
      (test : Datom → Bool) (xs : List Datom) → All (λ d. test d ≡ false) xs → passing test xs ≡ 0
  unfolding passing
  passing-zero test [] h = refl
  passing-zero test (x ∷ xs) h = ground arith

  pub next_leaf_lem :
      (ds : List Datom)
      → IsSorted (comparator_for i) ds
      → length ds < 2 ^ 31
      → All (λ d. is_lt (compare_prefix i d p) ≡ false) ds
      → stream (next_leaf i p ds).0 ≡ keep (λ d. is_eq (compare_prefix i d p)) ds
  unfolding next_leaf
  next_leaf_lem ds s b h =
      let z : lower_bound i ds p ≡ 0 =
        lower_bound-passing i ds p s b ∙ passing-zero (λ d. is_lt (compare_prefix i d p)) ds h in
      yield_slice_lem ds 0 (upper_bound i ds p)
      ∙ (ap (λ l. slice ds l (upper_bound i ds p)) (sym z) ∙ slice-bounds i ds p s b)

  pub first_leaf_lem :
      (ds : List Datom)
      → IsSorted (comparator_for i) ds
      → length ds < 2 ^ 31
      → stream (first_leaf i p ds).0 ≡ keep (λ d. is_eq (compare_prefix i d p)) ds
  unfolding first_leaf
  first_leaf_lem ds s b = elim (Bool-cases (ltb (lower_bound i ds p) (length ds))) [
    | inl t ↦
        rw t
          (yield_slice_lem ds (lower_bound i ds p) (upper_bound i ds p) ∙ slice-bounds i ds p s b)
    | inr t ↦ rw t (
        nothing_left (lower_bound i ds p) (upper_bound i ds p) (ground arith)
        ∙ slice-bounds i ds p s b)
  ]
    where
      nothing_left : (a e : ℕ) → length ds ≤ a → [] ≡ slice ds a e
      nothing_left a e h = rw (drop_all a ds h) (sym (take-nil (e - a)))

-- Where the test fails within `xs`, it fails on everything behind.
pub passing_short :
    (test : Datom → Bool) (xs ys : List Datom)
    → IsPartitioned test (xs ++ ys)
    → passing test xs < length xs
    → All (λ d. test d ≡ false) ys
unfolding passing
passing_short test [] ys h k = absurd (omega arith)
passing_short test (x ∷ xs) ys h k = elim (Bool-cases (test x)) [
  | inl t ↦ passing_short test xs ys h.1 (ground arith)
  | inr t ↦ (All-split (λ d. test d ≡ false) xs ys (h.0 t)).1
]

pub keep_past :
    (i : IndexId) (p : Prefix) (xs : List Datom)
    → All (λ d. is_le (compare_prefix i d p) ≡ false) xs
    → keep (λ d. is_eq (compare_prefix i d p)) xs ≡ []
unfolding keep
keep_past i p [] h = refl
keep_past i p (x ∷ xs) h = ground (arith, keep_past i p xs h.1)

pub keep_before :
    (i : IndexId) (p : Prefix) (xs : List Datom)
    → All (λ d. is_lt (compare_prefix i d p) ≡ true) xs
    → keep (λ d. is_eq (compare_prefix i d p)) xs ≡ []
unfolding keep
keep_before i p [] h = refl
keep_before i p (x ∷ xs) h = ground (arith, keep_before i p xs h.1)

pub keep-append :
    (test : Datom → Bool) (xs ys : List Datom) → keep test (xs ++ ys) ≡ keep test xs ++ keep test ys
unfolding keep
keep-append test [] ys = refl
keep-append test (x ∷ xs) ys = ground (arith, keep-append test xs ys)
