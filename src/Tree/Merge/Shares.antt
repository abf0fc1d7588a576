-- ===== src/Tree/Merge/Shares.antt =====
-- How `mergeNode` divides the novelty among the children of a directory.
use ramose.Base.{
  drop_all, ◌+◌, ◌^◌, ◌<◌, ◌≡◌, inl, inr, sym, subst, Bool, true, false, List, [], ◌∷◌, ◌++◌, All,
  arith, Ordering, Ordering-cases, length, take, drop,
}
use ramose.Base.Sorted.{In, IsSorted, IsSorted-append, All-lt_trans, All-intro}
use ramose.Datom.{Datom, IndexId, comparator_for}
use ramose.Datom.Order.{comparator_for-IsWeakOrder, comparator_for-eq}
use ramose.Tree.{is_lt, bisect}
use ramose.Tree.Store.{NodeRef}
use ramose.Tree.Build.{Entry}
use ramose.Tree.Build.Forest.{IsForest}
use ramose.Tree.Search.{passing, IsPartitioned, bisect_lem, passing-le}
use ramose.Tree.Merge.{share}
use ramose.Tree.Merge.Pieces.{IsBelow, passing_front, passing_back}

module _ (i : IndexId) where
  key_partitions :
      (k : Datom) (ds : List Datom)
      → IsSorted (comparator_for i) ds
      → IsPartitioned (λ d. is_lt (comparator_for i d k)) ds
  key_partitions k [] s = tt
  key_partitions k (d ∷ ds) s = (behind d ds s.0, key_partitions k ds s.1)
    where
      behind :
          (d : Datom) (ds : List Datom)
          → All (λ y. comparator_for i d y ≡ Ordering.lt) ds
          → is_lt (comparator_for i d k) ≡ false
          → All (λ y. is_lt (comparator_for i y k) ≡ false) ds
      behind d [] h e = tt
      behind d (y ∷ ds) h e =
          (ground (arith, (comparator_for-IsWeakOrder i).trans d y k), behind d ds h.1 e)

  -- Past the key, so past what is below it.
  past_key :
      (x k : Datom) (ds : List Datom)
      → comparator_for i x k ≡ Ordering.lt
      → All (λ d. is_lt (comparator_for i d k) ≡ false) ds
      → All (λ y. comparator_for i x y ≡ Ordering.lt) ds
  past_key x k [] h a = tt
  past_key x k (d ∷ ds) h a = (past_one, past_key x k ds h a.1)
    where
      past_one : comparator_for i x d ≡ Ordering.lt
      past_one =
          let o = comparator_for-IsWeakOrder i in
          elim (Ordering-cases (comparator_for i d k)) [
            | inl e ↦ absurd (ground (arith, a.0))
            | inr (inl e) ↦
                subst (λ z. comparator_for i x z ≡ Ordering.lt) (sym (comparator_for-eq i d k e)) h
            | inr (inr e) ↦ o.trans x k d h (ground (arith, o.swap d k))
          ]

  before_key :
      (k : Datom) (zs ds : List Datom)
      → IsSorted (comparator_for i) (k ∷ zs)
      → All (λ d. is_lt (comparator_for i d k) ≡ true) ds
      → IsBelow (comparator_for i) ds (k ∷ zs)
  before_key k zs [] s a = tt
  before_key k zs (d ∷ ds) s a =
      let e : comparator_for i d k ≡ Ordering.lt = ground arith in
      ((e, All-lt_trans (comparator_for-IsWeakOrder i) d k zs e s.0), before_key k zs ds s a.1)

  -- The share of the first child is below the children behind it, and what is left is past it.
  pub share_lem :
      (T : NodeRef → List Datom → Type 0) (es : List Entry) (xs ys ds : List Datom)
      → IsForest T es ys
      → IsSorted (comparator_for i) (xs ++ ys)
      → IsSorted (comparator_for i) ds
      → length ds < 2 ^ 31
      → IsBelow (comparator_for i) xs (drop (share i es ds) ds)
        × IsBelow (comparator_for i) (take (share i es ds) ds) ys
        × (es ≡ [] → drop (share i es ds) ds ≡ [])
  unfolding share
  share_lem T [] xs ys ds f s t b =
      let gone = drop_all (length ds) ds (omega arith) in
      (
        subst (IsBelow (comparator_for i) xs) (sym gone) (All-intro _ xs (λ x m. tt)),
        subst (IsBelow (comparator_for i) (take (length ds) ds)) (sym f)
            (All-intro _ (take (length ds) ds) (λ x m. tt)),
        λ e. gone,
      )
  share_lem T (e ∷ es) xs ys ds (us, vs, p, t1, f) s t b =
      let c = comparator_for i in
      let test : Datom → Bool = λ d. is_lt (c d e.key) in
      let part = key_partitions e.key ds t in
      let n = length ds in
      let at : bisect (n + 1) test ds 0 n ≡ passing test ds =
        bisect_lem test (n + 1) ds 0 n part b (omega arith) (passing-le test ds) (omega arith)
          (omega arith) in
      let q = IsSorted-append c xs ys s in
      let k : IsSorted c (e.key ∷ (us ++ vs)) = subst (IsSorted c) p q.1 in
      let first : (x : Datom) → In x xs → c x e.key ≡ Ordering.lt =
        λ x m. (subst (λ l. All (λ y. c x y ≡ Ordering.lt) l) p (q.2 x m)).0 in
      (
        subst (λ m. IsBelow c xs (drop m ds)) (sym at)
            (All-intro (λ x. All (λ y. c x y ≡ Ordering.lt) (drop (passing test ds) ds)) xs
              (λ x m.
                past_key x e.key (drop (passing test ds) ds) (first x m)
                  (passing_back test ds part))),
        subst (λ m. IsBelow c (take m ds) ys) (sym at)
            (subst (IsBelow c (take (passing test ds) ds)) (sym p)
              (before_key e.key (us ++ vs) (take (passing test ds) ds) k (passing_front test ds))),
        λ z. absurd (clash z),
      )
    where
      clash : e ∷ es ≡ [] → ⊥
      clash z = cc
