-- ===== src/Db/Merged.antt =====
-- The stream that a read collapses: the scan of the tree merged with the range of the novelty.
use ramose.Base.{◌≡◌, inl, inr, Bool, List, keep}
use ramose.Base.Sorted.{IsSorted, In-keep, keep-IsSorted, IsSorted-ext}
use ramose.Datom.{Datom, IndexId, comparator_for}
use ramose.Datom.Order.{comparator_for-IsWeakOrder, comparator_for-eq}
use ramose.Tree.{sorted_union}
use ramose.Tree.Union.{union-IsSorted, In-union, In-union_of}

-- Keeping some elements of a union is the union of what is kept.
pub union-keep :
    (i : IndexId) (f : Datom → Bool) (xs ys : List Datom)
    → IsSorted (comparator_for i) xs
    → IsSorted (comparator_for i) ys
    → sorted_union (comparator_for i) (keep f xs) (keep f ys)
      ≡ keep f (sorted_union (comparator_for i) xs ys)
union-keep i f xs ys s t =
    let c = comparator_for i in
    let o = comparator_for-IsWeakOrder i in
    let tie = comparator_for-eq i in
    IsSorted-ext o (sorted_union c (keep f xs) (keep f ys)) (keep f (sorted_union c xs ys))
      (union-IsSorted o tie (keep f xs) (keep f ys) (keep-IsSorted f c xs s)
        (keep-IsSorted f c ys t))
      (keep-IsSorted f c (sorted_union c xs ys) (union-IsSorted o tie xs ys s t))
      (λ z m.
        (In-keep f z (sorted_union c xs ys)).1 (elim (In-union_of c z (keep f xs) (keep f ys) m) [
          | inl u ↦ let q = (In-keep f z xs).0 u in (In-union o tie z xs ys (inl q.0), q.1)
          | inr u ↦ let q = (In-keep f z ys).0 u in (In-union o tie z xs ys (inr q.0), q.1)
        ]))
      (λ z m.
        let q = (In-keep f z (sorted_union c xs ys)).0 m in
        In-union o tie z (keep f xs) (keep f ys) (elim (In-union_of c z xs ys q.0) [
          | inl u ↦ inl ((In-keep f z xs).1 (u, q.1))
          | inr u ↦ inr ((In-keep f z ys).1 (u, q.1))
        ]))
