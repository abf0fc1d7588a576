-- ===== src/Tree/Merge/Children.antt =====
-- The loop of `mergeNode` over the children of a directory, for a merge of one child that is right.
use ramose.Base.{
  ℕ, ◌^◌, ◌<◌, ◌≡◌, ◌∙◌, refl, sym, ap, subst, Bool, false, ◌||◌, not, Option, some, List, [], ◌∷◌,
  ◌++◌, append-nil, arith, length, take, drop, take-append-drop, length-append,
}
use ramose.Base.Sorted.{IsSorted, IsSorted-append}
use ramose.Datom.{Datom, IndexId, comparator_for}
use ramose.Datom.Order.{comparator_for-IsWeakOrder, comparator_for-eq}
use ramose.Tree.{sorted_union}
use ramose.Tree.Store.{NodeRef, NodeStore, IsNodeStore}
use ramose.Tree.Build.{Entry}
use ramose.Tree.Build.Forest.{IsForest, IsTree, Keeps, IsForest-keeps, IsTree-Keeps}
use ramose.Tree.Union.{union-nil}
use ramose.Tree.Merge.{Merging, is_same, share, merge_child, merge_children}
use ramose.Tree.Merge.Pieces.{union-append}
use ramose.Tree.Merge.Unchanged.{IsHashed, IsForest-join, is_same_lem}
use ramose.Tree.Merge.Shares.{share_lem}
use ramose.Tree.Merge.Leaves.{Merged}

module _ (store : NodeStore) (law : IsNodeStore store) (hashed : IsHashed store) (i : IndexId) where
  abbrev pub IsReady : List Datom → Type 0
  IsReady ds = IsSorted (comparator_for i) ds × (length ds < 2 ^ 31)

  -- `merge` merges sorted novelty into every tree that is `n` directories deep.
  abbrev pub Merges :
      ℕ → (NodeRef → Option Datom → List Datom → store.State → Merging store i) → Type 0
  Merges n merge =
      (r : NodeRef) (k : Datom) (xs : List Datom) (d : Datom) (novelty : List Datom)
      (s : store.State)
      → IsTree store n s r (k ∷ xs)
      → IsSorted (comparator_for i) (k ∷ xs)
      → IsReady (d ∷ novelty)
      → Merged store law i n (sorted_union (comparator_for i) (k ∷ xs) (d ∷ novelty)) s
          (merge r (some k) (d ∷ novelty) s)

  -- The new children hold `ds`, and so do the old ones if nothing changed.
  abbrev pub MergedChildren :
      ℕ → List Entry → List Datom → store.State → Option (List Entry × Bool × store.State) → Type 0
  MergedChildren n es ds s o =
      (cs : List Entry) × (changed : Bool) × (s' : store.State) × (o ≡ some (cs, changed, s'))
      × Keeps store s s'
      × IsForest (IsTree store n s') cs ds
      × (changed ≡ false → IsForest (IsTree store n s') es ds)

  module _ (n : ℕ) (merge : NodeRef → Option Datom → List Datom → store.State → Merging store i)
      (merges : Merges n merge) where
    child_lem :
        (e : Entry) (xs novelty : List Datom) (s : store.State)
        → IsTree store n s e.ref (e.key ∷ xs)
        → IsSorted (comparator_for i) (e.key ∷ xs)
        → IsReady novelty
        → MergedChildren n
            (e ∷ [])
            (sorted_union (comparator_for i) (e.key ∷ xs) novelty)
            s
            (merge_child store i merge e novelty s)
    unfolding merge_child
    child_lem e xs [] s t so b =
        let all = union-nil (comparator_for i) (e.key ∷ xs) in
        let old : IsForest (IsTree store n s) (e ∷ [])
            (sorted_union (comparator_for i) (e.key ∷ xs) []) =
          (xs, [], all ∙ sym (append-nil (e.key ∷ xs)), t, refl) in
        (e ∷ [], false, s, refl, (λ r m l. l), old, λ q. old)
    child_lem e xs (d ∷ ds) s t so b =
        let (sub, s', q, k, f) = merges e.ref e.key xs d ds s t so b in
        let all = sorted_union (comparator_for i) (e.key ∷ xs) (d ∷ ds) in
        (
          sub,
          not (is_same sub e.ref),
          s',
          rw (q, merge_child) refl,
          k,
          f,
          λ z. is_same_lem store hashed n s s' e xs all sub k t f (ground (arith, z)),
        )

    children_on :
        (e : Entry) (es : List Entry) (novelty : List Datom) (s s1 s2 : store.State)
        (sub cs : List Entry) (a b : Bool)
        → merge_child store i merge e (take (share i es novelty) novelty) s ≡ some (sub, a, s1)
        → merge_children store i merge es (drop (share i es novelty) novelty) s1 ≡ some (cs, b, s2)
        → merge_children store i merge (e ∷ es) novelty s ≡ some (sub ++ cs, a || b, s2)
    unfolding merge_children
    children_on e es novelty s s1 s2 sub cs a b h k = rw (h, merge_children) (rw k refl)

    -- Novelty is merged into the children of a directory that holds `ds`; there is a child for it.
    pub children_lem :
        (es : List Entry) (ds novelty : List Datom) (s : store.State)
        → IsForest (IsTree store n s) es ds
        → IsSorted (comparator_for i) ds
        → IsReady novelty
        → (es ≡ [] → novelty ≡ [])
        → MergedChildren n es
            (sorted_union (comparator_for i) ds novelty)
            s
            (merge_children store i merge es novelty s)
    children_lem [] ds novelty s f so b z =
        let none_left : IsForest (IsTree store n s) []
            (sorted_union (comparator_for i) ds novelty) =
          ap (sorted_union (comparator_for i) ds) (z refl)
          ∙ (union-nil (comparator_for i) ds ∙ f) in
        ([], false, s, (unfold merge_children in refl), (λ r m l. l), none_left, λ q. none_left)
    children_lem (e ∷ es) ds novelty s (xs, ys, p, t, f) so (sn, bn) z =
        let c = comparator_for i in
        let at = share i es novelty in
        let front = take at novelty in
        let back = drop at novelty in
        let cut : front ++ back ≡ novelty = take-append-drop at novelty in
        let so' : IsSorted c ((e.key ∷ xs) ++ ys) = subst (IsSorted c) p so in
        let sa = IsSorted-append c (e.key ∷ xs) ys so' in
        let sn' : IsSorted c (front ++ back) = subst (IsSorted c) (sym cut) sn in
        let sb = IsSorted-append c front back sn' in
        let size = length-append front back in
        let (below, above, none_left) =
          share_lem i (IsTree store n s) es (e.key ∷ xs) ys novelty f so' sn bn in
        let (sub, a, s1, q1, k1, f1, u1) =
          child_lem e xs front s t sa.0 (sb.0, omega (arith, ap length cut, size, bn)) in
        let (cs, b, s2, q2, k2, f2, u2) =
          children_lem es ys back s1
            (IsForest-keeps store (IsTree store n s) (IsTree store n s1)
              (IsTree-Keeps store n s s1 k1) es ys f)
            sa.1 (sb.1, omega (arith, ap length cut, size, bn)) none_left in
        let whole : sorted_union c ds novelty
            ≡ sorted_union c (e.key ∷ xs) front ++ sorted_union c ys back =
          ap (λ l. sorted_union c l novelty) p
          ∙ (ap (sorted_union c ((e.key ∷ xs) ++ ys)) (sym cut)
              ∙ union-append (comparator_for-IsWeakOrder i) (comparator_for-eq i) (e.key ∷ xs) ys
                  front back so' sn' below above) in
        let later : (l : List Entry)
            → IsForest (IsTree store n s1) l (sorted_union c (e.key ∷ xs) front)
            → IsForest (IsTree store n s2) l (sorted_union c (e.key ∷ xs) front) =
          λ l.
            IsForest-keeps store (IsTree store n s1) (IsTree store n s2)
              (IsTree-Keeps store n s1 s2 k2) l (sorted_union c (e.key ∷ xs) front) in
        (
          sub ++ cs,
          a || b,
          s2,
          children_on e es novelty s s1 s2 sub cs a b q1 q2,
          (λ r m l. k2 r m (k1 r m l)),
          subst (IsForest (IsTree store n s2) (sub ++ cs)) (sym whole)
              (IsForest-join (IsTree store n s2) sub cs _ _ (later sub f1) f2),
          λ h. subst (IsForest (IsTree store n s2) (e ∷ es)) (sym whole) (
              IsForest-join (IsTree store n s2) (e ∷ []) es _ _
                (later (e ∷ []) (u1 (ground (arith, h)))) (u2 (ground (arith, h)))),
        )
