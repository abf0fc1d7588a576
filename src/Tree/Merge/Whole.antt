-- ===== src/Tree/Merge/Whole.antt =====
-- `mergeTree` makes a tree of what the old tree and the novelty hold.
use ramose.Base.{
  ℕ, zero, suc, ◌^◌, ◌≤◌, ◌<◌, ◌≡◌, refl, sym, ap, subst, Bool, true, false, Option, none, some,
  List, [], ◌∷◌, ◌++◌, map, arith, length,
}
use ramose.Base.Sorted.{IsSorted}
use ramose.Datom.{Datom, IndexId, comparator_for}
use ramose.Tree.{sorted_union}
use ramose.Tree.Store.{NodeRef, leaf, dir, NodeStore, IsNodeStore}
use ramose.Tree.Build.{Entry, ceil_div, build_level, build_levels}
use ramose.Tree.Build.Forest.{IsForest, IsTree, Keeps, IsRoot}
use ramose.Tree.Build.Whole.{split_one, level_lem, levels_lem, IsRoot-after}
use ramose.Tree.Build.Sizes.{ceil_div_positive}
use ramose.Tree.Scan.Down.{entries_lem}
use ramose.Tree.Union.{union-nil}
use ramose.Tree.Merge.{
  Merging, key_or, kept, merge_leaf, merge_children, regroup, merge_node, merged_root, merge_tree,
}
use ramose.Tree.Merge.Pieces.{union_some}
use ramose.Tree.Merge.Unchanged.{IsHashed}
use ramose.Tree.Merge.Leaves.{Heads, Merged, kept-Merged, merge_leaf-Merged}
use ramose.Tree.Merge.Children.{IsReady, Merges, MergedChildren, children_lem}

abbrev keys_of : List Entry → List Datom
keys_of es = map (λ e. e.key) es

abbrev refs_of : List Entry → List NodeRef
refs_of es = map (λ e. e.ref) es

module _ (store : NodeStore) (law : IsNodeStore store) (hashed : IsHashed store) (i : IndexId) where
  on_leaf :
      (fuel leaf_size fanout : ℕ) (r : NodeRef) (key : Option Datom) (xs : List Datom) (d : Datom)
      (novelty : List Datom) (s : store.State)
      → store.load s r ≡ some (leaf xs)
      → merge_node store i (suc fuel) leaf_size fanout r key (d ∷ novelty) s
        ≡ merge_leaf store i leaf_size r key xs (d ∷ novelty) s
  unfolding merge_node
  on_leaf fuel leaf_size fanout r key xs d novelty s h = rw (h, merge_node) refl

  on_dir :
      (fuel leaf_size fanout : ℕ) (r : NodeRef) (key : Option Datom) (es : List Entry) (d : Datom)
      (novelty : List Datom) (s : store.State)
      → store.load s r ≡ some (dir (keys_of es) (refs_of es))
      → merge_node store i (suc fuel) leaf_size fanout r key (d ∷ novelty) s
        ≡ regroup store i fanout r key
            (keys_of es)
            (merge_children store i (merge_node store i fuel leaf_size fanout) es (d ∷ novelty) s)
  unfolding merge_node
  on_dir fuel leaf_size fanout r key es d novelty s h =
      rw (h, merge_node)
        (ap
          (λ l.
            regroup store i fanout r key (keys_of es)
              (merge_children store i (merge_node store i fuel leaf_size fanout) l (d ∷ novelty) s))
          (entries_lem es))

  some_entry :
      (T : NodeRef → List Datom → Type 0) (es : List Entry) (ds : List Datom)
      → IsForest T es ds
      → 0 < length ds
      → 0 < length es
  some_entry T [] ds f p = absurd (omega (arith, ap length f, p))
  some_entry T (e ∷ es) ds f p = omega arith

  key_first :
      (key : Option Datom) (k : Datom) (ks zs : List Datom)
      → Heads key (k ∷ zs)
      → key_or key (k ∷ ks) ≡ some k
  unfolding key_or
  key_first none k ks zs h = refl
  key_first (some j) k ks zs (xs, e) = let q : j ≡ k = cc in ap some q

  Merged-after :
      (n : ℕ) (ds : List Datom) (s s1 : store.State) (o : Merging store i)
      → Keeps store s s1
      → Merged store law i n ds s1 o
      → Merged store law i n ds s o
  Merged-after n ds s s1 o k (es, s', e, k1, f) = (es, s', e, λ x m l. k1 x m (k x m l), f)

  regroup_lem :
      (fanout n : ℕ) (r : NodeRef) (key : Option Datom) (e : Entry) (es : List Entry)
      (ds old : List Datom) (s : store.State) (o : Option (List Entry × Bool × store.State))
      → 2 ≤ fanout
      → 0 < length ds
      → Heads key old
      → IsForest (IsTree store n s) (e ∷ es) old
      → store.load s r ≡ some (dir (keys_of (e ∷ es)) (refs_of (e ∷ es)))
      → MergedChildren store law hashed i n (e ∷ es) ds s o
      → Merged store law i (suc n) ds s (regroup store i fanout r key (keys_of (e ∷ es)) o)
  unfolding regroup
  regroup_lem fanout n r key e es ds old s o a p h f l (cs, true, s', q, k, g, u) =
      let m = length cs in
      let some_child = some_entry (IsTree store n s') cs ds g p in
      let groups = ceil_div m fanout in
      let (per, w) = split_one (ceil_div m groups) (
        ceil_div_positive m groups some_child
          (ceil_div_positive m fanout some_child (omega (arith, a)))) in
      let lev = level_lem store law i m per n cs ds s' (omega arith) g in
      rw (q, regroup)
        (subst (λ z. Merged store law i (suc n) ds s (some (build_level store i m z cs s'))) (sym w)
          (_, _, refl, (λ x y z. lev.0 x y (k x y z)), lev.1))
  regroup_lem fanout n r key e es ds old s o a p h (os, ot, oc, ov, of) l
        (cs, false, s', q, k, g, u) =
      let (xs, ys, c, t, f') = u refl in
      let key_is = key_first key e.key (keys_of es) (os ++ ot) (subst (Heads key) oc h) in
      rw (q, regroup)
        (subst
          (λ z. Merged store law i (suc n) z s (kept store i (key_or key (keys_of (e ∷ es))) r s'))
          (sym c)
          (Merged-after (suc n) (e.key ∷ (xs ++ ys)) s s' _ k (
            kept-Merged store law i (suc n) _ e.key (xs ++ ys) r s' key_is
              (e ∷ es, k r _ l, (xs, ys, refl, t, f')))))

  -- In a tree that is less deep than the fuel.
  merge_node-Merged :
      (fuel n leaf_size fanout : ℕ) (r : NodeRef) (key : Option Datom) (ds : List Datom) (d : Datom)
      (novelty : List Datom) (s : store.State)
      → n < fuel
      → 1 ≤ leaf_size
      → 2 ≤ fanout
      → IsTree store n s r ds
      → (0 < n → 0 < length ds)
      → Heads key ds
      → IsSorted (comparator_for i) ds
      → IsReady store law hashed i (d ∷ novelty)
      → Merged store law i n
          (sorted_union (comparator_for i) ds (d ∷ novelty))
          s
          (merge_node store i fuel leaf_size fanout r key (d ∷ novelty) s)
  merge_node-Merged zero n leaf_size fanout r key ds d novelty s h a b t p hd so ready =
      absurd (omega arith)
  merge_node-Merged (suc fuel) zero leaf_size fanout r key ds d novelty s h a b t p hd so ready =
      subst (Merged store law i 0 (sorted_union (comparator_for i) ds (d ∷ novelty)) s)
        (sym (on_leaf fuel leaf_size fanout r key ds d novelty s t))
        (merge_leaf-Merged store law i leaf_size r key ds d novelty s a hd t
          (union_some (comparator_for i) ds d novelty))
  merge_node-Merged (suc fuel) (suc n) leaf_size fanout r key ds d novelty s h a b ([], l, f) p hd
        so ready =
      absurd (omega (arith, ap length f, p (omega arith)))
  merge_node-Merged (suc fuel) (suc n) leaf_size fanout r key ds d novelty s h a b (e ∷ es, l, f) p
        hd so ready =
      let merge = merge_node store i fuel leaf_size fanout in
      let merges : Merges store law hashed i n merge = λ r k xs d novelty s t so ready.
        merge_node-Merged fuel n leaf_size fanout r (some k) (k ∷ xs) d novelty s (omega (arith, h))
          a b t (λ z. omega arith) (xs, refl) so ready in
      let all = sorted_union (comparator_for i) ds (d ∷ novelty) in
      subst (Merged store law i (suc n) all s)
        (sym (on_dir fuel leaf_size fanout r key (e ∷ es) d novelty s l))
        (regroup_lem fanout n r key e es all ds s _ b (union_some (comparator_for i) ds d novelty)
          hd f l
          (children_lem store law hashed i n merge merges (e ∷ es) ds (d ∷ novelty) s f so ready
            (λ z. absurd (clash z))))
    where
      clash : e ∷ es ≡ [] → ⊥
      clash z = cc

  merged_root_lem :
      (fanout n : ℕ) (es : List Entry) (s : store.State)
      → merged_root store i fanout (some (es, s)) ≡ build_levels store i (length es) fanout es s
  unfolding merged_root build_levels
  merged_root_lem fanout n [] s = refl
  merged_root_lem fanout n (e ∷ []) s = refl
  merged_root_lem fanout n (e ∷ f ∷ es) s = refl

  -- For a node store that loads what was put, never changes a stored node and addresses nodes by
  -- their hash, a stored tree with n levels of directories that holds datoms in strict order of
  -- the index (and at least one if n is not 0), fewer than 2^31 datoms of novelty in the same
  -- order, a leaf size of at least 1, a fanout of at least 2 and more fuel than n, `mergeTree`
  -- ends with a root in a state where all that could be loaded before still can, and the tree at
  -- the root holds exactly the union of the old tree's datoms and the novelty, as `sortedUnion`
  -- gives it, in order.
  pub merge_tree-IsRoot :
      (fuel n leaf_size fanout : ℕ) (root : NodeRef) (ds novelty : List Datom) (s : store.State)
      → n < fuel
      → 1 ≤ leaf_size
      → 2 ≤ fanout
      → IsTree store n s root ds
      → (0 < n → 0 < length ds)
      → IsSorted (comparator_for i) ds
      → IsSorted (comparator_for i) novelty
      → length novelty < 2 ^ 31
      → IsRoot store
          (merge_tree store i fuel leaf_size fanout root novelty s)
          s
          (sorted_union (comparator_for i) ds novelty)
  unfolding merge_tree
  merge_tree-IsRoot fuel n leaf_size fanout root ds [] s h a b t p so sn short = (
    root,
    s,
    n,
    refl,
    (λ r m l. l),
    subst (IsTree store n s root) (sym (union-nil (comparator_for i) ds)) t,
  )
  merge_tree-IsRoot fuel n leaf_size fanout root ds (d ∷ novelty) s h a b t p so sn short =
      let all = sorted_union (comparator_for i) ds (d ∷ novelty) in
      let (es, s', q, k, f) =
        merge_node-Merged fuel n leaf_size fanout root none ds d novelty s h a b t p tt so
          (sn, short) in
      let some_child =
        some_entry (IsTree store n s') es all f (union_some (comparator_for i) ds d novelty) in
      subst (λ o. IsRoot store (merged_root store i fanout o) s all) (sym q)
        (subst (λ o. IsRoot store o s all) (sym (merged_root_lem fanout n es s'))
          (IsRoot-after store law i (build_levels store i (length es) fanout es s') s s' all k
            (levels_lem store law i (length es) fanout n es all s' b some_child (omega arith) f)))
