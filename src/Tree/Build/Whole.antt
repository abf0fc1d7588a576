-- ===== src/Tree/Build/Whole.antt =====
-- `buildTree` stores a tree that holds the datoms it was given.
use ramose.Base.{
  ℕ, zero, suc, ◌+◌, ◌*◌, ◌≤◌, ◌<◌, ◌≡◌, ◌∙◌, refl, sym, ap, subst, Option, List, [], ◌∷◌, ◌++◌,
  append_assoc, append-nil, map, arith, length, take, drop, take-append-drop, length-drop,
}
use ramose.Datom.{Datom, IndexId}
use ramose.Tree.Store.{NodeRef, leaf, dir, NodeStore, IsNodeStore}
use ramose.Tree.Build.{Entry, ceil_div, build_leaves, build_level, build_levels, build_tree}
use ramose.Tree.Build.Forest.{
  IsForest, IsTree, Keeps, IsRoot, IsForest-keeps, IsTree-Keeps, IsForest-split,
}
use ramose.Tree.Build.Sizes.{ceil_div_positive, ceil_div-lt, ceil_div-ge}

pub split_one : (n : ℕ) → 0 < n → (k : ℕ) × (n ≡ suc k)
split_one zero h = absurd (omega arith)
split_one (suc k) h = (k, refl)

split_two : (n : ℕ) → 2 ≤ n → (k : ℕ) × (n ≡ suc (suc k))
split_two zero h = absurd (omega arith)
split_two (suc zero) h = absurd (omega arith)
split_two (suc (suc k)) h = (k, refl)

module _ (store : NodeStore) (law : IsNodeStore store) (i : IndexId) where
  pub leaves_lem :
      (fuel per : ℕ) (ds : List Datom) (s : store.State)
      → length ds ≤ fuel
      → let r = build_leaves store i fuel (suc per) ds s in
        Keeps store s r.1 × IsForest (IsTree store 0 r.1) r.0 ds
  unfolding build_leaves
  leaves_lem zero per [] s h = (λ r m l. l, refl)
  leaves_lem (suc fuel) per [] s h = (λ r m l. l, refl)
  leaves_lem zero per (d ∷ ds) s h = absurd (omega arith)
  leaves_lem (suc fuel) per (d ∷ ds) s h =
      let node = leaf (d ∷ take per ds) in
      let p = store.put i node s in
      let ih = leaves_lem fuel per (drop per ds) p.1 (omega (arith, length-drop per ds)) in
      (
        λ r m l. ih.0 r m (law.put_keeps i node s r m l),
        (
          take per ds,
          drop per ds,
          ap (λ l. d ∷ l) (sym (take-append-drop per ds)),
          ih.0 p.0 node (law.load-put i node s),
          ih.1,
        ),
      )

  pub level_lem :
      (fuel per n : ℕ) (es : List Entry) (ds : List Datom) (s : store.State)
      → length es ≤ fuel
      → IsForest (IsTree store n s) es ds
      → let r = build_level store i fuel (suc per) es s in
        Keeps store s r.1 × IsForest (IsTree store (suc n) r.1) r.0 ds
  unfolding build_level
  level_lem zero per n [] ds s h f = (λ r m l. l, f)
  level_lem (suc fuel) per n [] ds s h f = (λ r m l. l, f)
  level_lem zero per n (e ∷ es) ds s h f = absurd (omega arith)
  level_lem (suc fuel) per n (e ∷ es) ds s h (xs, ys, p, t, f) =
      let slice = e ∷ take per es in
      let node = dir (map (λ x. x.key) slice) (map (λ x. x.ref) slice) in
      let q = store.put i node s in
      let k : Keeps store s q.1 = λ r m l. law.put_keeps i node s r m l in
      let (us, vs, c, front, back) = IsForest-split (IsTree store n s) per es ys f in
      let ih = level_lem fuel per n (drop per es) vs q.1 (omega (arith, length-drop per es)) (
        IsForest-keeps store (IsTree store n s) (IsTree store n q.1) (IsTree-Keeps store n s q.1 k)
          (drop per es) vs back) in
      let all : Keeps store s (build_level store i fuel (suc per) (drop per es) q.1).1 =
        λ r m l. ih.0 r m (k r m l) in
      (
        all,
        (
          xs ++ us,
          vs,
          p ∙ ap (λ l. e.key ∷ l) (ap (λ l. xs ++ l) c ∙ sym (append_assoc xs us vs)),
          (
            slice,
            ih.0 q.0 node (law.load-put i node s),
            IsForest-keeps store (IsTree store n s) (IsTree store n _)
                (IsTree-Keeps store n s _ all) slice (e.key ∷ (xs ++ us)) (xs, us, refl, t, front),
          ),
          ih.1,
        ),
      )

  -- Groups of at least two shorten a level, and leave something of it.
  length-level :
      (fuel per : ℕ) (es : List Entry) (s : store.State)
      → length es ≤ fuel
      → (2 * length (build_level store i fuel (suc (suc per)) es s).0 ≤ length es + 1)
        × (0 < length es → 0 < length (build_level store i fuel (suc (suc per)) es s).0)
  unfolding build_level
  length-level zero per [] s h = (omega arith, λ k. k)
  length-level (suc fuel) per [] s h = (omega arith, λ k. k)
  length-level zero per (e ∷ es) s h = absurd (omega arith)
  length-level (suc fuel) per (e ∷ []) s h = (omega arith, λ k. k)
  length-level (suc fuel) per (e ∷ f ∷ es) s h =
      let slice = e ∷ f ∷ take per es in
      let q = store.put i (dir (map (λ x. x.key) slice) (map (λ x. x.ref) slice)) s in
      let ih = length-level fuel per (drop per es) q.1 (omega (arith, length-drop per es)) in
      (omega (arith, ih.0, length-drop per es), λ k. omega arith)

  pub IsRoot-after :
      (o : Option (NodeRef × store.State)) (s s1 : store.State) (ds : List Datom)
      → Keeps store s s1
      → IsRoot store o s1 ds
      → IsRoot store o s ds
  IsRoot-after o s s1 ds k (r, s', depth, e, k1, t) =
      (r, s', depth, e, λ x m l. k1 x m (k x m l), t)

  pub levels_lem :
      (fuel fanout n : ℕ) (es : List Entry) (ds : List Datom) (s : store.State)
      → 2 ≤ fanout
      → 0 < length es
      → length es ≤ fuel
      → IsForest (IsTree store n s) es ds
      → IsRoot store (build_levels store i fuel fanout es s) s ds
  unfolding build_levels
  levels_lem fuel fanout n [] ds s f p h t = absurd (omega arith)
  levels_lem fuel fanout n (e ∷ []) ds s f p h (xs, ys, c, t, z) = (
    e.ref,
    s,
    n,
    refl,
    λ r m l. l,
    subst (IsTree store n s e.ref) (sym (c ∙ one_tree e xs ys z)) t,
  )
    where
      one_tree : (e : Entry) (xs ys : List Datom) → ys ≡ [] → (e.key ∷ xs) ++ ys ≡ e.key ∷ xs
      one_tree e xs ys z = rw (z, append-nil xs)
  levels_lem zero fanout n (e ∷ e' ∷ es) ds s f p h t = absurd (omega arith)
  levels_lem (suc fuel) fanout n (e ∷ e' ∷ es) ds s f p h t =
      let all = e ∷ e' ∷ es in
      let len = length all in
      let groups = ceil_div len fanout in
      let two =
        ceil_div-ge len groups (ceil_div_positive len fanout p (omega arith))
          (ceil_div-lt len fanout (omega arith) f) in
      let (per, e2) = split_two (ceil_div len groups) two in
      let l = level_lem len (suc per) n all ds s (omega arith) t in
      let c = length-level len per all s (omega arith) in
      let r = build_level store i len (suc (suc per)) all s in
      subst
        (λ k.
          IsRoot store
            (build_levels store i fuel fanout (build_level store i len k all s).0
              (build_level store i len k all s).1)
            s ds)
        (sym e2)
        (IsRoot-after (build_levels store i fuel fanout r.0 r.1) s r.1 ds l.0
          (levels_lem fuel fanout (suc n) r.0 ds r.1 f (c.1 p) (omega (arith, c.0, h)) l.1))

  build_leaves_some :
      (fuel per : ℕ) (d : Datom) (ds : List Datom) (s : store.State)
      → 0 < length (build_leaves store i (suc fuel) per (d ∷ ds) s).0
  unfolding build_leaves
  build_leaves_some fuel per d ds s = omega arith

  length-leaves :
      (fuel per : ℕ) (ds : List Datom) (s : store.State)
      → length ds ≤ fuel
      → length (build_leaves store i fuel (suc per) ds s).0 ≤ length ds
  unfolding build_leaves
  length-leaves zero per [] s h = omega arith
  length-leaves (suc fuel) per [] s h = omega arith
  length-leaves zero per (d ∷ ds) s h = absurd (omega arith)
  length-leaves (suc fuel) per (d ∷ ds) s h =
      let p = store.put i (leaf (d ∷ take per ds)) s in
      omega (
        arith,
        length-leaves fuel per (drop per ds) p.1 (omega (arith, length-drop per ds)),
        length-drop per ds,
      )

  -- For a node store that loads what was put and never changes a stored node, a leaf size of at
  -- least 1 and a fanout of at least 2, `buildTree` of any list of datoms ends with a root in a
  -- state where all that could be loaded before still can; the tree at the root has its leaves at
  -- one depth, every entry of a directory carries the first datom of its subtree, and the leaves
  -- from left to right hold exactly the given datoms in order.
  pub build_tree-IsRoot :
      (leaf_size fanout : ℕ) (ds : List Datom) (s : store.State)
      → 1 ≤ leaf_size
      → 2 ≤ fanout
      → IsRoot store (build_tree store i leaf_size fanout ds s) s ds
  unfolding build_tree
  build_tree-IsRoot leaf_size fanout [] s a b =
      let p = store.put i (leaf []) s in
      (p.0, p.1, 0, refl, (λ r m l. law.put_keeps i (leaf []) s r m l), law.load-put i (leaf []) s)
  build_tree-IsRoot leaf_size fanout (d ∷ ds) s a b =
      let len = length (d ∷ ds) in
      let leaves = ceil_div len leaf_size in
      let (per, e) = split_one (ceil_div len leaves) (
        ceil_div_positive len leaves (omega arith)
          (ceil_div_positive len leaf_size (omega arith) a)) in
      let l = leaves_lem len per (d ∷ ds) s (omega arith) in
      let r = build_leaves store i len (suc per) (d ∷ ds) s in
      subst
        (λ k.
          IsRoot store
            (build_levels store i len fanout (build_leaves store i len k (d ∷ ds) s).0
              (build_leaves store i len k (d ∷ ds) s).1)
            s (d ∷ ds))
        (sym e)
        (IsRoot-after (build_levels store i len fanout r.0 r.1) s r.1 (d ∷ ds) l.0 (
          levels_lem len fanout 0 r.0 (d ∷ ds) r.1 b
            (build_leaves_some (length ds) (suc per) d ds s)
            (length-leaves len per (d ∷ ds) s (omega arith)) l.1))
