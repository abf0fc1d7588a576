-- ===== src/Tree/Merge/Leaves.antt =====
-- What `mergeNode` does with a leaf.
use ramose.Base.{
  ℕ, ◌*◌, ◌/◌, ◌≤◌, ◌<◌, ◌≡◌, ◌∙◌, inl, inr, refl, sym, subst, Option, none, some, List, [], ◌∷◌,
  append-nil, arith, Bool-cases, leb, ◌==◌, length,
}
use ramose.Datom.{Datom, IndexId, comparator_for}
use ramose.Tree.{sorted_union}
use ramose.Tree.Store.{NodeRef, leaf, NodeStore, IsNodeStore}
use ramose.Tree.Build.{Entry, ceil_div, build_leaves}
use ramose.Tree.Build.Forest.{IsForest, IsTree, Keeps}
use ramose.Tree.Build.Whole.{split_one, leaves_lem}
use ramose.Tree.Build.Sizes.{ceil_div_positive}
use ramose.Tree.Merge.{Merging, key_or, kept, one_leaf, new_leaves, merge_leaf}
use ramose.Tree.Merge.Pieces.{union_same}

-- The key that was passed down is the first datom.
abbrev pub Heads : Option Datom → List Datom → Type 0
Heads none ds = Unit
Heads (some k) ds = (xs : List Datom) × (ds ≡ k ∷ xs)

pub key_or_lem :
    (key : Option Datom) (ds : List Datom)
    → Heads key ds
    → 0 < length ds
    → (k : Datom) × (xs : List Datom) × (key_or key ds ≡ some k) × (ds ≡ k ∷ xs)
unfolding key_or
key_or_lem (some k) ds (xs, e) p = (k, xs, refl, e)
key_or_lem none [] h p = absurd (omega (arith, p))
key_or_lem none (d ∷ ds) h p = (d, ds, refl, refl)

module _ (store : NodeStore) (law : IsNodeStore store) (i : IndexId) where
  -- The entries of trees, `n` directories deep, that hold `ds` between them.
  abbrev pub Merged : ℕ → List Datom → store.State → Merging store i → Type 0
  Merged n ds s o =
      (es : List Entry) × (s' : store.State) × (o ≡ some (es, s'))
      × Keeps store s s'
      × IsForest (IsTree store n s') es ds

  pub kept-Merged :
      (n : ℕ) (key : Option Datom) (k : Datom) (xs : List Datom) (r : NodeRef) (s : store.State)
      → key ≡ some k
      → IsTree store n s r (k ∷ xs)
      → Merged n (k ∷ xs) s (kept store i key r s)
  unfolding kept
  kept-Merged n key k xs r s e t = (
    record { key = k; ref = r } ∷ [],
    s,
    rw (e, kept) refl,
    (λ x m l. l),
    (xs, [], sym (append-nil (k ∷ xs)), t, refl),
  )

  one_leaf-Merged :
      (ds : List Datom) (s : store.State) → 0 < length ds → Merged 0 ds s (one_leaf store i ds s)
  unfolding one_leaf
  one_leaf-Merged [] s p = absurd (omega (arith, p))
  one_leaf-Merged (d ∷ ds) s p =
      let q = store.put i (leaf (d ∷ ds)) s in
      (
        record { key = d; ref = q.0 } ∷ [],
        q.1,
        refl,
        (λ r m l. law.put_keeps i (leaf (d ∷ ds)) s r m l),
        (ds, [], sym (append-nil (d ∷ ds)), law.load-put i (leaf (d ∷ ds)) s, refl),
      )

  new_leaves-Merged :
      (leaf_size : ℕ) (ds : List Datom) (s : store.State)
      → 1 ≤ leaf_size
      → 0 < length ds
      → Merged 0 ds s (new_leaves store i leaf_size ds s)
  unfolding new_leaves
  new_leaves-Merged leaf_size ds s a p = elim (Bool-cases (leb (length ds) (leaf_size * 3 / 2))) [
    | inl e ↦ rw e (one_leaf-Merged ds s p)
    | inr e ↦
        let n = length ds in
        let leaves = ceil_div n leaf_size in
        let (per, q) =
          split_one (ceil_div n leaves)
            (ceil_div_positive n leaves p (ceil_div_positive n leaf_size p a)) in
        let l = leaves_lem store law i n per ds s (omega arith) in
        rw e (
          subst (λ k. Merged 0 ds s (some (build_leaves store i n k ds s))) (sym q)
            (_, _, refl, l.0, l.1))
  ]

  pub merge_leaf-Merged :
      (leaf_size : ℕ) (r : NodeRef) (key : Option Datom) (ds : List Datom) (d : Datom)
      (novelty : List Datom) (s : store.State)
      → 1 ≤ leaf_size
      → Heads key ds
      → IsTree store 0 s r ds
      → 0 < length (sorted_union (comparator_for i) ds (d ∷ novelty))
      → Merged 0
          (sorted_union (comparator_for i) ds (d ∷ novelty))
          s
          (merge_leaf store i leaf_size r key ds (d ∷ novelty) s)
  unfolding merge_leaf
  merge_leaf-Merged leaf_size r key ds d novelty s a h t p =
      let c = comparator_for i in
      let all = sorted_union c ds (d ∷ novelty) in
      elim (Bool-cases (length all == length ds)) [
        | inl e ↦
            let same : all ≡ ds = union_same c ds (d ∷ novelty) (ground (arith, e)) in
            let (k, xs, q, w) = key_or_lem key ds h (ground (arith, e, p)) in
            rw e (
              subst (λ l. Merged 0 l s (kept store i (key_or key ds) r s)) (sym (same ∙ w))
                (kept-Merged 0 (key_or key ds) k xs r s q (subst (IsTree store 0 s r) w t)))
        | inr e ↦ rw e (new_leaves-Merged leaf_size all s a p)
      ]
