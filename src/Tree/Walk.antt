-- ===== src/Tree/Walk.antt =====
-- `childForPrefix` and `treeDepth` of tree.ts.
use ramose.Base.{
  ℕ, zero, suc, ◌+◌, ◌-◌, ◌^◌, ◌<◌, ◌≡◌, ◌∙◌, ap, Option, none, some, List, [], ◌∷◌, arith, ◌==◌,
  length, if◌then◌else◌,
}
use ramose.Base.Sorted.{IsSorted}
use ramose.Datom.{Datom, IndexId, Prefix, compare_prefix, comparator_for}
use ramose.Tree.{is_lt, bisect, lower_bound}
use ramose.Tree.Search.{passing}
use ramose.Tree.Bounds.{lower_bound-passing}
use ramose.Tree.Store.{NodeRef, leaf, dir, NodeStore}
use ramose.Tree.Build.Forest.{IsTree}

-- `lo === 0 ? 0 : lo - 1`, behind the loop of `lowerBound` over the keys of a directory.
unfoldable pub child_for_prefix : IndexId → List Datom → Prefix → ℕ
unfolding bisect
child_for_prefix i keys p =
    let lo = bisect (length keys + 1) (λ k. is_lt (compare_prefix i k p)) keys 0 (length keys) in
    if lo == 0 then 0 else lo - 1

module _ (store : NodeStore) (s : store.State) where
  -- The first child; none is the `TypeError` of a directory without children.
  unfoldable pub tree_depth : ℕ → ℕ → NodeRef → Option ℕ
  tree_depth zero d r = none
  tree_depth (suc fuel) d r = elim (store.load s r) [
    | none ↦ none
    | some n ↦ elim n [
      | leaf ds ↦ some d
      | dir keys refs ↦ elim refs [ [] ↦ none | c ∷ cs ↦ tree_depth fuel (d + 1) c ]
    ]
  ]

  depth_leaf :
      (fuel d : ℕ) (r : NodeRef) (ds : List Datom)
      → store.load s r ≡ some (leaf ds)
      → tree_depth (suc fuel) d r ≡ some d
  unfolding tree_depth
  depth_leaf fuel d r ds h = rw (h, tree_depth)

  depth_dir :
      (fuel d : ℕ) (r : NodeRef) (keys : List Datom) (c : NodeRef) (cs : List NodeRef)
      → store.load s r ≡ some (dir keys (c ∷ cs))
      → tree_depth (suc fuel) d r ≡ tree_depth fuel (d + 1) c
  unfolding tree_depth
  depth_dir fuel d r keys c cs h = rw (h, tree_depth)

  tree_depth-from :
      (n d : ℕ) (r : NodeRef) (ds : List Datom)
      → IsTree store n s r ds
      → 0 < length ds
      → tree_depth (suc n) d r ≡ some (d + n)
  tree_depth-from zero d r ds h p = depth_leaf 0 d r ds h ∙ ap some (omega arith)
  tree_depth-from (suc n) d r ds ([], l, f) p = absurd (ground (arith, p, f))
  tree_depth-from (suc n) d r ds (e ∷ es, l, (xs, ys, c, t, f)) p =
      depth_dir (suc n) d r _ e.ref _ l
      ∙ (tree_depth-from n (d + 1) e.ref (e.key ∷ xs) t (omega arith) ∙ ap some (omega arith))

  -- For a stored tree with n levels of directories that holds at least one datom, `treeDepth` on
  -- fuel n + 1 gives n + 1.
  pub tree_depth-IsTree :
      (n : ℕ) (r : NodeRef) (ds : List Datom)
      → IsTree store n s r ds
      → 0 < length ds
      → tree_depth (suc n) 1 r ≡ some (suc n)
  tree_depth-IsTree n r ds h p = tree_depth-from n 1 r ds h p ∙ ap some (omega arith)

-- For fewer than 2^31 keys, strictly sorted in an index's order, `childForPrefix` gives one less
-- than the number of keys below the prefix as a linear scan counts them, or 0 where there is
-- none.
pub child_for_prefix-passing :
    (i : IndexId) (keys : List Datom) (p : Prefix)
    → IsSorted (comparator_for i) keys
    → length keys < 2 ^ 31
    → child_for_prefix i keys p ≡ passing (λ k. is_lt (compare_prefix i k p)) keys - 1
unfolding child_for_prefix lower_bound
child_for_prefix-passing i keys p s h =
    let e = lower_bound-passing i keys p s h in ground (arith, e)
