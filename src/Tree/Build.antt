-- ===== src/Tree/Build.antt =====
-- `buildTree` and `buildLevels` of tree.ts.
pub mod Forest
pub mod Sizes
pub mod Whole
use ramose.Base.{
  ℕ, zero, suc, ◌+◌, ◌-◌, ◌/◌, Option, none, some, List, [], ◌∷◌, map, length, take, drop,
}
use ramose.Datom.{Datom, IndexId}
use ramose.Tree.Store.{NodeRef, TreeNode, leaf, dir, NodeStore}

-- A child of a directory: the first datom of its subtree, and its reference.
pub record Entry : Type 0 where
  pub key : Datom
  pub ref : NodeRef

-- `Math.ceil(n / m)`
unfoldable pub ceil_div : ℕ → ℕ → ℕ
ceil_div n m = (n + m - 1) / m

module _ (store : NodeStore) (i : IndexId) where
  -- `for (let i = 0; i < sorted.length; i += per)`, on what is left of the datoms.
  unfoldable pub build_leaves : ℕ → ℕ → List Datom → store.State → List Entry × store.State
  build_leaves fuel per [] s = ([], s)
  build_leaves zero per (d ∷ ds) s = ([], s)
  build_leaves (suc fuel) per (d ∷ ds) s =
      let p = store.put i (leaf (take per (d ∷ ds))) s in
      let r = build_leaves fuel per (drop per (d ∷ ds)) p.1 in
      (record { key = d; ref = p.0 } ∷ r.0, r.1)

  -- `for (let g = 0; g < level.length; g += per)`, on what is left of the level.
  unfoldable pub build_level : ℕ → ℕ → List Entry → store.State → List Entry × store.State
  build_level fuel per [] s = ([], s)
  build_level zero per (e ∷ es) s = ([], s)
  build_level (suc fuel) per (e ∷ es) s =
      let slice = take per (e ∷ es) in
      let p = store.put i (dir (map (λ x. x.key) slice) (map (λ x. x.ref) slice)) s in
      let r = build_level fuel per (drop per (e ∷ es)) p.1 in
      (record { key = e.key; ref = p.0 } ∷ r.0, r.1)

  -- `while (level.length > 1)`. An empty level has no root; `buildTree` makes none.
  unfoldable pub build_levels : ℕ → ℕ → List Entry → store.State → Option (NodeRef × store.State)
  unfolding build_level ceil_div
  build_levels fuel fanout [] s = none
  build_levels fuel fanout (e ∷ []) s = some (e.ref, s)
  build_levels zero fanout (e ∷ f ∷ es) s = none
  build_levels (suc fuel) fanout (e ∷ f ∷ es) s =
      let n = length (e ∷ f ∷ es) in
      let per = ceil_div n (ceil_div n fanout) in
      let r = build_level n per (e ∷ f ∷ es) s in build_levels fuel fanout r.0 r.1

  unfoldable pub build_tree : ℕ → ℕ → List Datom → store.State → Option (NodeRef × store.State)
  unfolding build_leaves build_levels ceil_div
  build_tree leaf_size fanout [] s = some (store.put i (leaf []) s)
  build_tree leaf_size fanout (d ∷ ds) s =
      let n = length (d ∷ ds) in
      let r = build_leaves n (ceil_div n (ceil_div n leaf_size)) (d ∷ ds) s in
      build_levels n fanout r.0 r.1
