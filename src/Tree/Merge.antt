-- ===== src/Tree/Merge.antt =====
-- `mergeNode` and `mergeTree` of tree.ts. The novelty of a child is the list `novelty[lo..hi)` itself,
-- and a position in it counts from `lo`.
pub mod Pieces
pub mod Unchanged
pub mod Shares
pub mod Leaves
pub mod Children
pub mod Whole
use ramose.Base.{
  ℕ, zero, suc, ◌+◌, ◌*◌, ◌/◌, Bool, true, false, ◌&&◌, ◌||◌, not, Option, none, some, List, [],
  ◌∷◌, ◌++◌, leb, ◌==◌, length, take, drop, get_elem?, if◌then◌else◌,
}
use ramose.Datom.{Datom, IndexId, comparator_for}
use ramose.Datom.Text.{strings_equal}
use ramose.Tree.{bisect, is_lt, sorted_union}
use ramose.Tree.Store.{NodeRef, TreeNode, leaf, dir, NodeStore}
use ramose.Tree.Build.{Entry, ceil_div, build_leaves, build_level, build_levels}
use ramose.Tree.Scan.{entries}

-- `key ?? datoms[0]`
unfoldable pub key_or : Option Datom → List Datom → Option Datom
key_or (some k) ds = some k
key_or none ds = get_elem? ds 0

-- `sub.length === 1 && sub[0].ref.hash === ref.hash`
unfoldable pub is_same : List Entry → NodeRef → Bool
unfolding strings_equal
is_same [] r = false
is_same (e ∷ []) r = strings_equal e.ref.hash r.hash
is_same (e ∷ f ∷ es) r = false

-- How much of the novelty belongs to a child, before the key of the next one.
unfoldable pub share : IndexId → List Entry → List Datom → ℕ
unfolding bisect comparator_for
share i [] novelty = length novelty
share i (e ∷ es) novelty =
    bisect (length novelty + 1) (λ d. is_lt (comparator_for i d e.key)) novelty 0 (length novelty)

module _ (store : NodeStore) (i : IndexId) where
  -- A call's entries and the state behind it. None is a rejected promise, or an entry whose key would
  -- be `undefined`.
  abbrev pub Merging : Type 0
  Merging = Option (List Entry × store.State)

  -- `return [{ key: key, ref }]`
  unfoldable pub kept : Option Datom → NodeRef → store.State → Merging
  kept none r s = none
  kept (some k) r s = some (record { key = k; ref = r } ∷ [], s)

  unfoldable pub one_leaf : List Datom → store.State → Merging
  one_leaf [] s = none
  one_leaf (d ∷ ds) s =
      let p = store.put i (leaf (d ∷ ds)) s in some (record { key = d; ref = p.0 } ∷ [], p.1)

  -- The new leaf, or, where it is longer than one and a half leaves, the leaves that it is cut into.
  unfoldable pub new_leaves : ℕ → List Datom → store.State → Merging
  unfolding one_leaf build_leaves ceil_div
  new_leaves leaf_size merged s =
      let n = length merged in
      if leb n (leaf_size * 3 / 2)
      then one_leaf merged s
      else some (build_leaves store i n (ceil_div n (ceil_div n leaf_size)) merged s)

  unfoldable pub merge_leaf :
      ℕ → NodeRef → Option Datom → List Datom → List Datom → store.State → Merging
  unfolding kept key_or new_leaves sorted_union comparator_for
  merge_leaf leaf_size r key ds novelty s =
      let merged = sorted_union (comparator_for i) ds novelty in
      if length merged == length ds then kept (key_or key ds) r s else new_leaves leaf_size merged s

  -- The loop over the children, with the merge of one child as an argument. The Boolean is `changed`.
  module _ (merge : NodeRef → Option Datom → List Datom → store.State → Merging) where
    unfoldable pub merge_child :
        Entry → List Datom → store.State → Option (List Entry × Bool × store.State)
    unfolding is_same
    merge_child e [] s = some (e ∷ [], false, s)
    merge_child e (d ∷ ds) s = elim (merge e.ref (some e.key) (d ∷ ds) s) [
      | none ↦ none
      | some r ↦ some (r.0, not (is_same r.0 e.ref), r.1)
    ]

    unfoldable pub merge_children :
        List Entry → List Datom → store.State → Option (List Entry × Bool × store.State)
    unfolding merge_child share
    merge_children [] novelty s = some ([], false, s)
    merge_children (e ∷ es) novelty s =
        let k = share i es novelty in
        elim (merge_child e (take k novelty) s) [
          | none ↦ none
          | some r ↦ elim (merge_children es (drop k novelty) r.2) [
            | none ↦ none
            | some q ↦ some (r.0 ++ q.0, r.1 || q.1, q.2)
          ]
        ]

  -- The new directories, of at most `fanout` children.
  unfoldable pub regroup :
      ℕ → NodeRef → Option Datom → List Datom → Option (List Entry × Bool × store.State) → Merging
  unfolding kept key_or build_level ceil_div
  regroup fanout r key keys none = none
  regroup fanout r key keys (some (es, changed, s)) =
      let n = length es in
      if changed
      then some (build_level store i n (ceil_div n (ceil_div n fanout)) es s)
      else kept (key_or key keys) r s

  -- Fuel bounds the depth.
  unfoldable pub merge_node :
      ℕ → ℕ → ℕ → NodeRef → Option Datom → List Datom → store.State → Merging
  unfolding kept merge_leaf merge_children regroup entries
  merge_node fuel leaf_size fanout r key [] s = kept key r s
  merge_node zero leaf_size fanout r key (d ∷ ds) s = none
  merge_node (suc fuel) leaf_size fanout r key (d ∷ ds) s = elim (store.load s r) [
    | none ↦ none
    | some n ↦ elim n [
      | leaf xs ↦ merge_leaf leaf_size r key xs (d ∷ ds) s
      | dir keys refs ↦
          regroup fanout r key keys
            (merge_children (merge_node fuel leaf_size fanout) (entries keys refs) (d ∷ ds) s)
    ]
  ]

  -- `entries.length === 1 ? entries[0].ref : buildLevels(…)`
  unfoldable pub merged_root : ℕ → Merging → Option (NodeRef × store.State)
  unfolding build_levels
  merged_root fanout none = none
  merged_root fanout (some (e ∷ [], s)) = some (e.ref, s)
  merged_root fanout (some (es, s)) = build_levels store i (length es) fanout es s

  unfoldable pub merge_tree :
      ℕ → ℕ → ℕ → NodeRef → List Datom → store.State → Option (NodeRef × store.State)
  unfolding merge_node merged_root
  merge_tree fuel leaf_size fanout root [] s = some (root, s)
  merge_tree fuel leaf_size fanout root (d ∷ ds) s =
      merged_root fanout (merge_node fuel leaf_size fanout root none (d ∷ ds) s)
