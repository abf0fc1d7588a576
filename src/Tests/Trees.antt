-- ===== src/Tests/Trees.antt =====
-- A tree of two leaves, built in a store that keeps every node it was given.
use ramose.Base.{
  All, keep, ℕ, ◌-◌, ◌<◌, ◌≡◌, refl, Option, none, some, List, [], ◌∷◌, arith, ◌==◌, length,
  if◌then◌else◌,
}
use ramose.Datom.{eavt, Prefix, compare_prefix}
use ramose.Tree.{Chunk, is_lt}
use ramose.Tree.Bounds.{is_eq}
use ramose.Tree.Scan.{scan}
use ramose.Tree.Chunks.{IsChunk, stream}
use ramose.Tree.Scan.Whole.{scan-keep}
use ramose.Tree.Search.{passing}
use ramose.Tree.Shapes.{has, IsSameShape, prefix_comparator, prefix_comparator-compare_prefix}
use ramose.Tree.Walk.{tree_depth, tree_depth-IsTree, child_for_prefix, child_for_prefix-passing}
use ramose.Tree.Store.{NodeRef, leaf_kind, dir_kind, TreeNode, leaf, dir, NodeStore, IsNodeStore}
use ramose.Tree.Build.{build_tree}
use ramose.Tree.Build.Forest.{IsRoot, IsTree}
use ramose.Tree.Build.Whole.{build_tree-IsRoot}
use ramose.Tests.Data.{history, history-IsSorted, one_entity, fact, gone}

-- The node that was stored when there were `k` others.
unfoldable pub numbered : List TreeNode → ℕ → Option TreeNode
numbered [] k = none
numbered (n ∷ ns) k = let rest = numbered ns k in if k == length ns then some n else rest

numbered-lt : (ns : List TreeNode) (k : ℕ) (m : TreeNode) → numbered ns k ≡ some m → k < length ns
unfolding numbered
numbered-lt [] k m h = cc
numbered-lt (n ∷ ns) k m h = ground (arith, numbered-lt ns k m)

pub numbered_keeps :
    (n : TreeNode) (ns : List TreeNode) (k : ℕ) (m : TreeNode)
    → numbered ns k ≡ some m
    → numbered (n ∷ ns) k ≡ some m
unfolding numbered
numbered_keeps n ns k m h = ground (arith, numbered-lt ns k m h)

pub numbered_last : (n : TreeNode) (ns : List TreeNode) → numbered (n ∷ ns) (length ns) ≡ some n
unfolding numbered
numbered_last n ns = ground arith

abbrev pub counting : NodeStore
counting = record {
  State = List TreeNode;
  put = λ i n s. (record { hash = []; kind = leaf_kind; count = length s }, n ∷ s);
  load = λ s r. numbered s r.count;
}

counting-IsNodeStore : IsNodeStore counting
counting-IsNodeStore = record {
  load-put = λ i n s. numbered_last n s;
  put_keeps = λ i n s r m h. numbered_keeps n s r.count m h;
}

build_tree-IsRoot_example : IsRoot counting (build_tree counting eavt 2 2 history []) [] history
build_tree-IsRoot_example =
    build_tree-IsRoot counting counting-IsNodeStore eavt 2 2 history [] (omega arith) (omega arith)

-- A directory over a leaf.
abbrev one_leaf : NodeRef
one_leaf = record { hash = []; kind = leaf_kind; count = 0 }

abbrev pub root : NodeRef
root = record { hash = []; kind = dir_kind; count = 1 }

abbrev pub nodes : List TreeNode
nodes = dir (fact 1 5 100 ∷ []) (one_leaf ∷ []) ∷ leaf history ∷ []

pub root-IsTree : IsTree counting 1 nodes root history
unfolding numbered
root-IsTree = (
  record { key = fact 1 5 100; ref = one_leaf } ∷ [],
  refl,
  (gone 1 5 101 ∷ fact 1 7 101 ∷ fact 2 5 102 ∷ [], [], refl, refl, refl),
)

tree_depth-IsTree_example : tree_depth counting nodes 2 1 root ≡ some 2
tree_depth-IsTree_example =
    tree_depth-IsTree counting nodes 1 root history root-IsTree (omega arith)

child_for_prefix-passing_example :
    child_for_prefix eavt history one_entity
    ≡ passing (λ k. is_lt (compare_prefix eavt k one_entity)) history - 1
child_for_prefix-passing_example =
    child_for_prefix-passing eavt history one_entity history-IsSorted (omega arith)

abbrev other_entity : Prefix
other_entity = record { e = some 2; a = some 10; v = none; t = none }

shapes_agree : IsSameShape one_entity other_entity
unfolding has
shapes_agree = record { e_same = refl; a_same = refl; v_same = refl; t_same = refl }

prefix_comparator-compare_prefix_example :
    prefix_comparator eavt one_entity (fact 2 5 102) other_entity
    ≡ compare_prefix eavt (fact 2 5 102) other_entity
prefix_comparator-compare_prefix_example =
    prefix_comparator-compare_prefix eavt one_entity other_entity (fact 2 5 102) shapes_agree

scan-keep_example :
    (cs : List Chunk) × (scan eavt one_entity counting nodes 10 root ≡ some cs)
    × (stream cs ≡ keep (λ d. is_eq (compare_prefix eavt d one_entity)) history)
    × All IsChunk cs
scan-keep_example =
    scan-keep eavt one_entity counting nodes 1 10 root history root-IsTree (λ k. omega arith)
      history-IsSorted (omega arith) (omega arith)
