-- ===== src/Tests/Merges.antt =====
-- Novelty merged into a stored tree, in a store that tells its nodes apart by the length of their hash.
use ramose.Base.{zero, suc, ℕ, ◌≡◌, refl, ap, List, [], ◌∷◌, arith, length}
use ramose.Base.Int.{compare_ℤ}
use ramose.Base.Sorted.{IsSorted}
use ramose.Datom.{
  CodeUnit, Datom, eavt, cmp_eavt, comparator_for, compare_value, compare_payload, tag,
}
use ramose.Tree.{sorted_union}
use ramose.Tree.Store.{NodeRef, leaf_kind, dir_kind, TreeNode, leaf, dir, NodeStore, IsNodeStore}
use ramose.Tree.Build.Forest.{IsRoot, IsTree}
use ramose.Tree.Merge.{merge_tree}
use ramose.Tree.Merge.Unchanged.{IsHashed}
use ramose.Tree.Merge.Whole.{merge_tree-IsRoot}
use ramose.Tests.Data.{history, history-IsSorted, fact, gone}
use ramose.Tests.Trees.{numbered, numbered_last, numbered_keeps}
use ramose.Tests.Segments.{letter}

-- A text of `n` letters.
pub letters : ℕ → List CodeUnit
letters zero = []
letters (suc n) = letter ∷ letters n

length-letters : (n : ℕ) → length (letters n) ≡ n
unfolding letters
length-letters zero = refl
length-letters (suc n) = ap suc (length-letters n)

abbrev pub hashing : NodeStore
hashing = record {
  State = List TreeNode;
  put = λ i n s. (record { hash = letters (length s); kind = leaf_kind; count = 0 }, n ∷ s);
  load = λ s r. numbered s (length r.hash);
}

pub hashing-IsNodeStore : IsNodeStore hashing
hashing-IsNodeStore = record {
  load-put = λ i n s. rw (length-letters (length s)) (numbered_last n s);
  put_keeps = λ i n s r m h. numbered_keeps n s (length r.hash) m h;
}

pub hashing-IsHashed : IsHashed hashing
hashing-IsHashed = record { load_by_hash = λ s r r' h. ap (λ u. numbered s (length u)) h }

abbrev pub one_leaf : NodeRef
one_leaf = record { hash = []; kind = leaf_kind; count = 0 }

abbrev root : NodeRef
root = record { hash = letter ∷ []; kind = dir_kind; count = 0 }

abbrev nodes : List TreeNode
nodes = dir (fact 1 5 100 ∷ []) (one_leaf ∷ []) ∷ leaf history ∷ []

root-IsTree : IsTree hashing 1 nodes root history
unfolding numbered
root-IsTree = (
  record { key = fact 1 5 100; ref = one_leaf } ∷ [],
  refl,
  (gone 1 5 101 ∷ fact 1 7 101 ∷ fact 2 5 102 ∷ [], [], refl, refl, refl),
)

abbrev later : List Datom
later = gone 1 7 103 ∷ fact 2 6 103 ∷ []

later-IsSorted : IsSorted (comparator_for eavt) later
unfolding comparator_for cmp_eavt compare_value compare_payload compare_ℤ tag
later-IsSorted = ((refl, tt), (tt, tt))

merge_tree-IsRoot_example :
    IsRoot hashing
      (merge_tree hashing eavt 5 3 2 root later nodes)
      nodes
      (sorted_union (comparator_for eavt) history later)
merge_tree-IsRoot_example =
    merge_tree-IsRoot hashing hashing-IsNodeStore hashing-IsHashed eavt 5 1 3 2 root history later
      nodes (omega arith) (omega arith) (omega arith) root-IsTree (λ k. omega arith)
      history-IsSorted later-IsSorted (omega arith)
