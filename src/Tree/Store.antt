-- ===== src/Tree/Store.antt =====
-- The nodes of tree.ts and the content-addressed store that keeps them. The store is a parameter: it
-- is implemented over the storage of the platform, and its nodes never change.
use ramose.Base.{ℕ, ◌≡◌, Option, some, List}
use ramose.Datom.{CodeUnit, Datom, IndexId}

pub data NodeKind : Type 0 where
  leaf_kind dir_kind : NodeKind

pub record NodeRef : Type 0 where
  pub hash : List CodeUnit
  pub kind : NodeKind
  pub count : ℕ

pub data TreeNode : Type 0 where
  leaf : List Datom → TreeNode
  dir : List Datom → List NodeRef → TreeNode

-- `load` stands for `peek` and `load` together, which is how `getNode` calls them: none is a rejected
-- promise. `put` gives the reference and the state behind the call.
pub record NodeStore : Type 1 where
  pub State : Type 0
  pub put : IndexId → TreeNode → State → NodeRef × State
  pub load : State → NodeRef → Option TreeNode

-- A stored node can be loaded, and storing another one changes no node.
pub record IsNodeStore (store : NodeStore) : Type 0 where
  pub load-put :
      (i : IndexId) (n : TreeNode) (s : store.State)
      → store.load (store.put i n s).1 (store.put i n s).0 ≡ some n
  pub put_keeps :
      (i : IndexId) (n : TreeNode) (s : store.State) (r : NodeRef) (m : TreeNode)
      → store.load s r ≡ some m
      → store.load (store.put i n s).1 r ≡ some m
