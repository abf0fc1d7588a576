-- ===== src/Tree/Scan.antt =====
-- `scan` of tree.ts. The stack of directories, with the index of the next child of each, is kept as
-- the list of the children that are left of each.
pub mod Leaves
pub mod Down
pub mod Pick
pub mod Start
pub mod Walked
pub mod Whole
use ramose.Base.{
  ℕ, zero, suc, Bool, true, false, Option, none, some, List, [], ◌∷◌, ◌++◌, drop, ltb, length,
  Ordering, if◌then◌else◌,
}
use ramose.Datom.{Datom, IndexId, Prefix, compare_prefix}
use ramose.Tree.{Chunk, lower_bound, upper_bound, is_le}
use ramose.Tree.Store.{NodeRef, TreeNode, leaf, dir, NodeStore}
use ramose.Tree.Build.{Entry}
use ramose.Tree.Walk.{child_for_prefix}

-- The children of a directory: `keys[i]` with `refs[i]`.
unfoldable pub entries : List Datom → List NodeRef → List Entry
entries (k ∷ ks) (r ∷ rs) = record { key = k; ref = r } ∷ entries ks rs
entries _ _ = []

module _ (i : IndexId) (p : Prefix) where
  -- `if (s < e) yield { datoms: ds, start: s, end: e };`
  unfoldable pub yield_slice : List Datom → ℕ → ℕ → List Chunk
  yield_slice ds s e = if ltb s e then record { datoms = ds; start = s; end = e } ∷ [] else []

  -- The starting leaf: what is yielded, and whether the scan returns.
  unfoldable pub first_leaf : List Datom → List Chunk × Bool
  unfolding yield_slice
  first_leaf ds =
      let s = lower_bound i ds p in
      let e = upper_bound i ds p in
      if ltb s (length ds) then (yield_slice ds s e, ltb e (length ds)) else ([], false)

  -- A following leaf.
  unfoldable pub next_leaf : List Datom → List Chunk × Bool
  unfolding yield_slice
  next_leaf ds = let e = upper_bound i ds p in (yield_slice ds 0 e, ltb e (length ds))

  module _ (store : NodeStore) (s : store.State) where
    -- To the starting leaf. None is a rejected promise, or a directory without the child.
    unfoldable pub descend :
        ℕ → NodeRef → List (List Entry) → Option (List Datom × List (List Entry))
    unfolding entries
    descend zero r stack = none
    descend (suc fuel) r stack = elim (store.load s r) [
      | none ↦ none
      | some n ↦ elim n [
        | leaf ds ↦ some (ds, stack)
        | dir keys refs ↦ elim (drop (child_for_prefix i keys p) (entries keys refs)) [
          | [] ↦ none
          | e ∷ es ↦ descend fuel e.ref (es ∷ stack)
        ]
      ]
    ]

    -- To the leftmost leaf.
    unfoldable pub descend_left :
        ℕ → NodeRef → List (List Entry) → Option (List Datom × List (List Entry))
    unfolding entries
    descend_left zero r stack = none
    descend_left (suc fuel) r stack = elim (store.load s r) [
      | none ↦ none
      | some n ↦ elim n [
        | leaf ds ↦ some (ds, stack)
        | dir keys refs ↦ elim (entries keys refs) [
          | [] ↦ none
          | e ∷ es ↦ descend_left fuel e.ref (es ∷ stack)
        ]
      ]
    ]

    -- `if (e < ds.length) return;`, or else on, behind what is yielded.
    unfoldable pub and_then : List Chunk × Bool → Option (List Chunk) → Option (List Chunk)
    and_then (cs, true) rest = some cs
    and_then (cs, false) none = none
    and_then (cs, false) (some rest) = some (cs ++ rest)

    -- The following leaves, until one is past the prefix.
    unfoldable pub walk : ℕ → List (List Entry) → Option (List Chunk)
    unfolding next_leaf descend_left and_then
    walk zero stack = none
    walk (suc fuel) [] = some []
    walk (suc fuel) ([] ∷ stack) = walk fuel stack
    walk (suc fuel) ((e ∷ es) ∷ stack) =
        let next : Option (List Chunk) = elim (descend_left fuel e.ref (es ∷ stack)) [
          | none ↦ none
          | some l ↦ and_then (next_leaf l.0) (walk fuel l.1)
        ] in
        if is_le (compare_prefix i e.key p) then next else some []

    unfoldable pub scan : ℕ → NodeRef → Option (List Chunk)
    unfolding descend first_leaf walk and_then
    scan fuel r = elim (descend fuel r []) [
      | none ↦ none
      | some l ↦ and_then (first_leaf l.0) (walk fuel l.1)
    ]
