-- ===== src/Tree/Build/Forest.antt =====
-- Trees in a store, and what they hold.
use ramose.Base.{
  ℕ, zero, suc, ◌≡◌, ◌∙◌, refl, sym, ap, Option, some, List, [], ◌∷◌, ◌++◌, append_assoc, map, take,
  drop,
}
use ramose.Datom.{Datom}
use ramose.Tree.Store.{NodeRef, TreeNode, leaf, dir, NodeStore}
use ramose.Tree.Build.{Entry}

-- Each entry's subtree begins with its key, and the subtrees hold `ds` between them, in order.
abbrev pub IsForest : (NodeRef → List Datom → Type 0) → List Entry → List Datom → Type 0
IsForest T [] ds = ds ≡ []
IsForest T (e ∷ es) ds =
    (xs : List Datom) × (ys : List Datom) × (ds ≡ (e.key ∷ xs) ++ ys)
    × T e.ref (e.key ∷ xs)
    × IsForest T es ys

module _ (store : NodeStore) where
  -- A tree `n` directories deep, with the datoms `ds` in its leaves from left to right.
  abbrev pub IsTree : ℕ → store.State → NodeRef → List Datom → Type 0
  IsTree zero s r ds = store.load s r ≡ some (leaf ds)
  IsTree (suc n) s r ds =
      (es : List Entry) × (store.load s r ≡ some (dir (map (λ e. e.key) es) (map (λ e. e.ref) es)))
      × IsForest (IsTree n s) es ds

  -- What can be loaded before can be loaded after.
  abbrev pub Keeps : store.State → store.State → Type 0
  Keeps s s' = (r : NodeRef) (m : TreeNode) → store.load s r ≡ some m → store.load s' r ≡ some m

  -- `o` is a root and a state that keeps what `s` keeps, and the tree at the root holds `ds`.
  abbrev pub IsRoot : Option (NodeRef × store.State) → store.State → List Datom → Type 0
  IsRoot o s ds =
      (r : NodeRef) × (s' : store.State) × (depth : ℕ) × (o ≡ some (r, s'))
      × Keeps s s'
      × IsTree depth s' r ds

  pub IsForest-keeps :
      (T U : NodeRef → List Datom → Type 0)
      → ((r : NodeRef) (ds : List Datom) → T r ds → U r ds)
      → (es : List Entry) (ds : List Datom) → IsForest T es ds
      → IsForest U es ds
  IsForest-keeps T U f [] ds h = h
  IsForest-keeps T U f (e ∷ es) ds (xs, ys, p, t, h) =
      (xs, ys, p, f e.ref (e.key ∷ xs) t, IsForest-keeps T U f es ys h)

  pub IsTree-Keeps :
      (n : ℕ) (s s' : store.State)
      → Keeps s s'
      → (r : NodeRef) (ds : List Datom) → IsTree n s r ds
      → IsTree n s' r ds
  IsTree-Keeps zero s s' k r ds h = k r (leaf ds) h
  IsTree-Keeps (suc n) s s' k r ds (es, l, h) =
      (es, k r _ l, IsForest-keeps (IsTree n s) (IsTree n s') (IsTree-Keeps n s s' k) es ds h)

-- A forest is cut where its entries are.
pub IsForest-split :
    (T : NodeRef → List Datom → Type 0) (k : ℕ) (es : List Entry) (ds : List Datom)
    → IsForest T es ds
    → (xs : List Datom) × (ys : List Datom) × (ds ≡ xs ++ ys)
      × IsForest T (take k es) xs
      × IsForest T (drop k es) ys
IsForest-split T zero es ds h = ([], ds, refl, refl, h)
IsForest-split T (suc k) [] ds h = ([], ds, refl, refl, h)
IsForest-split T (suc k) (e ∷ es) ds (xs, ys, p, t, h) =
    let (us, vs, q, f, g) = IsForest-split T k es ys h in
    (
      (e.key ∷ xs) ++ us,
      vs,
      p ∙ ap (λ l. e.key ∷ l) (ap (λ l. xs ++ l) q ∙ sym (append_assoc xs us vs)),
      (xs, us, refl, t, f),
      g,
    )
