-- ===== src/Tree/Merge/Unchanged.antt =====
-- A subtree whose merge gives one entry with the hash that it had is the same subtree.
use ramose.Base.{
  false, ℕ, zero, suc, ◌≡◌, ◌∙◌, sym, ap, subst, true, some, List, [], ◌∷◌, ◌++◌, append_assoc, map,
}
use ramose.Datom.{Datom}
use ramose.Datom.Text.{strings_equal_sound}
use ramose.Tree.Store.{NodeRef, TreeNode, leaf, dir, NodeStore}
use ramose.Tree.Build.{Entry}
use ramose.Tree.Build.Forest.{IsForest, IsTree, Keeps, IsTree-Keeps}
use ramose.Tree.Scan.{entries}
use ramose.Tree.Scan.Down.{entries_lem}
use ramose.Tree.Merge.{is_same}

-- The store addresses nodes by their hash.
pub record IsHashed (store : NodeStore) : Type 0 where
  pub load_by_hash :
      (s : store.State) (r r' : NodeRef) → r.hash ≡ r'.hash → store.load s r ≡ store.load s r'

IsForest-unique :
    (T : NodeRef → List Datom → Type 0)
    → ((r : NodeRef) (xs ys : List Datom) → T r xs → T r ys → xs ≡ ys)
    → (es : List Entry) (xs ys : List Datom) → IsForest T es xs
    → IsForest T es ys
    → xs ≡ ys
IsForest-unique T u [] xs ys f g = f ∙ sym g
IsForest-unique T u (e ∷ es) xs ys (a, b, p, t, f) (c, d, q, v, g) =
    p
    ∙ (ap (λ l. l ++ b) (u e.ref (e.key ∷ a) (e.key ∷ c) t v)
        ∙ (ap (λ l. (e.key ∷ c) ++ l) (IsForest-unique T u es b d f g) ∙ sym q))

pub IsForest-join :
    (T : NodeRef → List Datom → Type 0) (es fs : List Entry) (xs ys : List Datom)
    → IsForest T es xs
    → IsForest T fs ys
    → IsForest T (es ++ fs) (xs ++ ys)
IsForest-join T [] fs xs ys f g = subst (λ l. IsForest T fs (l ++ ys)) (sym f) g
IsForest-join T (e ∷ es) fs xs ys (a, b, p, t, f) g = (
  a,
  b ++ ys,
  ap (λ l. l ++ ys) p ∙ append_assoc (e.key ∷ a) b ys,
  t,
  IsForest-join T es fs b ys f g,
)

module _ (store : NodeStore) where
  same_nodes :
      (n m : TreeNode) (s : store.State) (r : NodeRef)
      → store.load s r ≡ some n
      → store.load s r ≡ some m
      → n ≡ m
  same_nodes n m s r h k = cc

  -- What a tree holds is determined by its root.
  IsTree-unique :
      (n : ℕ) (s : store.State) (r : NodeRef) (xs ys : List Datom)
      → IsTree store n s r xs
      → IsTree store n s r ys
      → xs ≡ ys
  IsTree-unique zero s r xs ys h k = let e = same_nodes (leaf xs) (leaf ys) s r h k in cc
  IsTree-unique (suc n) s r xs ys (es, h, f) (fs, k, g) =
      let q : es ≡ fs = same_entries (same_nodes _ _ s r h k) in
      IsForest-unique (IsTree store n s) (IsTree-unique n s) es xs ys f
        (subst (λ l. IsForest (IsTree store n s) l ys) (sym q) g)
    where
      same_entries :
          dir (map (λ e. e.key) es) (map (λ e. e.ref) es)
            ≡ dir (map (λ e. e.key) fs) (map (λ e. e.ref) fs)
          → es ≡ fs
      same_entries e =
          let a : map (λ (e : Entry). e.key) es ≡ map (λ e. e.key) fs = cc in
          let b : map (λ (e : Entry). e.ref) es ≡ map (λ e. e.ref) fs = cc in
          sym (entries_lem es)
          ∙ (ap (λ l. entries l (map (λ e. e.ref) es)) a
              ∙ (ap (entries (map (λ e. e.key) fs)) b ∙ entries_lem fs))

  module _ (hashed : IsHashed store) where
    IsTree-hash :
        (n : ℕ) (s : store.State) (r r' : NodeRef) (ds : List Datom)
        → r.hash ≡ r'.hash
        → IsTree store n s r ds
        → IsTree store n s r' ds
    IsTree-hash zero s r r' ds e h = sym (hashed.load_by_hash s r r' e) ∙ h
    IsTree-hash (suc n) s r r' ds e (es, h, f) = (es, sym (hashed.load_by_hash s r r' e) ∙ h, f)

    -- The entry as it was stands for what was merged.
    pub is_same_lem :
        (n : ℕ) (s s' : store.State) (e : Entry) (xs ds : List Datom) (sub : List Entry)
        → Keeps store s s'
        → IsTree store n s e.ref (e.key ∷ xs)
        → IsForest (IsTree store n s') sub ds
        → is_same sub e.ref ≡ true
        → IsForest (IsTree store n s') (e ∷ []) ds
    unfolding is_same
    is_same_lem n s s' e xs ds [] k t f h = absurd (clash h)
      where
        clash : false ≡ true → ⊥
        clash q = cc
    is_same_lem n s s' e xs ds (x ∷ []) k t (us, vs, p, u, z) h =
        let old = IsTree-Keeps store n s s' k e.ref (e.key ∷ xs) t in
        let q : x.key ∷ us ≡ e.key ∷ xs =
          IsTree-unique n s' e.ref (x.key ∷ us) (e.key ∷ xs)
            (IsTree-hash n s' x.ref e.ref (x.key ∷ us) (strings_equal_sound x.ref.hash e.ref.hash h)
              u)
            old in
        (xs, vs, p ∙ ap (λ l. l ++ vs) q, old, z)
    is_same_lem n s s' e xs ds (x ∷ y ∷ es) k t f h = absurd (clash h)
      where
        clash : false ≡ true → ⊥
        clash q = cc
