-- ===== src/Tree/Scan/Down.antt =====
-- The two descents of `scan`: to the leaf where the prefix may start, and to the leftmost leaf.
use ramose.Base.{
  ℕ, zero, suc, ◌+◌, ◌≤◌, ◌<◌, ◌≡◌, ◌∙◌, refl, ap, some, List, [], ◌∷◌, ◌++◌, append_assoc, arith,
  length, map,
}
use ramose.Datom.{Datom, IndexId, Prefix}
use ramose.Tree.Store.{NodeRef, leaf, dir, NodeStore}
use ramose.Tree.Build.{Entry}
use ramose.Tree.Build.Forest.{IsForest, IsTree}
use ramose.Tree.Scan.{entries, descend_left}

pub entries_lem : (es : List Entry) → entries (map (λ e. e.key) es) (map (λ e. e.ref) es) ≡ es
unfolding entries
entries_lem [] = refl
entries_lem (e ∷ es) = ap (λ l. e ∷ l) (entries_lem es)

module _ (store : NodeStore) (s : store.State) where
  -- The children that are left of each directory of the stack hold `ds` between them, in order.
  abbrev pub StackHolds : ℕ → List (List Entry) → List Datom → Type 0
  StackHolds most [] ds = ds ≡ []
  StackHolds most (f ∷ fs) ds =
      (n : ℕ) × (xs : List Datom) × (ys : List Datom) × (n ≤ most)
      × (ds ≡ xs ++ ys)
      × IsForest (IsTree store n s) f xs
      × StackHolds most fs ys

  module _ (i : IndexId) (p : Prefix) where
    left_leaf :
        (fuel : ℕ) (r : NodeRef) (ds : List Datom) (stack : List (List Entry))
        → store.load s r ≡ some (leaf ds)
        → descend_left i p store s (suc fuel) r stack ≡ some (ds, stack)
    unfolding descend_left
    left_leaf fuel r ds stack h = rw (h, descend_left)

    left_dir :
        (fuel : ℕ) (r : NodeRef) (e : Entry) (es : List Entry) (stack : List (List Entry))
        → store.load s r ≡ some (dir (map (λ x. x.key) (e ∷ es)) (map (λ x. x.ref) (e ∷ es)))
        → descend_left i p store s (suc fuel) r stack
          ≡ descend_left i p store s fuel e.ref (es ∷ stack)
    unfolding descend_left entries
    left_dir fuel r e es stack h = rw (h, descend_left, entries_lem es)

    pub descend_left_lem :
        (n fuel most : ℕ) (r : NodeRef) (k : Datom) (xs : List Datom) (stack : List (List Entry))
        (rest : List Datom)
        → n < fuel
        → n ≤ most
        → IsTree store n s r (k ∷ xs)
        → StackHolds most stack rest
        → (ds : List Datom) × (st : List (List Entry)) × (ys : List Datom) × (descend_left i p store
              s fuel r stack
            ≡ some (ds, st))
          × ((k ∷ xs) ++ rest ≡ ds ++ ys)
          × StackHolds most st ys
          × (0 < length ds)
          × (length st ≤ length stack + n)
    descend_left_lem n zero most r k xs stack rest h m t q = absurd (omega arith)
    descend_left_lem zero (suc fuel) most r k xs stack rest h m t q =
        (k ∷ xs, stack, rest, left_leaf fuel r (k ∷ xs) stack t, refl, q, omega arith, omega arith)
    descend_left_lem (suc n) (suc fuel) most r k xs stack rest h m ([], l, f) q = cc
    descend_left_lem (suc n) (suc fuel) most r k xs stack rest h m (e ∷ es, l, (us, vs, c, t, f))
          q =
        let (ds, st, ys, d, eq, st_holds, some_left, depth) =
          descend_left_lem n fuel most e.ref e.key us (es ∷ stack) (vs ++ rest) (omega arith)
            (omega arith) t (n, vs, rest, omega arith, refl, f, q) in
        (
          ds,
          st,
          ys,
          left_dir fuel r e es stack l ∙ d,
          ap (λ z. z ++ rest) c ∙ (append_assoc (e.key ∷ us) vs rest ∙ eq),
          st_holds,
          some_left,
          omega arith,
        )
