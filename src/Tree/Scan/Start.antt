-- ===== src/Tree/Scan/Start.antt =====
-- The descent of `scan` to the leaf where the prefix may start.
use ramose.Base.{
  ℕ, zero, suc, ◌+◌, ◌^◌, ◌≤◌, ◌<◌, ◌≡◌, ◌∙◌, refl, sym, ap, subst, Bool, true, false, some, List,
  [], ◌∷◌, ◌++◌, append_assoc, All, All-append, arith, length, length-append, map, drop,
}
use ramose.Base.Sorted.{IsSorted, IsSorted-append}
use ramose.Datom.{Datom, IndexId, Prefix, compare_prefix, comparator_for}
use ramose.Datom.Ranges.{compare_prefix-IsMonotone}
use ramose.Tree.{is_lt}
use ramose.Tree.Bounds.{IsPartitioned-lt}
use ramose.Tree.Store.{NodeRef, leaf, dir, NodeStore}
use ramose.Tree.Build.{Entry}
use ramose.Tree.Build.Forest.{IsTree}
use ramose.Tree.Walk.{child_for_prefix, child_for_prefix-passing}
use ramose.Tree.Scan.{descend}
use ramose.Tree.Scan.Down.{StackHolds, entries_lem}
use ramose.Tree.Scan.Pick.{keys_of, keys-IsSorted, length-keys, pick}

module _ (store : NodeStore) (s : store.State) (i : IndexId) (p : Prefix) where
  abbrev below : Datom → Bool
  below d = is_lt (compare_prefix i d p)

  start_leaf :
      (fuel : ℕ) (r : NodeRef) (ds : List Datom) (stack : List (List Entry))
      → store.load s r ≡ some (leaf ds)
      → descend i p store s (suc fuel) r stack ≡ some (ds, stack)
  unfolding descend
  start_leaf fuel r ds stack h = rw (h, descend)

  start_dir :
      (fuel : ℕ) (r : NodeRef) (es : List Entry) (c : Entry) (cs : List Entry)
      (stack : List (List Entry))
      → store.load s r ≡ some (dir (keys_of es) (map (λ x. x.ref) es))
      → drop (child_for_prefix i (keys_of es) p) es ≡ c ∷ cs
      → descend i p store s (suc fuel) r stack ≡ descend i p store s fuel c.ref (cs ∷ stack)
  unfolding descend
  start_dir fuel r es c cs stack h k = rw (h, descend, entries_lem es, k)

  pub descend_lem :
      (n fuel most : ℕ) (r : NodeRef) (ds : List Datom) (stack : List (List Entry))
      (rest : List Datom)
      → n < fuel
      → n ≤ most
      → IsTree store n s r ds
      → (0 < n → 0 < length ds)
      → IsSorted (comparator_for i) ds
      → length ds < 2 ^ 31
      → StackHolds store s most stack rest
      → All (λ d. is_lt (compare_prefix i d p) ≡ false) rest
      → (pre : List Datom) × (xs : List Datom) × (st : List (List Entry)) × (ys : List Datom)
        × (descend i p store s fuel r stack ≡ some (xs, st))
        × (ds ++ rest ≡ pre ++ (xs ++ ys))
        × All (λ d. is_lt (compare_prefix i d p) ≡ true) pre
        × All (λ d. is_lt (compare_prefix i d p) ≡ false) ys
        × StackHolds store s most st ys
        × (length st ≤ length stack + n)
  descend_lem n zero most r ds stack rest h m t z so b q a = absurd (omega arith)
  descend_lem zero (suc fuel) most r ds stack rest h m t z so b q a =
      ([], ds, stack, rest, start_leaf fuel r ds stack t, refl, tt, a, q, omega arith)
  descend_lem (suc n) (suc fuel) most r ds stack rest h m ([], l, f) z so b q a =
      absurd (omega (arith, z (omega arith), ap length f))
  descend_lem (suc n) (suc fuel) most r ds stack rest h m (e ∷ es, l, f) z so b q a =
      let part =
        IsPartitioned-lt (comparator_for i) (λ d. compare_prefix i d p)
          (compare_prefix-IsMonotone i p) ds so in
      let (c, cs, pre, us, vs, dr, eq, t, g, before, behind) =
        pick below (IsTree store n s) e es ds f part in
      let found =
        child_for_prefix-passing i (keys_of (e ∷ es)) p
          (keys-IsSorted (IsTree store n s) (comparator_for i) (e ∷ es) ds f so)
          (omega (arith, length-keys (IsTree store n s) (e ∷ es) ds f, b)) in
      let so' =
        (IsSorted-append (comparator_for i) pre ((c.key ∷ us) ++ vs)
          (subst (IsSorted (comparator_for i)) eq so)).1 in
      let so2 = (IsSorted-append (comparator_for i) (c.key ∷ us) vs so').0 in
      let b2 : length (c.key ∷ us) < 2 ^ 31 =
        omega
          (arith, b, ap length eq, length-append pre ((c.key ∷ us) ++ vs), length-append us vs) in
      let (pre2, xs, st, ys, d, eq2, before2, behind2, holds, depth) =
        descend_lem n fuel most c.ref (c.key ∷ us) (cs ∷ stack) (vs ++ rest) (omega arith)
          (omega arith) t (λ k. omega arith) so2 b2 (n, vs, rest, omega arith, refl, g, q)
          (All-append (λ x. is_lt (compare_prefix i x p) ≡ false) vs rest behind a) in
      (
        pre ++ pre2,
        xs,
        st,
        ys,
        start_dir fuel r (e ∷ es) c cs stack l (ap (λ k. drop k (e ∷ es)) found ∙ dr) ∙ d,
        ap (λ k. k ++ rest) eq
            ∙ (append_assoc pre ((c.key ∷ us) ++ vs) rest
                ∙ (ap (λ k. pre ++ k) (append_assoc (c.key ∷ us) vs rest ∙ eq2)
                    ∙ sym (append_assoc pre pre2 (xs ++ ys)))),
        All-append (λ x. is_lt (compare_prefix i x p) ≡ true) pre pre2 before before2,
        behind2,
        holds,
        omega arith,
      )
