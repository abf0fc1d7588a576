-- ===== src/Tree/Scan/Pick.antt =====
-- The child of a directory in which a scan starts: what stands before it and behind it.
use ramose.Base.{
  suc, ◌-◌, ◌≤◌, ◌≡◌, ◌∙◌, refl, sym, ap, subst, Bool, true, false, List, [], ◌∷◌, ◌++◌,
  append_assoc, All, All-append, arith, length, length-append, map, drop, Bool-cases, inl, inr,
  Ordering,
}
use ramose.Base.Sorted.{IsSorted, IsSorted-append, All-split}
use ramose.Datom.{Datom}
use ramose.Tree.Search.{passing, IsPartitioned}
use ramose.Tree.Store.{NodeRef}
use ramose.Tree.Build.{Entry}
use ramose.Tree.Build.Forest.{IsForest}

abbrev pub keys_of : List Entry → List Datom
keys_of es = map (λ e. e.key) es

forest_All :
    (T : NodeRef → List Datom → Type 0) (P : Datom → Type 0) (es : List Entry) (ds : List Datom)
    → IsForest T es ds
    → All P ds
    → All P (keys_of es)
forest_All T P [] ds f h = tt
forest_All T P (e ∷ es) ds (us, vs, c, t, f) h =
    let q = All-split P (e.key ∷ us) vs (subst (All P) c h) in (q.0.0, forest_All T P es vs f q.1)

pub keys-IsSorted :
    (T : NodeRef → List Datom → Type 0) (c : Datom → Datom → Ordering) (es : List Entry)
    (ds : List Datom)
    → IsForest T es ds
    → IsSorted c ds
    → IsSorted c (keys_of es)
keys-IsSorted T c [] ds f s = tt
keys-IsSorted T c (e ∷ es) ds (us, vs, eq, t, f) s =
    let q = subst (IsSorted c) eq s in
    (
      forest_All T (λ y. c e.key y ≡ Ordering.lt) es vs f
          (All-split (λ y. c e.key y ≡ Ordering.lt) us vs q.0).1,
      keys-IsSorted T c es vs f (IsSorted-append c (e.key ∷ us) vs q).1,
    )

pub length-keys :
    (T : NodeRef → List Datom → Type 0) (es : List Entry) (ds : List Datom)
    → IsForest T es ds
    → length (keys_of es) ≤ length ds
length-keys T [] ds f = omega arith
length-keys T (e ∷ es) ds (us, vs, c, t, f) =
    omega (arith, length-keys T es vs f, ap length c, length-append us vs)

module _ (test : Datom → Bool) where
  pub IsPartitioned-tail :
      (xs ys : List Datom) → IsPartitioned test (xs ++ ys) → IsPartitioned test ys
  IsPartitioned-tail [] ys h = h
  IsPartitioned-tail (x ∷ xs) ys h = IsPartitioned-tail xs ys h.1

  -- Before an element that passes, all pass.
  before_passing :
      (xs : List Datom) (k : Datom) (ys : List Datom)
      → IsPartitioned test (xs ++ k ∷ ys)
      → test k ≡ true
      → All (λ d. test d ≡ true) xs
  before_passing [] k ys h t = tt
  before_passing (x ∷ xs) k ys h t = elim (Bool-cases (test x)) [
    | inl e ↦ (e, before_passing xs k ys h.1 t)
    | inr e ↦ absurd (clash (All-split (λ d. test d ≡ false) xs (k ∷ ys) (h.0 e)).1.0)
  ]
    where
      clash : test k ≡ false → ⊥
      clash e = cc

  pub pick :
      (T : NodeRef → List Datom → Type 0) (e : Entry) (es : List Entry) (ds : List Datom)
      → IsForest T (e ∷ es) ds
      → IsPartitioned test ds
      → (c : Entry) × (cs : List Entry) × (pre : List Datom) × (xs : List Datom) × (ys : List Datom)
        × (drop (passing test (keys_of (e ∷ es)) - 1) (e ∷ es) ≡ c ∷ cs)
        × (ds ≡ pre ++ ((c.key ∷ xs) ++ ys))
        × T c.ref (c.key ∷ xs)
        × IsForest T cs ys
        × All (λ d. test d ≡ true) pre
        × All (λ d. test d ≡ false) ys
  unfolding passing
  pick T e [] ds (us, vs, c, t, z) h =
      let n : passing test (e.key ∷ []) - 1 ≡ 0 = ground arith in
      (e, [], [], us, vs, rw n refl, c, t, z, tt, subst (All (λ d. test d ≡ false)) (sym z) tt)
  pick T e (f ∷ es) ds (us, vs, c, t, (us', vs', c', t', g')) h =
      let part = subst (IsPartitioned test) c h in
      let part' = IsPartitioned-tail (e.key ∷ us) vs part in
      elim (Bool-cases (test f.key)) [
        | inl p ↦
            let before =
              before_passing (e.key ∷ us) f.key (us' ++ vs')
                (subst (λ l. IsPartitioned test ((e.key ∷ us) ++ l)) c' part) p in
            let n : passing test (keys_of (e ∷ f ∷ es)) - 1
                ≡ suc (passing test (keys_of (f ∷ es)) - 1) =
              ground (arith, before.0, p) in
            let (d, cs, pre, xs, ys, q, eq, t2, f2, b, a) =
              pick T f es vs (us', vs', c', t', g') part' in
            (
              d,
              cs,
              (e.key ∷ us) ++ pre,
              xs,
              ys,
              ap (λ k. drop k (e ∷ f ∷ es)) n ∙ q,
              c
                  ∙ (ap (λ l. (e.key ∷ us) ++ l) eq
                      ∙ sym (append_assoc (e.key ∷ us) pre ((d.key ∷ xs) ++ ys))),
              t2,
              f2,
              All-append (λ x. test x ≡ true) (e.key ∷ us) pre before b,
              a,
            )
        | inr p ↦
            let n : passing test (keys_of (e ∷ f ∷ es)) - 1 ≡ 0 = ground (arith, p) in
            let behind = subst (IsPartitioned test) c' part' in
            (
              e,
              f ∷ es,
              [],
              us,
              vs,
              ap (λ k. drop k (e ∷ f ∷ es)) n,
              c,
              t,
              (us', vs', c', t', g'),
              tt,
              subst (All (λ d. test d ≡ false)) (sym c') (p, behind.0 p),
            )
      ]
