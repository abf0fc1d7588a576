-- ===== src/Conn/Indexing.antt =====
-- `index` moves datoms from the novelty into the trees and changes what no index holds.
use ramose.Base.{
  ℕ, ◌+◌, ◌^◌, ◌≤◌, ◌<◌, ◌≡◌, inl, inr, refl, sym, subst, Option, some, List, [], ◌∷◌, arith,
  Ordering, Ordering-cases, ltb, leb, keep, length,
}
use ramose.Base.Sorted.{IsSorted, keep-IsSorted}
use ramose.Datom.{Datom, IndexId, eavt, aevt, avet, vaet, comparator_for}
use ramose.Tree.{sorted_union}
use ramose.Tree.Union.{union-nil, nil-union, union_lt, union_eq, union_gt}
use ramose.Tree.Store.{NodeRef, NodeStore, IsNodeStore}
use ramose.Tree.Build.Forest.{IsTree, Keeps, IsTree-Keeps}
use ramose.Tree.Merge.{merge_tree}
use ramose.Tree.Merge.Pieces.{union_some}
use ramose.Tree.Merge.Unchanged.{IsHashed}
use ramose.Tree.Merge.Whole.{merge_tree-IsRoot}
use ramose.Novelty.{all, flush}
use ramose.Novelty.{by_index}
use ramose.Db.{Roots, root_for}
use ramose.Conn.{Connection, pick, merge_root, merge_roots}
use ramose.Conn.Remaining.{IsConsistent, base-IsSorted}

pub length-keep_parts :
    (t : ℕ) (ds : List Datom)
    → length (keep (λ d. leb d.t t) ds) + length (keep (λ d. ltb t d.t) ds) ≡ length ds
unfolding keep
length-keep_parts t [] = refl
length-keep_parts t (d ∷ ds) = ground (arith, length-keep_parts t ds)

pub length-union_le :
    (c : Datom → Datom → Ordering) (xs ys : List Datom)
    → length (sorted_union c xs ys) ≤ length xs + length ys
length-union_le c [] ys = rw (nil-union c ys) (omega arith)
length-union_le c (x ∷ xs) [] = rw (union-nil c (x ∷ xs)) (omega arith)
length-union_le c (x ∷ xs) (y ∷ ys) = elim (Ordering-cases (c x y)) [
  | inl e ↦ rw (union_lt c x xs y ys e) (omega (arith, length-union_le c xs (y ∷ ys)))
  | inr (inl e) ↦ rw (union_eq c x xs y ys e) (omega (arith, length-union_le c xs ys))
  | inr (inr e) ↦ rw (union_gt c x xs y ys e) (omega (arith, length-union_le c (x ∷ xs) ys))
]

-- One value for each index.
abbrev pub four : {A : Type 0} → A → A → A → A → IndexId → A
four e a v r eavt = e
four e a v r aevt = a
four e a v r avet = v
four e a v r vaet = r

module _ (store : NodeStore) (leaf_size fanout : ℕ) where
  -- Every index is stored as a tree with the datoms `ds`, in order, and the novelty fits the schema.
  pub record IsConnected (c : Connection store leaf_size fanout) (ds : IndexId → List Datom)
      (depth : IndexId → ℕ) : Type 0 where
    pub stored : (i : IndexId) → IsTree store (depth i) c.state (root_for c.roots i) (ds i)
    pub some_datom : (i : IndexId) → 0 < depth i → 0 < length (ds i)
    pub in_order : (i : IndexId) → IsSorted (comparator_for i) (ds i)
    pub short : (i : IndexId) → length (ds i) + length (flush (by_index c.novelty i)).base < 2 ^ 31
    pub consistent : IsConsistent c.schema c.novelty

  -- A root behind a merge, in a state that keeps what `s` keeps.
  abbrev pub IsMerged : Option (NodeRef × store.State) → store.State → List Datom → Type 0
  IsMerged o s ds =
      (r : NodeRef) × (s' : store.State) × (depth : ℕ) × (o ≡ some (r, s'))
      × Keeps store s s'
      × IsTree store depth s' r ds
      × (0 < depth → 0 < length ds)

  module _ (law : IsNodeStore store) (hashed : IsHashed store) (a : 1 ≤ leaf_size)
      (b : 2 ≤ fanout) where
    merge_tree-IsMerged :
        (i : IndexId) (fuel n : ℕ) (root : NodeRef) (ds novelty : List Datom) (s : store.State)
        → n < fuel
        → IsTree store n s root ds
        → (0 < n → 0 < length ds)
        → IsSorted (comparator_for i) ds
        → IsSorted (comparator_for i) novelty
        → length novelty < 2 ^ 31
        → IsMerged
            (merge_tree store i fuel leaf_size fanout root novelty s)
            s
            (sorted_union (comparator_for i) ds novelty)
    merge_tree-IsMerged i fuel n root ds [] s h t p so sn short =
        let all = union-nil (comparator_for i) ds in
        (
          root,
          s,
          n,
          (unfold merge_tree in refl),
          (λ r m l. l),
          subst (IsTree store n s root) (sym all) t,
          λ z. subst (λ l. 0 < length l) (sym all) (p z),
        )
    merge_tree-IsMerged i fuel n root ds (d ∷ novelty) s h t p so sn short =
        let (r, s', depth, e, k, u) =
          merge_tree-IsRoot store law hashed i fuel n leaf_size fanout root ds (d ∷ novelty) s h a b
            t p so sn short in
        (r, s', depth, e, k, u, λ z. union_some (comparator_for i) ds d novelty)

    module _ (c : Connection store leaf_size fanout) (ds : IndexId → List Datom)
        (depth : IndexId → ℕ) (conn : IsConnected c ds depth) (fuel max_t : ℕ)
        (deep : (i : IndexId) → depth i < fuel) where
      abbrev pub base : IndexId → List Datom
      base i = (flush (by_index c.novelty i)).base

      abbrev pub merged : IndexId → List Datom
      merged i = sorted_union (comparator_for i) (ds i) (keep (λ d. leb d.t max_t) (base i))

      merge_root-IsMerged :
          (i : IndexId) (s : store.State)
          → Keeps store c.state s
          → IsMerged
              (merge_root store leaf_size fanout fuel c.roots c.novelty max_t i s)
              s
              (merged i)
      unfolding merge_root pick all
      merge_root-IsMerged i s k =
          merge_tree-IsMerged i fuel (depth i) (root_for c.roots i) (ds i)
            (keep (λ d. leb d.t max_t) (base i)) s (deep i)
            (IsTree-Keeps store (depth i) c.state s k (root_for c.roots i) (ds i) (conn.stored i))
            (conn.some_datom i) (conn.in_order i)
            (keep-IsSorted _ (comparator_for i) (base i)
              (base-IsSorted c.schema c.novelty i conn.consistent))
            (omega (arith, conn.short i, length-keep_parts max_t (base i)))

      merge_roots_on :
          (s1 s2 s3 s4 : store.State) (e f g h : NodeRef)
          → merge_root store leaf_size fanout fuel c.roots c.novelty max_t eavt c.state
            ≡ some (e, s1)
          → merge_root store leaf_size fanout fuel c.roots c.novelty max_t aevt s1 ≡ some (f, s2)
          → merge_root store leaf_size fanout fuel c.roots c.novelty max_t avet s2 ≡ some (g, s3)
          → merge_root store leaf_size fanout fuel c.roots c.novelty max_t vaet s3 ≡ some (h, s4)
          → merge_roots store leaf_size fanout fuel c.roots c.novelty max_t c.state
            ≡ some (
              record { t = max_t; eavt_root = e; aevt_root = f; avet_root = g; vaet_root = h },
              s4,
            )
      unfolding merge_roots
      merge_roots_on s1 s2 s3 s4 e f g h p q u v = rw (p, merge_roots) (rw q (rw u (rw v refl)))

      pub merge_roots_lem :
          (r : Roots) × (s : store.State) × (deeper : IndexId → ℕ) × (merge_roots store leaf_size
              fanout fuel c.roots c.novelty max_t c.state
            ≡ some (r, s))
          × ((i : IndexId) → IsTree store (deeper i) s (root_for r i) (merged i))
          × ((i : IndexId) → 0 < deeper i → 0 < length (merged i))
      unfolding root_for
      merge_roots_lem =
          let (e, s1, n1, p1, k1, t1, o1) = merge_root-IsMerged eavt c.state (λ r m l. l) in
          let (f, s2, n2, p2, k2, t2, o2) = merge_root-IsMerged aevt s1 k1 in
          let (g, s3, n3, p3, k3, t3, o3) =
            merge_root-IsMerged avet s2 (λ r m l. k2 r m (k1 r m l)) in
          let (h, s4, n4, p4, k4, t4, o4) =
            merge_root-IsMerged vaet s3 (λ r m l. k3 r m (k2 r m (k1 r m l))) in
          let roots : Roots = record {
            t = max_t;
            eavt_root = e;
            aevt_root = f;
            avet_root = g;
            vaet_root = h;
          } in
          (
            roots,
            s4,
            four n1 n2 n3 n4,
            merge_roots_on s1 s2 s3 s4 e f g h p1 p2 p3 p4,
            (λ i.
                elim i
                  as (λ i. IsTree store (four n1 n2 n3 n4 i) s4 (root_for roots i) (merged i)) [
                    | eavt ↦
                        IsTree-Keeps store n1 s1 s4 (λ r m l. k4 r m (k3 r m (k2 r m l))) e
                          (merged eavt) t1
                    | aevt ↦
                        IsTree-Keeps store n2 s2 s4 (λ r m l. k4 r m (k3 r m l)) f (merged aevt) t2
                    | avet ↦ IsTree-Keeps store n3 s3 s4 k4 g (merged avet) t3
                    | vaet ↦ t4
                  ]),
            (λ i. elim i as (λ i. 0 < four n1 n2 n3 n4 i → 0 < length (merged i)) [
              | eavt ↦ o1
              | aevt ↦ o2
              | avet ↦ o3
              | vaet ↦ o4
            ]),
          )
