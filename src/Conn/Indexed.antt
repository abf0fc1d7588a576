-- ===== src/Conn/Indexed.antt =====
-- Reads before and after `index`.
use ramose.Base.{
  ℕ, suc, ◌+◌, ◌*◌, ◌^◌, ◌≤◌, ◌<◌, ◌≡◌, ◌∙◌, inl, inr, refl, sym, ap, ◌||◌, Option, some, List, min,
  arith, ltb, leb, ◌==◌, keep, length, Bool-cases, concat,
}
use ramose.Base.Sorted.{keep-IsSorted}
use ramose.Datom.{Datom, IndexId, Prefix, comparator_for}
use ramose.Datom.Order.{comparator_for-IsWeakOrder, comparator_for-eq}
use ramose.Tree.{sorted_union}
use ramose.Tree.Union.{union-IsSorted}
use ramose.Tree.Store.{NodeStore, IsNodeStore}
use ramose.Tree.Merge.Unchanged.{IsHashed}
use ramose.Novelty.{flush, count}
use ramose.Novelty.Collapse.{visible}
use ramose.Novelty.Present.{present}
use ramose.Novelty.{by_index}
use ramose.Db.{Roots, effective_t, datoms}
use ramose.Db.Reads.{matches, IsIndexed, datoms-present}
use ramose.Conn.{Connection, remaining, db, index}
use ramose.Conn.Remaining.{
  IsConsistent-IsKnown, remaining-IsConsistent, base-IsSorted, base-remaining, union_parts,
  earlier_or_later,
}
use ramose.Conn.Indexing.{IsConnected, merged, merge_roots_lem, length-keep_parts, length-union_le}

module _ (store : NodeStore) (leaf_size fanout : ℕ) where
  snapshot-IsIndexed :
      (c : Connection store leaf_size fanout) (ds : IndexId → List Datom) (depth : IndexId → ℕ)
      (i : IndexId) (fuel : ℕ)
      → IsConnected store leaf_size fanout c ds depth
      → depth i + suc (depth i) * length (ds i) < fuel
      → IsIndexed store (db store leaf_size fanout c) i (ds i) (depth i) fuel
  unfolding db
  snapshot-IsIndexed c ds depth i fuel conn h =
      let k = IsConsistent-IsKnown c.schema c.novelty i conn.consistent in
      record {
        tree = conn.stored i;
        some_datom = conn.some_datom i;
        tree_sorted = conn.in_order i;
        tree_short = omega (arith, conn.short i);
        novelty_index = k.index_known;
        novelty_valid = k.valid_known;
        novelty_short = omega (arith, conn.short i);
        enough = h;
      }

  -- What a snapshot of the connection reads: the facts present in the index.
  read_lem :
      (c : Connection store leaf_size fanout) (ds : IndexId → List Datom) (depth : IndexId → ℕ)
      (i : IndexId) (p : Prefix) (fuel : ℕ)
      → IsConnected store leaf_size fanout c ds depth
      → depth i + suc (depth i) * length (ds i) < fuel
      → (arrs : List (List Datom)) × ((datoms fuel i p (db store leaf_size fanout c)).0 ≡ some arrs)
        × (concat arrs
            ≡ present (
                keep (visible (some c.basis_t)) (
                  keep
                    (matches i p)
                    (sorted_union (comparator_for i) (ds i) (flush (by_index c.novelty i)).base))))
  unfolding db effective_t
  read_lem c ds depth i p fuel conn h =
      let (arrs, e, q, w) =
        datoms-present (db store leaf_size fanout c) i p (ds i) (depth i) fuel
          (snapshot-IsIndexed c ds depth i fuel conn h) refl in
      (arrs, e, q)

  module _ (law : IsNodeStore store) (hashed : IsHashed store) (a : 1 ≤ leaf_size)
      (b : 2 ≤ fanout) where
    -- Behind `index` the connection is in order, and every index holds what it held.
    abbrev pub Indexed :
        Connection store leaf_size fanout
        → (IndexId → List Datom)
        → Option (Roots × Connection store leaf_size fanout)
        → Type 0
    Indexed c ds o =
        (r : Roots) × (c' : Connection store leaf_size fanout) × (ds' : IndexId → List Datom)
        × (deeper : IndexId → ℕ) × (o ≡ some (r, c'))
        × IsConnected store leaf_size fanout c' ds' deeper
        × (c'.basis_t ≡ c.basis_t)
        × ((i : IndexId)
            → sorted_union (comparator_for i) (ds' i) (flush (by_index c'.novelty i)).base
              ≡ sorted_union (comparator_for i) (ds i) (flush (by_index c.novelty i)).base)

    module _ (c : Connection store leaf_size fanout) (ds : IndexId → List Datom)
        (depth : IndexId → ℕ) (conn : IsConnected store leaf_size fanout c ds depth)
        (fuel up_to : ℕ) (deep : (i : IndexId) → depth i < fuel) where
      abbrev max_t : ℕ
      max_t = min up_to c.basis_t

      abbrev all_merged : IndexId → List Datom
      all_merged = merged store leaf_size fanout law hashed a b c ds depth conn fuel max_t deep

      abbrev rest : IndexId → List Datom
      rest i = (flush (by_index (remaining max_t c.novelty c.schema) i)).base

      abbrev before : IndexId → List Datom
      before i = (flush (by_index c.novelty i)).base

      same_contents :
          (i : IndexId)
          → sorted_union (comparator_for i) (all_merged i) (rest i)
            ≡ sorted_union (comparator_for i) (ds i) (before i)
      same_contents i =
          ap (sorted_union (comparator_for i) (all_merged i))
            (base-remaining c.schema max_t c.novelty i conn.consistent)
          ∙ union_parts i (λ d. leb d.t max_t) (λ d. ltb max_t d.t) (ds i) (before i)
              (earlier_or_later max_t) (conn.in_order i)
              (base-IsSorted c.schema c.novelty i conn.consistent)

      still_short : (i : IndexId) → length (all_merged i) + length (rest i) < 2 ^ 31
      still_short i = omega (
        arith,
        conn.short i,
        ap length (base-remaining c.schema max_t c.novelty i conn.consistent),
        length-keep_parts max_t (before i),
        length-union_le (comparator_for i) (ds i) (keep (λ d. leb d.t max_t) (before i)),
      )

      -- For a node store that loads what was put, never changes a stored node and addresses nodes
      -- by their hash, a leaf size of at least 1 and a fanout of at least 2, a connection whose
      -- indexes are stored as trees of datoms in strict order, together with the novelty fewer
      -- than 2^31, and whose novelty is coherent under its schema, and more fuel than each tree
      -- is deep, `index` succeeds and leaves such a connection with the same basis, and in every
      -- index the union of the tree's datoms and the novelty is what it was.
      pub index-Indexed : Indexed c ds (index store leaf_size fanout fuel up_to c)
      unfolding index
      index-Indexed = elim (Bool-cases (count c.novelty == 0 || leb max_t c.roots.t)) [
        | inl e ↦ rw e (c.roots, c, ds, depth, refl, conn, refl, λ i. refl)
        | inr e ↦
            let (r, s, deeper, q, t, p) =
              merge_roots_lem store leaf_size fanout law hashed a b c ds depth conn fuel max_t
                deep in
            rw e (
              rw q (
                r,
                _,
                all_merged,
                deeper,
                refl,
                record {
                  stored = t;
                  some_datom = p;
                  in_order = λ i.
                      union-IsSorted (comparator_for-IsWeakOrder i) (comparator_for-eq i) (ds i) _
                        (conn.in_order i)
                        (keep-IsSorted (λ d. leb d.t max_t) (comparator_for i) (before i)
                          (base-IsSorted c.schema c.novelty i conn.consistent));
                  short = still_short;
                  consistent = remaining-IsConsistent c.schema max_t c.novelty;
                },
                refl,
                same_contents,
              ))
      ]

      -- For a node store that loads what was put, never changes a stored node and addresses nodes
      -- by their hash, a leaf size of at least 1 and a fanout of at least 2, a connection whose
      -- indexes are stored as trees of datoms in strict order, together with the novelty fewer
      -- than 2^31, and whose novelty is coherent under its schema, and more fuel than each tree
      -- is deep, `index` succeeds, whatever it is asked to index up to, and every read of a
      -- snapshot, in every index and for every prefix, succeeds on some fuel before and behind it
      -- and gives the same datoms in the same order.
      pub index-datoms :
          (r : Roots) × (c' : Connection store leaf_size fanout) × (index store leaf_size fanout
              fuel up_to c
            ≡ some (r, c'))
          × ((i : IndexId) (p : Prefix)
              → (enough : ℕ) × (x : List (List Datom)) × (y : List (List Datom)) × ((datoms enough i
                    p
                    (db store leaf_size fanout c)).0
                  ≡ some x)
                × ((datoms enough i p (db store leaf_size fanout c')).0 ≡ some y)
                × (concat x ≡ concat y))
      index-datoms =
          let (r, c', ds', deeper, e, conn', t, same) = index-Indexed in
          (
            r,
            c',
            e,
            λ i p.
                let m = depth i + suc (depth i) * length (ds i) in
                let n = deeper i + suc (deeper i) * length (ds' i) in
                let (x, f, u) = read_lem c ds depth i p (suc (m + n)) conn (omega arith) in
                let (y, g, v) = read_lem c' ds' deeper i p (suc (m + n)) conn' (omega arith) in
                (
                  suc (m + n),
                  x,
                  y,
                  f,
                  g,
                  u
                      ∙ (ap (λ l. present (keep (visible (some c.basis_t)) (keep (matches i p) l)))
                            (sym (same i))
                          ∙ (ap
                                (λ k. present (
                                  keep (visible (some k)) (
                                    keep (matches i p) (
                                      sorted_union (comparator_for i) (ds' i)
                                        (flush (by_index c'.novelty i)).base))))
                                (sym t)
                              ∙ sym v)),
                ),
          )
