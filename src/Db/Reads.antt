-- ===== src/Db/Reads.antt =====
-- What `datoms`, `datomsArray` and `first` of db.ts read, for a snapshot with a stored tree.
use ramose.Base.{
  ℕ, suc, ◌+◌, ◌*◌, ◌<◌, ◌^◌, ◌≡◌, ◌∙◌, refl, sym, ap, subst, Bool, false, some, List, [], ◌∷◌, All,
  arith, keep, length, get_elem?, concat,
}
use ramose.Base.Sorted.{IsSorted, keep-IsSorted}
use ramose.Datom.{Datom, IndexId, Prefix, comparator_for, compare_prefix}
use ramose.Datom.Order.{comparator_for-IsWeakOrder, comparator_for-eq}
use ramose.Tree.{Chunk, sorted_union}
use ramose.Tree.Bounds.{is_eq}
use ramose.Tree.Chunks.{IsChunk, stream}
use ramose.Tree.Union.{union-IsSorted}
use ramose.Tree.Store.{NodeStore}
use ramose.Tree.Build.Forest.{IsTree}
use ramose.Tree.Scan.{scan}
use ramose.Tree.Scan.Whole.{scan-keep}
use ramose.Novelty.{flush}
use ramose.Novelty.Flush.{IsValid, option_datoms, range-datoms, flush-IsValid, index-flush}
use ramose.Novelty.Collapse.{visible}
use ramose.Novelty.Present.{present}
use ramose.Novelty.Merge.{merge_chunks}
use ramose.Novelty.View.{current_view}
use ramose.Novelty.View.Stream.{current_view-present}
use ramose.Novelty.View.Arrays.{AreArrays, current_view-AreArrays}
use ramose.Novelty.Chunks.{IsSomeChunk, range-chunk, stream-merge_chunks, merge_chunks-IsChunk}
use ramose.Novelty.{by_index}
use ramose.Db.{
  root_for, novelty_range, Db, effective_t, view_of, datoms, datoms_array, first, first_of,
}
use ramose.Db.Merged.{union-keep}

abbrev pub matches : IndexId → Prefix → Datom → Bool
matches i p d = is_eq (compare_prefix i d p)

-- Index `i` of the snapshot is stored as a tree of the datoms `ds`, in order, with `depth` levels of
-- directories, its novelty is a valid index, and `fuel` is enough to scan the tree.
pub record IsIndexed (store : NodeStore) (db : Db store) (i : IndexId) (ds : List Datom)
    (depth fuel : ℕ) : Type 0 where
  pub tree : IsTree store depth db.state (root_for db.roots i) ds
  pub some_datom : 0 < depth → 0 < length ds
  pub tree_sorted : IsSorted (comparator_for i) ds
  pub tree_short : length ds < 2 ^ 31
  pub novelty_index : (by_index db.novelty i).index ≡ i
  pub novelty_valid : IsValid (by_index db.novelty i)
  pub novelty_short : length (flush (by_index db.novelty i)).base < 2 ^ 31
  pub enough : depth + suc depth * length ds < fuel

module _ {store : NodeStore} where
  -- The datoms of index `i`: those of the tree and those of the novelty.
  abbrev pub contents : Db store → IndexId → List Datom → List Datom
  contents db i ds = sorted_union (comparator_for i) ds (flush (by_index db.novelty i)).base

  module _ (db : Db store) (i : IndexId) (p : Prefix) (ds : List Datom) (depth fuel : ℕ)
      (h : IsIndexed store db i ds depth fuel) where
    novelty_part :
        option_datoms (novelty_range i p db.novelty).1
        ≡ keep (matches i p) (flush (by_index db.novelty i)).base
    unfolding novelty_range
    novelty_part =
        range-datoms (by_index db.novelty i) p h.novelty_valid h.novelty_short
        ∙ ap (λ k. keep (matches k p) (flush (by_index db.novelty i)).base) h.novelty_index

    novelty-IsSorted : IsSorted (comparator_for i) (flush (by_index db.novelty i)).base
    novelty-IsSorted =
        let n = by_index db.novelty i in
        subst (λ k. IsSorted (comparator_for k) (flush n).base) (index-flush n ∙ h.novelty_index)
          (flush-IsValid n h.novelty_valid).sorted

    novelty_chunk : IsSomeChunk (novelty_range i p db.novelty).1
    unfolding novelty_range
    novelty_chunk = range-chunk (by_index db.novelty i) p

    datoms_on :
        (tree : List Chunk)
        → scan i p store db.state fuel (root_for db.roots i) ≡ some tree
        → (datoms fuel i p db).0
          ≡ some
              (view_of db (merge_chunks (comparator_for i) tree (novelty_range i p db.novelty).1))
    unfolding datoms
    datoms_on tree e = rw (e, datoms) refl

    -- The merged chunks that a read collapses.
    abbrev pub Merged : List Chunk → Type 0
    Merged cs =
        ((datoms fuel i p db).0 ≡ some (view_of db cs))
        × (stream cs ≡ keep (matches i p) (contents db i ds))
        × All IsChunk cs

    pub merged_lem : (cs : List Chunk) × Merged cs
    merged_lem =
        let (tree, e, k, w) =
          scan-keep i p store db.state depth fuel (root_for db.roots i) ds h.tree h.some_datom
            h.tree_sorted h.tree_short h.enough in
        let nov = (novelty_range i p db.novelty).1 in
        let c = comparator_for i in
        let s : IsSorted c (stream tree) =
          subst (IsSorted c) (sym k) (keep-IsSorted (matches i p) c ds h.tree_sorted) in
        (
          merge_chunks c tree nov,
          (
            datoms_on tree e,
            stream-merge_chunks c (comparator_for-IsWeakOrder i) tree nov w novelty_chunk s
                ∙ (ap (λ l. sorted_union c l (option_datoms nov)) k
                    ∙ (ap (λ l. sorted_union c (keep (matches i p) ds) l) novelty_part
                        ∙ union-keep i (matches i p) ds (flush (by_index db.novelty i)).base
                            h.tree_sorted novelty-IsSorted)),
            merge_chunks-IsChunk c tree nov w novelty_chunk,
          ),
        )

    contents-IsSorted : IsSorted (comparator_for i) (contents db i ds)
    contents-IsSorted =
        union-IsSorted (comparator_for-IsWeakOrder i) (comparator_for-eq i) ds
          (flush (by_index db.novelty i)).base h.tree_sorted novelty-IsSorted

    abbrev Reads : (List Datom → List Datom) → Type 0
    Reads f =
        (arrs : List (List Datom)) × ((datoms fuel i p db).0 ≡ some arrs)
        × (concat arrs ≡ f (keep (matches i p) (contents db i ds)))

    current_lem :
        (cs : List Chunk)
        → db.is_history ≡ false
        → view_of db cs ≡ current_view cs (some (effective_t db))
    unfolding view_of
    current_lem cs f = rw f refl

    -- For a snapshot without history whose index is stored as a tree of datoms in strict order,
    -- with a valid novelty of that index and enough fuel, `datoms` succeeds, none of its arrays
    -- is empty, and together they hold exactly the facts present at `effectiveT`: of the union of
    -- the tree's datoms and the novelty's that match the prefix and are visible, the assertions
    -- that no later one of the same entity, attribute and value supersedes, in order.
    pub datoms-present :
        db.is_history ≡ false
        → (arrs : List (List Datom)) × ((datoms fuel i p db).0 ≡ some arrs)
          × (concat arrs
              ≡ present
                  (keep (visible (some (effective_t db))) (keep (matches i p) (contents db i ds))))
          × AreArrays arrs
    datoms-present f =
        let (cs, (e, k, w)) = merged_lem in
        let c = comparator_for i in
        let t = some (effective_t db) in
        let s : IsSorted c (stream cs) =
          subst (IsSorted c) (sym k)
            (keep-IsSorted (matches i p) c (contents db i ds) contents-IsSorted) in
        (
          current_view cs t,
          e ∙ ap some (current_lem cs f),
          current_view-present i t cs w s ∙ ap (λ l. present (keep (visible t) l)) k,
          current_view-AreArrays cs t,
        )

    -- `datomsArray` and `first` read the same datoms.
    first_of-concat :
        (arrs : List (List Datom)) → AreArrays arrs → first_of arrs ≡ get_elem? (concat arrs) 0
    unfolding first_of
    first_of-concat [] a = refl
    first_of-concat ([] ∷ arrs) a = absurd (omega (arith, a.0))
    first_of-concat ((d ∷ ds) ∷ arrs) a = refl

    -- For a snapshot without history whose index is stored as a tree of datoms in strict order,
    -- with a valid novelty of that index and enough fuel, `datomsArray` and `first` succeed, and
    -- `first` gives the first element of what `datomsArray` gives, `undefined` where that is
    -- empty.
    pub first-datoms_array :
        db.is_history ≡ false
        → (ys : List Datom) × ((datoms_array fuel i p db).0 ≡ some ys)
          × ((first fuel i p db).0 ≡ some (get_elem? ys 0))
    unfolding datoms_array first datoms
    first-datoms_array f =
        let (arrs, e, k, w) = datoms-present f in
        (concat arrs, rw (e, datoms_array) refl, rw (e, first) (ap some (first_of-concat arrs w)))
