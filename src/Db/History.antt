-- ===== src/Db/History.antt =====
-- What a snapshot with history reads.
use ramose.Base.{
  ℕ, ◌≤◌, ◌≡◌, ◌∙◌, sym, ap, true, some, List, All, arith, keep, Bool-cases, inl, inr, keep_all,
  if◌then◌else◌, concat,
}
use ramose.Base.Sorted.{All-intro, All-In, All-keep}
use ramose.Datom.{Datom, IndexId, Prefix, comparator_for}
use ramose.Tree.{Chunk}
use ramose.Tree.Chunks.{stream}
use ramose.Tree.Union.{In-union_of}
use ramose.Tree.Store.{NodeStore}
use ramose.Novelty.{flush}
use ramose.Novelty.Collapse.{visible}
use ramose.Novelty.View.Arrays.{concat-filter_as_of, concat-raw_view}
use ramose.Novelty.{by_index}
use ramose.Db.{Db, effective_t, is_raw, view_of, datoms}
use ramose.Db.Reads.{matches, IsIndexed, contents, merged_lem}

module _ {store : NodeStore} where
  module _ (db : Db store) (i : IndexId) (p : Prefix) (ds : List Datom) (depth fuel : ℕ)
      (h : IsIndexed store db i ds depth fuel) where
    history_lem :
        (cs : List Chunk)
        → db.is_history ≡ true
        → concat (view_of db cs)
          ≡ (if is_raw db then stream cs else keep (visible (some (effective_t db))) (stream cs))
    unfolding view_of visible
    history_lem cs f = elim (Bool-cases (is_raw db)) [
      | inl e ↦ rw (f, e) (concat-raw_view cs)
      | inr e ↦ rw (f, e) (concat-filter_as_of cs (effective_t db))
    ]

    raw_t : is_raw db ≡ true → (db.novelty.max_t ≤ effective_t db) × (db.roots.t ≤ effective_t db)
    unfolding is_raw
    raw_t e = (ground (arith, e), ground (arith, e))

    -- Every datom of the index is one that the history shows.
    all_visible :
        is_raw db ≡ true
        → All (λ d. d.t ≤ db.roots.t) ds
        → All (λ d. d.t ≤ db.novelty.max_t) (flush (by_index db.novelty i)).base
        → All (λ d. visible (some (effective_t db)) d ≡ true) (contents db i ds)
    unfolding visible
    all_visible e u v =
        All-intro (λ d. visible (some (effective_t db)) d ≡ true) (contents db i ds)
          (λ d m.
            let q : d.t ≤ effective_t db =
              elim (In-union_of (comparator_for i) d ds (flush (by_index db.novelty i)).base m) [
                | inl w ↦ omega (arith, All-In (λ d. d.t ≤ db.roots.t) d ds u w, raw_t e)
                | inr w ↦ omega (
                  arith,
                  All-In (λ d. d.t ≤ db.novelty.max_t) d (flush (by_index db.novelty i)).base v w,
                  raw_t e,
                )
              ] in
            ground (arith, q))

    -- For a snapshot with history whose index is stored as a tree of datoms in strict order, with
    -- a valid novelty of that index and enough fuel, and where no datom of the tree is newer than
    -- the root's transaction and none of the novelty newer than its recorded maximum, `datoms`
    -- succeeds, and its arrays together hold exactly the datoms of the union of tree and novelty
    -- that match the prefix and are not newer than `effectiveT`, in order, whether or not they
    -- were filtered.
    pub datoms-history :
        db.is_history ≡ true
        → All (λ d. d.t ≤ db.roots.t) ds
        → All (λ d. d.t ≤ db.novelty.max_t) (flush (by_index db.novelty i)).base
        → (arrs : List (List Datom)) × ((datoms fuel i p db).0 ≡ some arrs)
          × (concat arrs
              ≡ keep (visible (some (effective_t db))) (keep (matches i p) (contents db i ds)))
    datoms-history f u v =
        let (cs, (e, k, w)) = merged_lem db i p ds depth fuel h in
        let g = keep (visible (some (effective_t db))) in
        let l = keep (matches i p) (contents db i ds) in
        (
          view_of db cs,
          e,
          history_lem cs f ∙ (elim (Bool-cases (is_raw db)) [
            | inl r ↦ rw r (
                k
                ∙ sym (
                    keep_all (visible (some (effective_t db))) l (
                      All-keep (matches i p) (λ d. visible (some (effective_t db)) d ≡ true)
                        (contents db i ds) (all_visible r u v))))
            | inr r ↦ rw r (ap g k)
          ]),
        )
