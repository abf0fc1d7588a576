-- ===== src/Tree/Scan/Whole.antt =====
-- `scan` yields exactly the datoms of the tree that match the prefix.
use ramose.Base.{
  ℕ, suc, ◌+◌, ◌*◌, ◌^◌, ◌<◌, ◌≡◌, ◌∙◌, refl, sym, ap, subst, some, List, [], ◌++◌, append-nil, All,
  arith, length, length-append, keep,
}
use ramose.Base.Sorted.{IsSorted, IsSorted-append}
use ramose.Datom.{Datom, IndexId, Prefix, compare_prefix, comparator_for}
use ramose.Tree.{Chunk}
use ramose.Tree.Bounds.{is_eq}
use ramose.Tree.Store.{NodeRef, NodeStore}
use ramose.Tree.Build.{Entry}
use ramose.Tree.Build.Forest.{IsTree}
use ramose.Tree.Scan.{first_leaf, and_then, descend, walk, scan}
use ramose.Tree.Scan.Leaves.{first_leaf_lem, first_leaf_chunks, keep_before, keep-append}
use ramose.Tree.Scan.Start.{descend_lem}
use ramose.Tree.Chunks.{IsChunk, stream}
use ramose.Tree.Scan.Walked.{matching, behind_stop, first_stop, finish, walk_lem}

module _ (i : IndexId) (p : Prefix) where
  module _ (store : NodeStore) (s : store.State) where
    scan_on :
        (fuel : ℕ) (r : NodeRef) (xs : List Datom) (st : List (List Entry))
        → descend i p store s fuel r [] ≡ some (xs, st)
        → scan i p store s fuel r
          ≡ and_then i p store s (first_leaf i p xs) (walk i p store s fuel st)
    unfolding scan
    scan_on fuel r xs st h = rw (h, scan)

    -- In a stored tree with n levels of directories that holds, in strict order of the index,
    -- fewer than 2^31 datoms (and at least one if n is not 0), and on more fuel than n + (n + 1)
    -- times the number of datoms, `scan` succeeds, every chunk is non-empty and within its array,
    -- and together they hold exactly the datoms of the tree that match the prefix, in order.
    pub scan-keep :
        (n fuel : ℕ) (r : NodeRef) (ds : List Datom)
        → IsTree store n s r ds
        → (0 < n → 0 < length ds)
        → IsSorted (comparator_for i) ds
        → length ds < 2 ^ 31
        → n + suc n * length ds < fuel
        → (cs : List Chunk) × (scan i p store s fuel r ≡ some cs)
          × (stream cs ≡ keep (λ d. is_eq (compare_prefix i d p)) ds)
          × All IsChunk cs
    scan-keep n fuel r ds t some_datom so b h =
        let (pre, xs, st, ys, d, eq, before, behind, holds, depth) =
          descend_lem store s i p n fuel n r ds [] [] (omega (arith, h)) (omega arith) t some_datom
            so b refl tt in
        let cut : ds ≡ pre ++ (xs ++ ys) = sym (append-nil ds) ∙ eq in
        let so' =
          (IsSorted-append (comparator_for i) pre (xs ++ ys)
            (subst (IsSorted (comparator_for i)) cut so)).1 in
        let so2 = IsSorted-append (comparator_for i) xs ys so' in
        let size : length ds ≡ length pre + (length xs + length ys) =
          ap length cut
          ∙ (length-append pre (xs ++ ys) ∙ ap (λ k. length pre + k) (length-append xs ys)) in
        let b2 : length xs < 2 ^ 31 = omega (arith, b, size) in
        let rest =
          walk_lem i p store s fuel n st ys holds (so2.1, omega (arith, b, size), behind)
            (omega (arith, h, depth, ap (λ z. suc n * z) size)) in
        let (cs, g, k, v) =
          finish i p store s (first_leaf i p xs) (walk i p store s fuel st) (keep (matching i p) xs)
            (keep (matching i p) ys) (first_leaf_lem i p xs so2.0 b2)
            (λ stop. behind_stop i p xs ys so' b2 (first_stop i p xs stop))
            (first_leaf_chunks i p xs) rest in
        (
          cs,
          scan_on fuel r xs st d ∙ g,
          k
              ∙ (sym (keep-append (matching i p) xs ys)
                  ∙ (ap (λ z. z ++ keep (matching i p) (xs ++ ys))
                        (sym (keep_before i p pre before))
                      ∙ (sym (keep-append (matching i p) pre (xs ++ ys))
                          ∙ ap (keep (matching i p)) (sym cut)))),
          v,
        )
