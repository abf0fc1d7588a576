-- ===== src/Novelty/Merge/Whole.antt =====
-- `mergeChunks` of novelty.ts yields the sorted union of the scan and the novelty.
use ramose.Base.{
  ◌+◌, ◌-◌, ◌≡◌, ◌∙◌, refl, sym, ap, inl, inr, some, List, [], ◌∷◌, ◌++◌, append_assoc, append-nil,
  All, arith, Ordering, Ordering-cases, length, slice, drop, Bool-cases, length-append, length-drop,
  length-take, drop-drop, take_suffix,
}
use ramose.Base.Order.{IsWeakOrder}
use ramose.Base.Sorted.{IsSorted, IsSorted-append}
use ramose.Datom.{Datom}
use ramose.Tree.{Chunk, chunk_datoms, sorted_union, is_le}
use ramose.Tree.Union.{nil-union}
use ramose.Novelty.View.{split_last}
use ramose.Tree.Chunks.{IsChunk, stream}
use ramose.Novelty.Merge.{
  merge_loop, pull, goes_before, merge_chunk, merge_end, merge_from, merge_chunks,
}
use ramose.Novelty.Merge.Rounds.{loop_lt, loop_gt, loop_eq, pull_le, pull_stop, merge_chunk_lem}

-- `ns` is what is left of `whole`.
abbrev IsTail : List Datom → List Datom → Type 0
IsTail whole ns = (us : List Datom) × (us ++ ns ≡ whole)

IsTail-trans : (xs ys zs : List Datom) → IsTail xs ys → IsTail ys zs → IsTail xs zs
IsTail-trans xs ys zs (us, h) (vs, k) =
    (us ++ vs, append_assoc us vs zs ∙ (ap (λ l. us ++ l) k ∙ h))

module _ (cmp : Datom → Datom → Ordering) where
  loop-IsTail : (ds ns : List Datom) → IsTail ns (merge_loop cmp ds ns).1
  loop-IsTail [] ns = unfold merge_loop in ([], refl)
  loop-IsTail (d ∷ ds) [] = unfold merge_loop in ([], refl)
  loop-IsTail (d ∷ ds) (n ∷ ns) = elim (Ordering-cases (cmp d n)) [
    | inl e ↦ rw (loop_lt cmp d ds n ns e) (loop-IsTail ds (n ∷ ns))
    | inr (inl e) ↦
        let (us, h) = loop-IsTail ds ns in
        rw (loop_eq cmp d ds n ns e) (n ∷ us, ap (λ (l : List Datom). n ∷ l) h)
    | inr (inr e) ↦
        let (us, h) = loop-IsTail (d ∷ ds) ns in
        rw (loop_gt cmp d ds n ns e) (n ∷ us, ap (λ (l : List Datom). n ∷ l) h)
  ]

  pull-IsTail : (last : Datom) (ns : List Datom) → IsTail ns (pull cmp last ns).1
  pull-IsTail last [] = unfold pull in ([], refl)
  pull-IsTail last (n ∷ ns) = elim (Bool-cases (is_le (cmp n last))) [
    | inl e ↦
        let (us, h) = pull-IsTail last ns in
        rw (pull_le cmp last n ns e) (n ∷ us, ap (λ (l : List Datom). n ∷ l) h)
    | inr e ↦ rw (pull_stop cmp last n ns e) ([], refl)
  ]

  merge_chunk-IsTail : (c : Chunk) (ds ns : List Datom) → IsTail ns (merge_chunk cmp c ds ns).1
  merge_chunk-IsTail c [] ns = unfold merge_chunk in ([], refl)
  merge_chunk-IsTail c (d ∷ ds) ns =
      let last = (split_last d ds).1 in
      let out = merge_loop cmp (d ∷ ds) ns in
      elim (Bool-cases (goes_before cmp last ns)) [
        | inl e ↦ unfold merge_chunk in rw e ([], refl)
        | inr e ↦
            let t =
              IsTail-trans ns out.1 (pull cmp last out.1).1 (loop-IsTail (d ∷ ds) ns)
                (pull-IsTail last out.1) in
            unfold merge_chunk in rw e t
      ]

  -- The chunk yielded at the end holds the novelty that is left.
  end_lem :
      (nov : Chunk) (ns : List Datom)
      → IsChunk nov
      → IsTail (chunk_datoms nov) ns
      → stream (merge_end nov ns) ≡ ns
  unfolding merge_end
  end_lem nov [] w t = refl
  end_lem nov (n ∷ ns) w (us, h) =
      let m = nov.end - nov.start in
      let k = nov.end - length (n ∷ ns) in
      let total : length us + length (n ∷ ns) ≡ m = omega (
        arith,
        length-append us (n ∷ ns),
        ap (length {A = Datom}) h,
        length-take m (drop nov.start nov.datoms),
        length-drop nov.start nov.datoms,
        w.0,
        w.1,
      ) in
      let e : nov.end - k ≡ length (n ∷ ns) = omega (arith, total, w.0) in
      append-nil (slice nov.datoms k nov.end)
      ∙ (rw e (
          rw (drop-drop nov.start (length us) k nov.datoms (omega (arith, total, w.0)))
            (take_suffix us (n ∷ ns) (drop nov.start nov.datoms) m (sym h) (sym total))))

  merge_chunk_any :
      (o : IsWeakOrder cmp) (c : Chunk) (ns rest : List Datom)
      → IsChunk c
      → IsSorted cmp (chunk_datoms c ++ rest)
      → let r = merge_chunk cmp c (chunk_datoms c) ns in
        sorted_union cmp (chunk_datoms c ++ rest) ns ≡ chunk_datoms r.0 ++ sorted_union cmp rest r.1
  merge_chunk_any o c ns rest w s = go (chunk_datoms c) refl s
    where
      go :
          (xs : List Datom)
          → chunk_datoms c ≡ xs
          → IsSorted cmp (xs ++ rest)
          → let r = merge_chunk cmp c xs ns in
            sorted_union cmp (xs ++ rest) ns ≡ chunk_datoms r.0 ++ sorted_union cmp rest r.1
      go [] e s = absurd (
          omega (
            arith,
            ap (length {A = Datom}) e,
            length-take (c.end - c.start) (drop c.start c.datoms),
            length-drop c.start c.datoms,
            w.0,
            w.1,
          ))
      go (d ∷ ds) e s = merge_chunk_lem o c d ds ns rest e s

  pub merge_from_lem :
      (o : IsWeakOrder cmp) (cs : List Chunk) (nov : Chunk) (ns : List Datom)
      → All IsChunk cs
      → IsChunk nov
      → IsTail (chunk_datoms nov) ns
      → IsSorted cmp (stream cs)
      → stream (merge_from cmp cs nov ns) ≡ sorted_union cmp (stream cs) ns
  unfolding merge_from
  merge_from_lem o [] nov ns w v t s = (end_lem nov ns v t ∙ sym (nil-union cmp ns))
  merge_from_lem o (c ∷ cs) nov ns w v t s =
      let r = merge_chunk cmp c (chunk_datoms c) ns in
      ap (λ l. chunk_datoms r.0 ++ l)
        (merge_from_lem o cs nov r.1 w.1 v
          (IsTail-trans (chunk_datoms nov) ns r.1 t (merge_chunk-IsTail c (chunk_datoms c) ns))
          (IsSorted-append cmp (chunk_datoms c) (stream cs) s).1)
      ∙ sym (merge_chunk_any o c ns (stream cs) w.0 s)

-- For a consistent order, non-empty chunks that lie within their arrays and together are strictly
-- sorted, and a non-empty chunk of novelty within its array, the stream that `mergeChunks` yields
-- holds the same datoms in the same order as `sortedUnion` of the whole stream and the whole
-- novelty chunk.
pub merge_chunks-union :
    (cmp : Datom → Datom → Ordering) (o : IsWeakOrder cmp) (cs : List Chunk) (nov : Chunk)
    → All IsChunk cs
    → IsChunk nov
    → IsSorted cmp (stream cs)
    → stream (merge_chunks cmp cs (some nov)) ≡ sorted_union cmp (stream cs) (chunk_datoms nov)
unfolding merge_chunks
merge_chunks-union cmp o cs nov w v s =
    merge_from_lem cmp o cs nov (chunk_datoms nov) w v ([], refl) s
