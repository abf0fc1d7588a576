-- ===== src/Novelty/Chunks.antt =====
-- The chunks that `range` and `mergeChunks` of novelty.ts pass on are not empty.
use ramose.Base.{
  length-append, ◌<◌, ◌≡◌, inl, inr, sym, Option, none, some, List, [], ◌∷◌, All, arith, Ordering,
  length, Bool-cases,
}
use ramose.Base.Order.{IsWeakOrder}
use ramose.Base.Sorted.{IsSorted}
use ramose.Datom.{Datom, IndexId, Prefix}
use ramose.Tree.{Chunk, chunk_datoms, sorted_union}
use ramose.Tree.Chunks.{IsChunk, stream}
use ramose.Tree.Bounds.{upper_bound-le}
use ramose.Tree.Union.{union-nil}
use ramose.Novelty.{SortedNovelty, range, range_in, flush}
use ramose.Novelty.Flush.{option_datoms}
use ramose.Novelty.View.{split_last}
use ramose.Novelty.Merge.{
  merge_chunks, merge_from, merge_chunk, merge_loop, pull, merge_end, goes_before, whole_chunk,
}
use ramose.Novelty.Merge.Whole.{merge_chunks-union}

-- No chunk, or one that is not empty.
abbrev pub IsSomeChunk : Option Chunk → Type 0
IsSomeChunk none = Unit
IsSomeChunk (some c) = IsChunk c

range_in-chunk : (i : IndexId) (ds : List Datom) (p : Prefix) → IsSomeChunk (range_in i ds p)
unfolding range_in
range_in-chunk i [] p = tt
range_in-chunk i (d ∷ ds) p = ground (arith, upper_bound-le i (d ∷ ds) p)

pub range-chunk : (n : SortedNovelty) (p : Prefix) → IsSomeChunk (range n p).1
unfolding range
range-chunk n p = range_in-chunk (flush n).index (flush n).base p

pub stream-merge_chunks :
    (cmp : Datom → Datom → Ordering) (o : IsWeakOrder cmp) (cs : List Chunk) (nov : Option Chunk)
    → All IsChunk cs
    → IsSomeChunk nov
    → IsSorted cmp (stream cs)
    → stream (merge_chunks cmp cs nov) ≡ sorted_union cmp (stream cs) (option_datoms nov)
stream-merge_chunks cmp o cs none w v s = unfold merge_chunks in sym (union-nil cmp (stream cs))
stream-merge_chunks cmp o cs (some c) w v s = merge_chunks-union cmp o cs c w v s

module _ (cmp : Datom → Datom → Ordering) where
  merged_some : (d : Datom) (ds ns : List Datom) → 0 < length (merge_loop cmp (d ∷ ds) ns).0
  unfolding merge_loop
  merged_some d ds [] = omega arith
  merged_some d ds (n ∷ ns) = ground arith

  merge_chunk-IsChunk :
      (c : Chunk) (xs ns : List Datom) → IsChunk c → IsChunk (merge_chunk cmp c xs ns).0
  unfolding merge_chunk whole_chunk
  merge_chunk-IsChunk c [] ns w = w
  merge_chunk-IsChunk c (d ∷ ds) ns w =
      let last = (split_last d ds).1 in
      let out = merge_loop cmp (d ∷ ds) ns in
      let more = pull cmp last out.1 in
      elim (Bool-cases (goes_before cmp last ns)) [
        | inl e ↦ rw e w
        | inr e ↦ rw e (omega (arith, merged_some d ds ns, length-append out.0 more.0), omega arith)
      ]

  merge_end-IsChunk : (nov : Chunk) (ns : List Datom) → IsChunk nov → All IsChunk (merge_end nov ns)
  unfolding merge_end
  merge_end-IsChunk nov [] w = tt
  merge_end-IsChunk nov (n ∷ ns) w = ((omega (arith, w.0), w.1), tt)

  merge_from-IsChunk :
      (cs : List Chunk) (nov : Chunk) (ns : List Datom)
      → All IsChunk cs
      → IsChunk nov
      → All IsChunk (merge_from cmp cs nov ns)
  unfolding merge_from
  merge_from-IsChunk [] nov ns w v = merge_end-IsChunk nov ns v
  merge_from-IsChunk (c ∷ cs) nov ns w v = (
    merge_chunk-IsChunk c (chunk_datoms c) ns w.0,
    merge_from-IsChunk cs nov (merge_chunk cmp c (chunk_datoms c) ns).1 w.1 v,
  )

  pub merge_chunks-IsChunk :
      (cs : List Chunk) (nov : Option Chunk)
      → All IsChunk cs
      → IsSomeChunk nov
      → All IsChunk (merge_chunks cmp cs nov)
  unfolding merge_chunks
  merge_chunks-IsChunk cs none w v = w
  merge_chunks-IsChunk cs (some c) w v = merge_from-IsChunk cs c (chunk_datoms c) w v
