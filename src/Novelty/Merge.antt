-- ===== src/Novelty/Merge.antt =====
-- `mergeChunks` of novelty.ts: an ordered chunk stream from a tree scan, merged with a chunk of
-- novelty. The index `j` is kept as the novelty that is left.
pub mod Rounds
pub mod Whole
use ramose.Base.{
  ℕ, zero, suc, ◌+◌, ◌-◌, ◌≤◌, ◌<◌, ◌≡◌, ◌≢◌, ◌∙◌, refl, sym, ap, inl, inr, Bool, true, false,
  Option, none, some, List, [], ◌∷◌, ◌++◌, append_assoc, append-nil, All, arith, Ordering,
  Ordering-cases, length, slice, drop, take, if◌then◌else◌, Bool-cases, concat, length-append,
  length-drop, length-take, min, take_all, drop-drop, take_suffix,
}
use ramose.Base.Order.{IsWeakOrder, flip}
use ramose.Base.Sorted.{In, IsSorted, IsSorted-append, All-split}
use ramose.Datom.{Datom}
use ramose.Tree.{Chunk, chunk_datoms, sorted_union, is_lt, is_le}
use ramose.Tree.Union.{union_lt, union_gt, union_eq, union-nil, nil-union}
use ramose.Novelty.View.{split_last}
use ramose.Tree.Chunks.{IsChunk, stream}
use ramose.Novelty.View.Parts.{In-split_last}

-- The two loops that exhaust the chunk or the novelty: `out`, and the novelty that is left.
unfoldable pub merge_loop :
    (Datom → Datom → Ordering) → List Datom → List Datom → List Datom × List Datom
merge_loop cmp [] ns = ([], ns)
merge_loop cmp (d ∷ ds) [] = (d ∷ ds, [])
merge_loop cmp (d ∷ ds) (n ∷ ns) =
    let chunk_first = merge_loop cmp ds (n ∷ ns) in
    let novelty_first = merge_loop cmp (d ∷ ds) ns in
    let both = merge_loop cmp ds ns in
    elim (cmp d n) [
      | Ordering.lt ↦ (d ∷ chunk_first.0, chunk_first.1)
      | Ordering.gt ↦ (n ∷ novelty_first.0, novelty_first.1)
      | Ordering.eq ↦ (d ∷ both.0, both.1)
    ]

-- `while (j < jEnd && cmp(nds[j], last) <= 0) out.push(nds[j++]);`
unfoldable pub pull : (Datom → Datom → Ordering) → Datom → List Datom → List Datom × List Datom
pull cmp last [] = ([], [])
pull cmp last (n ∷ ns) =
    let rest = pull cmp last ns in if is_le (cmp n last) then (n ∷ rest.0, rest.1) else ([], n ∷ ns)

unfoldable pub whole_chunk : List Datom → Chunk
whole_chunk ds = record { datoms = ds; start = 0; end = length ds }

-- `j >= jEnd || cmp(ds[c.end - 1], nds[j]) < 0`: the chunk sorts before what is left.
unfoldable pub goes_before : (Datom → Datom → Ordering) → Datom → List Datom → Bool
goes_before cmp last [] = true
goes_before cmp last (n ∷ ns) = is_lt (cmp last n)

-- One chunk: what is yielded, and the novelty that is left. A chunk of a scan is not empty.
unfoldable pub merge_chunk :
    (Datom → Datom → Ordering) → Chunk → List Datom → List Datom → Chunk × List Datom
unfolding split_last merge_loop pull whole_chunk goes_before
merge_chunk cmp c [] ns = (c, ns)
merge_chunk cmp c (d ∷ ds) ns =
    let last = (split_last d ds).1 in
    let out = merge_loop cmp (d ∷ ds) ns in
    let more = pull cmp last out.1 in
    if goes_before cmp last ns then (c, ns) else (whole_chunk (out.0 ++ more.0), more.1)

-- `if (j < jEnd) yield { datoms: nds, start: j, end: jEnd };`
unfoldable pub merge_end : Chunk → List Datom → List Chunk
merge_end nov [] = []
merge_end nov (n ∷ ns) =
    record { datoms = nov.datoms; start = nov.end - length (n ∷ ns); end = nov.end } ∷ []

unfoldable pub merge_from :
    (Datom → Datom → Ordering) → List Chunk → Chunk → List Datom → List Chunk
unfolding merge_chunk merge_end
merge_from cmp [] nov ns = merge_end nov ns
merge_from cmp (c ∷ cs) nov ns =
    let r = merge_chunk cmp c (chunk_datoms c) ns in r.0 ∷ merge_from cmp cs nov r.1

unfoldable pub merge_chunks : (Datom → Datom → Ordering) → List Chunk → Option Chunk → List Chunk
unfolding merge_from
merge_chunks cmp tree none = tree
merge_chunks cmp tree (some nov) = merge_from cmp tree nov (chunk_datoms nov)
