-- ===== src/Novelty/View/Stream.antt =====
-- `currentView` of novelty.ts yields, over any division into chunks, the present facts.
use ramose.Base.{
  ℕ, ◌<◌, ◌≡◌, ◌∙◌, sym, ap, false, Option, none, some, List, [], ◌∷◌, ◌++◌, append-nil, All, arith,
  keep, leb, concat, concat-append,
}
use ramose.Base.Sorted.{IsSorted, IsSorted-append}
use ramose.Datom.{Datom, IndexId, comparator_for}
use ramose.Tree.{Chunk, chunk_datoms}
use ramose.Tree.Chunks.{IsChunk, stream}
use ramose.Novelty.Collapse.{visible, emit, collapse_loop, collapse_from}
use ramose.Novelty.Present.{present, collapse_from-none}
use ramose.Novelty.View.{ViewState, view_chunk, view_end, view_from, current_view}
use ramose.Novelty.View.Parts.{split_last-append, concat-yield}
use ramose.Novelty.View.Rounds.{IsReady, owed, view_slice_lem}

module _ (i : IndexId) (as_of : Option ℕ) where
  view_chunk_lem :
      (c : Chunk) (xs : List Datom) (st : ViewState)
      → c.start < c.end
      → IsSorted (comparator_for i) (chunk_datoms c ++ xs)
      → IsReady i st.held st.pending (chunk_datoms c ++ xs)
      → let r = view_chunk as_of c st in
        IsReady i r.1.held r.1.pending xs
        × (concat r.0 ++ owed as_of r.1.held r.1.pending xs
            ≡ owed as_of st.held st.pending (chunk_datoms c ++ xs))
  view_chunk_lem c xs st h s b =
      let e : leb c.end c.start ≡ false = ground arith in
      unfold view_chunk in rw e (view_slice_lem i as_of _ (chunk_datoms c) xs st s b)

  view_end_lem :
      (h : Option (List Datom)) (p : Option Datom)
      → IsReady i h p []
      → concat (view_end (record { pending = p; held = h })) ≡ owed as_of h p []
  view_end_lem none p b = unfold view_end collapse_from collapse_loop in concat-yield (emit p)
  view_end_lem (some []) p b = absurd b
  view_end_lem (some (d ∷ ds)) p b =
      unfold view_end collapse_from collapse_loop emit in
      (append-nil (d ∷ ds) ∙ (sym (split_last-append d ds) ∙ rw b.1))

  view_from_lem :
      (cs : List Chunk) (st : ViewState)
      → All IsChunk cs
      → IsSorted (comparator_for i) (stream cs)
      → IsReady i st.held st.pending (stream cs)
      → concat (view_from as_of cs st) ≡ owed as_of st.held st.pending (stream cs)
  unfolding view_from
  view_from_lem [] st w s b = view_end_lem st.held st.pending b
  view_from_lem (c ∷ cs) st w s b =
      let l = view_chunk_lem c (stream cs) st w.0.0 s b in
      let r = view_chunk as_of c st in
      (concat-append r.0 (view_from as_of cs r.1)
        ∙ (ap (λ l. concat r.0 ++ l)
              (view_from_lem cs r.1 w.1
                (IsSorted-append (comparator_for i) (chunk_datoms c) (stream cs) s).1 l.0)
            ∙ l.1))

  -- For every division of a history, strictly sorted in the order of some index, into non-empty
  -- chunks that lie within their arrays, what `currentView` yields, concatenated, is exactly the
  -- assertions among the datoms visible at `as_of` that no later visible datom of the same
  -- entity, attribute and value supersedes, in order.
  pub current_view-present :
      (cs : List Chunk)
      → All IsChunk cs
      → IsSorted (comparator_for i) (stream cs)
      → concat (current_view cs as_of) ≡ present (keep (visible as_of) (stream cs))
  current_view-present cs w s =
      unfold current_view in
      (view_from_lem cs (record { pending = none; held = none }) w s tt
        ∙ collapse_from-none i as_of (stream cs) s)
