-- ===== src/Tree/Chunks.antt =====
-- Streams of chunks: what `scan`, `mergeChunks` and `currentView` pass on.
use ramose.Base.{◌≤◌, ◌<◌, ◌≡◌, ◌∙◌, refl, sym, ap, List, [], ◌∷◌, ◌++◌, append_assoc, length}
use ramose.Datom.{Datom}
use ramose.Tree.{Chunk, chunk_datoms}

-- Not empty, and within the array.
abbrev pub IsChunk : Chunk → Type 0
IsChunk c = (c.start < c.end) × (c.end ≤ length c.datoms)

-- The datoms of a stream of chunks.
abbrev pub stream : List Chunk → List Datom
stream [] = []
stream (c ∷ cs) = chunk_datoms c ++ stream cs

pub stream-append : (xs ys : List Chunk) → stream (xs ++ ys) ≡ stream xs ++ stream ys
stream-append [] ys = refl
stream-append (x ∷ xs) ys =
    ap (λ l. chunk_datoms x ++ l) (stream-append xs ys)
    ∙ sym (append_assoc (chunk_datoms x) (stream xs) (stream ys))
