-- ===== src/Novelty/View.antt =====
-- `currentView` and its siblings of novelty.ts: the collapse over a stream of chunks.
pub mod Parts
pub mod Rounds
pub mod Stream
pub mod Arrays
use ramose.Base.{
  ℕ, ◌-◌, Bool, true, false, ◌&&◌, not, Option, none, some, List, [], ◌∷◌, ◌++◌, leb, ltb, ◌==◌,
  length, if◌then◌else◌, keep,
}
use ramose.Datom.{Datom}
use ramose.Tree.{Chunk, chunk_datoms}
use ramose.Novelty.Collapse.{same_fact, visible, is_plain, emit, continues, collapse_loop}

-- The variables that live across chunks. `held` is a whole leaf array of plain facts.
pub record ViewState : Type 0 where
  pub pending : Option Datom
  pub held : Option (List Datom)

-- All but the last, and the last: `held.slice(0, held.length - 1)`, `held[held.length - 1]`.
unfoldable pub split_last : Datom → List Datom → List Datom × Datom
split_last d [] = ([], d)
split_last d (x ∷ xs) = let r = split_last x xs in (d ∷ r.0, r.1)

-- `if (arr.length) yield arr;`
unfoldable pub yield_some : List Datom → List (List Datom)
yield_some [] = []
yield_some (d ∷ ds) = (d ∷ ds) ∷ []

-- The held array, when the first datom of the next chunk is known: what is yielded, and `pending`.
unfoldable pub release_held : Datom → ViewState → List (List Datom) × Option Datom
unfolding split_last yield_some
release_held first st = elim st.held [
  | none ↦ ([], st.pending)
  | some h ↦ elim h [
    | [] ↦ ([], st.pending)
    | d ∷ ds ↦
        let r = split_last d ds in
        if same_fact r.1 first then (yield_some r.0, some r.1) else ((d ∷ ds) ∷ [], none)
  ]
]

-- The pending fact ends unless the chunk continues it.
unfoldable pub release_pending : Datom → Option Datom → List (List Datom) × Option Datom
unfolding yield_some emit continues
release_pending first none = ([], none)
release_pending first (some p) =
    if same_fact p first then ([], some p) else (yield_some (emit (some p)), none)

-- A plain chunk: the whole array is held, a slice is yielded but for its last datom.
unfoldable pub take_plain : Bool → Datom → List Datom → List (List Datom) × ViewState
unfolding split_last yield_some
take_plain true d ds = ([], record { pending = none; held = some (d ∷ ds) })
take_plain false d ds =
    let r = split_last d ds in (yield_some r.0, record { pending = some r.1; held = none })

unfoldable pub take_loop : Option ℕ → Option Datom → List Datom → List (List Datom) × ViewState
unfolding collapse_loop yield_some
take_loop as_of pending ds =
    let r = collapse_loop as_of pending ds in
    (yield_some r.0, record { pending = r.1; held = none })

-- `pending === undefined && isPlainChunk(ds, start, end, asOf)`
unfoldable pub take_slice :
    Option ℕ → Bool → Option Datom → Datom → List Datom → List (List Datom) × ViewState
unfolding take_plain take_loop is_plain
take_slice as_of whole none d ds =
    if is_plain as_of (d ∷ ds) then take_plain whole d ds else take_loop as_of none (d ∷ ds)
take_slice as_of whole (some p) d ds = take_loop as_of (some p) (d ∷ ds)

-- One round of the loop, over the datoms of the chunk. `whole` is `start === 0 && end === ds.length`.
unfoldable pub view_slice : Option ℕ → Bool → List Datom → ViewState → List (List Datom) × ViewState
unfolding release_held release_pending take_slice
view_slice as_of whole [] st = ([], st)
view_slice as_of whole (d ∷ ds) st =
    let a = release_held d st in
    let b = release_pending d a.1 in
    let c = take_slice as_of whole b.1 d ds in (a.0 ++ (b.0 ++ c.0), c.1)

unfoldable pub view_chunk : Option ℕ → Chunk → ViewState → List (List Datom) × ViewState
unfolding view_slice
view_chunk as_of c st =
    let round = view_slice as_of (c.start == 0 && c.end == length c.datoms) (chunk_datoms c) st in
    if leb c.end c.start then ([], st) else round

-- `if (held !== undefined) yield held; else if (pending !== undefined && pending.op) yield [pending];`
unfoldable pub view_end : ViewState → List (List Datom)
unfolding yield_some emit
view_end st = elim st.held [ none ↦ yield_some (emit st.pending) | some h ↦ h ∷ [] ]

unfoldable pub view_from : Option ℕ → List Chunk → ViewState → List (List Datom)
unfolding view_chunk view_end
view_from as_of [] st = view_end st
view_from as_of (c ∷ cs) st = let r = view_chunk as_of c st in r.0 ++ view_from as_of cs r.1

unfoldable pub current_view : List Chunk → Option ℕ → List (List Datom)
unfolding view_from
current_view cs as_of = view_from as_of cs (record { pending = none; held = none })

-- `filterAsOf`: history up to a transaction.
unfoldable pub filter_as_of : List Chunk → ℕ → List (List Datom)
unfolding yield_some
filter_as_of [] as_of = []
filter_as_of (c ∷ cs) as_of =
    yield_some (keep (λ d. leb d.t as_of) (chunk_datoms c)) ++ filter_as_of cs as_of

-- `rawView`: the whole array or the slice, either way the chunk's datoms.
unfoldable pub raw_view : List Chunk → List (List Datom)
raw_view [] = []
raw_view (c ∷ cs) =
    (if c.start == 0 && c.end == length c.datoms then c.datoms else chunk_datoms c) ∷ raw_view cs
