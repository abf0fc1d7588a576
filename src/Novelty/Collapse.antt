-- ===== src/Novelty/Collapse.antt =====
-- `isPlainChunk` and `collapseCurrent` of novelty.ts: from the history of a range, in index order,
-- to its present facts.
use ramose.Base.{
  ℕ, Bool, true, false, ◌&&◌, not, Option, none, some, List, [], ◌∷◌, ◌++◌, leb, ◌==◌,
  if◌then◌else◌,
}
use ramose.Datom.{Datom, value_equals}

-- `x.e === y.e && x.a === y.a && valueEquals(x.vt, x.v, y.vt, y.v)`
unfoldable pub same_fact : Datom → Datom → Bool
same_fact x y = x.e == y.e && (x.a == y.a && value_equals x.v y.v)

-- `!(asOf !== undefined && d.t > asOf)`
unfoldable pub visible : Option ℕ → Datom → Bool
visible none d = true
visible (some t) d = leb d.t t

-- The loop of `isPlainChunk` behind its first datom.
unfoldable pub plain_after : Option ℕ → Datom → List Datom → Bool
unfolding same_fact visible
plain_after as_of prev [] = true
plain_after as_of prev (d ∷ ds) =
    d.op && (visible as_of d && (not (same_fact prev d) && plain_after as_of d ds))

-- All asserted, visible, and facts that differ from their neighbours. (It is called on a slice
-- that is not empty.)
unfoldable pub is_plain : Option ℕ → List Datom → Bool
unfolding plain_after
is_plain as_of [] = true
is_plain as_of (d ∷ ds) = d.op && (visible as_of d && plain_after as_of d ds)

-- `if (pending !== undefined && pending.op) out.push(pending);`
unfoldable pub emit : Option Datom → List Datom
emit none = []
emit (some p) = if p.op then p ∷ [] else []

-- Whether `d` is a newer version of the pending fact.
unfoldable pub continues : Option Datom → Datom → Bool
unfolding same_fact
continues none d = false
continues (some p) d = same_fact p d

-- The loop over the datoms, from a pending datom: what it pushes, and what is pending behind it.
unfoldable pub collapse_loop : Option ℕ → Option Datom → List Datom → List Datom × Option Datom
unfolding emit continues visible
collapse_loop as_of pending [] = ([], pending)
collapse_loop as_of pending (d ∷ ds) =
    let skip = collapse_loop as_of pending ds in
    let next = collapse_loop as_of (some d) ds in
    if visible as_of d
    then (if continues pending d then next else (emit pending ++ next.0, next.1))
    else skip

unfoldable pub collapse_from : Option ℕ → Option Datom → List Datom → List Datom
unfolding collapse_loop
collapse_from as_of pending ds = let r = collapse_loop as_of pending ds in r.0 ++ emit r.1

-- `ds.length === 0 || isPlainChunk(ds, 0, ds.length, asOf)` returns the array itself.
unfoldable pub collapse_current : Option ℕ → List Datom → List Datom
unfolding is_plain collapse_from
collapse_current as_of ds = if is_plain as_of ds then ds else collapse_from as_of none ds
