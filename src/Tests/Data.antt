-- ===== src/Tests/Data.antt =====
-- A history of two entities: entity 1 changes attribute 10 from 5 to 7 in transaction 101.
use ramose.Base.{ℕ, refl, true, false, none, some, List, [], ◌∷◌, arith}
use ramose.Base.Int.{pos, compare_ℤ}
use ramose.Base.Sorted.{IsSorted}
use ramose.Datom.{
  Datom, long, eavt, cmp_eavt, comparator_for, compare_value, compare_payload, tag, Prefix,
}
use ramose.Tree.{Chunk}
use ramose.Novelty.{SortedNovelty}
use ramose.Novelty.Flush.{IsValid}
use ramose.Tree.Chunks.{IsChunk, stream}

abbrev pub fact : ℕ → ℕ → ℕ → Datom
fact e n t = record { e = e; a = 10; v = long (pos n); t = t; op = true }

abbrev pub gone : ℕ → ℕ → ℕ → Datom
gone e n t = record { e = e; a = 10; v = long (pos n); t = t; op = false }

abbrev pub history : List Datom
history = fact 1 5 100 ∷ gone 1 5 101 ∷ fact 1 7 101 ∷ fact 2 5 102 ∷ []

pub history-IsSorted : IsSorted (comparator_for eavt) history
unfolding comparator_for cmp_eavt compare_value compare_payload compare_ℤ tag
history-IsSorted = ((refl, (refl, (refl, tt))), ((refl, (refl, tt)), ((refl, tt), (tt, tt))))

-- A whole leaf, and a slice of a longer one.
abbrev pub leaf : Chunk
leaf = record { datoms = fact 1 5 100 ∷ gone 1 5 101 ∷ []; start = 0; end = 2 }

abbrev pub part : Chunk
part = record { datoms = gone 1 5 101 ∷ fact 1 7 101 ∷ fact 2 5 102 ∷ []; start = 1; end = 3 }

abbrev pub newer : Chunk
newer = record { datoms = gone 1 5 101 ∷ gone 1 7 103 ∷ []; start = 0; end = 2 }

pub leaf-IsChunk : IsChunk leaf
leaf-IsChunk = (omega arith, omega arith)

pub part-IsChunk : IsChunk part
part-IsChunk = (omega arith, omega arith)

pub newer-IsChunk : IsChunk newer
newer-IsChunk = (omega arith, omega arith)

pub stream-IsSorted : IsSorted (comparator_for eavt) (stream (leaf ∷ part ∷ []))
stream-IsSorted = history-IsSorted

abbrev pub one_entity : Prefix
one_entity = record { e = some 1; a = some 10; v = none; t = none }

-- Two datoms sorted, and two added since.
abbrev pub novelty : SortedNovelty
novelty = record {
  index = eavt;
  base = fact 1 5 100 ∷ fact 2 5 102 ∷ [];
  pending = fact 1 7 101 ∷ gone 1 5 101 ∷ fact 1 7 101 ∷ [];
}

pub novelty-IsValid : IsValid novelty
unfolding comparator_for cmp_eavt compare_value compare_payload compare_ℤ tag
novelty-IsValid = record { sorted = ((refl, tt), (tt, tt)) }
