-- ===== src/Tests/Conns.antt =====
-- A connection with empty trees and the small history in its novelty, which is indexed.
use ramose.Base.{
  ◌↔◌, ◌++◌, ℕ, ◌+◌, ◌<◌, ◌^◌, ◌≡◌, refl, some, List, [], ◌∷◌, arith, length, concat, keep,
}
use ramose.Base.Int.{compare_ℤ}
use ramose.Base.Dict.{lookup}
use ramose.Datom.{
  Datom, IndexId, eavt, aevt, avet, vaet, Prefix, comparator_for, cmp_eavt, cmp_aevt, tag,
  compare_value, compare_payload,
}
use ramose.Tree.{sorted_union}
use ramose.Tree.Store.{leaf}
use ramose.Tree.Build.Forest.{IsTree}
use ramose.Novelty.{
  Novelty, empty_novelty, add_all, add, flush, flush_pending, absorb, sort_by, dedup, dedup_after,
}
use ramose.Novelty.Coherent.{empty-IsCoherent, add_all-IsCoherent}
use ramose.Novelty.Indexes.{empty-HasIndexes, add_all-HasIndexes}
use ramose.Schema.Projection.{empty_schema, apply, is_avet, is_vaet, attr}
use ramose.Novelty.{by_index}
use ramose.Db.{Roots, root_for, datoms}
use ramose.Conn.{Connection, db, index}
use ramose.Conn.Load.{from_datoms, takes_part}
use ramose.Conn.Loaded.{from_datoms-IsConnected}
use ramose.Schema.Bootstrap.{bootstrap_datoms}
use ramose.Base.Sorted.{In}
use ramose.Conn.Remaining.{IsConsistent}
use ramose.Conn.Indexing.{IsConnected}
use ramose.Conn.Indexed.{Indexed, index-Indexed, index-datoms}
use ramose.Tests.Data.{history}
use ramose.Tests.Merges.{hashing, hashing-IsNodeStore, hashing-IsHashed, one_leaf}
use ramose.Tests.Trees.{numbered}

abbrev roots : Roots
roots = record {
  t = 0;
  eavt_root = one_leaf;
  aevt_root = one_leaf;
  avet_root = one_leaf;
  vaet_root = one_leaf;
}

abbrev recent : Novelty
recent = add_all history (is_avet empty_schema) (is_vaet empty_schema) empty_novelty

recent-IsConsistent : IsConsistent empty_schema recent
recent-IsConsistent = (
  add_all-IsCoherent (is_avet empty_schema) (is_vaet empty_schema) history empty_novelty
      (empty-IsCoherent (is_avet empty_schema) (is_vaet empty_schema)),
  add_all-HasIndexes (is_avet empty_schema) (is_vaet empty_schema) history empty_novelty
      empty-HasIndexes,
)

abbrev connection : Connection hashing 3 2
connection = record {
  state = leaf [] ∷ [];
  roots = roots;
  novelty = recent;
  schema = empty_schema;
  basis_t = 102;
  next_eid = 1000;
  root_history = roots ∷ [];
}

abbrev nothing_stored : IndexId → List Datom
nothing_stored i = []

abbrev flat : IndexId → ℕ
flat i = 0

stored_leaf : (i : IndexId) → IsTree hashing 0 (leaf [] ∷ []) (root_for roots i) []
unfolding root_for numbered
stored_leaf eavt = refl
stored_leaf aevt = refl
stored_leaf avet = refl
stored_leaf vaet = refl

short_recent : (i : IndexId) → 0 + length (flush (by_index recent i)).base < 2 ^ 31
unfolding by_index add_all add keep is_avet is_vaet attr lookup flush flush_pending absorb sort_by
    dedup dedup_after sorted_union comparator_for cmp_eavt cmp_aevt compare_value compare_payload
    compare_ℤ tag
short_recent eavt = omega arith
short_recent aevt = omega arith
short_recent avet = omega arith
short_recent vaet = omega arith

connection-IsConnected : IsConnected hashing 3 2 connection nothing_stored flat
connection-IsConnected = record {
  stored = stored_leaf;
  some_datom = λ i z. absurd (omega (arith, z));
  in_order = λ i. tt;
  short = short_recent;
  consistent = recent-IsConsistent;
}

index-Indexed_example :
    Indexed hashing 3 2 hashing-IsNodeStore hashing-IsHashed
      (omega arith)
      (omega arith)
      connection
      nothing_stored
      (index hashing 3 2 5 101 connection)
index-Indexed_example =
    index-Indexed hashing 3 2 hashing-IsNodeStore hashing-IsHashed (omega arith) (omega arith)
      connection nothing_stored flat connection-IsConnected 5 101 (λ i. omega arith)

index-datoms_example :
    (r : Roots) × (c' : Connection hashing 3 2) × (index hashing 3 2 5 101 connection
      ≡ some (r, c'))
    × ((i : IndexId) (p : Prefix)
        → (enough : ℕ) × (x : List (List Datom)) × (y : List (List Datom)) × ((datoms enough i p
              (db hashing 3 2 connection)).0
            ≡ some x)
          × ((datoms enough i p (db hashing 3 2 c')).0 ≡ some y)
          × (concat x ≡ concat y))
index-datoms_example =
    index-datoms hashing 3 2 hashing-IsNodeStore hashing-IsHashed (omega arith) (omega arith)
      connection nothing_stored flat connection-IsConnected 5 101 (λ i. omega arith)

from_datoms-IsConnected_example :
    (boot : List Datom) × (c : Connection hashing 3 2) × (ds : IndexId → List Datom)
    × (depth : IndexId → ℕ) × (bootstrap_datoms ≡ some boot)
    × (from_datoms hashing 3 2 history [] ≡ some c)
    × IsConnected hashing 3 2 c ds depth
    × (c.schema ≡ apply history (apply boot empty_schema))
    × ((i : IndexId) (d : Datom) → In d (ds i) ↔ In d (takes_part c.schema i (boot ++ history)))
from_datoms-IsConnected_example =
    from_datoms-IsConnected hashing 3 2 hashing-IsNodeStore (omega arith) (omega arith) history []
      (omega arith)
