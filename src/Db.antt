-- ===== src/Db.antt =====
-- packages/ramose/src/internal/core/db.ts: an immutable database value and its reads.
pub mod Merged
pub mod Reads
pub mod History
pub mod Repeat
use ramose.Base.{
  ℕ, ◌≤◌, ◌<◌, Bool, true, false, ◌&&◌, not, Option, none, some, List, [], ◌∷◌, leb, ltb, concat,
  length, if◌then◌else◌,
}
use ramose.Datom.{Datom, IndexId, eavt, aevt, avet, vaet, Prefix, comparator_for}
use ramose.Tree.{Chunk}
use ramose.Tree.Shapes.{has}
use ramose.Tree.Store.{NodeRef, NodeStore}
use ramose.Tree.Scan.{scan}
use ramose.Schema.Projection.{Schema}
use ramose.Novelty.{SortedNovelty, Novelty, by_index, range}
use ramose.Novelty.Merge.{merge_chunks}
use ramose.Novelty.View.{current_view, filter_as_of, raw_view}

-- The trees hold every datom up to `t`.
pub record Roots : Type 0 where
  pub t : ℕ
  pub eavt_root : NodeRef
  pub aevt_root : NodeRef
  pub avet_root : NodeRef
  pub vaet_root : NodeRef

unfoldable pub root_for : Roots → IndexId → NodeRef
root_for r eavt = r.eavt_root
root_for r aevt = r.aevt_root
root_for r avet = r.avet_root
root_for r vaet = r.vaet_root

-- Sets what `this.novelty.byIndex[index]` is.
unfoldable pub with_index : Novelty → IndexId → SortedNovelty → Novelty
with_index n eavt s = record n { by_eavt = s }
with_index n aevt s = record n { by_aevt = s }
with_index n avet s = record n { by_avet = s }
with_index n vaet s = record n { by_vaet = s }

-- `this.novelty.byIndex[index].range(prefix)`, which flushes what is pending.
unfoldable pub novelty_range : IndexId → Prefix → Novelty → Novelty × Option Chunk
unfolding by_index with_index
novelty_range i p n = let r = range (by_index n i) p in (with_index n i r.0, r.1)

-- A snapshot, with the state of the node store that it reads.
pub record Db (store : NodeStore) : Type 0 where
  pub state : store.State
  pub roots : Roots
  pub novelty : Novelty
  pub basis_t : ℕ
  pub schema : Schema
  pub next_eid : ℕ
  pub as_of_t : Option ℕ
  pub is_history : Bool

-- `for await (const arr of …) return arr[0];`
unfoldable pub first_of : List (List Datom) → Option Datom
first_of [] = none
first_of ([] ∷ arrs) = none
first_of ((d ∷ ds) ∷ arrs) = some d

module _ {store : NodeStore} where
  unfoldable pub effective_t : Db store → ℕ
  effective_t db = elim db.as_of_t [
    | none ↦ db.basis_t
    | some t ↦ if ltb t db.basis_t then t else db.basis_t
  ]

  unfoldable pub as_of : ℕ → Db store → Db store
  as_of t db = record db { as_of_t = some t }

  unfoldable pub history : Db store → Db store
  history db = record db { is_history = true }

  -- The history needs no filter.
  unfoldable pub is_raw : Db store → Bool
  unfolding effective_t has
  is_raw db =
      leb db.novelty.max_t (effective_t db)
      && (leb db.roots.t (effective_t db) && not (has db.as_of_t))

  unfoldable pub view_of : Db store → List Chunk → List (List Datom)
  unfolding is_raw effective_t
  view_of db merged =
      if db.is_history
      then (if is_raw db then raw_view merged else filter_as_of merged (effective_t db))
      else current_view merged (some (effective_t db))

  -- The arrays, none where the store rejects, and the snapshot behind the read.
  unfoldable pub datoms : ℕ → IndexId → Prefix → Db store → Option (List (List Datom)) × Db store
  unfolding novelty_range view_of root_for
  datoms fuel i p db =
      let r = novelty_range i p db.novelty in
      (
        elim (scan i p store db.state fuel (root_for db.roots i)) [
          | none ↦ none
          | some tree ↦ some (view_of db (merge_chunks (comparator_for i) tree r.1))
        ],
        record db { novelty = r.0 },
      )

  unfoldable pub datoms_array : ℕ → IndexId → Prefix → Db store → Option (List Datom) × Db store
  unfolding datoms
  datoms_array fuel i p db =
      let r = datoms fuel i p db in (elim r.0 [ none ↦ none | some arrs ↦ some (concat arrs) ], r.1)

  -- The inner none is `undefined`, the outer a rejected promise. The whole read is awaited, so that a
  -- load that is rejected behind the first array is a rejection here.
  unfoldable pub first : ℕ → IndexId → Prefix → Db store → Option (Option Datom) × Db store
  unfolding datoms first_of
  first fuel i p db =
      let r = datoms fuel i p db in
      (elim r.0 [ none ↦ none | some arrs ↦ some (first_of arrs) ], r.1)

  unfoldable pub exists : ℕ → ℕ → Db store → Option Bool × Db store
  unfolding first has
  exists fuel e db =
      let r = first fuel eavt (record { e = some e; a = none; v = none; t = none }) db in
      (elim r.0 [ none ↦ none | some d ↦ some (has d) ], r.1)
