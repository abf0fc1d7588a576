-- ===== src/Conn.antt =====
-- packages/ramose/src/internal/core/conn.ts: the connection as a state. Building options are the leaf
-- size and the fanout. `transact` is not modelled, and neither are `restore` and `deriveSchema`.
pub mod Remaining
pub mod Indexing
pub mod Indexed
pub mod Load
pub mod Loaded
use ramose.Base.{
  ℕ, ◌+◌, ◌-◌, ◌^◌, Bool, true, false, ◌&&◌, ◌||◌, Option, none, some, List, [], ◌∷◌, ◌++◌, min,
  ltb, leb, ◌==◌, keep, if◌then◌else◌,
}
use ramose.Datom.{Datom, IndexId, eavt, aevt, avet, vaet}
use ramose.Tree.Store.{NodeRef, NodeStore}
use ramose.Tree.Build.{build_tree}
use ramose.Tree.Merge.{merge_tree}
use ramose.Novelty.{Novelty, empty_novelty, all, add_all, count}
use ramose.Schema.{first_user_eid, tx_base}
use ramose.Schema.Bootstrap.{bootstrap_datoms, bootstrap}
use ramose.Schema.Projection.{Schema, apply, is_avet, is_vaet}
use ramose.Novelty.{by_index}
use ramose.Db.{Roots, root_for, Db}

-- `novelty.byIndex[i].all().filter((d) => d.t <= maxT)`
unfoldable pub pick : ℕ → Novelty → IndexId → List Datom
unfolding all by_index
pick max_t n i = keep (λ d. leb d.t max_t) (all (by_index n i)).1

-- What `index` puts into the new novelty.
unfoldable pub remaining : ℕ → Novelty → Schema → Novelty
unfolding all add_all is_avet is_vaet
remaining max_t n s =
    add_all (keep (λ d. ltb max_t d.t) (all n.by_eavt).1) (is_avet s) (is_vaet s) empty_novelty

-- The loop of `applyDatoms` that finds the largest entity outside the partition of transactions.
unfoldable pub max_entity : ℕ → List Datom → ℕ
max_entity m [] = m
max_entity m (d ∷ ds) = max_entity (if ltb d.e tx_base && ltb m d.e then d.e else m) ds

unfoldable pub max_tx : ℕ → List Datom → ℕ
max_tx m [] = m
max_tx m (d ∷ ds) = max_tx (if ltb m d.t then d.t else m) ds

module _ (store : NodeStore) (leaf_size fanout : ℕ) where
  pub record Connection : Type 0 where
    pub state : store.State
    pub roots : Roots
    pub novelty : Novelty
    pub schema : Schema
    pub basis_t : ℕ
    pub next_eid : ℕ
    pub root_history : List Roots

  unfoldable pub empty_roots : store.State → Option (Roots × store.State)
  unfolding build_tree
  empty_roots s = elim (build_tree store eavt leaf_size fanout [] s) [
    | none ↦ none
    | some e ↦ elim (build_tree store aevt leaf_size fanout [] e.1) [
      | none ↦ none
      | some a ↦ elim (build_tree store avet leaf_size fanout [] a.1) [
        | none ↦ none
        | some v ↦ elim (build_tree store vaet leaf_size fanout [] v.1) [
          | none ↦ none
          | some r ↦ some (
            record { t = 0; eavt_root = e.0; aevt_root = a.0; avet_root = v.0; vaet_root = r.0 },
            r.1,
          )
        ]
      ]
    ]
  ]

  unfoldable pub merge_root :
      ℕ → Roots → Novelty → ℕ → IndexId → store.State → Option (NodeRef × store.State)
  unfolding merge_tree pick root_for
  merge_root fuel roots n max_t i s =
      merge_tree store i fuel leaf_size fanout (root_for roots i) (pick max_t n i) s

  unfoldable pub merge_roots : ℕ → Roots → Novelty → ℕ → store.State → Option (Roots × store.State)
  unfolding merge_root
  merge_roots fuel roots n max_t s = elim (merge_root fuel roots n max_t eavt s) [
    | none ↦ none
    | some e ↦ elim (merge_root fuel roots n max_t aevt e.1) [
      | none ↦ none
      | some a ↦ elim (merge_root fuel roots n max_t avet a.1) [
        | none ↦ none
        | some v ↦ elim (merge_root fuel roots n max_t vaet v.1) [
          | none ↦ none
          | some r ↦ some (
            record {
              t = max_t;
              eavt_root = e.0;
              aevt_root = a.0;
              avet_root = v.0;
              vaet_root = r.0;
            },
            r.1,
          )
        ]
      ]
    ]
  ]

  -- Over a store in the state `s`.
  unfoldable pub create : store.State → Option Connection
  unfolding empty_roots bootstrap_datoms bootstrap add_all is_avet is_vaet
  create s = elim (empty_roots s) [
    | none ↦ none
    | some r ↦ elim bootstrap_datoms [
      | none ↦ none
      | some boot ↦ elim bootstrap [
        | none ↦ none
        | some schema ↦ some (record {
          state = r.1;
          roots = r.0;
          novelty = add_all boot (is_avet schema) (is_vaet schema) empty_novelty;
          schema = schema;
          basis_t = 1;
          next_eid = first_user_eid;
          root_history = r.0 ∷ [];
        })
      ]
    ]
  ]

  unfoldable pub db : Connection → Db store
  db c = record {
    state = c.state;
    roots = c.roots;
    novelty = c.novelty;
    basis_t = c.basis_t;
    schema = c.schema;
    next_eid = c.next_eid;
    as_of_t = none;
    is_history = false;
  }

  unfoldable pub db_at_root : Roots → Connection → Db store
  db_at_root r c = record {
    state = c.state;
    roots = r;
    novelty = empty_novelty;
    basis_t = r.t;
    schema = c.schema;
    next_eid = c.next_eid;
    as_of_t = none;
    is_history = false;
  }

  unfoldable pub apply_datoms : List Datom → Connection → Connection
  unfolding apply add_all is_avet is_vaet max_tx max_entity
  apply_datoms [] c = c
  apply_datoms (d ∷ ds) c =
      let schema = apply (d ∷ ds) c.schema in
      record c {
        schema = schema;
        novelty = add_all (d ∷ ds) (is_avet schema) (is_vaet schema) c.novelty;
        basis_t = max_tx c.basis_t (d ∷ ds);
        next_eid = max_entity (c.next_eid - 1) (d ∷ ds) + 1;
      }

  -- The new roots and the connection behind the call. None is a rejected promise.
  unfoldable pub index : ℕ → ℕ → Connection → Option (Roots × Connection)
  unfolding merge_roots remaining count
  index fuel up_to c =
      let max_t = min up_to c.basis_t in
      if count c.novelty == 0 || leb max_t c.roots.t
      then some (c.roots, c)
      else elim (merge_roots fuel c.roots c.novelty max_t c.state) [
        | none ↦ none
        | some r ↦ some (
          r.0,
          record c {
            state = r.1;
            roots = r.0;
            novelty = remaining max_t c.novelty c.schema;
            root_history = c.root_history ++ r.0 ∷ [];
          },
        )
      ]
