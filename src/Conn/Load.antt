-- ===== src/Conn/Load.antt =====
-- `sortForIndex`, `buildRoots` and `fromDatoms` of conn.ts: a database loaded at once.
use ramose.Base.{ℕ, ◌+◌, ◌-◌, Option, none, some, List, [], ◌∷◌, ◌++◌, keep}
use ramose.Datom.{Datom, IndexId, eavt, aevt, avet, vaet, comparator_for}
use ramose.Tree.Store.{NodeRef, NodeStore}
use ramose.Tree.Build.{build_tree}
use ramose.Novelty.{empty_novelty, sort_by, dedup}
use ramose.Schema.{first_user_eid}
use ramose.Schema.Bootstrap.{bootstrap_datoms, bootstrap}
use ramose.Schema.Projection.{Schema, apply, is_avet, is_vaet}
use ramose.Db.{Roots}
use ramose.Conn.{Connection, max_tx, max_entity}

unfoldable pub sort_for_index : IndexId → List Datom → List Datom
unfolding sort_by dedup comparator_for
sort_for_index i ds = dedup (comparator_for i) (sort_by (comparator_for i) ds)

-- The datoms that take part in an index.
unfoldable pub takes_part : Schema → IndexId → List Datom → List Datom
unfolding is_avet is_vaet keep
takes_part s eavt ds = ds
takes_part s aevt ds = ds
takes_part s avet ds = keep (λ d. is_avet s d.a) ds
takes_part s vaet ds = keep (λ d. is_vaet s d.a) ds

module _ (store : NodeStore) (leaf_size fanout : ℕ) where
  unfoldable pub build_root :
      Schema → List Datom → IndexId → store.State → Option (NodeRef × store.State)
  unfolding build_tree sort_for_index takes_part
  build_root schema ds i s =
      build_tree store i leaf_size fanout (sort_for_index i (takes_part schema i ds)) s

  unfoldable pub build_roots : Schema → List Datom → store.State → Option (Roots × store.State)
  unfolding build_root max_tx
  build_roots schema ds s = elim (build_root schema ds eavt s) [
    | none ↦ none
    | some e ↦ elim (build_root schema ds aevt e.1) [
      | none ↦ none
      | some a ↦ elim (build_root schema ds avet a.1) [
        | none ↦ none
        | some v ↦ elim (build_root schema ds vaet v.1) [
          | none ↦ none
          | some r ↦ some (
            record {
              t = max_tx 0 ds;
              eavt_root = e.0;
              aevt_root = a.0;
              avet_root = v.0;
              vaet_root = r.0;
            },
            r.1,
          )
        ]
      ]
    ]
  ]

  unfoldable pub loaded :
      Schema
      → List Datom
      → Option (Roots × store.State)
      → Option (Connection store leaf_size fanout)
  unfolding max_entity
  loaded schema ds none = none
  loaded schema ds (some r) = some (record {
    state = r.1;
    roots = r.0;
    novelty = empty_novelty;
    schema = schema;
    basis_t = r.0.t;
    next_eid = max_entity (first_user_eid - 1) ds + 1;
    root_history = r.0 ∷ [];
  })

  unfoldable pub load_with :
      List Datom
      → store.State
      → Option Schema
      → Option (List Datom)
      → Option (Connection store leaf_size fanout)
  unfolding apply build_roots loaded
  load_with ds s none boot = none
  load_with ds s (some system) none = none
  load_with ds s (some system) (some boot) =
      let schema = apply ds system in loaded schema ds (build_roots schema (boot ++ ds) s)

  -- Over a store in the state `s`.
  unfoldable pub from_datoms : List Datom → store.State → Option (Connection store leaf_size fanout)
  unfolding load_with
  from_datoms ds s = load_with ds s bootstrap bootstrap_datoms
