-- ===== src/Conn/Loaded.antt =====
-- A connection that was loaded is in order.
use ramose.Base.{
  length-append, keep, ◌-◌, ℕ, ◌+◌, ◌^◌, ◌≤◌, ◌<◌, ◌≡◌, ◌↔◌, ◌∙◌, refl, ap, Bool, some, List, [],
  ◌∷◌, ◌++◌, arith, length,
}
use ramose.Base.Sorted.{In}
use ramose.Datom.{Datom, IndexId, eavt, aevt, avet, vaet, comparator_for}
use ramose.Tree.Store.{NodeRef, NodeStore, IsNodeStore}
use ramose.Tree.Build.{build_tree}
use ramose.Tree.Build.Forest.{IsTree, IsTree-Keeps}
use ramose.Tree.Build.Whole.{build_tree-IsRoot}
use ramose.Novelty.{empty_novelty, flush, flush_pending}
use ramose.Novelty.Indexes.{dedup-sort_by, length-dedup_sort}
use ramose.Schema.Bootstrap.{bootstrap_datoms, bootstrap, bootstrap_some, bootstrap_schema}
use ramose.Schema.Projection.{Schema, apply, empty_schema, is_avet, is_vaet}
use ramose.Novelty.{by_index}
use ramose.Db.{Roots, root_for}
use ramose.Conn.{first_user_eid, Connection, max_tx, max_entity}
use ramose.Conn.Load.{
  load_with, sort_for_index, takes_part, build_root, build_roots, loaded, from_datoms,
}
use ramose.Conn.Indexing.{IsConnected, four, IsMerged}
use ramose.Conn.Remaining.{empty-IsConsistent}

module _ (store : NodeStore) (leaf_size fanout : ℕ) (law : IsNodeStore store) (a : 1 ≤ leaf_size)
    (b : 2 ≤ fanout) where
  build_tree-IsMerged :
      (i : IndexId) (ds : List Datom) (s : store.State)
      → IsMerged store leaf_size fanout (build_tree store i leaf_size fanout ds s) s ds
  build_tree-IsMerged i [] s =
      let p = store.put i (ramose.Tree.Store.leaf []) s in
      (
        p.0,
        p.1,
        0,
        (unfold build_tree in refl),
        (λ r m l. law.put_keeps i (ramose.Tree.Store.leaf []) s r m l),
        law.load-put i (ramose.Tree.Store.leaf []) s,
        λ z. absurd (omega (arith, z)),
      )
  build_tree-IsMerged i (d ∷ ds) s =
      let (r, s', depth, e, k, t) = build_tree-IsRoot store law i leaf_size fanout (d ∷ ds) s a b in
      (r, s', depth, e, k, t, λ z. omega arith)

  module _ (schema : Schema) (ds : List Datom) where
    abbrev part : IndexId → List Datom
    part i = sort_for_index i (takes_part schema i ds)

    build_root-IsMerged :
        (i : IndexId) (s : store.State)
        → IsMerged store leaf_size fanout
            (build_root store leaf_size fanout schema ds i s)
            s
            (part i)
    unfolding build_root
    build_root-IsMerged i s = build_tree-IsMerged i (part i) s

    build_roots_on :
        (s s1 s2 s3 s4 : store.State) (e f g h : NodeRef)
        → build_root store leaf_size fanout schema ds eavt s ≡ some (e, s1)
        → build_root store leaf_size fanout schema ds aevt s1 ≡ some (f, s2)
        → build_root store leaf_size fanout schema ds avet s2 ≡ some (g, s3)
        → build_root store leaf_size fanout schema ds vaet s3 ≡ some (h, s4)
        → build_roots store leaf_size fanout schema ds s
          ≡ some (
            record { t = max_tx 0 ds; eavt_root = e; aevt_root = f; avet_root = g; vaet_root = h },
            s4,
          )
    unfolding build_roots
    build_roots_on s s1 s2 s3 s4 e f g h p q u v = rw (p, build_roots) (rw q (rw u (rw v refl)))

    build_roots_lem :
        (s : store.State)
        → (r : Roots) × (s' : store.State) × (depth : IndexId → ℕ) × (build_roots store leaf_size
              fanout schema ds s
            ≡ some (r, s'))
          × ((i : IndexId) → IsTree store (depth i) s' (root_for r i) (part i))
          × ((i : IndexId) → 0 < depth i → 0 < length (part i))
    unfolding root_for
    build_roots_lem s =
        let (e, s1, n1, p1, k1, t1, o1) = build_root-IsMerged eavt s in
        let (f, s2, n2, p2, k2, t2, o2) = build_root-IsMerged aevt s1 in
        let (g, s3, n3, p3, k3, t3, o3) = build_root-IsMerged avet s2 in
        let (h, s4, n4, p4, k4, t4, o4) = build_root-IsMerged vaet s3 in
        let roots : Roots = record {
          t = max_tx 0 ds;
          eavt_root = e;
          aevt_root = f;
          avet_root = g;
          vaet_root = h;
        } in
        (
          roots,
          s4,
          four n1 n2 n3 n4,
          build_roots_on s s1 s2 s3 s4 e f g h p1 p2 p3 p4,
          (λ i. elim i as (λ i. IsTree store (four n1 n2 n3 n4 i) s4 (root_for roots i) (part i)) [
            | eavt ↦
                IsTree-Keeps store n1 s1 s4 (λ r m l. k4 r m (k3 r m (k2 r m l))) e (part eavt) t1
            | aevt ↦ IsTree-Keeps store n2 s2 s4 (λ r m l. k4 r m (k3 r m l)) f (part aevt) t2
            | avet ↦ IsTree-Keeps store n3 s3 s4 k4 g (part avet) t3
            | vaet ↦ t4
          ]),
          (λ i. elim i as (λ i. 0 < four n1 n2 n3 n4 i → 0 < length (part i)) [
            | eavt ↦ o1
            | aevt ↦ o2
            | avet ↦ o3
            | vaet ↦ o4
          ]),
        )

length-keep : (f : Datom → Bool) (ds : List Datom) → length (keep f ds) ≤ length ds
unfolding keep
length-keep f [] = omega arith
length-keep f (d ∷ ds) = ground (arith, length-keep f ds)

length-takes_part :
    (s : Schema) (i : IndexId) (ds : List Datom) → length (takes_part s i ds) ≤ length ds
unfolding takes_part
length-takes_part s eavt ds = omega arith
length-takes_part s aevt ds = omega arith
length-takes_part s avet ds = length-keep (λ d. is_avet s d.a) ds
length-takes_part s vaet ds = length-keep (λ d. is_vaet s d.a) ds

nothing_new : (i : IndexId) → (flush (by_index empty_novelty i)).base ≡ []
unfolding by_index flush flush_pending
nothing_new eavt = refl
nothing_new aevt = refl
nothing_new avet = refl
nothing_new vaet = refl

module _ (store : NodeStore) (leaf_size fanout : ℕ) (law : IsNodeStore store) (a : 1 ≤ leaf_size)
    (b : 2 ≤ fanout) where
  abbrev loaded_as : Schema → List Datom → Roots → store.State → Connection store leaf_size fanout
  loaded_as schema ds r s = record {
    state = s;
    roots = r;
    novelty = empty_novelty;
    schema = schema;
    basis_t = r.t;
    next_eid = max_entity (first_user_eid - 1) ds + 1;
    root_history = r ∷ [];
  }

  from_datoms_on :
      (datoms boot : List Datom) (system : Schema) (s s' : store.State) (r : Roots)
      → bootstrap_datoms ≡ some boot
      → bootstrap ≡ some system
      → build_roots store leaf_size fanout (apply datoms system) (boot ++ datoms) s ≡ some (r, s')
      → from_datoms store leaf_size fanout datoms s
        ≡ some (loaded_as (apply datoms system) datoms r s')
  unfolding from_datoms
  from_datoms_on datoms boot system s s' r h k e =
      ap (λ o. load_with store leaf_size fanout datoms s o bootstrap_datoms) k
      ∙ (ap (load_with store leaf_size fanout datoms s (some system)) h
          ∙ (unfold load_with in
              unfold loaded in ap (loaded store leaf_size fanout (apply datoms system) datoms) e))

  part-short :
      (schema : Schema) (i : IndexId) (ds : List Datom)
      → length ds < 2 ^ 31
      → length (sort_for_index i (takes_part schema i ds)) < 2 ^ 31
  unfolding sort_for_index
  part-short schema i ds h = omega (
    arith,
    length-dedup_sort (comparator_for i) (takes_part schema i ds),
    length-takes_part schema i ds,
    h,
  )

  -- For a node store that loads what was put and never changes a stored node, a leaf size of at
  -- least 1, a fanout of at least 2 and fewer than 2^30 datoms, `bootstrapDatoms` and
  -- `fromDatoms` succeed, and the connection's indexes are stored as trees of datoms in strict
  -- order with a novelty that is coherent under its schema, which is the bootstrap schema with
  -- the datoms applied; the tree of an index holds exactly those of the bootstrap datoms and the
  -- given ones that take part in it under that schema.
  pub from_datoms-IsConnected :
      (datoms : List Datom) (s : store.State)
      → length datoms < 2 ^ 30
      → (boot : List Datom) × (c : Connection store leaf_size fanout) × (ds : IndexId → List Datom)
        × (depth : IndexId → ℕ) × (bootstrap_datoms ≡ some boot)
        × (from_datoms store leaf_size fanout datoms s ≡ some c)
        × IsConnected store leaf_size fanout c ds depth
        × (c.schema ≡ apply datoms (apply boot empty_schema))
        × ((i : IndexId) (d : Datom) → In d (ds i) ↔ In d (takes_part c.schema i (boot ++ datoms)))
  unfolding sort_for_index
  from_datoms-IsConnected datoms s few =
      let (boot, h, size) = bootstrap_some in
      let system = apply boot empty_schema in
      let schema = apply datoms system in
      let all = boot ++ datoms in
      let (r, s', depth, e, t, p) = build_roots_lem store leaf_size fanout law a b schema all s in
      (
        boot,
        loaded_as schema datoms r s',
        part store leaf_size fanout law a b schema all,
        depth,
        h,
        from_datoms_on datoms boot system s s' r h (bootstrap_schema boot h) e,
        record {
          stored = t;
          some_datom = p;
          in_order = λ i. (dedup-sort_by i (takes_part schema i all)).0;
          short = λ i. omega (
            arith,
            part-short schema i all (omega (arith, length-append boot datoms, size, few)),
            ap length (nothing_new i),
          );
          consistent = empty-IsConsistent schema;
        },
        refl,
        λ i. (dedup-sort_by i (takes_part schema i all)).1,
      )
