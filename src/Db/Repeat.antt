-- ===== src/Db/Repeat.antt =====
-- A read flushes the novelty of its index, and nothing that a later read returns depends on that.
use ramose.Base.{some, ℕ, ◌≡◌, ◌∙◌, refl, sym, ap, Option, none, List, []}
use ramose.Datom.{comparator_for, Datom, IndexId, eavt, aevt, avet, vaet, Prefix}
use ramose.Tree.{Chunk}
use ramose.Tree.Store.{NodeStore}
use ramose.Novelty.{SortedNovelty, Novelty, range, flush, flush_pending}
use ramose.Novelty.Flush.{pending-flush}
use ramose.Novelty.{by_index}
use ramose.Db.{
  root_for, merge_chunks, scan, with_index, novelty_range, Db, is_raw, view_of, effective_t, datoms,
}

flush_rest : (n : SortedNovelty) (ps : List Datom) → ps ≡ [] → flush_pending n ps ≡ n
unfolding flush_pending
flush_rest n ps h = rw (h, flush_pending) refl

flush_again : (n : SortedNovelty) → flush (flush n) ≡ flush n
unfolding flush
flush_again n = flush_rest (flush n) (flush n).pending (pending-flush n)

abbrev FlushesLike : Novelty → IndexId → IndexId → Type 0
FlushesLike n i j =
    flush (by_index (with_index n i (flush (by_index n i))) j) ≡ flush (by_index n j)

-- Whichever index was flushed, the others are as they were.
flush_other : (n : Novelty) (i j : IndexId) → FlushesLike n i j
unfolding by_index with_index
flush_other n eavt j = elim j as (FlushesLike n eavt) [ eavt ↦ flush_again n.by_eavt | _ ↦ refl ]
flush_other n aevt j = elim j as (FlushesLike n aevt) [ aevt ↦ flush_again n.by_aevt | _ ↦ refl ]
flush_other n avet j = elim j as (FlushesLike n avet) [ avet ↦ flush_again n.by_avet | _ ↦ refl ]
flush_other n vaet j = elim j as (FlushesLike n vaet) [ vaet ↦ flush_again n.by_vaet | _ ↦ refl ]

range-flush : (m n : SortedNovelty) (p : Prefix) → flush m ≡ flush n → (range m p).1 ≡ (range n p).1
unfolding range
range-flush m n p h = rw (h, range) refl

max_t-with_index :
    (n : Novelty) (i : IndexId) (s : SortedNovelty) → (with_index n i s).max_t ≡ n.max_t
unfolding with_index
max_t-with_index n eavt s = refl
max_t-with_index n aevt s = refl
max_t-with_index n avet s = refl
max_t-with_index n vaet s = refl

module _ {store : NodeStore} where
  view_of-novelty :
      (db : Db store) (n : Novelty) (cs : List Chunk)
      → n.max_t ≡ db.novelty.max_t
      → view_of (record db { novelty = n }) cs ≡ view_of db cs
  unfolding view_of is_raw effective_t
  view_of-novelty db n cs h = rw h refl

  abbrev viewed :
      IndexId → Db store → Option Chunk → Option (List Chunk) → Option (List (List Datom))
  viewed j db nov none = none
  viewed j db nov (some tree) = some (view_of db (merge_chunks (comparator_for j) tree nov))

  viewed-novelty :
      (db : Db store) (n : Novelty) (j : IndexId) (q : Prefix) (o : Option (List Chunk))
      → n.max_t ≡ db.novelty.max_t
      → flush (by_index n j) ≡ flush (by_index db.novelty j)
      → viewed j (record db { novelty = n }) (range (by_index n j) q).1 o
        ≡ viewed j db (range (by_index db.novelty j) q).1 o
  viewed-novelty db n j q none h k = refl
  viewed-novelty db n j q (some tree) h k =
      let c = comparator_for j in
      ap (λ r. some (view_of (record db { novelty = n }) (merge_chunks c tree r)))
        (range-flush (by_index n j) (by_index db.novelty j) q k)
      ∙ ap some (view_of-novelty db n (merge_chunks c tree (range (by_index db.novelty j) q).1) h)

  datoms_viewed :
      (db : Db store) (j : IndexId) (q : Prefix) (fuel : ℕ)
      → (datoms fuel j q db).0
        ≡ viewed j db
            (range (by_index db.novelty j) q).1
            (scan j q store db.state fuel (root_for db.roots j))
  unfolding datoms novelty_range
  datoms_viewed db j q fuel =
      elim (scan j q store db.state fuel (root_for db.roots j))
        as (λ o.
          elim o [
            | none ↦ none
            | some tree ↦ some (
                view_of db
                  (merge_chunks (comparator_for j) tree (range (by_index db.novelty j) q).1))
          ]
          ≡ viewed j db (range (by_index db.novelty j) q).1 o) [ none ↦ refl | some tree ↦ refl ]

  -- A read of a snapshot returns after any other read of it, which may flush pending novelty,
  -- what it returns before, rejections included.
  pub datoms-datoms :
      (db : Db store) (i j : IndexId) (p q : Prefix) (fuel again : ℕ)
      → (datoms again j q (datoms fuel i p db).1).0 ≡ (datoms again j q db).0
  unfolding datoms novelty_range range
  datoms-datoms db i j p q fuel again =
      let n = with_index db.novelty i (flush (by_index db.novelty i)) in
      datoms_viewed (record db { novelty = n }) j q again
      ∙ (viewed-novelty db n j q (scan j q store db.state again (root_for db.roots j))
            (max_t-with_index db.novelty i (flush (by_index db.novelty i)))
            (flush_other db.novelty i j)
          ∙ sym (datoms_viewed db j q again))
