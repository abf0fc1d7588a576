-- ===== src/Novelty/Indexes.antt =====
-- Which index each part of a `Novelty` is, and what `add` adds.
use ramose.Base.{
  ◌≤◌, arith, suc, length, Ordering, ℕ, ◌≡◌, ◌↔◌, ◌⊎◌, inl, inr, refl, Bool, List, [], ◌∷◌, keep,
}
use ramose.Base.Sorted.{IsSorted, In}
use ramose.Datom.{comparator_for, Datom, IndexId, eavt, aevt, avet, vaet}
use ramose.Novelty.{sort_by, dedup, SortedNovelty, Novelty, empty_novelty, add, add_if_any, add_all}
use ramose.Datom.Order.{comparator_for-IsWeakOrder, comparator_for-eq}
use ramose.Novelty.Sort.{insert, dedup_after, sort-IsOrdered, dedup-IsSorted, In-sort, In-dedup}
use ramose.Novelty.Flush.{Holds}
use ramose.Novelty.Coherent.{Holds-add}

pub record HasIndexes (n : Novelty) : Type 0 where
  pub eavt_index : n.by_eavt.index ≡ eavt
  pub aevt_index : n.by_aevt.index ≡ aevt
  pub avet_index : n.by_avet.index ≡ avet
  pub vaet_index : n.by_vaet.index ≡ vaet

index-add_if_any :
    (ds : List Datom) (n : SortedNovelty) (i : IndexId) → n.index ≡ i → (add_if_any ds n).index ≡ i
unfolding add_if_any add
index-add_if_any [] n i h = h
index-add_if_any (d ∷ ds) n i h = h

pub empty-HasIndexes : HasIndexes empty_novelty
empty-HasIndexes = record {
  eavt_index = refl;
  aevt_index = refl;
  avet_index = refl;
  vaet_index = refl;
}

module _ (in_avet in_vaet : ℕ → Bool) where
  pub add_all-HasIndexes :
      (ds : List Datom) (n : Novelty) → HasIndexes n → HasIndexes (add_all ds in_avet in_vaet n)
  unfolding add_all add
  add_all-HasIndexes [] n h = h
  add_all-HasIndexes (d ∷ ds) n h = record {
    eavt_index = h.eavt_index;
    aevt_index = h.aevt_index;
    avet_index = index-add_if_any (keep (λ x. in_avet x.a) (d ∷ ds)) n.by_avet avet h.avet_index;
    vaet_index = index-add_if_any (keep (λ x. in_vaet x.a) (d ∷ ds)) n.by_vaet vaet h.vaet_index;
  }

  pub Holds-add_all :
      (ds : List Datom) (n : Novelty) (d : Datom)
      → Holds d (add_all ds in_avet in_vaet n).by_eavt ↔ (Holds d n.by_eavt ⊎ In d ds)
  unfolding add_all
  Holds-add_all [] n d = (inl, elim [ inl h ↦ h | inr h ↦ absurd h ])
  Holds-add_all (x ∷ ds) n d = Holds-add (x ∷ ds) n.by_eavt d

-- What `sort` and the removal of duplicates leave.
pub dedup-sort_by :
    (i : IndexId) (ds : List Datom)
    → IsSorted (comparator_for i) (dedup (comparator_for i) (sort_by (comparator_for i) ds))
      × ((d : Datom) → In d (dedup (comparator_for i) (sort_by (comparator_for i) ds)) ↔ In d ds)
dedup-sort_by i ds =
    let c = comparator_for i in
    let o = comparator_for-IsWeakOrder i in
    let tie = comparator_for-eq i in
    (
      dedup-IsSorted o tie (sort_by c ds) (sort-IsOrdered o ds),
      λ d. (
        λ m. (In-sort o d ds).0 ((In-dedup o tie d (sort_by c ds)).0 m),
        λ m. (In-dedup o tie d (sort_by c ds)).1 ((In-sort o d ds).1 m),
      ),
    )

module _ (c : Datom → Datom → Ordering) where
  length-insert : (d : Datom) (ds : List Datom) → length (insert c d ds) ≡ suc (length ds)
  unfolding insert
  length-insert d [] = refl
  length-insert d (x ∷ ds) = ground (arith, length-insert d ds)

  length-sort : (ds : List Datom) → length (sort_by c ds) ≡ length ds
  unfolding sort_by
  length-sort [] = refl
  length-sort (d ∷ ds) = omega (arith, length-insert d (sort_by c ds), length-sort ds)

  length-dedup_after : (p : Datom) (ds : List Datom) → length (dedup_after c p ds) ≤ length ds
  unfolding dedup_after
  length-dedup_after p [] = omega arith
  length-dedup_after p (d ∷ ds) = ground (arith, length-dedup_after d ds)

  length-dedup : (ds : List Datom) → length (dedup c ds) ≤ length ds
  unfolding dedup
  length-dedup [] = omega arith
  length-dedup (d ∷ ds) = omega (arith, length-dedup_after d ds)

  pub length-dedup_sort : (ds : List Datom) → length (dedup c (sort_by c ds)) ≤ length ds
  length-dedup_sort ds = omega (arith, length-dedup (sort_by c ds), length-sort ds)
