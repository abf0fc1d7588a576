-- ===== src/Novelty/Flush.antt =====
-- `SortedNovelty` of novelty.ts: what a read returns, and what each operation keeps.
use ramose.Base.{
  ℕ, ◌^◌, ◌<◌, ◌≤◌, ◌≡◌, ◌↔◌, ◌⊎◌, inl, inr, refl, sym, subst, Option, none, some, List, [], ◌∷◌,
  arith, ltb, leb, ltb→lt, lt→ltb, leb→le, length, drop_all, take-nil, ◌-◌, keep, slice, Bool-cases,
  if◌then◌else◌,
}
use ramose.Base.Sorted.{In, IsSorted, In-keep, keep-IsSorted}
use ramose.Datom.{Datom, IndexId, Prefix, comparator_for, compare_prefix}
use ramose.Datom.Order.{comparator_for-IsWeakOrder, comparator_for-eq}
use ramose.Tree.{Chunk, chunk_datoms, lower_bound}
use ramose.Tree.Bounds.{slice-bounds, upper_bound-le, is_eq}
use ramose.Tree.Union.{In-union, In-union_of, union-IsSorted}
use ramose.Novelty.{
  SortedNovelty, absorb, flush, flush_pending, all, range, range_in, drop_through, dedup, sort_by,
}
use ramose.Novelty.Sort.{dedup-IsSorted, sort-IsOrdered, In-dedup, In-sort}

-- `base` is strictly sorted in the order of its index.
pub record IsValid (n : SortedNovelty) : Type 0 where
  pub sorted : IsSorted (comparator_for n.index) n.base

-- The datoms that an index was given and has not dropped.
abbrev pub Holds : Datom → SortedNovelty → Type 0
Holds d n = In d n.base ⊎ In d n.pending

module _ (i : IndexId) where
  sorted_batch : List Datom → List Datom
  sorted_batch ds = dedup (comparator_for i) (sort_by (comparator_for i) ds)

  batch-IsSorted : (ds : List Datom) → IsSorted (comparator_for i) (sorted_batch ds)
  unfolding sorted_batch
  batch-IsSorted ds =
      dedup-IsSorted (comparator_for-IsWeakOrder i) (comparator_for-eq i) _
        (sort-IsOrdered (comparator_for-IsWeakOrder i) ds)

  In-batch : (d : Datom) (ds : List Datom) → In d (sorted_batch ds) ↔ In d ds
  unfolding sorted_batch
  In-batch d ds =
      let p =
        In-dedup (comparator_for-IsWeakOrder i) (comparator_for-eq i) d
          (sort_by (comparator_for i) ds) in
      let q = In-sort (comparator_for-IsWeakOrder i) d ds in (λ m. q.0 (p.0 m), λ m. p.1 (q.1 m))

  absorb-IsSorted :
      (ds dp : List Datom)
      → IsSorted (comparator_for i) ds
      → IsSorted (comparator_for i) dp
      → IsSorted (comparator_for i) (absorb i ds dp)
  unfolding absorb
  absorb-IsSorted [] dp s t = t
  absorb-IsSorted (d ∷ ds) dp s t =
      union-IsSorted (comparator_for-IsWeakOrder i) (comparator_for-eq i) (d ∷ ds) dp s t

  In-absorb : (d : Datom) (ds dp : List Datom) → In d (absorb i ds dp) ↔ (In d ds ⊎ In d dp)
  unfolding absorb
  In-absorb d [] dp = (inr, elim [ inl h ↦ absurd h | inr h ↦ h ])
  In-absorb d (x ∷ ds) dp = (
    In-union_of (comparator_for i) d (x ∷ ds) dp,
    In-union (comparator_for-IsWeakOrder i) (comparator_for-eq i) d (x ∷ ds) dp,
  )

flush_pending-IsValid :
    (n : SortedNovelty) (ps : List Datom) → IsValid n → IsValid (flush_pending n ps)
unfolding flush_pending
flush_pending-IsValid n [] v = v
flush_pending-IsValid n (p ∷ ps) v = record {
  sorted =
      absorb-IsSorted n.index n.base _ v.sorted
        (unfold sorted_batch in batch-IsSorted n.index (p ∷ ps));
}

-- A read leaves the base strictly sorted, without duplicates.
pub flush-IsValid : (n : SortedNovelty) → IsValid n → IsValid (flush n)
unfolding flush
flush-IsValid n v = flush_pending-IsValid n n.pending v

flush_pending_contents :
    (n : SortedNovelty) (ps : List Datom) (d : Datom)
    → In d (flush_pending n ps).base ↔ (In d n.base ⊎ In d ps)
unfolding flush_pending
flush_pending_contents n [] d = (inl, elim [ inl h ↦ h | inr h ↦ absurd h ])
flush_pending_contents n (p ∷ ps) d =
    let q = In-absorb n.index d n.base (sorted_batch n.index (p ∷ ps)) in
    let r = In-batch n.index d (p ∷ ps) in
    unfold sorted_batch in (λ m. grind (arith, q.0 m, r.0), λ m. q.1 (grind (arith, m, r.1)))

-- A read returns what the index holds, and loses nothing.
pub flush_contents : (n : SortedNovelty) (d : Datom) → In d (flush n).base ↔ Holds d n
unfolding flush
flush_contents n d = flush_pending_contents n n.pending d

-- No chunk stands for no datoms.
abbrev pub option_datoms : Option Chunk → List Datom
option_datoms none = []
option_datoms (some c) = chunk_datoms c

-- What a search in `ds` answers: nothing where nothing is found, or else a slice of `ds`, within it
-- and not empty, with what is found.
abbrev pub Finds : List Datom → List Datom → Option Chunk → Type 0
Finds ds found none = found ≡ []
Finds ds found (some c) =
    (c.datoms ≡ ds) × (c.start < c.end) × (c.end ≤ length ds) × (chunk_datoms c ≡ found)

pub Finds-datoms :
    (ds found : List Datom) (r : Option Chunk) → Finds ds found r → option_datoms r ≡ found
Finds-datoms ds found none h = sym h
Finds-datoms ds found (some c) h = h.3

option_chunk :
    (ds : List Datom) (s e : ℕ)
    → e ≤ length ds
    → Finds ds (slice ds s e) (
        if leb (length ds) s
        then none
        else if leb e s
        then none
        else some (record { datoms = ds; start = s; end = e }))
option_chunk ds s e k = elim (Bool-cases (leb (length ds) s)) [
  | inl t ↦ rw t (rw (drop_all s ds (leb→le _ _ t)) (take-nil (e - s)))
  | inr t ↦ elim (Bool-cases (leb e s)) [
    | inl u ↦ let z : e - s ≡ 0 = ground arith in rw (t, u) (rw z refl)
    | inr u ↦ rw (t, u) (refl, ground arith, k, refl)
  ]
]

range_in_lem :
    (i : IndexId) (ds : List Datom) (p : Prefix)
    → IsSorted (comparator_for i) ds
    → length ds < 2 ^ 31
    → Finds ds (keep (λ d. is_eq (compare_prefix i d p)) ds) (range_in i ds p)
unfolding range_in
range_in_lem i [] p s b = unfold keep in refl
range_in_lem i (d ∷ ds) p s b =
    subst (λ found. Finds (d ∷ ds) found (range_in i (d ∷ ds) p)) (slice-bounds i (d ∷ ds) p s b)
      (option_chunk (d ∷ ds) (lower_bound i (d ∷ ds) p) _ (upper_bound-le i (d ∷ ds) p))

index-flush_pending : (n : SortedNovelty) (ps : List Datom) → (flush_pending n ps).index ≡ n.index
unfolding flush_pending
index-flush_pending n [] = refl
index-flush_pending n (p ∷ ps) = refl

pub index-flush : (n : SortedNovelty) → (flush n).index ≡ n.index
unfolding flush
index-flush n = index-flush_pending n n.pending

pending-flush_pending :
    (n : SortedNovelty) (ps : List Datom) → n.pending ≡ ps → (flush_pending n ps).pending ≡ []
unfolding flush_pending
pending-flush_pending n [] h = h
pending-flush_pending n (p ∷ ps) h = refl

pub pending-flush : (n : SortedNovelty) → (flush n).pending ≡ []
unfolding flush
pending-flush n = pending-flush_pending n n.pending refl

-- For a valid index of fewer than 2^31 datoms, `range` leaves the flushed index. Where no datom
-- of the flushed base matches the prefix it returns no chunk; otherwise a chunk of that base,
-- within it and not empty, that holds exactly the matching datoms, in index order.
pub range_lem :
    (n : SortedNovelty) (p : Prefix)
    → IsValid n
    → length (flush n).base < 2 ^ 31
    → ((range n p).0 ≡ flush n)
      × Finds
          (flush n).base
          (keep (λ d. is_eq (compare_prefix n.index d p)) (flush n).base)
          (range n p).1
unfolding range
range_lem n p v b = (
  refl,
  subst
      (λ i.
        Finds (flush n).base (keep (λ d. is_eq (compare_prefix i d p)) (flush n).base)
          (range_in (flush n).index (flush n).base p))
      (index-flush n) (range_in_lem (flush n).index (flush n).base p (flush-IsValid n v).sorted b),
)

pub range-datoms :
    (n : SortedNovelty) (p : Prefix)
    → IsValid n
    → length (flush n).base < 2 ^ 31
    → option_datoms (range n p).1 ≡ keep (λ d. is_eq (compare_prefix n.index d p)) (flush n).base
range-datoms n p v b = Finds-datoms _ _ _ (range_lem n p v b).1

-- On a valid index, `dropThrough` leaves a valid index that holds exactly the datoms it held,
-- pending ones included, with a transaction later than the one given.
pub drop_through_lem :
    (max_t : ℕ) (n : SortedNovelty)
    → IsValid n
    → IsValid (drop_through max_t n)
      × ((d : Datom) → Holds d (drop_through max_t n) ↔ (Holds d n × (max_t < d.t)))
unfolding drop_through
drop_through_lem max_t n v = (
  record { sorted = keep-IsSorted (λ d. ltb max_t d.t) _ _ (flush-IsValid n v).sorted },
  λ d.
      let q = In-keep (λ x. ltb max_t x.t) d (flush n).base in
      let r = flush_contents n d in
      rw (pending-flush n) (
        (elim [ inl m ↦ (r.0 (q.0 m).0, ltb→lt _ _ (q.0 m).1) | inr m ↦ absurd m ]),
        λ m. inl (q.1 (r.1 m.0, lt→ltb _ _ m.1)),
      ),
)

-- For a valid index, `all` returns its datoms strictly sorted in the index's order, namely
-- exactly those of the base and of the pending list; the state it leaves is valid, holds the same
-- datoms and has nothing pending.
pub all_lem :
    (n : SortedNovelty)
    → IsValid n
    → IsSorted (comparator_for n.index) (all n).1
      × ((d : Datom) → In d (all n).1 ↔ Holds d n)
      × IsValid (all n).0
      × ((d : Datom) → Holds d (all n).0 ↔ Holds d n)
      × ((all n).0.pending ≡ [])
unfolding all
all_lem n v = (
  subst (λ i. IsSorted (comparator_for i) (flush n).base) (index-flush n)
      (flush-IsValid n v).sorted,
  flush_contents n,
  flush-IsValid n v,
  (λ d.
      let q = flush_contents n d in
      (
        elim [ inl m ↦ q.0 m | inr m ↦ absurd (subst (In d) (pending-flush n) m) ],
        λ m. inl (q.1 m),
      )),
  pending-flush n,
)
