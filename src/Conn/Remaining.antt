-- ===== src/Conn/Remaining.antt =====
-- What `index` merges into the trees and what it leaves in the novelty are together what was there.
use ramose.Base.{
  ℕ, ◌≡◌, ◌↔◌, ◌⊎◌, ◌∙◌, inl, inr, subst, Bool, true, List, arith, ltb, leb, keep, Bool-cases,
}
use ramose.Base.Sorted.{IsSorted, IsSorted-ext, In-keep, keep-IsSorted}
use ramose.Datom.{Datom, IndexId, eavt, aevt, avet, vaet, comparator_for}
use ramose.Datom.Order.{comparator_for-IsWeakOrder, comparator_for-eq}
use ramose.Tree.{sorted_union}
use ramose.Tree.Union.{union-IsSorted, In-union, In-union_of}
use ramose.Novelty.{Novelty, empty_novelty, all, flush}
use ramose.Novelty.Flush.{IsValid, Holds, flush-IsValid, flush_contents, index-flush}
use ramose.Novelty.Coherent.{IsCoherent, empty-IsCoherent, add_all-IsCoherent}
use ramose.Novelty.Indexes.{HasIndexes, empty-HasIndexes, add_all-HasIndexes, Holds-add_all}
use ramose.Schema.Projection.{Schema, is_avet, is_vaet}
use ramose.Novelty.{by_index}
use ramose.Conn.{remaining}

-- A union whose first list is a part of a list and whose second is the rest of it.
pub union_parts :
    (i : IndexId) (f g : Datom → Bool) (ds ns : List Datom)
    → ((d : Datom) → (f d ≡ true) ⊎ (g d ≡ true))
    → IsSorted (comparator_for i) ds
    → IsSorted (comparator_for i) ns
    → sorted_union (comparator_for i) (sorted_union (comparator_for i) ds (keep f ns)) (keep g ns)
      ≡ sorted_union (comparator_for i) ds ns
union_parts i f g ds ns part s t =
    let c = comparator_for i in
    let o = comparator_for-IsWeakOrder i in
    let tie = comparator_for-eq i in
    let sf = keep-IsSorted f c ns t in
    let inner = sorted_union c ds (keep f ns) in
    let si = union-IsSorted o tie ds (keep f ns) s sf in
    IsSorted-ext o (sorted_union c inner (keep g ns)) (sorted_union c ds ns)
      (union-IsSorted o tie inner (keep g ns) si (keep-IsSorted g c ns t))
      (union-IsSorted o tie ds ns s t)
      (λ z m. In-union o tie z ds ns (elim (In-union_of c z inner (keep g ns) m) [
        | inl p ↦ elim (In-union_of c z ds (keep f ns) p) [
          | inl q ↦ inl q
          | inr q ↦ inr ((In-keep f z ns).0 q).0
        ]
        | inr p ↦ inr ((In-keep g z ns).0 p).0
      ]))
      (λ z m. In-union o tie z inner (keep g ns) (elim (In-union_of c z ds ns m) [
        | inl p ↦ inl (In-union o tie z ds (keep f ns) (inl p))
        | inr p ↦ elim (part z) [
          | inl q ↦ inl (In-union o tie z ds (keep f ns) (inr ((In-keep f z ns).1 (p, q))))
          | inr q ↦ inr ((In-keep g z ns).1 (p, q))
        ]
      ]))

pub earlier_or_later : (t : ℕ) (d : Datom) → (leb d.t t ≡ true) ⊎ (ltb t d.t ≡ true)
earlier_or_later t d = elim (Bool-cases (leb d.t t)) [ inl e ↦ inl e | inr e ↦ inr (ground arith) ]

-- A novelty whose index, validity and members are known, by the index.
pub record IsKnown (n : Novelty) (i : IndexId) : Type 0 where
  pub index_known : (by_index n i).index ≡ i
  pub valid_known : IsValid (by_index n i)

module _ (s : Schema) where
  abbrev pub IsConsistent : Novelty → Type 0
  IsConsistent n = IsCoherent (is_avet s) (is_vaet s) n × HasIndexes n

  pub IsConsistent-IsKnown : (n : Novelty) (i : IndexId) → IsConsistent n → IsKnown n i
  unfolding by_index
  IsConsistent-IsKnown n eavt (c, h) = record {
    index_known = h.eavt_index;
    valid_known = c.eavt_valid;
  }
  IsConsistent-IsKnown n aevt (c, h) = record {
    index_known = h.aevt_index;
    valid_known = c.aevt_valid;
  }
  IsConsistent-IsKnown n avet (c, h) = record {
    index_known = h.avet_index;
    valid_known = c.avet_valid;
  }
  IsConsistent-IsKnown n vaet (c, h) = record {
    index_known = h.vaet_index;
    valid_known = c.vaet_valid;
  }

  pub empty-IsConsistent : IsConsistent empty_novelty
  empty-IsConsistent = (empty-IsCoherent (is_avet s) (is_vaet s), empty-HasIndexes)

  pub remaining-IsConsistent : (t : ℕ) (n : Novelty) → IsConsistent (remaining t n s)
  unfolding remaining
  remaining-IsConsistent t n = (
    add_all-IsCoherent (is_avet s) (is_vaet s) _ empty_novelty
        (empty-IsCoherent (is_avet s) (is_vaet s)),
    add_all-HasIndexes (is_avet s) (is_vaet s) _ empty_novelty empty-HasIndexes,
  )

  eavt_remaining :
      (t : ℕ) (n : Novelty) (d : Datom)
      → Holds d (remaining t n s).by_eavt ↔ (Holds d n.by_eavt × (ltb t d.t ≡ true))
  unfolding remaining all
  eavt_remaining t n d =
      let ds = keep (λ x. ltb t x.t) (flush n.by_eavt).base in
      let p = Holds-add_all (is_avet s) (is_vaet s) ds empty_novelty d in
      let q = In-keep (λ x. ltb t x.t) d (flush n.by_eavt).base in
      let r = flush_contents n.by_eavt d in
      (
        λ m. elim (p.0 m) [
          | inl h ↦ absurd (elim h [ inl u ↦ u | inr u ↦ u ])
          | inr h ↦ (r.0 (q.0 h).0, (q.0 h).1)
        ],
        λ m. p.1 (inr (q.1 (r.1 m.0, m.1))),
      )

  -- The remaining novelty holds in every index what is later.
  Holds-remaining :
      (t : ℕ) (n : Novelty) (i : IndexId) (d : Datom)
      → IsConsistent n
      → Holds d (by_index (remaining t n s) i) ↔ (Holds d (by_index n i) × (ltb t d.t ≡ true))
  unfolding by_index
  Holds-remaining t n eavt d (c, h) = eavt_remaining t n d
  Holds-remaining t n aevt d (c, h) =
      let e = eavt_remaining t n d in
      let a = (remaining-IsConsistent t n).0.aevt_same d in
      let b = c.aevt_same d in
      (λ m. (b.1 (e.0 (a.0 m)).0, (e.0 (a.0 m)).1), λ m. a.1 (e.1 (b.0 m.0, m.1)))
  Holds-remaining t n avet d (c, h) =
      let e = eavt_remaining t n d in
      let a = (remaining-IsConsistent t n).0.avet_part d in
      let b = c.avet_part d in
      (
        λ m. (b.1 ((e.0 (a.0 m).0).0, (a.0 m).1), (e.0 (a.0 m).0).1),
        λ m. a.1 (e.1 ((b.0 m.0).0, m.1), (b.0 m.0).1),
      )
  Holds-remaining t n vaet d (c, h) =
      let e = eavt_remaining t n d in
      let a = (remaining-IsConsistent t n).0.vaet_part d in
      let b = c.vaet_part d in
      (
        λ m. (b.1 ((e.0 (a.0 m).0).0, (a.0 m).1), (e.0 (a.0 m).0).1),
        λ m. a.1 (e.1 ((b.0 m.0).0, m.1), (b.0 m.0).1),
      )

  pub base-IsSorted :
      (n : Novelty) (i : IndexId)
      → IsConsistent n
      → IsSorted (comparator_for i) (flush (by_index n i)).base
  base-IsSorted n i c =
      let k = IsConsistent-IsKnown n i c in
      subst (λ j. IsSorted (comparator_for j) (flush (by_index n i)).base)
        (index-flush (by_index n i) ∙ k.index_known)
        (flush-IsValid (by_index n i) k.valid_known).sorted

  pub base-remaining :
      (t : ℕ) (n : Novelty) (i : IndexId)
      → IsConsistent n
      → (flush (by_index (remaining t n s) i)).base
        ≡ keep (λ d. ltb t d.t) (flush (by_index n i)).base
  base-remaining t n i c =
      let later = by_index (remaining t n s) i in
      let now = by_index n i in
      let f : Datom → Bool = λ d. ltb t d.t in
      IsSorted-ext (comparator_for-IsWeakOrder i) (flush later).base (keep f (flush now).base)
        (base-IsSorted (remaining t n s) i (remaining-IsConsistent t n))
        (keep-IsSorted f (comparator_for i) (flush now).base (base-IsSorted n i c))
        (λ z m.
          let q = (Holds-remaining t n i z c).0 ((flush_contents later z).0 m) in
          (In-keep f z (flush now).base).1 ((flush_contents now z).1 q.0, q.1))
        (λ z m.
          let q = (In-keep f z (flush now).base).0 m in
          (flush_contents later z).1
            ((Holds-remaining t n i z c).1 ((flush_contents now z).0 q.0, q.1)))
