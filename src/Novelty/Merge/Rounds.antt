-- ===== src/Novelty/Merge/Rounds.antt =====
-- One chunk of `mergeChunks` takes its share of the sorted union.
use ramose.Base.{
  ◌-◌, ◌≡◌, ◌∙◌, refl, sym, ap, inl, inr, true, false, List, [], ◌∷◌, ◌++◌, append_assoc, All,
  arith, Ordering, Ordering-cases, length, Bool-cases, take_all,
}
use ramose.Base.Order.{IsWeakOrder}
use ramose.Base.Sorted.{IsSorted, IsSorted-append}
use ramose.Datom.{Datom}
use ramose.Tree.{Chunk, chunk_datoms, sorted_union, is_lt, is_le}
use ramose.Tree.Union.{union_lt, union_gt, union_eq, union-nil, nil-union}
use ramose.Novelty.View.{split_last}
use ramose.Novelty.View.Parts.{In-split_last}
use ramose.Novelty.Merge.{merge_loop, pull, whole_chunk, merge_chunk}

module _ (cmp : Datom → Datom → Ordering) where
  pub loop_lt :
      (d : Datom) (ds : List Datom) (n : Datom) (ns : List Datom)
      → cmp d n ≡ Ordering.lt
      → merge_loop cmp (d ∷ ds) (n ∷ ns)
        ≡ (d ∷ (merge_loop cmp ds (n ∷ ns)).0, (merge_loop cmp ds (n ∷ ns)).1)
  unfolding merge_loop
  loop_lt d ds n ns e = rw (e, merge_loop)

  pub loop_gt :
      (d : Datom) (ds : List Datom) (n : Datom) (ns : List Datom)
      → cmp d n ≡ Ordering.gt
      → merge_loop cmp (d ∷ ds) (n ∷ ns)
        ≡ (n ∷ (merge_loop cmp (d ∷ ds) ns).0, (merge_loop cmp (d ∷ ds) ns).1)
  unfolding merge_loop
  loop_gt d ds n ns e = rw (e, merge_loop)

  pub loop_eq :
      (d : Datom) (ds : List Datom) (n : Datom) (ns : List Datom)
      → cmp d n ≡ Ordering.eq
      → merge_loop cmp (d ∷ ds) (n ∷ ns) ≡ (d ∷ (merge_loop cmp ds ns).0, (merge_loop cmp ds ns).1)
  unfolding merge_loop
  loop_eq d ds n ns e = rw (e, merge_loop)

  -- The loop takes its share of the union.
  loop_union :
      (ds ns rest : List Datom)
      → sorted_union cmp (ds ++ rest) ns
        ≡ (merge_loop cmp ds ns).0 ++ sorted_union cmp rest (merge_loop cmp ds ns).1
  loop_union [] ns rest = unfold merge_loop in refl
  loop_union (d ∷ ds) [] rest =
      union-nil cmp (d ∷ ds ++ rest)
      ∙ (unfold merge_loop in ap (λ l. (d ∷ ds) ++ l) (sym (union-nil cmp rest)))
  loop_union (d ∷ ds) (n ∷ ns) rest = elim (Ordering-cases (cmp d n)) [
    | inl e ↦
        rw (loop_lt d ds n ns e)
          (union_lt cmp d (ds ++ rest) n ns e ∙ ap (λ l. d ∷ l) (loop_union ds (n ∷ ns) rest))
    | inr (inl e) ↦
        rw (loop_eq d ds n ns e)
          (union_eq cmp d (ds ++ rest) n ns e ∙ ap (λ l. d ∷ l) (loop_union ds ns rest))
    | inr (inr e) ↦
        rw (loop_gt d ds n ns e)
          (union_gt cmp d (ds ++ rest) n ns e ∙ ap (λ l. n ∷ l) (loop_union (d ∷ ds) ns rest))
  ]

  pub pull_le :
      (last n : Datom) (ns : List Datom)
      → is_le (cmp n last) ≡ true
      → pull cmp last (n ∷ ns) ≡ (n ∷ (pull cmp last ns).0, (pull cmp last ns).1)
  pull_le last n ns e = unfold pull in rw e

  pub pull_stop :
      (last n : Datom) (ns : List Datom)
      → is_le (cmp n last) ≡ false
      → pull cmp last (n ∷ ns) ≡ ([], n ∷ ns)
  pull_stop last n ns e = unfold pull in rw e

module _ {cmp : Datom → Datom → Ordering} (o : IsWeakOrder cmp) where
  -- A novelty datom below all of the rest comes first in the union.
  union_first :
      (n : Datom) (ns rest : List Datom)
      → All (λ y. cmp n y ≡ Ordering.lt) rest
      → sorted_union cmp rest (n ∷ ns) ≡ n ∷ sorted_union cmp rest ns
  union_first n ns [] h = nil-union cmp (n ∷ ns) ∙ ap (λ l. n ∷ l) (sym (nil-union cmp ns))
  union_first n ns (x ∷ rest) h = union_gt cmp x rest n ns (ground (arith, o.swap n x))

  below_rest :
      (n last : Datom) (rest : List Datom)
      → is_le (cmp n last) ≡ true
      → All (λ y. cmp last y ≡ Ordering.lt) rest
      → All (λ y. cmp n y ≡ Ordering.lt) rest
  below_rest n last [] h k = tt
  below_rest n last (x ∷ rest) h k =
      (ground (arith, o.trans n last x, o.cong n last x), below_rest n last rest h k.1)

  pull_union :
      (last : Datom) (ns rest : List Datom)
      → All (λ y. cmp last y ≡ Ordering.lt) rest
      → sorted_union cmp rest ns
        ≡ (pull cmp last ns).0 ++ sorted_union cmp rest (pull cmp last ns).1
  pull_union last [] rest h = unfold pull in refl
  pull_union last (n ∷ ns) rest h = elim (Bool-cases (is_le (cmp n last))) [
    | inl e ↦ rw (pull_le cmp last n ns e) (
        union_first n ns rest (below_rest n last rest e h)
        ∙ ap (λ l. n ∷ l) (pull_union last ns rest h))
    | inr e ↦ rw (pull_stop cmp last n ns e)
  ]

  -- A sorted chunk whose last datom is below `n` is all below `n`.
  All-below :
      (d : Datom) (ds : List Datom) (n : Datom)
      → IsSorted cmp (d ∷ ds)
      → cmp (split_last d ds).1 n ≡ Ordering.lt
      → All (λ x. cmp x n ≡ Ordering.lt) (d ∷ ds)
  unfolding split_last
  All-below d [] n s h = (h, tt)
  All-below d (x ∷ ds) n s h = let r = All-below x ds n s.1 h in (o.trans d x n s.0.0 r.0, r)

  chunk_before :
      (xs rest : List Datom) (n : Datom) (ns : List Datom)
      → All (λ x. cmp x n ≡ Ordering.lt) xs
      → sorted_union cmp (xs ++ rest) (n ∷ ns) ≡ xs ++ sorted_union cmp rest (n ∷ ns)
  chunk_before [] rest n ns h = refl
  chunk_before (x ∷ xs) rest n ns h =
      union_lt cmp x (xs ++ rest) n ns h.0 ∙ ap (λ l. x ∷ l) (chunk_before xs rest n ns h.1)

  whole_lem : (ds : List Datom) → chunk_datoms (whole_chunk ds) ≡ ds
  unfolding whole_chunk
  whole_lem ds = let e : length ds - 0 ≡ length ds = omega arith in rw e (take_all ds)

  merge_slow :
      (d : Datom) (ds ns rest : List Datom)
      → IsSorted cmp (d ∷ ds ++ rest)
      → let out = merge_loop cmp (d ∷ ds) ns in
        let more = pull cmp (split_last d ds).1 out.1 in
        sorted_union cmp (d ∷ ds ++ rest) ns ≡ (out.0 ++ more.0) ++ sorted_union cmp rest more.1
  merge_slow d ds ns rest s =
      let out = merge_loop cmp (d ∷ ds) ns in
      let last = (split_last d ds).1 in
      let more = pull cmp last out.1 in
      loop_union cmp (d ∷ ds) ns rest
      ∙ (ap (λ l. out.0 ++ l)
            (pull_union last out.1 rest
              ((IsSorted-append cmp (d ∷ ds) rest s).2 last (In-split_last d ds)))
          ∙ sym (append_assoc out.0 more.0 (sorted_union cmp rest more.1)))

  pub merge_chunk_lem :
      (c : Chunk) (d : Datom) (ds ns rest : List Datom)
      → chunk_datoms c ≡ d ∷ ds
      → IsSorted cmp (d ∷ ds ++ rest)
      → let r = merge_chunk cmp c (d ∷ ds) ns in
        sorted_union cmp (d ∷ ds ++ rest) ns ≡ chunk_datoms r.0 ++ sorted_union cmp rest r.1
  merge_chunk_lem c d ds [] rest e s =
      union-nil cmp (d ∷ ds ++ rest)
      ∙ (unfold merge_chunk in rw e (ap (λ l. (d ∷ ds) ++ l) (sym (union-nil cmp rest))))
  merge_chunk_lem c d ds (n ∷ ns) rest e s = elim (Bool-cases (is_lt (cmp (split_last d ds).1 n))) [
    | inl b ↦
        unfold merge_chunk in
        rw b (
          rw e (
            chunk_before (d ∷ ds) rest n ns
              (All-below d ds n (IsSorted-append cmp (d ∷ ds) rest s).0 (is_lt_eq _ b))))
    | inr b ↦
        let out = merge_loop cmp (d ∷ ds) (n ∷ ns) in
        let more = pull cmp (split_last d ds).1 out.1 in
        unfold merge_chunk in
        rw b (rw (whole_lem (out.0 ++ more.0)) (merge_slow d ds (n ∷ ns) rest s))
  ]
    where
      is_lt_eq : (q : Ordering) → is_lt q ≡ true → q ≡ Ordering.lt
      is_lt_eq q h = ground arith
