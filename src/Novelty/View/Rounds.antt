-- ===== src/Novelty/View/Rounds.antt =====
-- One round of `currentView`: what is yielded and what is owed behind it is what was owed before.
use ramose.Base.{
  ℕ, ◌≡◌, ◌⊎◌, ◌∙◌, refl, sym, ap, subst, inl, inr, Bool, true, false, Option, none, some, List, [],
  ◌∷◌, ◌++◌, append_assoc, append-nil, All, arith, Ordering, keep, Bool-cases, Option-cases, concat,
  concat-append,
}
use ramose.Base.Sorted.{In, IsSorted, IsSorted-append, All-split, All-keep}
use ramose.Datom.{Datom, IndexId, comparator_for}
use ramose.Novelty.Collapse.{
  same_fact, visible, plain_after, is_plain, emit, collapse_loop, collapse_from,
}
use ramose.Novelty.Steps.{collapse_first}
use ramose.Novelty.Present.{
  collapse_from-some, collapse_from-none, no_later, no_later_head, present_live, superseded,
}
use ramose.Novelty.View.{
  ViewState, split_last, release_held, release_pending, take_plain, take_loop, take_slice,
  view_slice,
}
use ramose.Novelty.View.Parts.{
  split_last-run, concat-yield, collapse_from-append, plain_run, plain_last_op, loop_pending,
  In-split_last,
}

module _ (i : IndexId) where
  -- The pending datom stands before all that follows.
  abbrev pub Before : Option Datom → List Datom → Type 0
  Before none xs = Unit
  Before (some p) xs = All (λ y. comparator_for i p y ≡ Ordering.lt) xs

  -- The held array ends in an assertion that stands before all that follows.
  abbrev pub IsReady : Option (List Datom) → Option Datom → List Datom → Type 0
  IsReady none p xs = Before p xs
  IsReady (some []) p xs = ⊥
  IsReady (some (d ∷ ds)) p xs =
      All (λ y. comparator_for i (split_last d ds).1 y ≡ Ordering.lt) xs
      × ((split_last d ds).1.op ≡ true)

module _ (as_of : Option ℕ) where
  -- What a state still owes, with `xs` to come.
  abbrev pub owed : Option (List Datom) → Option Datom → List Datom → List Datom
  owed none p xs = collapse_from as_of p xs
  owed (some []) p xs = collapse_from as_of p xs
  owed (some (d ∷ ds)) p xs =
      (split_last d ds).0 ++ collapse_from as_of (some (split_last d ds).1) xs

module _ (i : IndexId) (as_of : Option ℕ) where
  not_superseded :
      (p d : Datom) (xs : List Datom)
      → IsSorted (comparator_for i) (p ∷ d ∷ xs)
      → same_fact p d ≡ false
      → superseded p (keep (visible as_of) (d ∷ xs)) ≡ false
  unfolding keep
  not_superseded p d xs s e =
      let rest = All-keep (visible as_of) (λ y. comparator_for i d y ≡ Ordering.lt) xs s.1.0 in
      elim (Bool-cases (visible as_of d)) [
        | inl v ↦ rw v (no_later_head i p d (keep (visible as_of) xs) s.0.0 rest e)
        | inr v ↦ rw v (no_later i p d (keep (visible as_of) xs) s.0.0 rest e)
      ]

  -- A pending fact that the next datom does not continue is emitted at once.
  release :
      (p d : Datom) (xs : List Datom)
      → IsSorted (comparator_for i) (p ∷ d ∷ xs)
      → same_fact p d ≡ false
      → collapse_from as_of (some p) (d ∷ xs) ≡ emit (some p) ++ collapse_from as_of none (d ∷ xs)
  release p d xs s e =
      collapse_from-some i as_of p (d ∷ xs) s
      ∙ (present_live p (keep (visible as_of) (d ∷ xs)) (not_superseded p d xs s e)
          ∙ ap (λ l. emit (some p) ++ l) (sym (collapse_from-none i as_of (d ∷ xs) s.1)))

  release_pending_lem :
      (p : Option Datom) (d : Datom) (xs : List Datom)
      → IsSorted (comparator_for i) (d ∷ xs)
      → Before i p (d ∷ xs)
      → Before i (release_pending d p).1 (d ∷ xs)
        × (concat (release_pending d p).0 ++ collapse_from as_of (release_pending d p).1 (d ∷ xs)
            ≡ collapse_from as_of p (d ∷ xs))
  release_pending_lem none d xs s b = unfold release_pending in (tt, refl)
  release_pending_lem (some p) d xs s b = elim (Bool-cases (same_fact p d)) [
    | inl e ↦ unfold release_pending in rw e (b, refl)
    | inr e ↦
        unfold release_pending in
        rw e (tt, rw (concat-yield (emit (some p))) (sym (release p d xs (b, s) e)))
  ]

  held_lem :
      (ds : List Datom) (d0 : Datom) (p : Option Datom) (d : Datom) (xs : List Datom)
      → IsSorted (comparator_for i) (d ∷ xs)
      → IsReady i (some (d0 ∷ ds)) p (d ∷ xs)
      → let r = release_held d (record { pending = p; held = some (d0 ∷ ds) }) in
        Before i r.1 (d ∷ xs)
        × (concat r.0 ++ collapse_from as_of r.1 (d ∷ xs) ≡ owed as_of (some (d0 ∷ ds)) p (d ∷ xs))
  held_lem ds d0 p d xs s b =
      let l = (split_last d0 ds).1 in
      elim (Bool-cases (same_fact l d)) [
        | inl e ↦ unfold release_held in rw e (b.0, rw (concat-yield (split_last d0 ds).0))
        | inr e ↦
            unfold release_held in
            rw e (
              tt,
              ap (λ l. l ++ collapse_from as_of none (d ∷ xs)) (append-nil (d0 ∷ ds))
                  ∙ (split_last-run d0 ds (collapse_from as_of none (d ∷ xs))
                      ∙ ap (λ l. (split_last d0 ds).0 ++ l)
                          (sym (release l d xs (b.0, s) e ∙ (unfold emit in rw b.1)))),
            )
      ]

  -- Releasing the held array leaves the owed datoms unchanged.
  release_held_lem :
      (st : ViewState) (d : Datom) (xs : List Datom)
      → IsSorted (comparator_for i) (d ∷ xs)
      → IsReady i st.held st.pending (d ∷ xs)
      → Before i (release_held d st).1 (d ∷ xs)
        × (concat (release_held d st).0 ++ collapse_from as_of (release_held d st).1 (d ∷ xs)
            ≡ owed as_of st.held st.pending (d ∷ xs))
  release_held_lem st d xs s b = by_held st.held st.pending s b
    where
      by_held :
          (h : Option (List Datom)) (p : Option Datom)
          → IsSorted (comparator_for i) (d ∷ xs)
          → IsReady i h p (d ∷ xs)
          → let r = release_held d (record { pending = p; held = h }) in
            Before i r.1 (d ∷ xs)
            × (concat r.0 ++ collapse_from as_of r.1 (d ∷ xs) ≡ owed as_of h p (d ∷ xs))
      by_held none p s b = unfold release_held in (b, refl)
      by_held (some []) p s b = absurd b
      by_held (some (d0 ∷ ds)) p s b = held_lem ds d0 p d xs s b

  take_plain_lem :
      (whole : Bool) (d : Datom) (ds xs : List Datom)
      → IsSorted (comparator_for i) (d ∷ ds ++ xs)
      → is_plain as_of (d ∷ ds) ≡ true
      → let r = take_plain whole d ds in
        IsReady i r.1.held r.1.pending xs
        × (concat r.0 ++ owed as_of r.1.held r.1.pending xs
            ≡ collapse_from as_of none (d ∷ ds ++ xs))
  take_plain_lem whole d ds xs s h =
      let op : d.op ≡ true = unfold is_plain in ground arith in
      let v : visible as_of d ≡ true = unfold is_plain in ground arith in
      let f : plain_after as_of d ds ≡ true = unfold is_plain in ground arith in
      let run = collapse_first as_of d (ds ++ xs) v ∙ plain_run as_of d ds xs op f in
      let last =
        (IsSorted-append (comparator_for i) (d ∷ ds) xs s).2 (split_last d ds).1
          (In-split_last d ds) in
      by_whole whole last (plain_last_op as_of d ds op f) run
    where
      by_whole :
          (w : Bool)
          → All (λ y. comparator_for i (split_last d ds).1 y ≡ Ordering.lt) xs
          → (split_last d ds).1.op ≡ true
          → collapse_from as_of none (d ∷ ds ++ xs)
            ≡ (split_last d ds).0 ++ collapse_from as_of (some (split_last d ds).1) xs
          → let r = take_plain w d ds in
            IsReady i r.1.held r.1.pending xs
            × (concat r.0 ++ owed as_of r.1.held r.1.pending xs
                ≡ collapse_from as_of none (d ∷ ds ++ xs))
      by_whole true last op run = unfold take_plain in ((last, op), sym run)
      by_whole false last op run =
          unfold take_plain in (last, rw (concat-yield (split_last d ds).0) (sym run))

  loop_Before :
      (p : Option Datom) (ds xs : List Datom)
      → IsSorted (comparator_for i) (ds ++ xs)
      → Before i p (ds ++ xs)
      → Before i (collapse_loop as_of p ds).1 xs
  loop_Before p ds xs s b = elim (Option-cases (collapse_loop as_of p ds).1) [
    | inl e ↦ rw e tt
    | inr (q, e) ↦ rw e (from_either q (loop_pending as_of p ds q e))
  ]
    where
      from_either :
          (q : Datom) → (p ≡ some q) ⊎ In q ds → All (λ y. comparator_for i q y ≡ Ordering.lt) xs
      from_either q (inl e) =
          (All-split (λ y. comparator_for i q y ≡ Ordering.lt) ds xs
            (subst (λ r. Before i r (ds ++ xs)) e b)).1
      from_either q (inr m) = (IsSorted-append (comparator_for i) ds xs s).2 q m

  take_loop_lem :
      (p : Option Datom) (ds xs : List Datom)
      → IsSorted (comparator_for i) (ds ++ xs)
      → Before i p (ds ++ xs)
      → let r = take_loop as_of p ds in
        IsReady i r.1.held r.1.pending xs
        × (concat r.0 ++ owed as_of r.1.held r.1.pending xs ≡ collapse_from as_of p (ds ++ xs))
  unfolding take_loop
  take_loop_lem p ds xs s b = (
    loop_Before p ds xs s b,
    rw (concat-yield (collapse_loop as_of p ds).0) (sym (collapse_from-append as_of p ds xs)),
  )

  take_slice_lem :
      (whole : Bool) (p : Option Datom) (d : Datom) (ds xs : List Datom)
      → IsSorted (comparator_for i) (d ∷ ds ++ xs)
      → Before i p (d ∷ ds ++ xs)
      → let r = take_slice as_of whole p d ds in
        IsReady i r.1.held r.1.pending xs
        × (concat r.0 ++ owed as_of r.1.held r.1.pending xs ≡ collapse_from as_of p (d ∷ ds ++ xs))
  take_slice_lem whole (some p) d ds xs s b =
      unfold take_slice in take_loop_lem (some p) (d ∷ ds) xs s b
  take_slice_lem whole none d ds xs s b = elim (Bool-cases (is_plain as_of (d ∷ ds))) [
    | inl e ↦ unfold take_slice in rw e (take_plain_lem whole d ds xs s e)
    | inr e ↦ unfold take_slice in rw e (take_loop_lem none (d ∷ ds) xs s b)
  ]

  -- One chunk: what is yielded and what is owed behind it is what was owed before it.
  pub view_slice_lem :
      (whole : Bool) (ds xs : List Datom) (st : ViewState)
      → IsSorted (comparator_for i) (ds ++ xs)
      → IsReady i st.held st.pending (ds ++ xs)
      → let r = view_slice as_of whole ds st in
        IsReady i r.1.held r.1.pending xs
        × (concat r.0 ++ owed as_of r.1.held r.1.pending xs
            ≡ owed as_of st.held st.pending (ds ++ xs))
  view_slice_lem whole [] xs st s b = unfold view_slice in (b, refl)
  view_slice_lem whole (d ∷ ds) xs st s b =
      let a = release_held d st in
      let la = release_held_lem st d (ds ++ xs) s b in
      let c = release_pending d a.1 in
      let lc = release_pending_lem a.1 d (ds ++ xs) s la.0 in
      let e = take_slice as_of whole c.1 d ds in
      let le = take_slice_lem whole c.1 d ds xs s lc.0 in
      unfold view_slice in
      (
        le.0,
        regroup a.0 c.0 e.0 _
            ∙ (ap (λ l. concat a.0 ++ (concat c.0 ++ l)) le.1
                ∙ (ap (λ l. concat a.0 ++ l) lc.1 ∙ la.1)),
      )
    where
      regroup :
          (us vs ws : List (List Datom)) (xs : List Datom)
          → concat (us ++ (vs ++ ws)) ++ xs ≡ concat us ++ (concat vs ++ (concat ws ++ xs))
      regroup us vs ws xs = simp (concat-append, append_assoc)
