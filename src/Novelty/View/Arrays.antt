-- ===== src/Novelty/View/Arrays.antt =====
-- No view yields an empty array, and the two views of the history yield what they are given.
use ramose.Base.{
  ◌-◌, take, ℕ, ◌<◌, ◌≡◌, ◌∙◌, refl, sym, ap, Bool, true, false, Option, none, some, List, [], ◌∷◌,
  ◌++◌, All, All-append, arith, length, concat, concat-append, keep, slice, leb, ◌==◌, ◌&&◌,
  if◌then◌else◌, Bool-cases, inl, inr, take_all,
}
use ramose.Datom.{Datom}
use ramose.Tree.{Chunk, chunk_datoms}
use ramose.Tree.Chunks.{stream}
use ramose.Tree.Scan.Leaves.{keep-append}
use ramose.Novelty.Collapse.{same_fact, is_plain, emit, collapse_loop}
use ramose.Novelty.View.{
  ViewState, split_last, yield_some, release_held, release_pending, take_plain, take_loop,
  take_slice, view_slice, view_chunk, view_end, view_from, current_view, filter_as_of, raw_view,
}
use ramose.Novelty.View.Parts.{concat-yield}

-- None of the arrays is empty.
abbrev pub AreArrays : List (List Datom) → Type 0
AreArrays arrs = All (λ xs. 0 < length xs) arrs

abbrev pub IsHeld : Option (List Datom) → Type 0
IsHeld none = Unit
IsHeld (some ds) = 0 < length ds

yield_some-AreArrays : (xs : List Datom) → AreArrays (yield_some xs)
unfolding yield_some
yield_some-AreArrays [] = tt
yield_some-AreArrays (x ∷ xs) = (omega arith, tt)

release_held-AreArrays : (d : Datom) (st : ViewState) → AreArrays (release_held d st).0
release_held-AreArrays d st = by_held st.held
  where
    by_held :
        (h : Option (List Datom))
        → AreArrays (release_held d (record { pending = st.pending; held = h })).0
    by_held none = unfold release_held in tt
    by_held (some []) = unfold release_held in tt
    by_held (some (x ∷ xs)) =
        let r = split_last x xs in
        elim (Bool-cases (same_fact r.1 d)) [
          | inl e ↦ unfold release_held in rw e (yield_some-AreArrays r.0)
          | inr e ↦ unfold release_held in rw e (omega arith, tt)
        ]

release_pending-AreArrays : (d : Datom) (p : Option Datom) → AreArrays (release_pending d p).0
unfolding release_pending
release_pending-AreArrays d none = tt
release_pending-AreArrays d (some p) = elim (Bool-cases (same_fact p d)) [
  | inl e ↦ rw e tt
  | inr e ↦ rw e (yield_some-AreArrays (emit (some p)))
]

take_slice-AreArrays :
    (as_of : Option ℕ) (whole : Bool) (p : Option Datom) (d : Datom) (ds : List Datom)
    → AreArrays (take_slice as_of whole p d ds).0 × IsHeld (take_slice as_of whole p d ds).1.held
unfolding take_slice take_loop take_plain
take_slice-AreArrays as_of whole (some p) d ds =
    (yield_some-AreArrays (collapse_loop as_of (some p) (d ∷ ds)).0, tt)
take_slice-AreArrays as_of true none d ds = elim (Bool-cases (is_plain as_of (d ∷ ds))) [
  | inl e ↦ rw e (tt, omega arith)
  | inr e ↦ rw e (yield_some-AreArrays (collapse_loop as_of none (d ∷ ds)).0, tt)
]
take_slice-AreArrays as_of false none d ds = elim (Bool-cases (is_plain as_of (d ∷ ds))) [
  | inl e ↦ rw e (yield_some-AreArrays (split_last d ds).0, tt)
  | inr e ↦ rw e (yield_some-AreArrays (collapse_loop as_of none (d ∷ ds)).0, tt)
]

view_slice-AreArrays :
    (as_of : Option ℕ) (whole : Bool) (ds : List Datom) (st : ViewState)
    → IsHeld st.held
    → AreArrays (view_slice as_of whole ds st).0 × IsHeld (view_slice as_of whole ds st).1.held
unfolding view_slice
view_slice-AreArrays as_of whole [] st h = (tt, h)
view_slice-AreArrays as_of whole (d ∷ ds) st h =
    let a = release_held d st in
    let b = release_pending d a.1 in
    let c = take_slice-AreArrays as_of whole b.1 d ds in
    (
      All-append (λ xs. 0 < length xs) a.0 (b.0 ++ (take_slice as_of whole b.1 d ds).0)
          (release_held-AreArrays d st)
          (All-append (λ xs. 0 < length xs) b.0 (take_slice as_of whole b.1 d ds).0
            (release_pending-AreArrays d a.1) c.0),
      c.1,
    )

view_chunk-AreArrays :
    (as_of : Option ℕ) (c : Chunk) (st : ViewState)
    → IsHeld st.held
    → AreArrays (view_chunk as_of c st).0 × IsHeld (view_chunk as_of c st).1.held
unfolding view_chunk
view_chunk-AreArrays as_of c st h = elim (Bool-cases (leb c.end c.start)) [
  | inl e ↦ rw e (tt, h)
  | inr e ↦ rw e (view_slice-AreArrays as_of _ (chunk_datoms c) st h)
]

view_end-AreArrays : (st : ViewState) → IsHeld st.held → AreArrays (view_end st)
view_end-AreArrays st h = by_held st.held h
  where
    by_held :
        (l : Option (List Datom))
        → IsHeld l
        → AreArrays (view_end (record { pending = st.pending; held = l }))
    by_held none h = unfold view_end in yield_some-AreArrays (emit st.pending)
    by_held (some l) h = unfold view_end in (h, tt)

view_from-AreArrays :
    (as_of : Option ℕ) (cs : List Chunk) (st : ViewState)
    → IsHeld st.held
    → AreArrays (view_from as_of cs st)
unfolding view_from
view_from-AreArrays as_of [] st h = view_end-AreArrays st h
view_from-AreArrays as_of (c ∷ cs) st h =
    let r = view_chunk-AreArrays as_of c st h in
    All-append (λ xs. 0 < length xs) (view_chunk as_of c st).0
      (view_from as_of cs (view_chunk as_of c st).1) r.0
      (view_from-AreArrays as_of cs (view_chunk as_of c st).1 r.1)

pub current_view-AreArrays :
    (cs : List Chunk) (as_of : Option ℕ) → AreArrays (current_view cs as_of)
unfolding current_view
current_view-AreArrays cs as_of =
    view_from-AreArrays as_of cs (record { pending = none; held = none }) tt

pub filter_as_of-AreArrays : (cs : List Chunk) (t : ℕ) → AreArrays (filter_as_of cs t)
unfolding filter_as_of
filter_as_of-AreArrays [] t = tt
filter_as_of-AreArrays (c ∷ cs) t =
    All-append (λ xs. 0 < length xs) (yield_some (keep (λ d. leb d.t t) (chunk_datoms c)))
      (filter_as_of cs t) (yield_some-AreArrays (keep (λ d. leb d.t t) (chunk_datoms c)))
      (filter_as_of-AreArrays cs t)

pub concat-filter_as_of :
    (cs : List Chunk) (t : ℕ) → concat (filter_as_of cs t) ≡ keep (λ d. leb d.t t) (stream cs)
unfolding filter_as_of keep
concat-filter_as_of [] t = refl
concat-filter_as_of (c ∷ cs) t =
    let f : Datom → Bool = λ d. leb d.t t in
    concat-append (yield_some (keep f (chunk_datoms c))) (filter_as_of cs t)
    ∙ (ap (λ l. l ++ concat (filter_as_of cs t)) (concat-yield (keep f (chunk_datoms c)))
        ∙ (ap (λ l. keep f (chunk_datoms c) ++ l) (concat-filter_as_of cs t)
            ∙ sym (keep-append f (chunk_datoms c) (stream cs))))

take_all_of : (c : Chunk) (n : ℕ) → n ≡ length c.datoms → take n c.datoms ≡ c.datoms
take_all_of c n h = ap (λ k. take k c.datoms) h ∙ take_all c.datoms

whole_slice : (c : Chunk) → c.start ≡ 0 → c.end ≡ length c.datoms → chunk_datoms c ≡ c.datoms
whole_slice c s e =
    ap (λ k. slice c.datoms k c.end) s ∙ take_all_of c (c.end - 0) (omega (arith, e))

raw_array :
    (c : Chunk)
    → (if c.start == 0 && c.end == length c.datoms then c.datoms else chunk_datoms c)
      ≡ chunk_datoms c
raw_array c = elim (Bool-cases (c.start == 0 && c.end == length c.datoms)) [
  | inl e ↦ rw e (sym (whole_slice c (ground arith) (ground arith)))
  | inr e ↦ rw e refl
]

pub concat-raw_view : (cs : List Chunk) → concat (raw_view cs) ≡ stream cs
unfolding raw_view
concat-raw_view [] = refl
concat-raw_view (c ∷ cs) =
    ap (λ l. l ++ concat (raw_view cs)) (raw_array c)
    ∙ ap (λ l. chunk_datoms c ++ l) (concat-raw_view cs)
