-- ===== src/Tree/Scan/Walked.antt =====
-- The following leaves of `scan`: what the walk over the stack yields.
use ramose.Base.{
  All-append, ℕ, zero, suc, ◌+◌, ◌*◌, ◌^◌, ◌≤◌, ◌<◌, ◌≡◌, ◌∙◌, refl, sym, ap, subst, Bool, true,
  false, Option, some, List, [], ◌∷◌, ◌++◌, append_assoc, append-nil, All, arith, length,
  length-append, keep, ltb→lt, Bool-cases, inl, inr,
}
use ramose.Base.Sorted.{IsSorted, IsSorted-append, All-split}
use ramose.Datom.{Datom, IndexId, Prefix, compare_prefix, comparator_for}
use ramose.Datom.Ranges.{compare_prefix-IsMonotone}
use ramose.Tree.{Chunk, upper_bound, is_lt, is_le}
use ramose.Tree.Bounds.{is_eq, IsPartitioned-le, upper_bound-passing}
use ramose.Tree.Store.{NodeStore}
use ramose.Tree.Build.{Entry}
use ramose.Tree.Scan.{first_leaf, next_leaf, and_then, descend_left, walk}
use ramose.Tree.Scan.Leaves.{next_leaf_lem, next_leaf_chunks, passing_short, keep_past, keep-append}
use ramose.Tree.Scan.Down.{StackHolds, descend_left_lem}
use ramose.Tree.Chunks.{stream-append, IsChunk, stream}

mul_room : (m x y : ℕ) → 1 ≤ x → suc m + suc m * y ≤ suc m * (x + y)
mul_room m zero y h = absurd (omega arith)
mul_room m (suc k) y h = omega arith

module _ (i : IndexId) (p : Prefix) where
  abbrev pub matching : Datom → Bool
  matching d = is_eq (compare_prefix i d p)

  -- In order, short enough to search, and nothing of it before the prefix.
  abbrev pub Ready : List Datom → Type 0
  Ready ds =
      IsSorted (comparator_for i) ds
      × (length ds < 2 ^ 31)
      × All (λ d. is_lt (compare_prefix i d p) ≡ false) ds

  pub behind_stop :
      (xs ys : List Datom)
      → IsSorted (comparator_for i) (xs ++ ys)
      → length xs < 2 ^ 31
      → upper_bound i xs p < length xs
      → keep matching ys ≡ []
  behind_stop xs ys s b h =
      let part =
        IsPartitioned-le (comparator_for i) (λ d. compare_prefix i d p)
          (compare_prefix-IsMonotone i p) (xs ++ ys) s in
      let u = upper_bound-passing i xs p (IsSorted-append (comparator_for i) xs ys s).0 b in
      keep_past i p ys
        (passing_short (λ d. is_le (compare_prefix i d p)) xs ys part (omega (arith, h, u)))

  next_stop : (xs : List Datom) → (next_leaf i p xs).1 ≡ true → upper_bound i xs p < length xs
  unfolding next_leaf
  next_stop xs h = ltb→lt _ _ h

  pub first_stop : (xs : List Datom) → (first_leaf i p xs).1 ≡ true → upper_bound i xs p < length xs
  unfolding first_leaf
  first_stop xs h = ground (arith, h)

  Ready-split : (xs ys : List Datom) → Ready (xs ++ ys) → Ready xs × Ready ys
  Ready-split xs ys (s, b, a) =
      let q = IsSorted-append (comparator_for i) xs ys s in
      let r = All-split (λ d. is_lt (compare_prefix i d p) ≡ false) xs ys a in
      (
        (q.0, omega (arith, b, length-append xs ys), r.0),
        (q.1, omega (arith, b, length-append xs ys), r.1),
      )

  module _ (store : NodeStore) (s : store.State) where
    pub finish :
        (l : List Chunk × Bool) (o : Option (List Chunk)) (a b : List Datom)
        → stream l.0 ≡ a
        → (l.1 ≡ true → b ≡ [])
        → All IsChunk l.0
        → ((cs : List Chunk) × (o ≡ some cs) × (stream cs ≡ b) × All IsChunk cs)
        → (cs : List Chunk) × (and_then i p store s l o ≡ some cs)
          × (stream cs ≡ a ++ b)
          × All IsChunk cs
    unfolding and_then
    finish (l, true) o a b h k v r =
        (l, refl, h ∙ (sym (append-nil a) ∙ ap (λ z. a ++ z) (sym (k refl))), v)
    finish (l, false) o a b h k v (cs, e, c, u) = (
      l ++ cs,
      rw e refl,
      stream-append l cs ∙ (ap (λ z. z ++ stream cs) h ∙ ap (λ z. a ++ z) c),
      All-append IsChunk l cs v u,
    )

    walk_past :
        (fuel : ℕ) (e : Entry) (es : List Entry) (st : List (List Entry))
        → is_le (compare_prefix i e.key p) ≡ false
        → walk i p store s (suc fuel) ((e ∷ es) ∷ st) ≡ some []
    unfolding walk
    walk_past fuel e es st h = rw (h, walk)

    walk_on :
        (fuel : ℕ) (e : Entry) (es : List Entry) (st st' : List (List Entry)) (xs : List Datom)
        → is_le (compare_prefix i e.key p) ≡ true
        → descend_left i p store s fuel e.ref (es ∷ st) ≡ some (xs, st')
        → walk i p store s (suc fuel) ((e ∷ es) ∷ st)
          ≡ and_then i p store s (next_leaf i p xs) (walk i p store s fuel st')
    unfolding walk
    walk_on fuel e es st st' xs h k = rw (h, walk, k)

    abbrev pub Walked : Option (List Chunk) → List Datom → Type 0
    Walked o ds =
        (cs : List Chunk) × (o ≡ some cs) × (stream cs ≡ keep matching ds) × All IsChunk cs

    pub walk_lem :
        (fuel most : ℕ) (stack : List (List Entry)) (ds : List Datom)
        → StackHolds store s most stack ds
        → Ready ds
        → length stack + suc most * length ds < fuel
        → Walked (walk i p store s fuel stack) ds
    unfolding walk keep
    walk_lem zero most stack ds q r h = absurd (omega arith)
    walk_lem (suc fuel) most [] ds q r h = subst (Walked (some [])) (sym q) ([], refl, refl, tt)
    walk_lem (suc fuel) most ([] ∷ st) ds (n, xs, ys, m, c, f, q) r h =
        let e : ds ≡ ys = c ∙ ap (λ z. z ++ ys) f in
        subst (Walked (walk i p store s fuel st)) (sym e) (
          walk_lem fuel most st ys q (subst Ready e r)
            (omega (arith, h, ap (λ z. suc most * length z) e)))
    walk_lem (suc fuel) most ((e ∷ es) ∷ st) ds (n, xs0, ys0, m, c, (us, vs, c', t, f), q) r h =
        let full : ds ≡ (e.key ∷ us) ++ (vs ++ ys0) =
          c ∙ (ap (λ z. z ++ ys0) c' ∙ append_assoc (e.key ∷ us) vs ys0) in
        elim (Bool-cases (is_le (compare_prefix i e.key p))) [
          | inr past ↦
              let part =
                IsPartitioned-le (comparator_for i) (λ d. compare_prefix i d p)
                  (compare_prefix-IsMonotone i p) ((e.key ∷ us) ++ (vs ++ ys0))
                  (subst Ready full r).0 in
              (
                [],
                walk_past fuel e es st past,
                sym (
                    ap (keep matching) full
                    ∙ keep_past i p ((e.key ∷ us) ++ (vs ++ ys0)) (past, part.0 past)),
                tt,
              )
          | inl on ↦
              let whole = length (us ++ (vs ++ ys0)) in
              let room = mul_room most 1 whole (omega arith) in
              let (xs, st', ys, d, eq, holds, some_left, depth) =
                descend_left_lem store s i p n fuel most e.ref e.key us (es ∷ st) (vs ++ ys0)
                  (omega (arith, h, m, room, ap (λ z. suc most * length z) full)) m t
                  (n, vs, ys0, m, refl, f, q) in
              let cut : ds ≡ xs ++ ys = full ∙ eq in
              let parts = Ready-split xs ys (subst Ready cut r) in
              let rest = walk_lem fuel most st' ys holds parts.1 (
                omega (
                  arith,
                  h,
                  m,
                  depth,
                  mul_room most (length xs) (length ys) some_left,
                  ap (λ z. suc most * z) (ap length cut ∙ length-append xs ys),
                )) in
              let (cs, g, k, v) =
                finish (next_leaf i p xs) (walk i p store s fuel st') (keep matching xs)
                  (keep matching ys) (next_leaf_lem i p xs parts.0.0 parts.0.1 parts.0.2)
                  (λ stop. behind_stop xs ys (subst Ready cut r).0 parts.0.1 (next_stop xs stop))
                  (next_leaf_chunks i p xs) rest in
              (
                cs,
                walk_on fuel e es st st' xs on d ∙ g,
                k ∙ (sym (keep-append matching xs ys) ∙ ap (keep matching) (sym cut)),
                v,
              )
        ]
