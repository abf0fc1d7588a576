-- ===== src/Tree.antt =====
-- packages/ramose/src/internal/core/tree.ts: the searches in a sorted array of datoms and the union
-- of two. A comparator's result is tested through `is_lt` and `is_le`.
pub mod Search
pub mod Bounds
pub mod Union
pub mod Chunks
pub mod Store
pub mod Nodes
pub mod Build
pub mod Merge
pub mod Shapes
pub mod Walk
pub mod Scan
use ramose.Base.{
  ℕ, zero, suc, ◌+◌, ◌*◌, ◌/◌, ◌%◌, ◌^◌, Bool, true, false, ◌&&◌, Option, none, some, List, [], ◌∷◌,
  Ordering, ltb, if◌then◌else◌, length, get_elem?, slice,
}
use ramose.Datom.{Datom, IndexId, Prefix, compare_prefix}

-- `c < 0`
abbrev pub is_lt : Ordering → Bool
is_lt Ordering.lt = true
is_lt Ordering.eq = false
is_lt Ordering.gt = false

-- `c <= 0`
abbrev pub is_le : Ordering → Bool
is_le Ordering.lt = true
is_le Ordering.eq = true
is_le Ordering.gt = false

module _ {ℓ} {A : Type ℓ} where
  -- `while (lo < hi) { mid = (lo + hi) >>> 1; if (test) lo = mid + 1; else hi = mid; }`: the loop of
  -- every binary search of the file. `>>>` first reduces its operand to 32 bits.
  unfoldable pub bisect : ℕ → (A → Bool) → List A → ℕ → ℕ → ℕ
  bisect zero test ds lo hi = lo
  bisect (suc fuel) test ds lo hi =
      let mid = (lo + hi) % 2 ^ 32 / 2 in
      let right = bisect fuel test ds (mid + 1) hi in
      let left = bisect fuel test ds lo mid in
      if ltb lo hi
      then elim (get_elem? ds mid) [ none ↦ lo | some d ↦ if test d then right else left ]
      else lo

  -- The galloping loop of `lowerBoundFrom` and `upperBoundFrom`, which leaves `lo` and `hi`.
  -- The step is the bit pattern of a 32-bit integer.
  unfoldable pub gallop : ℕ → (A → Bool) → List A → ℕ → ℕ → ℕ → ℕ × ℕ
  gallop zero test ds lo hi step = (lo, hi)
  gallop (suc fuel) test ds lo hi step =
      let next = gallop fuel test ds (hi + 1) (hi + step) (step * 2 % 2 ^ 32) in
      elim (get_elem? ds hi) [ none ↦ (lo, hi) | some d ↦ if test d then next else (lo, hi) ]

  -- The gallop, `if (hi > n) hi = n;`, and the bisection of what is left.
  unfoldable pub bound_from : (A → Bool) → List A → ℕ → ℕ
  unfolding gallop bisect
  bound_from test ds from =
      let n = length ds in
      let (lo, hi) = gallop (n + 1) test ds from from 1 in
      bisect (n + 1) test ds lo (if ltb n hi then n else hi)

unfoldable pub lower_bound : IndexId → List Datom → Prefix → ℕ
unfolding bisect
lower_bound i ds p = bisect (length ds + 1) (λ d. is_lt (compare_prefix i d p)) ds 0 (length ds)

unfoldable pub upper_bound : IndexId → List Datom → Prefix → ℕ
unfolding bisect
upper_bound i ds p = bisect (length ds + 1) (λ d. is_le (compare_prefix i d p)) ds 0 (length ds)

unfoldable pub lower_bound_from : (Datom → Prefix → Ordering) → List Datom → Prefix → ℕ → ℕ
unfolding bound_from
lower_bound_from cmp ds p = bound_from (λ d. is_lt (cmp d p)) ds

unfoldable pub upper_bound_from : (Datom → Prefix → Ordering) → List Datom → Prefix → ℕ → ℕ
unfolding bound_from
upper_bound_from cmp ds p = bound_from (λ d. is_le (cmp d p)) ds

unfoldable pub lower_bound_datom : (Datom → Datom → Ordering) → List Datom → Datom → ℕ
unfolding bisect
lower_bound_datom cmp ds d = bisect (length ds + 1) (λ x. is_lt (cmp x d)) ds 0 (length ds)

-- The two-pointer loop: `i` and `j` are what is left of each list.
unfoldable pub sorted_union {ℓ} : {A : Type ℓ} → (A → A → Ordering) → List A → List A → List A
sorted_union cmp [] bs = bs
sorted_union cmp (a ∷ as') [] = a ∷ as'
sorted_union cmp (a ∷ as') (b ∷ bs) = elim (cmp a b) [
  | Ordering.lt ↦ a ∷ sorted_union cmp as' (b ∷ bs)
  | Ordering.gt ↦ b ∷ sorted_union cmp (a ∷ as') bs
  | Ordering.eq ↦ a ∷ sorted_union cmp as' bs
]

-- A slice `[start, end)` of a leaf's datoms.
pub record Chunk : Type 0 where
  pub datoms : List Datom
  pub start : ℕ
  pub end : ℕ

-- `c.datoms.slice(c.start, c.end)`
abbrev pub chunk_datoms : Chunk → List Datom
chunk_datoms c = slice c.datoms c.start c.end
