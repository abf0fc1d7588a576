-- ===== src/Tree/Shapes.antt =====
-- `prefixComparator` of tree.ts: a comparator for all prefixes of one shape.
use ramose.Base.{
  ℕ, ◌≡◌, refl, Bool, true, false, ◌&&◌, not, Option, none, some, arith, Ordering, compare,
  if◌then◌else◌,
}
use ramose.Base.Order.{or_else}
use ramose.Datom.{Datom, IndexId, eavt, aevt, avet, vaet, Prefix, bound_then, compare_prefix}

-- `k !== undefined`
unfoldable pub has {ℓ} : {A : Type ℓ} → Option A → Bool
has none = false
has (some k) = true

-- `x < k! ? -1 : x > k! ? 1 : 0`; with undefined both tests are false.
unfoldable pub compare_to : ℕ → Option ℕ → Ordering
compare_to x none = Ordering.eq
compare_to x (some k) = compare x k

-- The `switch` for prefixes without a value and a transaction: the arguments are `hasE` and `hasA`.
unfoldable pub fast_comparator : IndexId → Bool → Bool → Datom → Prefix → Ordering
unfolding compare_to
fast_comparator eavt true false d q = compare_to d.e q.e
fast_comparator eavt true true d q = or_else (compare_to d.e q.e) (compare_to d.a q.a)
fast_comparator aevt false true d q = compare_to d.a q.a
fast_comparator aevt true true d q = or_else (compare_to d.a q.a) (compare_to d.e q.e)
fast_comparator i e a d q = compare_prefix i d q

unfoldable pub prefix_comparator : IndexId → Prefix → Datom → Prefix → Ordering
unfolding has fast_comparator
prefix_comparator i p d q =
    if not (has p.v) && not (has p.t)
    then fast_comparator i (has p.e) (has p.a) d q
    else compare_prefix i d q

-- The same components are bound.
pub record IsSameShape (p q : Prefix) : Type 0 where
  pub e_same : has p.e ≡ has q.e
  pub a_same : has p.a ≡ has q.a
  pub v_same : has p.v ≡ has q.v
  pub t_same : has p.t ≡ has q.t

fast_lem :
    (i : IndexId) (d : Datom) (q : Prefix)
    → q.v ≡ none
    → fast_comparator i (has q.e) (has q.a) d q ≡ compare_prefix i d q
unfolding has fast_comparator compare_prefix bound_then compare_to
fast_lem eavt d q v = ground arith
fast_lem aevt d q v = ground arith
fast_lem avet d q v = ground arith
fast_lem vaet d q v = ground arith

not_has : {A : Type 0} (o : Option A) → has o ≡ false → o ≡ none
unfolding has
not_has none h = refl
not_has (some k) h = cc

-- For a prefix of the same shape as the one that the comparator was made for, `prefixComparator`
-- gives the same result as `comparePrefix`, in every index and for every datom.
pub prefix_comparator-compare_prefix :
    (i : IndexId) (p q : Prefix) (d : Datom)
    → IsSameShape p q
    → prefix_comparator i p d q ≡ compare_prefix i d q
unfolding prefix_comparator
prefix_comparator-compare_prefix i p q d h =
    rw (h.e_same, h.a_same, h.v_same, h.t_same) (ground (arith, fast_lem i d q, not_has q.v))
