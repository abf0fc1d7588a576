-- ===== src/Datom/Ranges.antt =====
-- In every index the datoms of a prefix are contiguous: `comparePrefix` never decreases along the
-- index order.
use ramose.Base.{◌≡◌, ◌≢◌, Option, none, some, arith, Ordering}
use ramose.Base.Order.{IsWeakOrder, or_else, lt-of-lt-eq, compare-IsWeakOrder}
use ramose.Datom.{
  Datom, IndexId, eavt, aevt, avet, vaet, cmp_eavt, cmp_aevt, cmp_avet, cmp_vaet, comparator_for,
  Prefix, bound_then, compare_prefix,
}
use ramose.Datom.Values.{compare_value-IsWeakOrder}

-- `probe` tells on which side of a range an element lies, and agrees with the order.
pub record IsMonotone {ℓ} {A : Type ℓ} (cmp : A → A → Ordering) (probe : A → Ordering)
    : Type ℓ where
  pub below : (x y : A) → cmp x y ≢ Ordering.gt → probe y ≡ Ordering.lt → probe x ≡ Ordering.lt
  pub above : (x y : A) → cmp x y ≢ Ordering.gt → probe x ≡ Ordering.gt → probe y ≡ Ordering.gt

module _ {ℓ κ} {A : Type ℓ} {B : Type κ} {c : B → B → Ordering} {d : A → A → Ordering}
    {rest : A → Ordering} where
  bound_then-IsMonotone :
      (f : A → B) (k : Option B)
      → IsWeakOrder c
      → IsMonotone d rest
      → IsMonotone (λ x y. or_else (c (f x) (f y)) (d x y)) (λ x. bound_then c (f x) k (rest x))
  unfolding bound_then
  bound_then-IsMonotone f none o m = record { below = λ x y h k. cc; above = λ x y h k. cc }
  bound_then-IsMonotone f (some k) o m = record {
    below = λ x y h u. ground (
      arith,
      o.trans (f x) (f y) k,
      o.cong (f x) (f y) k,
      lt-of-lt-eq o (f x) (f y) k,
      m.below x y,
    );
    above = λ x y h u. ground (
      arith,
      o.trans k (f x) (f y),
      o.swap k (f x),
      o.swap k (f y),
      o.cong k (f x) (f y),
      o.swap (f x) k,
      o.swap (f y) k,
      o.cong (f x) (f y) k,
      m.above x y,
    );
  }

no_more-IsMonotone : (d : Datom → Datom → Ordering) → IsMonotone d (λ _. Ordering.eq)
no_more-IsMonotone d = record { below = λ x y h k. k; above = λ x y h k. k }

-- In every index and for every prefix, `comparePrefix` never decreases along the index order:
-- what does not come after a datom below the range is below it, and what does not come before a
-- datom above the range is above it.
pub compare_prefix-IsMonotone :
    (i : IndexId) (p : Prefix) → IsMonotone (comparator_for i) (λ d. compare_prefix i d p)
unfolding comparator_for cmp_eavt cmp_aevt cmp_avet cmp_vaet compare_prefix
compare_prefix-IsMonotone eavt p =
    bound_then-IsMonotone (λ (d : Datom). d.e) p.e compare-IsWeakOrder
      (bound_then-IsMonotone (λ (d : Datom). d.a) p.a compare-IsWeakOrder
        (bound_then-IsMonotone (λ (d : Datom). d.v) p.v compare_value-IsWeakOrder
          (bound_then-IsMonotone (λ (d : Datom). d.t) p.t compare-IsWeakOrder
            (no_more-IsMonotone _))))
compare_prefix-IsMonotone aevt p =
    bound_then-IsMonotone (λ (d : Datom). d.a) p.a compare-IsWeakOrder
      (bound_then-IsMonotone (λ (d : Datom). d.e) p.e compare-IsWeakOrder
        (bound_then-IsMonotone (λ (d : Datom). d.v) p.v compare_value-IsWeakOrder
          (bound_then-IsMonotone (λ (d : Datom). d.t) p.t compare-IsWeakOrder
            (no_more-IsMonotone _))))
compare_prefix-IsMonotone avet p =
    bound_then-IsMonotone (λ (d : Datom). d.a) p.a compare-IsWeakOrder
      (bound_then-IsMonotone (λ (d : Datom). d.v) p.v compare_value-IsWeakOrder
        (bound_then-IsMonotone (λ (d : Datom). d.e) p.e compare-IsWeakOrder
          (bound_then-IsMonotone (λ (d : Datom). d.t) p.t compare-IsWeakOrder
            (no_more-IsMonotone _))))
compare_prefix-IsMonotone vaet p =
    bound_then-IsMonotone (λ (d : Datom). d.v) p.v compare_value-IsWeakOrder
      (bound_then-IsMonotone (λ (d : Datom). d.a) p.a compare-IsWeakOrder
        (bound_then-IsMonotone (λ (d : Datom). d.e) p.e compare-IsWeakOrder
          (bound_then-IsMonotone (λ (d : Datom). d.t) p.t compare-IsWeakOrder
            (no_more-IsMonotone _))))
