-- ===== src/Datom/Order.antt =====
-- The four index orders of datom.ts are total orders on datoms.
use ramose.Base.{◌≡◌, arith, Ordering, compare}
use ramose.Base.Order.{
  IsWeakOrder, or_else, or_else-IsWeakOrder, on-IsWeakOrder, compare-IsWeakOrder,
}
use ramose.Datom.{
  Datom, IndexId, eavt, aevt, avet, vaet, cmp_op, cmp_eavt, cmp_aevt, cmp_avet, cmp_vaet,
  comparator_for, compare_value,
}
use ramose.Datom.Values.{compare_value-IsWeakOrder, compare_value-eq}

cmp_op-IsWeakOrder : IsWeakOrder cmp_op
unfolding cmp_op
cmp_op-IsWeakOrder = record {
  swap = λ x y. ground arith;
  trans = λ x y z h k. ground arith;
  cong = λ x y z h. ground arith;
}

by_e : IsWeakOrder (λ (x y : Datom). compare x.e y.e)
by_e = on-IsWeakOrder (λ (x : Datom). x.e) compare-IsWeakOrder

by_a : IsWeakOrder (λ (x y : Datom). compare x.a y.a)
by_a = on-IsWeakOrder (λ (x : Datom). x.a) compare-IsWeakOrder

by_v : IsWeakOrder (λ (x y : Datom). compare_value x.v y.v)
by_v = on-IsWeakOrder (λ (x : Datom). x.v) compare_value-IsWeakOrder

by_t_op : IsWeakOrder (λ (x y : Datom). or_else (compare x.t y.t) (cmp_op x.op y.op))
by_t_op =
    or_else-IsWeakOrder (on-IsWeakOrder (λ (x : Datom). x.t) compare-IsWeakOrder)
      (on-IsWeakOrder (λ (x : Datom). x.op) cmp_op-IsWeakOrder)

-- The comparator of each of the four indexes is a consistent order: swapping the arguments swaps
-- the result, it is transitive, and datoms that tie compare alike with all others.
pub comparator_for-IsWeakOrder : (i : IndexId) → IsWeakOrder (comparator_for i)
unfolding comparator_for cmp_eavt cmp_aevt cmp_avet cmp_vaet
comparator_for-IsWeakOrder eavt =
    or_else-IsWeakOrder by_e (or_else-IsWeakOrder by_a (or_else-IsWeakOrder by_v by_t_op))
comparator_for-IsWeakOrder aevt =
    or_else-IsWeakOrder by_a (or_else-IsWeakOrder by_e (or_else-IsWeakOrder by_v by_t_op))
comparator_for-IsWeakOrder avet =
    or_else-IsWeakOrder by_a (or_else-IsWeakOrder by_v (or_else-IsWeakOrder by_e by_t_op))
comparator_for-IsWeakOrder vaet =
    or_else-IsWeakOrder by_v (or_else-IsWeakOrder by_a (or_else-IsWeakOrder by_e by_t_op))

Datom-eq : (x y : Datom) → x.e ≡ y.e → x.a ≡ y.a → x.v ≡ y.v → x.t ≡ y.t → x.op ≡ y.op → x ≡ y
Datom-eq x y p q r s u = λ i. record { e = p i; a = q i; v = r i; t = s i; op = u i }

-- Two datoms that tie in the order of some index are the same datom.
pub comparator_for-eq : (i : IndexId) (x y : Datom) → comparator_for i x y ≡ Ordering.eq → x ≡ y
unfolding comparator_for cmp_eavt cmp_aevt cmp_avet cmp_vaet cmp_op
comparator_for-eq eavt x y h =
    Datom-eq x y (ground arith) (ground arith) (compare_value-eq x.v y.v (ground arith))
      (ground arith) (ground arith)
comparator_for-eq aevt x y h =
    Datom-eq x y (ground arith) (ground arith) (compare_value-eq x.v y.v (ground arith))
      (ground arith) (ground arith)
comparator_for-eq avet x y h =
    Datom-eq x y (ground arith) (ground arith) (compare_value-eq x.v y.v (ground arith))
      (ground arith) (ground arith)
comparator_for-eq vaet x y h =
    Datom-eq x y (ground arith) (ground arith) (compare_value-eq x.v y.v (ground arith))
      (ground arith) (ground arith)
