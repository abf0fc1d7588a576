-- ===== src/Novelty/Facts.antt =====
-- `same_fact` is the equality of entity, attribute and value, and every index order groups by it.
use ramose.Base.{ℕ, ◌≡◌, ◌≢◌, ◌↔◌, ◌∙◌, refl, sym, true, none, some, arith, Ordering, compare}
use ramose.Datom.{Datom, IndexId, Prefix, comparator_for, compare_prefix, eavt, aevt, avet, vaet}
use ramose.Datom.Values.{value_equals_iff, compare_value-eq, compare_value_refl}
use ramose.Datom.Ranges.{compare_prefix-IsMonotone}
use ramose.Novelty.Collapse.{same_fact}

pub same_fact_iff :
    (x y : Datom) → (same_fact x y ≡ true) ↔ ((x.e ≡ y.e) × (x.a ≡ y.a) × (x.v ≡ y.v))
unfolding same_fact
same_fact_iff x y = (
  λ h. (ground arith, ground arith, (value_equals_iff x.v y.v).0 (ground arith)),
  λ h. ground (arith, (value_equals_iff x.v y.v).1 h.2),
)

-- The prefix that binds a fact.
fact_of : Datom → Prefix
fact_of d = record { e = some d.e; a = some d.a; v = some d.v; t = none }

at_eq : (m n : ℕ) → compare m n ≡ Ordering.eq → m ≡ n
at_eq m n h = ground arith

fact_of_intro :
    (i : IndexId) (x y : Datom)
    → same_fact x y ≡ true
    → compare_prefix i y (fact_of x) ≡ Ordering.eq
unfolding compare_prefix fact_of
fact_of_intro eavt x y h =
    let f = (same_fact_iff x y).0 h in ground (arith, f.0, f.1, f.2, compare_value_refl y.v)
fact_of_intro aevt x y h =
    let f = (same_fact_iff x y).0 h in ground (arith, f.0, f.1, f.2, compare_value_refl y.v)
fact_of_intro avet x y h =
    let f = (same_fact_iff x y).0 h in ground (arith, f.0, f.1, f.2, compare_value_refl y.v)
fact_of_intro vaet x y h =
    let f = (same_fact_iff x y).0 h in ground (arith, f.0, f.1, f.2, compare_value_refl y.v)

fact_of_elim :
    (i : IndexId) (x y : Datom)
    → compare_prefix i y (fact_of x) ≡ Ordering.eq
    → same_fact x y ≡ true
unfolding compare_prefix fact_of
fact_of_elim eavt x y h =
    (same_fact_iff x y).1
      (ground arith, ground arith, sym (compare_value-eq y.v x.v (ground arith)))
fact_of_elim aevt x y h =
    (same_fact_iff x y).1
      (ground arith, ground arith, sym (compare_value-eq y.v x.v (ground arith)))
fact_of_elim avet x y h =
    (same_fact_iff x y).1
      (ground arith, ground arith, sym (compare_value-eq y.v x.v (ground arith)))
fact_of_elim vaet x y h =
    (same_fact_iff x y).1
      (ground arith, ground arith, sym (compare_value-eq y.v x.v (ground arith)))

same_refl : (x : Datom) → same_fact x x ≡ true
same_refl x = (same_fact_iff x x).1 (refl, refl, refl)

pub same_trans :
    (x y z : Datom) → same_fact x y ≡ true → same_fact y z ≡ true → same_fact x z ≡ true
same_trans x y z h k =
    let f = (same_fact_iff x y).0 h in
    let g = (same_fact_iff y z).0 k in (same_fact_iff x z).1 (f.0 ∙ g.0, f.1 ∙ g.1, f.2 ∙ g.2)

pub same_sym : (x y : Datom) → same_fact x y ≡ true → same_fact y x ≡ true
same_sym x y h =
    let f = (same_fact_iff x y).0 h in (same_fact_iff y x).1 (sym f.0, sym f.1, sym f.2)

-- In an index's order, what stands between two datoms of one fact is of that fact.
pub same_between :
    (i : IndexId) (x y z : Datom)
    → comparator_for i x y ≡ Ordering.lt
    → comparator_for i y z ≡ Ordering.lt
    → same_fact x z ≡ true
    → same_fact x y ≡ true
same_between i x y z h k s =
    let m = compare_prefix-IsMonotone i (fact_of x) in
    fact_of_elim i x y (
      between (compare_prefix i y (fact_of x))
        (λ e. cc (m.below x y (λ g. cc) e, fact_of_intro i x x (same_refl x)))
        (λ e. cc (m.above y z (λ g. cc) e, fact_of_intro i x z s)))
  where
    between : (o : Ordering) → o ≢ Ordering.lt → o ≢ Ordering.gt → o ≡ Ordering.eq
    between Ordering.lt a b = absurd (a refl)
    between Ordering.eq a b = refl
    between Ordering.gt a b = absurd (b refl)
