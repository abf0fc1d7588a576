-- ===== src/Datom.antt =====
-- packages/ramose/src/internal/core/datom.ts: datoms, the four index orders and prefix keys.
-- The value model stands in the children `Text` and `Values`.
pub mod Text
pub mod Values
pub mod Order
pub mod Ranges
pub use Text.{CodeUnit, text_weights}
unfoldable pub use Text.{compare_strings, compare_bytes, strings_equal, literal}
pub use Values.{Value, long, double, str, bool, ref, uuid, inst, bytes}
unfoldable pub use Values.{tag, compare_payload, compare_value, value_equals}
use ramose.Base.{
  ℕ, Bool, true, false, ◌&&◌, Option, none, some, compare, Ordering, ◌==◌, if◌then◌else◌,
}
use ramose.Base.Order.{or_else}

-- `op` is true for an assertion and false for a retraction.
pub record Datom : Type 0 where
  pub e : ℕ
  pub a : ℕ
  pub v : Value
  pub t : ℕ
  pub op : Bool

pub data IndexId : Type 0 where
  eavt aevt avet vaet : IndexId

-- A retraction sorts before an assertion.
unfoldable pub cmp_op : Bool → Bool → Ordering
cmp_op true true = Ordering.eq
cmp_op false false = Ordering.eq
cmp_op true false = Ordering.gt
cmp_op false true = Ordering.lt

unfoldable pub cmp_eavt : Datom → Datom → Ordering
unfolding cmp_op
cmp_eavt x y = or_else (compare x.e y.e) (
    or_else (compare x.a y.a)
      (or_else (compare_value x.v y.v) (or_else (compare x.t y.t) (cmp_op x.op y.op))))

unfoldable pub cmp_aevt : Datom → Datom → Ordering
unfolding cmp_op
cmp_aevt x y = or_else (compare x.a y.a) (
    or_else (compare x.e y.e)
      (or_else (compare_value x.v y.v) (or_else (compare x.t y.t) (cmp_op x.op y.op))))

unfoldable pub cmp_avet : Datom → Datom → Ordering
unfolding cmp_op
cmp_avet x y = or_else (compare x.a y.a) (
    or_else (compare_value x.v y.v)
      (or_else (compare x.e y.e) (or_else (compare x.t y.t) (cmp_op x.op y.op))))

unfoldable pub cmp_vaet : Datom → Datom → Ordering
unfolding cmp_op
cmp_vaet x y = or_else (compare_value x.v y.v) (
    or_else (compare x.a y.a)
      (or_else (compare x.e y.e) (or_else (compare x.t y.t) (cmp_op x.op y.op))))

-- `COMPARATORS[index]`, `comparatorFor(index)`
unfoldable pub comparator_for : IndexId → Datom → Datom → Ordering
comparator_for eavt = cmp_eavt
comparator_for aevt = cmp_aevt
comparator_for avet = cmp_avet
comparator_for vaet = cmp_vaet

unfoldable pub datom_equals : Datom → Datom → Bool
datom_equals x y =
    x.e == y.e && (x.a == y.a && (x.t == y.t && (bool_equals x.op y.op && value_equals x.v y.v)))
  where
    bool_equals : Bool → Bool → Bool
    bool_equals true b = b
    bool_equals false true = false
    bool_equals false false = true

-- A component that is absent, and every component after it, is unconstrained.
pub record Prefix : Type 0 where
  pub e : Option ℕ
  pub a : Option ℕ
  pub v : Option Value
  pub t : Option ℕ

-- One `if (p.k === undefined) return 0; if ((c = cmp(d.k, p.k)) !== 0) return c;`
unfoldable pub bound_then {ℓ} :
    {A : Type ℓ} → (A → A → Ordering) → A → Option A → Ordering → Ordering
bound_then cmp x none rest = Ordering.eq
bound_then cmp x (some k) rest = or_else (cmp x k) rest

unfoldable pub compare_prefix : IndexId → Datom → Prefix → Ordering
unfolding bound_then
compare_prefix eavt d p = bound_then compare d.e p.e (
    bound_then compare d.a p.a
      (bound_then compare_value d.v p.v (bound_then compare d.t p.t Ordering.eq)))
compare_prefix aevt d p = bound_then compare d.a p.a (
    bound_then compare d.e p.e
      (bound_then compare_value d.v p.v (bound_then compare d.t p.t Ordering.eq)))
compare_prefix avet d p = bound_then compare d.a p.a (
    bound_then compare_value d.v p.v
      (bound_then compare d.e p.e (bound_then compare d.t p.t Ordering.eq)))
compare_prefix vaet d p = bound_then compare_value d.v p.v (
    bound_then compare d.a p.a
      (bound_then compare d.e p.e (bound_then compare d.t p.t Ordering.eq)))
