-- ===== src/Datom/Values.antt =====
-- Tagged values. A payload stands with its tag, as `normalizeValue` leaves the pair: a double is
-- neither NaN nor -0, and is given by its sign and the magnitude of its bit pattern, which is how
-- IEEE 754 orders doubles (`pos m` has the bits m, `negsuc m` the bits 2^63 + m + 1).
use Prim.Native.Nat.{ℕ, compare, Ordering}
use ramose.Base.{
  ◌≡◌, ◌↔◌, refl, ap, subst, sym, ◌∙◌, Bool, true, false, List, [], map, arith, ltb, ◌==◌,
  if◌then◌else◌,
}
use ramose.Base.Order.{
  IsWeakOrder, or_else, compare_lists, compare_lists-IsWeakOrder, on-IsWeakOrder,
  or_else-IsWeakOrder, compare-IsWeakOrder, eq_self,
}
use mathlib.Core.Path.{fun_ext}
use ramose.Base.Int.{ℤ, pos, compare_ℤ, compare_ℤ-IsWeakOrder, compare_ℤ-eq}
use ramose.Datom.Text.{
  CodeUnit, compare_strings, compare_by_units, compare_bytes, strings_equal, text_weights,
  compare_strings-weights, compare_bytes-lists, weights-inj, units-inj, bytes-inj,
  strings_equal_sound, strings_equal_refl,
}

pub data Value : Type 0 where
  long : ℤ → Value
  double : ℤ → Value
  str : List CodeUnit → Value
  bool : Bool → Value
  ref : ℕ → Value
  uuid : List CodeUnit → Value
  inst : ℤ → Value
  bytes : List ℕ → Value

-- `ValueTag`
unfoldable pub tag : Value → ℕ
tag (long _) = 1
tag (double _) = 2
tag (str _) = 3
tag (bool _) = 4
tag (ref _) = 5
tag (uuid _) = 6
tag (inst _) = 7
tag (bytes _) = 8

bit : Bool → ℕ
bit true = 1
bit false = 0

-- The `switch` of `compareValue`, which is reached with equal tags only.
unfoldable pub compare_payload : Value → Value → Ordering
unfolding bit
compare_payload (long x) (long y) = compare_ℤ x y
compare_payload (double x) (double y) = compare_ℤ x y
compare_payload (str x) (str y) = compare_strings x y
compare_payload (bool x) (bool y) = compare (bit x) (bit y)
compare_payload (ref x) (ref y) = compare x y
compare_payload (uuid x) (uuid y) = compare_by_units x y
compare_payload (inst x) (inst y) = compare_ℤ x y
compare_payload (bytes x) (bytes y) = compare_bytes x y
compare_payload _ _ = Ordering.eq

unfoldable pub compare_value : Value → Value → Ordering
unfolding tag compare_payload
compare_value x y =
    if tag x == tag y
    then compare_payload x y
    else if ltb (tag x) (tag y)
    then Ordering.lt
    else Ordering.gt

-- `===` on primitives, the deep comparison on byte arrays.
unfoldable pub value_equals : Value → Value → Bool
unfolding compare_payload
value_equals (long x) (long y) = elim (compare_ℤ x y) [ Ordering.eq ↦ true | _ ↦ false ]
value_equals (double x) (double y) = elim (compare_ℤ x y) [ Ordering.eq ↦ true | _ ↦ false ]
value_equals (str x) (str y) = strings_equal x y
value_equals (bool x) (bool y) = bit x == bit y
value_equals (ref x) (ref y) = x == y
value_equals (uuid x) (uuid y) = strings_equal x y
value_equals (inst x) (inst y) = elim (compare_ℤ x y) [ Ordering.eq ↦ true | _ ↦ false ]
value_equals (bytes x) (bytes y) = elim (compare_bytes x y) [ Ordering.eq ↦ true | _ ↦ false ]
value_equals _ _ = false

-- The order read off keys: the tag, the number, the text.
number_key : Value → ℤ
number_key (long x) = x
number_key (double x) = x
number_key (bool x) = pos (bit x)
number_key (ref x) = pos x
number_key (inst x) = x
number_key _ = pos 0

text_key : Value → List ℕ
text_key (str x) = text_weights x
text_key (uuid x) = map (λ u. u.value) x
text_key (bytes x) = x
text_key _ = []

compare_keys : Value → Value → Ordering
compare_keys x y = or_else (compare (tag x) (tag y)) (
    or_else (compare_ℤ (number_key x) (number_key y))
      (compare_lists compare (text_key x) (text_key y)))

compare_keys-IsWeakOrder : IsWeakOrder compare_keys
unfolding compare_keys
compare_keys-IsWeakOrder = or_else-IsWeakOrder (on-IsWeakOrder tag compare-IsWeakOrder) (
    or_else-IsWeakOrder (on-IsWeakOrder number_key compare_ℤ-IsWeakOrder)
      (on-IsWeakOrder text_key (compare_lists-IsWeakOrder compare-IsWeakOrder)))

compare_value-keys : (x y : Value) → compare_value x y ≡ compare_keys x y
unfolding compare_value compare_keys number_key text_key compare_by_units compare_ℤ compare_lists
compare_value-keys (long x) (long y) = ground arith
compare_value-keys (double x) (double y) = ground arith
compare_value-keys (str x) (str y) = compare_strings-weights x y
compare_value-keys (bool x) (bool y) = ground arith
compare_value-keys (ref x) (ref y) = ground arith
compare_value-keys (uuid x) (uuid y) = refl
compare_value-keys (inst x) (inst y) = ground arith
compare_value-keys (bytes x) (bytes y) = compare_bytes-lists x y
compare_value-keys _ _ = refl

pub compare_value-IsWeakOrder : IsWeakOrder compare_value
compare_value-IsWeakOrder =
    subst IsWeakOrder (fun_ext (λ x. fun_ext (λ y. sym (compare_value-keys x y))))
      compare_keys-IsWeakOrder

bit_inj : (x y : Bool) → bit x ≡ bit y → x ≡ y
unfolding bit
bit_inj true true h = refl
bit_inj true false h = absurd (omega arith)
bit_inj false true h = absurd (omega arith)
bit_inj false false h = refl

strings-inj : (xs ys : List CodeUnit) → compare_strings xs ys ≡ Ordering.eq → xs ≡ ys
strings-inj xs ys h = weights-inj xs ys (sym (compare_strings-weights xs ys) ∙ h)

byte_strings-inj : (xs ys : List ℕ) → compare_bytes xs ys ≡ Ordering.eq → xs ≡ ys
byte_strings-inj xs ys h = bytes-inj xs ys (sym (compare_bytes-lists xs ys) ∙ h)

pub compare_value-eq : (x y : Value) → compare_value x y ≡ Ordering.eq → x ≡ y
unfolding compare_value
compare_value-eq (long x) (long y) h = ap long (compare_ℤ-eq x y h)
compare_value-eq (double x) (double y) h = ap double (compare_ℤ-eq x y h)
compare_value-eq (str x) (str y) h = ap str (strings-inj x y h)
compare_value-eq (bool x) (bool y) h = ap bool (bit_inj x y (ground arith))
compare_value-eq (ref x) (ref y) h = ap ref (ground arith)
compare_value-eq (uuid x) (uuid y) h = ap uuid (units-inj x y h)
compare_value-eq (inst x) (inst y) h = ap inst (compare_ℤ-eq x y h)
compare_value-eq (bytes x) (bytes y) h = ap bytes (byte_strings-inj x y h)
compare_value-eq _ _ h = cc

pub compare_value_refl : (x : Value) → compare_value x x ≡ Ordering.eq
compare_value_refl x = eq_self compare_value-IsWeakOrder x

value_equals_sound : (x y : Value) → value_equals x y ≡ true → x ≡ y
unfolding value_equals
value_equals_sound (long x) (long y) h = ap long (compare_ℤ-eq x y (ground arith))
value_equals_sound (double x) (double y) h = ap double (compare_ℤ-eq x y (ground arith))
value_equals_sound (str x) (str y) h = ap str (strings_equal_sound x y h)
value_equals_sound (bool x) (bool y) h = ap bool (bit_inj x y (ground arith))
value_equals_sound (ref x) (ref y) h = ap ref (ground arith)
value_equals_sound (uuid x) (uuid y) h = ap uuid (strings_equal_sound x y h)
value_equals_sound (inst x) (inst y) h = ap inst (compare_ℤ-eq x y (ground arith))
value_equals_sound (bytes x) (bytes y) h = ap bytes (byte_strings-inj x y (ground arith))
value_equals_sound _ _ h = cc

compare_ℤ-refl : (x : ℤ) → compare_ℤ x x ≡ Ordering.eq
compare_ℤ-refl x = eq_self compare_ℤ-IsWeakOrder x

value_equals_refl : (x : Value) → value_equals x x ≡ true
unfolding value_equals
value_equals_refl (long x) = ground (arith, compare_ℤ-refl x)
value_equals_refl (double x) = ground (arith, compare_ℤ-refl x)
value_equals_refl (str x) = strings_equal_refl x
value_equals_refl (bool x) = ground arith
value_equals_refl (ref x) = ground arith
value_equals_refl (uuid x) = strings_equal_refl x
value_equals_refl (inst x) = ground (arith, compare_ℤ-refl x)
value_equals_refl (bytes x) =
    ground
      (arith, compare_bytes-lists x x, eq_self (compare_lists-IsWeakOrder compare-IsWeakOrder) x)

-- `valueEquals` decides equality of tagged values.
pub value_equals_iff : (x y : Value) → (value_equals x y ≡ true) ↔ (x ≡ y)
value_equals_iff x y =
    (value_equals_sound x y, λ p. subst (λ z. value_equals x z ≡ true) p (value_equals_refl x))

-- `valueEquals` holds exactly where `compareValue` gives 0, and exactly where the two values are
-- the same.
pub value_equals-compare :
    (x y : Value)
    → ((value_equals x y ≡ true) ↔ (compare_value x y ≡ Ordering.eq))
      × ((value_equals x y ≡ true) ↔ (x ≡ y))
value_equals-compare x y = (
  (
    λ h.
        subst (λ z. compare_value x z ≡ Ordering.eq) ((value_equals_iff x y).0 h)
          (compare_value_refl x),
    λ h. (value_equals_iff x y).1 (compare_value-eq x y h),
  ),
  value_equals_iff x y,
)
