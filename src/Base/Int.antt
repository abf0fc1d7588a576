-- ===== src/Base/Int.antt =====
-- Signed integers over the native numbers.
use ramose.Base.{ℕ, suc, ◌+◌, ◌-◌, ◌≡◌, arith, leb, if◌then◌else◌, Ordering, compare}
use ramose.Base.Order.{IsWeakOrder}

-- `negsuc n` is -(n + 1).
pub data ℤ : Type 0 where
  pos : ℕ → ℤ
  negsuc : ℕ → ℤ

abbrev pub pos_part : ℤ → ℕ
pos_part (pos n) = n
pos_part (negsuc n) = 0

abbrev pub neg_part : ℤ → ℕ
neg_part (pos n) = 0
neg_part (negsuc n) = suc n

-- a - b, as an integer.
abbrev pub sub_ℕ : ℕ → ℕ → ℤ
sub_ℕ a b = if leb b a then pos (a - b) else negsuc (b - a - 1)

infixl 65 ◌+ℤ◌
unfoldable pub ◌+ℤ◌ : ℤ → ℤ → ℤ
a +ℤ b = sub_ℕ (pos_part a + pos_part b) (neg_part a + neg_part b)

unfoldable pub compare_ℤ : ℤ → ℤ → Ordering
compare_ℤ a b = compare (pos_part a + neg_part b) (pos_part b + neg_part a)

pub compare_ℤ-IsWeakOrder : IsWeakOrder compare_ℤ
unfolding compare_ℤ
compare_ℤ-IsWeakOrder = record {
  swap = λ x y. ground arith;
  trans = λ x y z h k. ground arith;
  cong = λ x y z h. ground arith;
}

pub compare_ℤ-eq : (x y : ℤ) → compare_ℤ x y ≡ Ordering.eq → x ≡ y
unfolding compare_ℤ
compare_ℤ-eq x y h = ground arith

-- Adding a difference back.
pub +ℤ-sub_ℕ : (a b : ℕ) → pos b +ℤ sub_ℕ a b ≡ pos a
unfolding ◌+ℤ◌
+ℤ-sub_ℕ a b = ground arith
