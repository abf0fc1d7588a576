-- ===== src/Tree/Build/Sizes.antt =====
-- The sizes of the groups that `buildTree` makes.
use ramose.Base.{ℕ, zero, suc, ◌+◌, ◌-◌, ◌≤◌, ◌<◌, arith}
use native.Mathlib.Nat.{div-lt_iff_lt-mul}
use ramose.Tree.Build.{ceil_div}

-- Something is divided into at least one group.
pub ceil_div_positive : (n m : ℕ) → 0 < n → 0 < m → 0 < ceil_div n m
unfolding ceil_div
ceil_div_positive n m h k =
    let q = (div-lt_iff_lt-mul {k = m} {x = n + m - 1} {y = 1} k).0 in ground (arith, q)

-- Groups of at least two are fewer than what they group.
pub ceil_div-lt : (n m : ℕ) → 2 ≤ n → 2 ≤ m → ceil_div n m < n
unfolding ceil_div
ceil_div-lt (suc (suc n)) (suc (suc m)) h k =
    (div-lt_iff_lt-mul {k = suc (suc m)} {x = suc (suc n) + suc (suc m) - 1} {y = suc (suc n)}
        (omega arith)).1
      (omega arith)
ceil_div-lt zero m h k = absurd (omega arith)
ceil_div-lt (suc zero) m h k = absurd (omega arith)
ceil_div-lt (suc (suc n)) zero h k = absurd (omega arith)
ceil_div-lt (suc (suc n)) (suc zero) h k = absurd (omega arith)

-- Fewer groups than elements have at least two elements.
pub ceil_div-ge : (n g : ℕ) → 0 < g → g < n → 2 ≤ ceil_div n g
unfolding ceil_div
ceil_div-ge n g h k =
    let q = (div-lt_iff_lt-mul {k = g} {x = n + g - 1} {y = 2} h).0 in ground (arith, q)
