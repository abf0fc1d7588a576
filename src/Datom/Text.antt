-- ===== src/Datom/Text.antt =====
-- Strings of UTF-16 code units and byte strings, as datom.ts compares them.
use Prim.Native.Char.{code}
use Prim.Native.String.{String}
use Prim.Native.Nat.{◌%◌, ℕ, ◌+◌, ◌-◌, ◌<◌, compare, Ordering}
use native.Mathlib.Bridge.{le_prop}
use mathlib.Core.HLevel.{is_prop→PathP}
use ramose.Base.{
  ◌≡◌, refl, Bool, true, false, ◌&&◌, List, [], ◌∷◌, map, arith, ltb, leb, ◌==◌, if◌then◌else◌,
}
use ramose.Base.Order.{or_else, compare_lists}

-- `charCodeAt` gives an integer below 2^16.
pub record CodeUnit : Type 0 where
  pub value : ℕ
  pub bound : value < 65536

pub CodeUnit-eq : (x y : CodeUnit) → x.value ≡ y.value → x ≡ y
CodeUnit-eq x y p = λ i. record {
  value = p i;
  bound = is_prop→PathP (λ j. p j < 65536) (λ j. le_prop) x.bound y.bound i;
}

unit_bound : (n : ℕ) → n % 65536 < 65536
unit_bound n = omega arith

-- The code units of a literal below U+10000.
unfoldable pub literal : String → List CodeUnit
unfolding unit_bound
literal String.[] = []
literal (String.◌∷◌ c s) =
    record { value = code c % 65536; bound = unit_bound (code c) } ∷ literal s

-- `if (x >= 0xe000) x -= 0x800; else x += 0x2000;`
unfoldable pub fix_up : ℕ → ℕ
fix_up x = if leb 0xe000 x then x - 0x800 else x + 0x2000

-- Two different code units.
unfoldable pub compare_units : ℕ → ℕ → Ordering
unfolding fix_up
compare_units x y =
    if leb 0xd800 x && leb 0xd800 y
    then (if ltb (fix_up x) (fix_up y) then Ordering.lt else Ordering.gt)
    else if ltb x y
    then Ordering.lt
    else Ordering.gt

unfoldable pub compare_strings : List CodeUnit → List CodeUnit → Ordering
unfolding compare_units
compare_strings [] [] = Ordering.eq
compare_strings [] (y ∷ ys) = Ordering.lt
compare_strings (x ∷ xs) [] = Ordering.gt
compare_strings (x ∷ xs) (y ∷ ys) =
    if x.value == y.value then compare_strings xs ys else compare_units x.value y.value

unfoldable pub compare_bytes : List ℕ → List ℕ → Ordering
compare_bytes [] [] = Ordering.eq
compare_bytes [] (y ∷ ys) = Ordering.lt
compare_bytes (x ∷ xs) [] = Ordering.gt
compare_bytes (x ∷ xs) (y ∷ ys) =
    if x == y then compare_bytes xs ys else if ltb x y then Ordering.lt else Ordering.gt

-- `a < b` on JavaScript strings is by code units.
unfoldable pub compare_by_units : List CodeUnit → List CodeUnit → Ordering
compare_by_units xs ys = compare_lists compare (map (λ u. u.value) xs) (map (λ u. u.value) ys)

-- `===` on strings
unfoldable pub strings_equal : List CodeUnit → List CodeUnit → Bool
strings_equal [] [] = true
strings_equal [] (y ∷ ys) = false
strings_equal (x ∷ xs) [] = false
strings_equal (x ∷ xs) (y ∷ ys) = x.value == y.value && strings_equal xs ys

-- The rank of a code unit in code-point order: surrogates, which stand for the code points from
-- U+10000, come after every other unit.
unfoldable pub weight : ℕ → ℕ
weight x = if ltb x 0xd800 then x else if ltb x 0xe000 then x + 0x2000 else x - 0x800

unfoldable pub text_weights : List CodeUnit → List ℕ
text_weights xs = map (λ u. weight u.value) xs

weight_inj : (x y : CodeUnit) → weight x.value ≡ weight y.value → x ≡ y
unfolding weight
weight_inj x y h = CodeUnit-eq x y (let bx = x.bound in let by = y.bound in ground arith)

pub compare_bytes-lists : (xs ys : List ℕ) → compare_bytes xs ys ≡ compare_lists compare xs ys
unfolding compare_bytes compare_lists
compare_bytes-lists [] [] = refl
compare_bytes-lists [] (y ∷ ys) = refl
compare_bytes-lists (x ∷ xs) [] = refl
compare_bytes-lists (x ∷ xs) (y ∷ ys) = ground (arith, compare_bytes-lists xs ys)

compare_strings_step :
    (x y : ℕ) (d : Ordering)
    → x < 65536
    → y < 65536
    → (if x == y then d else compare_units x y) ≡ or_else (compare (weight x) (weight y)) d
unfolding compare_units weight
compare_strings_step x y d hx hy = ground arith

-- Comparing strings is comparing their lists of weights.
pub compare_strings-weights :
    (xs ys : List CodeUnit)
    → compare_strings xs ys ≡ compare_lists compare (text_weights xs) (text_weights ys)
unfolding compare_strings compare_lists text_weights
compare_strings-weights [] [] = refl
compare_strings-weights [] (y ∷ ys) = refl
compare_strings-weights (x ∷ xs) [] = refl
compare_strings-weights (x ∷ xs) (y ∷ ys) =
    rw (compare_strings-weights xs ys) (compare_strings_step x.value y.value _ x.bound y.bound)

pub strings_equal_sound : (xs ys : List CodeUnit) → strings_equal xs ys ≡ true → xs ≡ ys
unfolding strings_equal
strings_equal_sound [] [] h = refl
strings_equal_sound [] (y ∷ ys) h = cc
strings_equal_sound (x ∷ xs) [] h = cc
strings_equal_sound (x ∷ xs) (y ∷ ys) h = ground (arith, strings_equal_sound xs ys, CodeUnit-eq x y)

pub strings_equal_refl : (xs : List CodeUnit) → strings_equal xs xs ≡ true
unfolding strings_equal
strings_equal_refl [] = refl
strings_equal_refl (x ∷ xs) = ground (arith, strings_equal_refl xs)

pub weights-inj :
    (xs ys : List CodeUnit)
    → compare_lists compare (text_weights xs) (text_weights ys) ≡ Ordering.eq
    → xs ≡ ys
unfolding compare_lists text_weights
weights-inj [] [] h = refl
weights-inj [] (y ∷ ys) h = cc
weights-inj (x ∷ xs) [] h = cc
weights-inj (x ∷ xs) (y ∷ ys) h = ground (arith, weight_inj x y, weights-inj xs ys)

pub units-inj : (xs ys : List CodeUnit) → compare_by_units xs ys ≡ Ordering.eq → xs ≡ ys
unfolding compare_lists compare_by_units
units-inj [] [] h = refl
units-inj [] (y ∷ ys) h = cc
units-inj (x ∷ xs) [] h = cc
units-inj (x ∷ xs) (y ∷ ys) h = ground (arith, CodeUnit-eq x y, units-inj xs ys)

pub bytes-inj : (xs ys : List ℕ) → compare_lists compare xs ys ≡ Ordering.eq → xs ≡ ys
unfolding compare_lists
bytes-inj [] [] h = refl
bytes-inj [] (y ∷ ys) h = cc
bytes-inj (x ∷ xs) [] h = cc
bytes-inj (x ∷ xs) (y ∷ ys) h = ground (arith, bytes-inj xs ys)
