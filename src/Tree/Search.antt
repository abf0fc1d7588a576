-- ===== src/Tree/Search.antt =====
-- The binary searches of tree.ts find the point where a test changes.
use ramose.Base.{
  ℕ, zero, suc, ◌+◌, ◌*◌, ◌/◌, ◌%◌, ◌^◌, ◌-◌, ◌≤◌, ◌<◌, max, ◌≡◌, ◌∙◌, refl, Bool, true, false,
  some, List, [], ◌∷◌, All, arith, ltb, if◌then◌else◌, length, get_elem?, get_elem?-lt,
  get_elem?-none, Bool-cases, Option-cases, inl, inr,
}
use native.Mathlib.Decide.{dec_le}
use ramose.Tree.{bisect, gallop, bound_from}

clamp : ℕ → ℕ → ℕ
clamp n hi = if ltb n hi then n else hi

clamp_self : (n hi : ℕ) → hi ≤ n → clamp n hi ≡ hi
unfolding clamp
clamp_self n hi h = ground arith

module _ {ℓ} {A : Type ℓ} (test : A → Bool) where
  -- The number of elements in front that pass the test, by a linear scan.
  unfoldable pub passing : List A → ℕ
  passing [] = 0
  passing (x ∷ xs) = let rest = suc (passing xs) in if test x then rest else 0

  -- Behind an element that fails, all fail.
  abbrev pub IsPartitioned : List A → Type 0
  IsPartitioned [] = Unit
  IsPartitioned (x ∷ xs) = (test x ≡ false → All (λ y. test y ≡ false) xs) × IsPartitioned xs

  pub passing-le : (xs : List A) → passing xs ≤ length xs
  unfolding passing
  passing-le [] = omega arith
  passing-le (x ∷ xs) = ground (arith, passing-le xs)

  fails_at :
      (xs : List A) (i : ℕ) (d : A)
      → All (λ y. test y ≡ false) xs
      → get_elem? xs i ≡ some d
      → test d ≡ false
  fails_at [] i d h g = cc
  fails_at (x ∷ xs) zero d h g = ground arith
  fails_at (x ∷ xs) (suc i) d h g = fails_at xs i d h.1 g

  pub lt-passing :
      (xs : List A) (i : ℕ) (d : A)
      → IsPartitioned xs
      → get_elem? xs i ≡ some d
      → test d ≡ true
      → i < passing xs
  unfolding passing
  lt-passing [] i d s g h = cc
  lt-passing (x ∷ xs) zero d s g h = ground arith
  lt-passing (x ∷ xs) (suc i) d s g h = elim (Bool-cases (test x)) [
    | inl e ↦ ground (arith, lt-passing xs i d s.1 g h)
    | inr e ↦ cc (h, fails_at xs i d (s.0 e) g)
  ]

  pub passing-le_at :
      (xs : List A) (i : ℕ) (d : A) → get_elem? xs i ≡ some d → test d ≡ false → passing xs ≤ i
  unfolding passing
  passing-le_at [] i d g h = cc
  passing-le_at (x ∷ xs) zero d g h = ground arith
  passing-le_at (x ∷ xs) (suc i) d g h = ground (arith, passing-le_at xs i d g h)

  pub bisect_lem :
      (fuel : ℕ) (ds : List A) (lo hi : ℕ)
      → IsPartitioned ds
      → length ds < 2 ^ 31
      → lo ≤ passing ds
      → passing ds ≤ hi
      → hi ≤ length ds
      → hi - lo < fuel
      → bisect fuel test ds lo hi ≡ passing ds
  unfolding bisect
  bisect_lem zero ds lo hi s b l h k f = absurd (omega arith)
  bisect_lem (suc fuel) ds lo hi s b l h k f = elim (Bool-cases (ltb lo hi)) [
    | inr e ↦ ground arith
    | inl e ↦
        let mid = (lo + hi) % 2 ^ 32 / 2 in
        let bounds : (lo ≤ mid) × (mid < hi) = (ground arith, ground arith) in
        let (d, g) = get_elem?-lt ds mid (omega arith) in
        ground (
          arith,
          g,
          lt-passing ds mid d s g,
          passing-le_at ds mid d g,
          bisect_lem fuel ds (mid + 1) hi s b,
          bisect_lem fuel ds lo mid s b,
        )
  ]

  bisect_done : (fuel : ℕ) (ds : List A) (lo : ℕ) → bisect fuel test ds lo lo ≡ lo
  unfolding bisect
  bisect_done zero ds lo = refl
  bisect_done (suc fuel) ds lo = ground arith

  gallop_lem :
      (fuel : ℕ) (ds : List A) (lo hi step : ℕ)
      → IsPartitioned ds
      → length ds < 2 ^ 30
      → lo ≤ passing ds
      → lo ≤ hi
      → 1 ≤ step
      → step ≤ hi + 1
      → length ds - hi < fuel
      → ((gallop fuel test ds lo hi step).0 ≤ passing ds)
        × (passing ds ≤ (gallop fuel test ds lo hi step).1)
  unfolding gallop
  gallop_lem zero ds lo hi step s b l h k m f = absurd (omega arith)
  gallop_lem (suc fuel) ds lo hi step s b l h k m f = elim (Option-cases (get_elem? ds hi)) [
    | inl e ↦ rw (e, gallop) (l, omega (arith, passing-le ds, get_elem?-none ds hi e))
    | inr (d, e) ↦ elim (Bool-cases (test d)) [
      | inl t ↦
          let p : hi < passing ds = lt-passing ds hi d s e t in
          rw (e, gallop)
            (rw t (
              gallop_lem fuel ds (hi + 1) (hi + step) (step * 2 % 2 ^ 32) s b (omega arith)
                (omega arith) (omega (arith, passing-le ds)) (omega (arith, passing-le ds))
                (omega (arith, passing-le ds))))
      | inr t ↦ rw (e, gallop) (rw t (l, passing-le_at ds hi d e t))
    ]
  ]

  -- A gallop from a place where the test already fails stops at once.
  gallop_behind :
      (fuel : ℕ) (ds : List A) (from : ℕ)
      → IsPartitioned ds
      → passing ds ≤ from
      → gallop fuel test ds from from 1 ≡ (from, from)
  unfolding gallop
  gallop_behind zero ds from s h = refl
  gallop_behind (suc fuel) ds from s h = elim (Option-cases (get_elem? ds from)) [
    | inl e ↦ rw (e, gallop)
    | inr (d, e) ↦ elim (Bool-cases (test d)) [
      | inl t ↦ absurd (omega (arith, lt-passing ds from d s e t))
      | inr t ↦ rw (e, gallop) (rw t)
    ]
  ]

  pub bound_from_lem :
      (ds : List A) (from : ℕ)
      → IsPartitioned ds
      → length ds < 2 ^ 30
      → from ≤ length ds
      → bound_from test ds from ≡ max from (passing ds)
  unfolding bound_from clamp
  bound_from_lem ds from s b h = elim (dec_le (passing ds) from) [
    | yes q ↦ rw (gallop_behind (length ds + 1) ds from s q) (
        rw (clamp_self (length ds) from h) (rw (bisect_done (length ds + 1) ds from) (omega arith)))
    | no q ↦
        let r = gallop (length ds + 1) test ds from from 1 in
        let g : (r.0 ≤ passing ds) × (passing ds ≤ r.1) =
          gallop_lem (length ds + 1) ds from from 1 s b (omega arith) (omega arith) (omega arith)
            (omega arith) (omega arith) in
        bisect_lem (length ds + 1) ds r.0 (clamp (length ds) r.1) s (omega arith) g.0
          (ground (arith, passing-le ds)) (ground arith) (ground arith)
        ∙ omega arith
  ]
