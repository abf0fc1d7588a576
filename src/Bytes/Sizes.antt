-- ===== src/Bytes/Sizes.antt =====
-- How many bytes `uvar` of the writer in bytes.ts takes of the room that it makes.
use ramose.Base.{
  ℕ, zero, suc, ◌+◌, ◌/◌, ◌^◌, ◌≤◌, ◌<◌, ◌≡◌, ◌↔◌, refl, Bool-cases, inl, inr, arith, ltb, leb,
  length, length-append, ◌++◌, false,
}
use native.Mathlib.Numerals.{unary_clauses}
use ramose.Bytes.{ok, Writer, ensure, uvar, max_safe}
use ramose.Bytes.Write.{IsWriter, uvar_bytes, groups, ensure_lem, uvar_loop_lem}

uvar_bytes-some : (fuel x : ℕ) → 1 ≤ length (uvar_bytes fuel x)
unfolding uvar_bytes
uvar_bytes-some zero x = omega arith
uvar_bytes-some (suc fuel) x = ground arith

groups-positive : (k : ℕ) → 1 ≤ groups k
groups-positive zero = omega arith
groups-positive (suc k) = omega (arith, groups-positive k)

uvar_bytes-length :
    (fuel k x : ℕ) → k < fuel → (length (uvar_bytes fuel x) ≤ suc k) ↔ (x < groups k)
unfolding uvar_bytes
uvar_bytes-length zero k x f = absurd (omega arith)
uvar_bytes-length (suc fuel) zero x f = elim (Bool-cases (leb 0x80 x)) [
  | inl e ↦ rw e (λ m. omega (arith, uvar_bytes-some fuel (x / 0x80)), λ m. ground arith)
  | inr e ↦ rw e (λ m. ground arith, λ m. omega arith)
]
uvar_bytes-length (suc fuel) (suc k) x f =
    let (to, from) = uvar_bytes-length fuel k (x / 0x80) (omega arith) in
    elim (Bool-cases (leb 0x80 x)) [
      | inl e ↦ rw e (λ m. omega (arith, to (omega arith)), λ m. omega (arith, from (omega arith)))
      | inr e ↦ rw e (λ m. grind (arith, groups-positive k), λ m. omega arith)
    ]

groups-power : (k : ℕ) → groups k ≡ 0x80 ^ suc k
groups-power zero = refl
groups-power (suc k) =
    let ih = groups-power k in
    let h = simp unary_clauses at ih in simp unary_clauses (omega (arith, h))

-- From every valid writer `uvar` of a safe natural number succeeds. For each k below 10, it
-- appends at most k + 1 bytes exactly where the number is below 128^(k + 1); and of the ten bytes
-- that it makes room for, at least two are left.
pub length-uvar :
    (x k : ℕ) (w : Writer)
    → x ≤ max_safe
    → k < 10
    → IsWriter w
    → (w' : Writer) × (uvar x w ≡ ok w')
      × ((length w'.written ≤ length w.written + suc k) ↔ (x < 0x80 ^ suc k))
      × (length w'.written + 2 ≤ w'.capacity)
unfolding uvar
length-uvar x k w s f v =
    let e : ltb max_safe x ≡ false = ground arith in
    let q = ensure_lem 10 w v in
    let l =
      uvar_loop_lem 10 7 x (ensure 10 w) (omega arith) (omega arith)
        (rw q.0 (omega (arith, q.1))) in
    let (to, from) = uvar_bytes-length 10 k x f in
    let added = length-append w.written (uvar_bytes 10 x) in
    (
      record (ensure 10 w) { written = (ensure 10 w).written ++ uvar_bytes 10 x },
      rw (e, l.0) refl,
      rw (q.0, ← groups-power k)
          (λ m. to (omega (arith, added)), λ m. omega (arith, added, from m)),
      rw q.0 (omega (arith, added, l.1, q.1)),
    )
