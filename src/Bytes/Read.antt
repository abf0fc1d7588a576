-- ===== src/Bytes/Read.antt =====
-- The reader of bytes.ts gives back what the writer wrote.
use ramose.Base.{
  ℕ, zero, suc, ◌+◌, ◌*◌, ◌/◌, ◌%◌, ◌^◌, ◌≤◌, ◌<◌, ◌≡◌, ◌∙◌, refl, ap, true, false, List, [], ◌∷◌,
  ◌++◌, append_assoc, append-nil, arith, ltb, leb, ◌==◌, length, length-append, Bool-cases, inl,
  inr, take, drop,
}
use ramose.Base.Int.{ℤ, pos, negsuc}
use ramose.Bytes.{
  ok, ◌>>>◌, Get, returns, read_u8, read_u32, read_uvar, read_uvar_from, read_svar, svar_rest,
  read_bytes, read_lbytes, from_parts, max_safe, sign_bit, magnitude, be32,
}
use ramose.Bytes.Write.{uvar_bytes, svar_bytes, groups, IsSafe, magnitude-le}

-- In front of any bytes the method reads `bs` as `x`.
pub record Reads {A : Type 0} (g : Get A) (bs : List ℕ) (x : A) : Type 0 where
  pub run : (rest : List ℕ) → g (bs ++ rest) ≡ ok (x, rest)

-- The factor 128 ^ i that the reader has reached after `i` bytes.
abbrev factor : ℕ → ℕ
factor zero = 1
factor (suc i) = factor i * 0x80

factor_le : (i : ℕ) → i ≤ 7 → factor (suc i) ≤ 2 ^ 56
factor_le zero h = omega arith
factor_le (suc zero) h = omega arith
factor_le (suc (suc zero)) h = omega arith
factor_le (suc (suc (suc zero))) h = omega arith
factor_le (suc (suc (suc (suc zero)))) h = omega arith
factor_le (suc (suc (suc (suc (suc zero))))) h = omega arith
factor_le (suc (suc (suc (suc (suc (suc zero)))))) h = omega arith
factor_le (suc (suc (suc (suc (suc (suc (suc zero))))))) h = omega arith
factor_le (suc (suc (suc (suc (suc (suc (suc (suc i)))))))) h = absurd (omega arith)

-- The last byte of a varint.
read_last :
    (x result mult : ℕ) (rest : List ℕ)
    → x < 0x80
    → read_uvar_from result mult (x ∷ rest) ≡ ok (result + x * mult, rest)
unfolding read_uvar_from
read_last x result mult rest h =
    let e : ltb x 0x80 ≡ true = ground arith in let m : x % 0x80 ≡ x = omega arith in rw (e, m)

-- A byte that is not the last.
read_more :
    (r result mult : ℕ) (bs : List ℕ)
    → r < 0x80
    → mult * 0x80 ≤ 2 ^ 56
    → read_uvar_from result mult ((r + 0x80) ∷ bs)
      ≡ read_uvar_from (result + r * mult) (mult * 0x80) bs
unfolding read_uvar_from
read_more r result mult bs h l =
    let e : ltb (r + 0x80) 0x80 ≡ false = ground arith in
    let m : (r + 0x80) % 0x80 ≡ r = omega arith in
    let f : ltb (2 ^ 56) (mult * 0x80) ≡ false = ground arith in rw (e, f, m)

regroup :
    (x result mult : ℕ) → result + x % 0x80 * mult + x / 0x80 * (mult * 0x80) ≡ result + x * mult
regroup x result mult =
    let e : x ≡ x % 0x80 + x / 0x80 * 0x80 = omega arith in
    omega (arith, ap (λ (t : ℕ). t * mult) e)

uvar_from_lem :
    (fuel k x result i : ℕ) (rest : List ℕ)
    → k ≤ fuel
    → x < groups k
    → i + k ≤ 7
    → read_uvar_from result (factor i) (uvar_bytes fuel x ++ rest)
      ≡ ok (result + x * factor i, rest)
unfolding uvar_bytes
uvar_from_lem zero zero x result i rest f h b = read_last x result (factor i) rest h
uvar_from_lem zero (suc k) x result i rest f h b = absurd (omega arith)
uvar_from_lem (suc fuel) zero x result i rest f h b =
    let e : leb 0x80 x ≡ false = ground arith in rw e (read_last x result (factor i) rest h)
uvar_from_lem (suc fuel) (suc k) x result i rest f h b = elim (Bool-cases (leb 0x80 x)) [
  | inr e ↦ rw e (read_last x result (factor i) rest (ground arith))
  | inl e ↦ rw e (
      read_more (x % 0x80) result (factor i) (uvar_bytes fuel (x / 0x80) ++ rest) (omega arith)
        (factor_le i (omega arith))
      ∙ (uvar_from_lem fuel k (x / 0x80) (result + x % 0x80 * factor i) (suc i) rest (omega arith)
            (omega arith) (omega arith)
          ∙ ap (λ n. ok (n, rest)) (regroup x result (factor i))))
]

pub uvar-Reads : (x : ℕ) → x ≤ max_safe → Reads read_uvar (uvar_bytes 10 x) x
unfolding read_uvar
uvar-Reads x h = record {
  run = λ rest.
      uvar_from_lem 10 7 x 0 0 rest (omega arith) (omega arith) (omega arith)
      ∙ (let e : 0 + x * 1 ≡ x = omega arith in rw e);
}

-- One method after another.
pub then-Reads :
    {A B : Type 0} (g : Get A) (f : A → Get B) (xs ys : List ℕ) (a : A) (b : B)
    → Reads g xs a
    → Reads (f a) ys b
    → Reads (g >>> f) (xs ++ ys) b
then-Reads g f xs ys a b r q = record {
  run = λ rest. rw (append_assoc xs ys rest, r.run (ys ++ rest)) (q.run rest);
}

pub returns-Reads : {A : Type 0} (a : A) → Reads (returns a) [] a
returns-Reads a = record { run = λ rest. refl }

pub u8-Reads : (x : ℕ) → x < 256 → Reads read_u8 ((x % 256) ∷ []) x
unfolding read_u8
u8-Reads x h = record { run = λ rest. let e : x % 256 ≡ x = omega arith in rw e }

pub u32-Reads : (x : ℕ) → x < 2 ^ 32 → Reads read_u32 (be32 x) x
unfolding read_u32
u32-Reads x h = record { run = λ rest. ground arith }

take_front :
    (xs rest : List ℕ)
    → (take (length xs) (xs ++ rest) ≡ xs) × (drop (length xs) (xs ++ rest) ≡ rest)
take_front [] rest = (refl, refl)
take_front (x ∷ xs) rest = let t = take_front xs rest in (ap (λ (l : List ℕ). x ∷ l) t.0, t.1)

pub bytes-Reads : (xs : List ℕ) → Reads (read_bytes (length xs)) xs xs
unfolding read_bytes
bytes-Reads xs = record {
  run = λ rest.
      let e : ltb (length (xs ++ rest)) (length xs) ≡ false =
        ground (arith, length-append xs rest) in
      let t = take_front xs rest in rw (e, t.0, t.1);
}

pub lbytes-Reads :
    (xs : List ℕ) → length xs ≤ max_safe → Reads read_lbytes (uvar_bytes 10 (length xs) ++ xs) xs
unfolding read_lbytes
lbytes-Reads xs h =
    then-Reads read_uvar read_bytes (uvar_bytes 10 (length xs)) xs (length xs) xs
      (uvar-Reads (length xs) h) (bytes-Reads xs)

parts_lem : (x : ℤ) → from_parts (sign_bit x) (magnitude x) ≡ x
unfolding from_parts sign_bit magnitude
parts_lem (pos n) = refl
parts_lem (negsuc n) = refl

sign_bit-le : (x : ℤ) → sign_bit x ≤ 1
unfolding sign_bit
sign_bit-le (pos n) = omega arith
sign_bit-le (negsuc n) = omega arith

byte-Reads : (b : ℕ) → Reads read_u8 (b ∷ []) b
unfolding read_u8
byte-Reads b = record { run = λ rest. refl }

short_rest : (x : ℤ) → magnitude x < 64 → Reads (svar_rest (magnitude x % 64 * 2 + sign_bit x)) [] x
unfolding svar_rest
short_rest x h =
    let m = magnitude x in
    let s = sign_bit x in
    let b = m % 64 * 2 + s in
    let l = sign_bit-le x in
    let e : ltb b 0x80 ≡ true = ground arith in
    let p : b % 2 ≡ s = omega arith in
    let q : b / 2 % 64 ≡ m = omega arith in rw (e, p, q, parts_lem x) (returns-Reads x)

long_rest :
    (x : ℤ)
    → magnitude x ≤ max_safe
    → Reads
        (svar_rest (magnitude x % 64 * 2 + sign_bit x + 0x80))
        (uvar_bytes 10 (magnitude x / 64))
        x
unfolding svar_rest
long_rest x h =
    let m = magnitude x in
    let s = sign_bit x in
    let b = m % 64 * 2 + s + 0x80 in
    let l = sign_bit-le x in
    let e : ltb b 0x80 ≡ false = ground arith in
    let p : b % 2 ≡ s = omega arith in
    let q : b / 2 % 64 ≡ m % 64 = omega arith in
    let t : m % 64 + m / 64 * 64 ≡ m = omega arith in
    let bs = uvar_bytes 10 (m / 64) in
    let done : Reads (returns (from_parts s (m % 64 + m / 64 * 64))) [] x =
      rw (t, parts_lem x) (returns-Reads x) in
    rw (e, p, q)
      (rw (← append-nil bs) (
        then-Reads read_uvar (λ r. returns (from_parts s (m % 64 + r * 64))) bs [] (m / 64) x
          (uvar-Reads (m / 64) (omega (arith, h))) done))

pub svar-Reads : (x : ℤ) → IsSafe x → Reads read_svar (svar_bytes x) x
unfolding read_svar svar_bytes
svar-Reads x s =
    let m = magnitude x in
    let low = m % 64 * 2 + sign_bit x in
    elim (Bool-cases (m / 64 == 0)) [
      | inl e ↦ rw e (
          then-Reads read_u8 svar_rest (low ∷ []) [] low x (byte-Reads low)
            (short_rest x (ground arith)))
      | inr e ↦ rw e (
          then-Reads read_u8 svar_rest ((low + 0x80) ∷ []) (uvar_bytes 10 (m / 64)) (low + 0x80) x
            (byte-Reads (low + 0x80)) (long_rest x (magnitude-le x s)))
    ]
