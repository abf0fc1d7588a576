-- ===== src/Segment/Columns.antt =====
-- The columns of a segment: `encodeSegment` and `decodeSegment` of segment.ts write and read them
-- one after the other.
use ramose.Base.{
  ℕ, zero, suc, ◌+◌, ◌-◌, ◌*◌, ◌/◌, ◌%◌, ◌≤◌, min, ◌≡◌, refl, sym, Bool, true, false, not, List, [],
  ◌∷◌, ◌++◌, map, All, arith, ◌==◌, length, take, drop, take-append-drop, length-take, length-drop,
  subst, ◌^◌,
}
use ramose.Base.Int.{ℤ, pos, sub_ℕ, ◌+ℤ◌, +ℤ-sub_ℕ}
use ramose.Bytes.{
  Put, Get, ◌then_put◌, nothing, ◌>>>◌, returns, u8, svar, read_u8, read_svar, max_safe, is_safe,
}
use ramose.Bytes.Write.{IsSafe}
use ramose.Bytes.Codec.{
  IsCodec, IsCodec-then, IsCodec-nothing, IsCodec-map, svar-IsCodec, u8-IsCodec,
}

-- `b ? 1 : 0`
unfoldable pub flag : Bool → ℕ
flag true = 1
flag false = 0

-- A column written element by element, and read `n` elements long.
unfoldable pub write_column {ℓ} : {A : Type ℓ} → (A → Put) → List A → Put
write_column f [] = nothing
write_column f (x ∷ xs) = f x then_put write_column f xs

unfoldable pub read_column : {A : Type 0} → Get A → ℕ → Get (List A)
read_column g zero = returns []
read_column g (suc n) = g >>> λ x. read_column g n >>> λ xs. returns (x ∷ xs)

-- A column of differences: `w.svar(e - prev); prev = e;`
unfoldable pub write_deltas : ℕ → List ℕ → Put
write_deltas prev [] = nothing
write_deltas prev (x ∷ xs) = svar (sub_ℕ x prev) then_put write_deltas x xs

-- `prev += r.svar(); es[i] = prev;`
unfoldable pub read_deltas : ℤ → ℕ → Get (List ℤ)
read_deltas prev zero = returns []
read_deltas prev (suc n) =
    read_svar >>> λ d. read_deltas (prev +ℤ d) n >>> λ xs. returns ((prev +ℤ d) ∷ xs)

-- `if (datoms[i + j].op) b |= 1 << j;`, for at most eight datoms
unfoldable pub pack_bits : List Bool → ℕ
unfolding flag
pack_bits [] = 0
pack_bits (b ∷ bs) = flag b + 2 * pack_bits bs

-- `(b & (1 << j)) !== 0`, for `j` below `n`
unfoldable pub unpack_bits : ℕ → ℕ → List Bool
unpack_bits zero b = []
unpack_bits (suc n) b = not (b % 2 == 0) ∷ unpack_bits n (b / 2)

-- The loops over the groups of eight; fuel of the number of datoms is enough.
unfoldable pub write_ops : ℕ → List Bool → Put
unfolding pack_bits
write_ops fuel [] = nothing
write_ops zero (o ∷ os) = nothing
write_ops (suc fuel) (o ∷ os) =
    u8 (pack_bits (take 8 (o ∷ os))) then_put write_ops fuel (drop 8 (o ∷ os))

unfoldable pub read_ops : ℕ → ℕ → Get (List Bool)
unfolding unpack_bits
read_ops fuel zero = returns []
read_ops zero (suc n) = returns []
read_ops (suc fuel) (suc n) = read_u8 >>> λ b.
    read_ops fuel (suc n - 8) >>> λ os. returns (unpack_bits (min 8 (suc n)) b ++ os)

-- Every element has a codec.
pub column-IsCodec :
    {A : Type 0} (f : A → Put) (g : Get A) (xs : List A)
    → All (λ x. IsCodec (f x) g x) xs
    → IsCodec (write_column f xs) (read_column g (length xs)) xs
unfolding write_column read_column
column-IsCodec f g [] h = IsCodec-nothing []
column-IsCodec f g (x ∷ xs) h = IsCodec-then (f x) (write_column f xs) g _ x (x ∷ xs) h.0 (
    IsCodec-map (write_column f xs) (read_column g (length xs)) (λ l. x ∷ l) xs
      (column-IsCodec f g xs h.1))

sub_ℕ-IsSafe : (x prev : ℕ) → x ≤ max_safe → prev ≤ max_safe → IsSafe (sub_ℕ x prev)
unfolding is_safe
sub_ℕ-IsSafe x prev h k = record { safe = ground arith }

pub deltas-IsCodec :
    (prev : ℕ) (xs : List ℕ)
    → prev ≤ max_safe
    → All (λ x. x ≤ max_safe) xs
    → IsCodec (write_deltas prev xs) (read_deltas (pos prev) (length xs)) (map pos xs)
unfolding write_deltas read_deltas
deltas-IsCodec prev [] h k = IsCodec-nothing []
deltas-IsCodec prev (x ∷ xs) h k =
    let d = sub_ℕ x prev in
    IsCodec-then (svar d) (write_deltas x xs) read_svar _ d (map pos (x ∷ xs))
      (svar-IsCodec d (sub_ℕ-IsSafe x prev k.0 h))
      (rw (+ℤ-sub_ℕ x prev) (
        IsCodec-map (write_deltas x xs) (read_deltas (pos x) (length xs)) (λ l. pos x ∷ l)
          (map pos xs) (deltas-IsCodec x xs k.0 k.1)))

pub unpack_bits-pack_bits : (bs : List Bool) → unpack_bits (length bs) (pack_bits bs) ≡ bs
unfolding unpack_bits pack_bits flag
unpack_bits-pack_bits [] = refl
unpack_bits-pack_bits (true ∷ bs) =
    let e : (1 + 2 * pack_bits bs) % 2 ≡ 1 = omega arith in
    let q : (1 + 2 * pack_bits bs) / 2 ≡ pack_bits bs = omega arith in
    rw (e, q, unpack_bits-pack_bits bs)
unpack_bits-pack_bits (false ∷ bs) =
    let e : (0 + 2 * pack_bits bs) % 2 ≡ 0 = omega arith in
    let q : (0 + 2 * pack_bits bs) / 2 ≡ pack_bits bs = omega arith in
    rw (e, q, unpack_bits-pack_bits bs)

pack_bits-le : (n : ℕ) (bs : List Bool) → length bs ≤ n → pack_bits bs + 1 ≤ 2 ^ n
unfolding pack_bits flag
pack_bits-le zero [] h = omega arith
pack_bits-le zero (b ∷ bs) h = absurd (omega arith)
pack_bits-le (suc n) [] h = omega (arith, pack_bits-le n [] (omega arith))
pack_bits-le (suc n) (true ∷ bs) h = omega (arith, pack_bits-le n bs (omega (arith, h)))
pack_bits-le (suc n) (false ∷ bs) h = omega (arith, pack_bits-le n bs (omega (arith, h)))

ops_step :
    (fuel m j : ℕ) (bs rest : List Bool)
    → j ≡ length bs
    → m ≡ length rest
    → IsCodec (write_ops fuel rest) (read_ops fuel (length rest)) rest
    → IsCodec
        (write_ops fuel rest)
        (read_ops fuel m >>> λ os. returns (unpack_bits j (pack_bits bs) ++ os))
        (bs ++ rest)
ops_step fuel m j bs rest p q h =
    rw (p, q, unpack_bits-pack_bits bs)
      (IsCodec-map (write_ops fuel rest) (read_ops fuel (length rest)) (λ r. bs ++ r) rest h)

pub ops-IsCodec :
    (fuel : ℕ) (os : List Bool)
    → length os ≤ fuel
    → IsCodec (write_ops fuel os) (read_ops fuel (length os)) os
unfolding write_ops read_ops
ops-IsCodec zero [] h = IsCodec-nothing []
ops-IsCodec (suc fuel) [] h = IsCodec-nothing []
ops-IsCodec zero (o ∷ os) h = absurd (omega arith)
ops-IsCodec (suc fuel) (o ∷ os) h =
    let group = take 8 (o ∷ os) in
    let rest = drop 8 (o ∷ os) in
    IsCodec-then (u8 (pack_bits group)) (write_ops fuel rest) read_u8 _ (pack_bits group) (o ∷ os)
      (u8-IsCodec (pack_bits group)
        (omega (arith, pack_bits-le 8 group (omega (arith, length-take 8 (o ∷ os))))))
      (subst
        (λ l.
          IsCodec (write_ops fuel rest)
            (read_ops fuel (length (o ∷ os) - 8) >>> λ r.
              returns (unpack_bits (min 8 (length (o ∷ os))) (pack_bits group) ++ r))
            l)
        (take-append-drop 8 (o ∷ os))
        (ops_step fuel (length (o ∷ os) - 8) (min 8 (length (o ∷ os))) group rest
          (sym (length-take 8 (o ∷ os))) (sym (length-drop 8 (o ∷ os)))
          (ops-IsCodec fuel rest (omega (arith, length-drop 8 (o ∷ os), h)))))
