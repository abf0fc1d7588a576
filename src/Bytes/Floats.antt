-- ===== src/Bytes/Floats.antt =====
-- `f64` of bytes.ts. A double is given by its sign and the other 63 bits of its pattern, so that -0
-- and +0 differ. The patterns of NaN, which JavaScript does not tell apart, stay apart here.
use ramose.Base.{
  ℕ, ◌+◌, ◌*◌, ◌/◌, ◌%◌, ◌^◌, ◌<◌, ◌≡◌, subst, true, List, [], ◌++◌, append-nil, arith, leb,
  if◌then◌else◌, Bool,
}
use ramose.Bytes.{Put, Get, ◌>>>◌, returns, ensure, store_all, be32, read_u32}
use ramose.Bytes.Write.{block-Writes}
use ramose.Bytes.Read.{Reads, then-Reads, returns-Reads, u32-Reads}
use ramose.Bytes.Codec.{IsCodec}

pub record Double : Type 0 where
  pub is_negative : Bool
  pub magnitude : ℕ

-- The bit pattern of a double.
unfoldable pub to_bits : Double → ℕ
to_bits x = if x.is_negative then 2 ^ 63 + x.magnitude else x.magnitude

unfoldable pub from_bits : ℕ → Double
from_bits b = record { is_negative = leb (2 ^ 63) b; magnitude = b % 2 ^ 63 }

-- `DataView.setFloat64(pos, x, false)`
unfoldable pub be64 : ℕ → List ℕ
be64 b = be32 (b / 2 ^ 32) ++ be32 (b % 2 ^ 32)

unfoldable pub f64 : Double → Put
unfolding ensure store_all be64 to_bits
f64 x w = store_all (be64 (to_bits x)) (ensure 8 w)

unfoldable pub read_f64 : Get Double
unfolding read_u32 from_bits
read_f64 = read_u32 >>> λ hi. read_u32 >>> λ lo. returns (from_bits (hi * 2 ^ 32 + lo))

-- Not a NaN: the magnitude is at most that of an infinity.
unfoldable pub is_number : Double → Bool
is_number x = leb x.magnitude 0x7ff0000000000000

to_bits-lt : (x : Double) → is_number x ≡ true → to_bits x < 2 ^ 64
unfolding to_bits is_number
to_bits-lt x h = ground arith

from_bits-to_bits : (x : Double) → is_number x ≡ true → from_bits (to_bits x) ≡ x
unfolding to_bits from_bits is_number
from_bits-to_bits x h =
    let sign : leb (2 ^ 63) (to_bits x) ≡ x.is_negative = ground arith in
    let rest : to_bits x % 2 ^ 63 ≡ x.magnitude = ground arith in
    λ i. record { is_negative = sign i; magnitude = rest i }

bits-Reads : (b : ℕ) (x : Double) → b < 2 ^ 64 → from_bits b ≡ x → Reads read_f64 (be64 b) x
unfolding read_f64 be64
bits-Reads b x h e =
    let hi = b / 2 ^ 32 in
    let lo = b % 2 ^ 32 in
    let joined : hi * 2 ^ 32 + lo ≡ b = omega arith in
    let done : Reads (returns (from_bits (hi * 2 ^ 32 + lo))) [] x =
      rw (joined, e) (returns-Reads x) in
    then-Reads read_u32 _ (be32 hi) (be32 lo) hi x (u32-Reads hi (omega arith)) (
      subst (λ l. Reads (read_u32 >>> λ y. returns (from_bits (hi * 2 ^ 32 + y))) l x)
        (append-nil (be32 lo))
        (then-Reads read_u32 _ (be32 lo) [] lo x (u32-Reads lo (omega arith)) done))

-- For every double that is not a NaN, -0 and the infinities included, there are bytes that `f64`
-- of the writer appends from every valid writer, leaving a valid writer, and that `f64` of the
-- reader, in front of any rest, reads back as that double.
pub f64-IsCodec : (x : Double) → is_number x ≡ true → IsCodec (f64 x) read_f64 x
unfolding f64
f64-IsCodec x h = record {
  encoding = be64 (to_bits x);
  writes = block-Writes 8 (be64 (to_bits x)) (unfold be64 in omega arith);
  reads = bits-Reads (to_bits x) x (to_bits-lt x h) (from_bits-to_bits x h);
}
