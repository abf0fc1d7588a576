-- ===== src/Segment/Uuid.antt =====
-- `uuidToBytes` and `bytesToUuid` of datom.ts. A uuid is canonical, as `normalizeValue` leaves it: a
-- character that is neither a lowercase hexadecimal digit nor a dash does not occur in it.
use ramose.Base.{
  ℕ, zero, suc, ◌+◌, ◌-◌, ◌*◌, ◌/◌, ◌%◌, ◌<◌, ◌≡◌, refl, sym, ap, true, not, ◌||◌, List, [], ◌∷◌,
  All, arith, ltb, ◌==◌, length, keep, if◌then◌else◌,
}
use ramose.Datom.{CodeUnit}

-- `parseInt` of one digit
unfoldable pub hex_digit : ℕ → ℕ
hex_digit c = if ltb c 58 then c - 48 else c - 87

-- `out[i] = parseInt(hex.substr(i * 2, 2), 16)`; of an empty string that is NaN, stored as 0.
unfoldable pub hex_bytes : ℕ → List CodeUnit → List ℕ
unfolding hex_digit
hex_bytes zero us = []
hex_bytes (suc n) [] = 0 ∷ hex_bytes n []
hex_bytes (suc n) (x ∷ []) = hex_digit x.value ∷ hex_bytes n []
hex_bytes (suc n) (x ∷ y ∷ us) = (hex_digit x.value * 16 + hex_digit y.value) ∷ hex_bytes n us

-- `fromHex` of bytes.ts, on lowercase digits; of an odd length the half is rounded down.
unfoldable pub from_hex : List CodeUnit → List ℕ
unfolding hex_bytes
from_hex h = hex_bytes (length h / 2) h

unfoldable pub uuid_to_bytes : List CodeUnit → List ℕ
unfolding hex_bytes keep
uuid_to_bytes u = hex_bytes 16 (keep (λ c. not (c.value == 45)) u)

hex_unit-bound : (n : ℕ) → (if ltb (n % 16) 10 then 48 + n % 16 else 87 + n % 16) < 65536
hex_unit-bound n = ground arith

-- A digit of `toString(16)`.
unfoldable pub hex_unit : ℕ → CodeUnit
unfolding hex_unit-bound
hex_unit n = record {
  value = if ltb (n % 16) 10 then 48 + n % 16 else 87 + n % 16;
  bound = hex_unit-bound n;
}

unfoldable pub dash : CodeUnit
dash = record { value = 45; bound = omega arith }

-- The loop of `bytesToUuid` from the byte `i` on.
unfoldable pub uuid_from : ℕ → List ℕ → List CodeUnit
unfolding hex_unit dash
uuid_from i [] = []
uuid_from i (b ∷ bs) =
    let rest = uuid_from (i + 1) bs in
    let tail = if i == 3 || i == 5 || i == 7 || i == 9 then dash ∷ rest else rest in
    hex_unit (b / 16) ∷ hex_unit (b % 16) ∷ tail

unfoldable pub bytes_to_uuid : List ℕ → List CodeUnit
unfolding uuid_from
bytes_to_uuid bs = uuid_from 0 bs

-- `toHex` of bytes.ts, on bytes below 256
unfoldable pub to_hex : List ℕ → List CodeUnit
to_hex [] = []
to_hex (b ∷ bs) = hex_unit (b / 16) ∷ hex_unit (b % 16) ∷ to_hex bs

hex_unit-ne_dash : (n : ℕ) → not ((hex_unit n).value == 45) ≡ true
unfolding hex_unit
hex_unit-ne_dash n = ground arith

keep-dash :
    (us : List CodeUnit)
    → keep (λ c. not (c.value == 45)) (dash ∷ us) ≡ keep (λ c. not (c.value == 45)) us
unfolding keep dash
keep-dash us = refl

keep-uuid_from :
    (i : ℕ) (bs : List ℕ) → keep (λ c. not (c.value == 45)) (uuid_from i bs) ≡ to_hex bs
unfolding keep uuid_from to_hex
keep-uuid_from i [] = refl
keep-uuid_from i (b ∷ bs) = ground (
  arith,
  hex_unit-ne_dash (b / 16),
  hex_unit-ne_dash (b % 16),
  keep-dash (uuid_from (i + 1) bs),
  keep-uuid_from (i + 1) bs,
)

hex_digit-hex_unit : (n : ℕ) → n < 16 → hex_digit (hex_unit n).value ≡ n
unfolding hex_digit hex_unit
hex_digit-hex_unit n h = ground arith

pub hex_bytes-to_hex :
    (bs : List ℕ) → All (λ b. b < 256) bs → hex_bytes (length bs) (to_hex bs) ≡ bs
unfolding hex_bytes to_hex
hex_bytes-to_hex [] h = refl
hex_bytes-to_hex (b ∷ bs) h =
    rw
      (
        hex_digit-hex_unit (b / 16) (omega (arith, h.0)),
        hex_digit-hex_unit (b % 16) (omega arith),
        hex_bytes-to_hex bs h.1,
      )
      (ap (λ (x : ℕ). x ∷ bs) (omega arith))

length-to_hex : (bs : List ℕ) → length (to_hex bs) ≡ 2 * length bs
unfolding to_hex
length-to_hex [] = refl
length-to_hex (b ∷ bs) = omega (arith, length-to_hex bs)

-- For bytes below 256, `fromHex` of the text that `toHex` prints gives back those bytes.
pub from_hex-to_hex : (bs : List ℕ) → All (λ b. b < 256) bs → from_hex (to_hex bs) ≡ bs
unfolding from_hex
from_hex-to_hex bs h =
    let l : length (to_hex bs) / 2 ≡ length bs = omega (arith, length-to_hex bs) in
    rw l (hex_bytes-to_hex bs h)

-- For sixteen bytes below 256, `uuidToBytes` of the text that `bytesToUuid` prints gives back
-- those bytes.
pub uuid_to_bytes-bytes_to_uuid :
    (bs : List ℕ) → length bs ≡ 16 → All (λ b. b < 256) bs → uuid_to_bytes (bytes_to_uuid bs) ≡ bs
unfolding uuid_to_bytes bytes_to_uuid
uuid_to_bytes-bytes_to_uuid bs n h = rw (keep-uuid_from 0 bs, sym n) (hex_bytes-to_hex bs h)
