-- ===== src/Bytes.antt =====
-- packages/ramose/src/internal/core/bytes.ts: the growable writer and the reader with LEB128 varints.
-- A writer is the bytes before `pos` and the length of its buffer; a reader is the bytes behind `pos`.
-- Numbers are exact: a reader's sum stays below 2^53 on everything that a writer produces.
pub mod Write
pub mod Read
pub mod Codec
pub mod Floats
pub mod Sizes
use ramose.Base.{
  ℕ, zero, suc, ◌+◌, ◌-◌, ◌*◌, ◌/◌, ◌%◌, ◌^◌, Bool, true, false, List, [], ◌∷◌, ◌++◌, ltb, leb,
  ◌==◌, length, take, drop, if◌then◌else◌,
}
use ramose.Base.Int.{ℤ, pos, negsuc}

-- `out_of_buffer` is a write that the typed array drops, which the program never checks;
-- `bad_data` stands for the `Error`s and `TypeError`s of the decoders.
pub data ByteError : Type 0 where
  range_error out_of_buffer bad_data : ByteError

pub data Result {ℓ} (A : Type ℓ) : Type ℓ where
  ok : A → Result A
  err : ByteError → Result A

infixl 5 ◌>>=◌
abbrev pub ◌>>=◌ {ℓ κ} : {A : Type ℓ} {B : Type κ} → Result A → (A → Result B) → Result B
ok a >>= f = f a
err e >>= f = err e

pub record Writer : Type 0 where
  pub written : List ℕ
  pub capacity : ℕ

abbrev pub new_writer : ℕ → Writer
new_writer initial = record { written = []; capacity = initial }

-- A writing method: the new state, or what it throws.
abbrev pub Put : Type 0
Put = Writer → Result Writer

infixl 6 ◌then_put◌
abbrev pub ◌then_put◌ : Put → Put → Put
◌then_put◌ m k w = m w >>= k

abbrev pub nothing : Put
nothing w = ok w

-- `while (cap < this.pos + n) cap *= 2;`
unfoldable pub grow : ℕ → ℕ → ℕ → ℕ
grow zero cap need = cap
grow (suc fuel) cap need = let more = grow fuel (cap * 2) need in if ltb cap need then more else cap

unfoldable pub ensure : ℕ → Writer → Writer
unfolding grow
ensure n w =
    let need = length w.written + n in
    if leb need w.capacity then w else record w { capacity = grow need (w.capacity * 2) need }

-- `this.buf[this.pos++] = x`
unfoldable pub store : ℕ → Put
store x w =
    if ltb (length w.written) w.capacity
    then ok (record w { written = w.written ++ x ∷ [] })
    else err out_of_buffer

unfoldable pub store_all : List ℕ → Put
unfolding store
store_all [] w = ok w
store_all (x ∷ xs) w = store x w >>= store_all xs

unfoldable pub u8 : ℕ → Put
unfolding ensure store
u8 x w = store (x % 256) (ensure 1 w)

-- Big-endian, as `DataView.setUint32(pos, x, false)` writes.
abbrev pub be32 : ℕ → List ℕ
be32 x = (x / 2 ^ 24 % 256) ∷ (x / 2 ^ 16 % 256) ∷ (x / 2 ^ 8 % 256) ∷ (x % 256) ∷ []

unfoldable pub u32 : ℕ → Put
unfolding ensure store_all
u32 x w = store_all (be32 x) (ensure 4 w)

abbrev pub max_safe : ℕ
max_safe = 2 ^ 53 - 1

-- `while (x >= 0x80) { buf[pos++] = (x % 0x80) | 0x80; x = Math.floor(x / 0x80); } buf[pos++] = x;`
unfoldable pub uvar_loop : ℕ → ℕ → Put
unfolding store
uvar_loop zero x w = store x w
uvar_loop (suc fuel) x w =
    let more = store (x % 0x80 + 0x80) w >>= uvar_loop fuel (x / 0x80) in
    let last = store x w in if leb 0x80 x then more else last

unfoldable pub uvar : ℕ → Put
unfolding ensure uvar_loop
uvar x w = if ltb max_safe x then err range_error else uvar_loop 10 x (ensure 10 w)

-- The sign bit and the magnitude of the zig-zag form.
unfoldable pub sign_bit : ℤ → ℕ
sign_bit (pos n) = 0
sign_bit (negsuc n) = 1

unfoldable pub magnitude : ℤ → ℕ
magnitude (pos n) = n
magnitude (negsuc n) = n

unfoldable pub is_safe : ℤ → Bool
is_safe (pos n) = leb n max_safe
is_safe (negsuc n) = ltb n max_safe

unfoldable pub svar : ℤ → Put
unfolding ensure store uvar is_safe sign_bit magnitude
svar x w =
    let m = magnitude x in
    let rest = m / 64 in
    let low = m % 64 * 2 + sign_bit x in
    let w' = ensure 1 w in
    let long = store (low + 0x80) w' >>= uvar rest in
    let short = store low w' in
    if is_safe x then (if rest == 0 then short else long) else err range_error

unfoldable pub bytes : List ℕ → Put
unfolding ensure store_all
bytes b w = store_all b (ensure (length b) w)

unfoldable pub lbytes : List ℕ → Put
unfolding uvar bytes
lbytes b w = uvar (length b) w >>= bytes b

-- A reading method: the value and the bytes behind it, or what it throws.
abbrev pub Get : Type 0 → Type 0
Get A = List ℕ → Result (A × List ℕ)

infixl 5 ◌>>>◌
abbrev pub ◌>>>◌ : {A B : Type 0} → Get A → (A → Get B) → Get B
◌>>>◌ g f bs = g bs >>= λ r. f r.0 r.1

abbrev pub returns : {A : Type 0} → A → Get A
returns a bs = ok (a, bs)

abbrev pub throws : {A : Type 0} → ByteError → Get A
throws e bs = err e

unfoldable pub read_u8 : Get ℕ
read_u8 [] = err range_error
read_u8 (b ∷ bs) = ok (b, bs)

-- `DataView.getUint32(pos, false)`
unfoldable pub read_u32 : Get ℕ
read_u32 (a ∷ b ∷ c ∷ d ∷ bs) = ok (a * 2 ^ 24 + b * 2 ^ 16 + c * 2 ^ 8 + d, bs)
read_u32 _ = err range_error

unfoldable pub read_uvar_from : ℕ → ℕ → Get ℕ
read_uvar_from result mult [] = err range_error
read_uvar_from result mult (b ∷ bs) =
    let result' = result + b % 0x80 * mult in
    let more = read_uvar_from result' (mult * 0x80) bs in
    if ltb b 0x80
    then ok (result', bs)
    else if ltb (2 ^ 56) (mult * 0x80)
    then err range_error
    else more

unfoldable pub read_uvar : Get ℕ
unfolding read_uvar_from
read_uvar = read_uvar_from 0 1

unfoldable pub from_parts : ℕ → ℕ → ℤ
from_parts neg m = if neg == 0 then pos m else negsuc m

svar_rest : ℕ → Get ℤ
svar_rest b =
    if ltb b 0x80
    then returns (from_parts (b % 2) (b / 2 % 64))
    else (read_uvar >>> λ r. returns (from_parts (b % 2) (b / 2 % 64 + r * 64)))

unfoldable pub read_svar : Get ℤ
unfolding read_u8 svar_rest
read_svar = read_u8 >>> svar_rest

unfoldable pub read_bytes : ℕ → Get (List ℕ)
read_bytes n bs = if ltb (length bs) n then err range_error else ok (take n bs, drop n bs)

unfoldable pub read_lbytes : Get (List ℕ)
unfolding read_uvar read_bytes
read_lbytes = read_uvar >>> read_bytes
