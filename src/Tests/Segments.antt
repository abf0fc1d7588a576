-- ===== src/Tests/Segments.antt =====
-- A segment of two datoms, with a text codec of two bytes for each code unit.
use ramose.Base.{ℕ, ◌+◌, ◌*◌, ◌/◌, ◌%◌, ◌<◌, ◌≡◌, refl, true, false, List, [], ◌∷◌, map, All, arith}
use ramose.Base.Int.{negsuc}
use ramose.Datom.{CodeUnit, Datom, eavt, str, long}
use ramose.Datom.Text.{CodeUnit-eq}
use ramose.Bytes.{ok, is_safe}
use ramose.Bytes.Floats.{Double, is_number, f64, read_f64, f64-IsCodec}
use ramose.Bytes.Codec.{IsCodec}
use ramose.Segment.{
  TextCodec, encode_segment, decode_segment, index_number, write_datom, read_datom,
}
use ramose.Segment.Text.{IsTextCodec, is_text, well_formed}
use ramose.Segment.Rows.{IsStorable, datom-IsCodec}
use ramose.Segment.RoundTrip.{decoded, decode_segment-encode_segment}
use ramose.Segment.Uuid.{uuid_to_bytes, bytes_to_uuid, uuid_to_bytes-bytes_to_uuid}

pub in_range : (n : ℕ) → n % 65536 < 65536
in_range n = omega arith

pub pair : ℕ → ℕ → CodeUnit
pair a b = record { value = (a * 256 + b) % 65536; bound = in_range (a * 256 + b) }

pub two_bytes : List CodeUnit → List ℕ
two_bytes [] = []
two_bytes (u ∷ us) = (u.value / 256) ∷ (u.value % 256) ∷ two_bytes us

pub units : List ℕ → List CodeUnit
units (a ∷ b ∷ bs) = pair a b ∷ units bs
units _ = []

pair_lem : (u : CodeUnit) → pair (u.value / 256) (u.value % 256) ≡ u
unfolding pair
pair_lem u = CodeUnit-eq (pair (u.value / 256) (u.value % 256)) u (omega (arith, u.bound))

units-two_bytes : (us : List CodeUnit) → units (two_bytes us) ≡ us
unfolding units two_bytes
units-two_bytes [] = refl
units-two_bytes (u ∷ us) = rw (pair_lem u, units-two_bytes us)

abbrev pub plain_text : TextCodec
plain_text = record { encode = two_bytes; decode = units }

pub plain_text-IsTextCodec : IsTextCodec plain_text
plain_text-IsTextCodec = record { decode-encode = λ s h. units-two_bytes s }

pub small : 97 < 65536
small = omega arith

abbrev pub letter : CodeUnit
letter = record { value = 97; bound = small }

abbrev pub named : Datom
named = record { e = 7; a = 3; v = str (letter ∷ letter ∷ []); t = 12; op = true }

abbrev pub counted : Datom
counted = record { e = 5; a = 4; v = long (negsuc 99); t = 13; op = false }

pub named-IsStorable : IsStorable plain_text named
unfolding is_text well_formed two_bytes
named-IsStorable = record {
  e_safe = omega arith;
  a_safe = omega arith;
  v_payload = (refl, omega arith);
  t_safe = omega arith;
}

pub counted-IsStorable : IsStorable plain_text counted
unfolding is_safe
counted-IsStorable = record {
  e_safe = omega arith;
  a_safe = omega arith;
  v_payload = record { safe = refl };
  t_safe = omega arith;
}

decode_segment-encode_segment_example :
    (buf : List ℕ) × (encode_segment plain_text eavt (named ∷ counted ∷ []) ≡ ok buf)
    × (decode_segment plain_text buf
        ≡ ok (record { index = index_number eavt; datoms = map decoded (named ∷ counted ∷ []) }))
decode_segment-encode_segment_example =
    decode_segment-encode_segment plain_text plain_text-IsTextCodec eavt (named ∷ counted ∷ [])
      (named-IsStorable, (counted-IsStorable, tt)) (omega arith)

datom-IsCodec_example : IsCodec (write_datom plain_text named) (read_datom plain_text) named
datom-IsCodec_example = datom-IsCodec plain_text plain_text-IsTextCodec named named-IsStorable

abbrev octets : List ℕ
octets = 1 ∷ 35 ∷ 69 ∷ 103 ∷ 137 ∷ 171 ∷ 205 ∷ 239 ∷ 0 ∷ 16 ∷ 32 ∷ 48 ∷ 64 ∷ 80 ∷ 96 ∷ 255 ∷ []

octets_small : All (λ b. b < 256) octets
octets_small = ground arith

uuid_to_bytes-bytes_to_uuid_example : uuid_to_bytes (bytes_to_uuid octets) ≡ octets
uuid_to_bytes-bytes_to_uuid_example = uuid_to_bytes-bytes_to_uuid octets refl octets_small

abbrev negative_zero : Double
negative_zero = record { is_negative = true; magnitude = 0 }

safe_double : is_number negative_zero ≡ true
unfolding is_number
safe_double = refl

f64-IsCodec_example : IsCodec (f64 negative_zero) read_f64 negative_zero
f64-IsCodec_example = f64-IsCodec negative_zero safe_double
