-- ===== src/Segment/Text.antt =====
-- What the segment codec relies on of `TextEncoder` and `TextDecoder`.
use ramose.Base.{◌≡◌, Bool, true, ◌&&◌, not, List, [], ◌∷◌, leb, ltb, ◌==◌, if◌then◌else◌}
use ramose.Datom.{CodeUnit}
use ramose.Segment.{TextCodec}

high_surrogate : CodeUnit → Bool
high_surrogate u = leb 0xd800 u.value && ltb u.value 0xdc00

low_surrogate : CodeUnit → Bool
low_surrogate u = leb 0xdc00 u.value && ltb u.value 0xe000

-- Surrogates come in pairs, a high one and a low one.
unfoldable pub well_formed : List CodeUnit → Bool
unfolding high_surrogate low_surrogate
well_formed [] = true
well_formed (x ∷ []) = not (high_surrogate x) && not (low_surrogate x)
well_formed (x ∷ y ∷ us) =
    let rest = well_formed us in
    let next = well_formed (y ∷ us) in
    if high_surrogate x then low_surrogate y && rest else not (low_surrogate x) && next

-- Well formed, and not beginning with U+FEFF, which `TextDecoder` drops as a byte order mark.
unfoldable pub is_text : List CodeUnit → Bool
unfolding well_formed
is_text [] = true
is_text (x ∷ us) = not (x.value == 0xfeff) && well_formed (x ∷ us)

-- The Encoding Standard: decoding inverts encoding on such strings.
pub record IsTextCodec (text : TextCodec) : Type 0 where
  pub decode-encode : (s : List CodeUnit) → is_text s ≡ true → text.decode (text.encode s) ≡ s
