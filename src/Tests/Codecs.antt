-- ===== src/Tests/Codecs.antt =====
-- The codecs of bytes.ts on concrete numbers and byte strings.
use ramose.Base.{◌+◌, ◌^◌, ◌≤◌, ◌<◌, ◌≡◌, ◌↔◌, refl, [], ◌∷◌, length, arith}
use ramose.Base.Int.{negsuc}
use ramose.Bytes.{ok, Writer, is_safe, uvar, svar, lbytes, read_uvar, read_svar, read_lbytes}
use ramose.Bytes.Write.{IsWriter, IsSafe}
use ramose.Bytes.Sizes.{length-uvar}
use ramose.Bytes.Codec.{IsCodec, uvar-IsCodec, svar-IsCodec, lbytes-IsCodec}

uvar-IsCodec_example : IsCodec (uvar 300) read_uvar 300
uvar-IsCodec_example = uvar-IsCodec 300 (omega arith)

safe : IsSafe (negsuc 9007199254740990)
unfolding is_safe
safe = record { safe = refl }

svar-IsCodec_example : IsCodec (svar (negsuc 9007199254740990)) read_svar (negsuc 9007199254740990)
svar-IsCodec_example = svar-IsCodec (negsuc 9007199254740990) safe

lbytes-IsCodec_example : IsCodec (lbytes (1 ∷ 255 ∷ [])) read_lbytes (1 ∷ 255 ∷ [])
lbytes-IsCodec_example = lbytes-IsCodec (1 ∷ 255 ∷ []) (omega arith)

-- A writer with one byte in a buffer of four, which `uvar` has to grow.
abbrev started : Writer
started = record { written = 7 ∷ []; capacity = 4 }

started-IsWriter : IsWriter started
started-IsWriter = record { fits = omega arith; some_room = omega arith }

length-uvar_example :
    (w' : Writer) × (uvar 16384 started ≡ ok w')
    × ((length w'.written ≤ 3) ↔ (16384 < 0x80 ^ 2))
    × (length w'.written + 2 ≤ w'.capacity)
length-uvar_example = length-uvar 16384 1 started (omega arith) (omega arith) started-IsWriter
