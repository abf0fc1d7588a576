-- ===== src/Segment.antt =====
-- packages/ramose/src/internal/core/segment.ts: the codec of segments, on top of that of bytes.ts.
-- `TextEncoder` and `TextDecoder` of the platform are a parameter.
pub mod Uuid
pub mod Text
pub mod Rows
pub mod Columns
pub mod RoundTrip
use ramose.Base.{
  ℕ, zero, suc, ◌+◌, ◌-◌, ◌*◌, ◌/◌, ◌%◌, ◌^◌, max, Bool, true, false, List, [], ◌∷◌, map, ◌==◌, not,
  length, take, drop, if◌then◌else◌,
}
use ramose.Base.Int.{ℤ, pos, negsuc, sub_ℕ, ◌+ℤ◌}
use ramose.Datom.{
  CodeUnit, Value, long, double, str, bool, ref, uuid, inst, bytes, Datom, IndexId, eavt, aevt,
  avet, vaet, tag,
}
use ramose.Bytes.{
  ByteError, bad_data, Result, ok, err, ◌>>=◌, Writer, new_writer, Put, ◌then_put◌, nothing, Get,
  ◌>>>◌, returns, throws, u8, u32, uvar, svar, lbytes, read_u8, read_u32, read_uvar, read_svar,
  read_bytes, read_lbytes,
}
use ramose.Bytes.Floats.{Double, f64, read_f64}
use ramose.Segment.Uuid.{uuid_to_bytes, bytes_to_uuid}
use ramose.Segment.Columns.{
  write_column, read_column, write_deltas, read_deltas, write_ops, read_ops, flag,
}

-- `ENC.encode` and `DEC.decode` of bytes.ts.
pub record TextCodec : Type 0 where
  pub encode : List CodeUnit → List ℕ
  pub decode : List ℕ → List CodeUnit

abbrev pub magic : ℕ
magic = 0x52534731

-- The number that stands for an index.
unfoldable pub index_number : IndexId → ℕ
index_number eavt = 0
index_number aevt = 1
index_number avet = 2
index_number vaet = 3

-- The double that the payload of a value stands for: `normalizeValue` leaves no -0 in a value.
unfoldable pub as_double : ℤ → Double
as_double (pos m) = record { is_negative = false; magnitude = m }
as_double (negsuc m) = record { is_negative = true; magnitude = m + 1 }

-- A double as a payload, which has one zero, as `===` has.
unfoldable pub of_double : Double → ℤ
of_double x =
    if x.is_negative
    then (if x.magnitude == 0 then pos 0 else negsuc (x.magnitude - 1))
    else pos x.magnitude

module _ (text : TextCodec) where
  -- `str` of the writer and the reader
  unfoldable pub write_str : List CodeUnit → Put
  write_str s = lbytes (text.encode s)

  unfoldable pub read_str : Get (List CodeUnit)
  read_str = read_lbytes >>> λ b. returns (text.decode b)

  -- The `switch` of `writeValue`.
  unfoldable pub write_payload : Value → Put
  unfolding write_str flag uuid_to_bytes
  write_payload (long x) = svar x
  write_payload (double x) = f64 (as_double x)
  write_payload (str s) = write_str s
  write_payload (bool b) = u8 (flag b)
  write_payload (ref x) = uvar x
  write_payload (uuid u) = ramose.Bytes.bytes (uuid_to_bytes u)
  write_payload (inst x) = svar x
  write_payload (bytes b) = lbytes b

  unfoldable pub write_value : Value → Put
  unfolding write_payload tag
  write_value v = u8 (tag v) then_put write_payload v

  -- The `switch` of `readValue`.
  unfoldable pub read_payload : ℕ → Get Value
  unfolding read_str bytes_to_uuid
  read_payload t =
      if t == 1
      then (read_svar >>> λ x. returns (long x))
      else if t == 2
      then (read_f64 >>> λ x. returns (double (of_double x)))
      else if t == 3
      then (read_str >>> λ s. returns (str s))
      else if t == 4
      then (read_u8 >>> λ b. returns (bool (not (b == 0))))
      else if t == 5
      then (read_uvar >>> λ x. returns (ref x))
      else if t == 6
      then (read_bytes 16 >>> λ b. returns (uuid (bytes_to_uuid b)))
      else if t == 7
      then (read_svar >>> λ x. returns (inst x))
      else if t == 8
      then (read_lbytes >>> λ b. returns (bytes b))
      else throws bad_data

  unfoldable pub read_value : Get Value
  unfolding read_payload
  read_value = read_u8 >>> read_payload

  unfoldable pub write_datom : Datom → Put
  unfolding write_value flag
  write_datom d =
      uvar d.e
      then_put (uvar d.a then_put (write_value d.v then_put (uvar d.t then_put u8 (flag d.op))))

  unfoldable pub read_datom : Get Datom
  unfolding read_value
  read_datom = read_uvar >>> λ e. read_uvar >>> λ a. read_value >>> λ v. read_uvar >>> λ t.
      read_u8 >>> λ b. returns (record { e = e; a = a; v = v; t = t; op = not (b == 0) })

-- What `decodeSegment` makes of the columns; `e` and `t` are sums of differences.
pub record DecodedDatom : Type 0 where
  pub e : ℤ
  pub a : ℕ
  pub v : Value
  pub t : ℤ
  pub op : Bool

pub record DecodedSegment : Type 0 where
  pub index : ℕ
  pub datoms : List DecodedDatom

-- The columns side by side; they are equally long.
unfoldable pub zip_columns : List ℤ → List ℕ → List Value → List ℤ → List Bool → List DecodedDatom
zip_columns (e ∷ es) (a ∷ as') (v ∷ vs) (t ∷ ts) (o ∷ os) =
    record { e = e; a = a; v = v; t = t; op = o } ∷ zip_columns es as' vs ts os
zip_columns _ _ _ _ _ = []

module _ (text : TextCodec) where
  unfoldable pub write_segment : IndexId → List Datom → Put
  unfolding write_value write_column write_deltas write_ops index_number
  write_segment i ds =
      u32 magic
      then_put (u8 (index_number i)
          then_put (u32 (length ds)
              then_put (write_deltas 0 (map (λ d. d.e) ds)
                  then_put (write_column uvar (map (λ d. d.a) ds)
                      then_put (write_column (write_value text) (map (λ d. d.v) ds)
                          then_put (write_deltas 0 (map (λ d. d.t) ds)
                              then_put write_ops (length ds) (map (λ d. d.op) ds)))))))

  unfoldable pub encode_segment : IndexId → List Datom → Result (List ℕ)
  unfolding write_segment
  encode_segment i ds =
      write_segment i ds (new_writer (max 1024 (length ds * 24))) >>= λ w. ok w.written

  read_columns : ℕ → ℕ → Get DecodedSegment
  unfolding read_value read_column read_deltas read_ops zip_columns
  read_columns index n = read_deltas (pos 0) n >>> λ es. read_column read_uvar n >>> λ as'.
      read_column (read_value text) n >>> λ vs. read_deltas (pos 0) n >>> λ ts.
      read_ops n n >>> λ os.
      returns (record { index = index; datoms = zip_columns es as' vs ts os })

  unfoldable pub read_segment : Get DecodedSegment
  unfolding read_columns
  read_segment = read_u32 >>> λ m.
      if m == magic
      then (read_u8 >>> λ index. read_u32 >>> λ n. read_columns index n)
      else throws bad_data

  -- `decodeSegment` ignores bytes behind the columns.
  unfoldable pub decode_segment : List ℕ → Result DecodedSegment
  unfolding read_segment
  decode_segment buf = read_segment buf >>= λ r. ok r.0
