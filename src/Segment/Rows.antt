-- ===== src/Segment/Rows.antt =====
-- `writeValue`, `readValue`, `writeDatom` and `readDatom` of segment.ts fit together.
use ramose.Base.{
  ℕ, ◌≤◌, ◌<◌, ◌≡◌, refl, subst, ap, Bool, true, false, not, List, All, arith, ◌==◌, length,
}
use ramose.Datom.{CodeUnit, Value, long, double, str, bool, ref, uuid, inst, bytes, Datom, tag}
use ramose.Bytes.{
  uvar, svar, u8, lbytes, read_uvar, read_svar, read_u8, read_lbytes, read_bytes, max_safe,
  ◌then_put◌, ◌>>>◌, returns,
}
use ramose.Bytes.Floats.{f64, read_f64, is_number, f64-IsCodec}
use ramose.Base.Int.{ℤ, pos, negsuc}
use ramose.Bytes.Write.{IsSafe}
use ramose.Bytes.Codec.{
  IsCodec, IsCodec-then, IsCodec-map, uvar-IsCodec, svar-IsCodec, lbytes-IsCodec, u8-IsCodec,
  bytes-IsCodec,
}
use ramose.Segment.{
  TextCodec, as_double, of_double, write_str, read_str, write_payload, read_payload, write_value,
  read_value, write_datom, read_datom,
}
use ramose.Segment.Columns.{flag}
use ramose.Segment.Text.{IsTextCodec, is_text}
use ramose.Segment.Uuid.{uuid_to_bytes, bytes_to_uuid, uuid_to_bytes-bytes_to_uuid}

pub flag_lem : (b : Bool) → not (flag b == 0) ≡ b
unfolding flag
flag_lem true = refl
flag_lem false = refl

flag-lt : (b : Bool) → flag b < 256
unfolding flag
flag-lt true = omega arith
flag-lt false = omega arith

pub flag-IsCodec :
    {A : Type 0} (f : Bool → A) (b : Bool)
    → IsCodec (u8 (flag b)) (read_u8 >>> λ x. returns (f (not (x == 0)))) (f b)
flag-IsCodec f b =
    subst (λ o. IsCodec (u8 (flag b)) (read_u8 >>> λ x. returns (f (not (x == 0)))) (f o))
      (flag_lem b)
      (IsCodec-map (u8 (flag b)) read_u8 (λ x. f (not (x == 0))) (flag b)
        (u8-IsCodec (flag b) (flag-lt b)))

of_double-as_double : (x : ℤ) → of_double (as_double x) ≡ x
unfolding of_double as_double
of_double-as_double (pos m) = refl
of_double-as_double (negsuc m) = ground arith

-- The canonical text of sixteen bytes.
pub record IsUuid (u : List CodeUnit) : Type 0 where
  pub octets : List ℕ
  pub sixteen : length octets ≡ 16
  pub small : All (λ b. b < 256) octets
  pub printed : bytes_to_uuid octets ≡ u

module _ (text : TextCodec) where
  -- The payloads that `normalizeValue` lets through, with text that UTF-8 can carry.
  abbrev pub IsPayload : Value → Type 0
  IsPayload (long x) = IsSafe x
  IsPayload (double x) = is_number (as_double x) ≡ true
  IsPayload (str s) = (is_text s ≡ true) × (length (text.encode s) ≤ max_safe)
  IsPayload (bool b) = Unit
  IsPayload (ref x) = x ≤ max_safe
  IsPayload (uuid u) = IsUuid u
  IsPayload (inst x) = IsSafe x
  IsPayload (bytes b) = length b ≤ max_safe

  -- Ids and transactions are safe integers.
  pub record IsStorable (d : Datom) : Type 0 where
    pub e_safe : d.e ≤ max_safe
    pub a_safe : d.a ≤ max_safe
    pub v_payload : IsPayload d.v
    pub t_safe : d.t ≤ max_safe

  tag-lt : (v : Value) → tag v < 256
  unfolding tag
  tag-lt v = ground arith

  module _ (law : IsTextCodec text) where
    str-IsCodec :
        (s : List CodeUnit)
        → is_text s ≡ true
        → length (text.encode s) ≤ max_safe
        → IsCodec (write_str text s) (read_str text) s
    unfolding write_str read_str
    str-IsCodec s h k =
        subst
          (λ r. IsCodec (lbytes (text.encode s)) (read_lbytes >>> λ b. returns (text.decode b)) r)
          (law.decode-encode s h)
          (IsCodec-map (lbytes (text.encode s)) read_lbytes text.decode (text.encode s)
            (lbytes-IsCodec (text.encode s) k))

    uuid-IsCodec :
        (u : List CodeUnit)
        → IsUuid u
        → IsCodec
            (ramose.Bytes.bytes (uuid_to_bytes u))
            (read_bytes 16 >>> λ b. returns (uuid (bytes_to_uuid b)))
            (uuid u)
    uuid-IsCodec u h =
        let back = uuid_to_bytes-bytes_to_uuid h.octets h.sixteen h.small in
        subst
          (λ v.
            IsCodec (ramose.Bytes.bytes (uuid_to_bytes v))
              (read_bytes 16 >>> λ b. returns (uuid (bytes_to_uuid b))) (uuid v))
          h.printed
          (rw back (
            IsCodec-map (ramose.Bytes.bytes h.octets) (read_bytes 16) (λ b. uuid (bytes_to_uuid b))
              h.octets (bytes-IsCodec 16 h.octets h.sixteen)))

    payload-IsCodec :
        (v : Value) → IsPayload v → IsCodec (write_payload text v) (read_payload text (tag v)) v
    unfolding write_payload read_payload tag
    payload-IsCodec (long x) h = IsCodec-map (svar x) read_svar long x (svar-IsCodec x h)
    payload-IsCodec (double x) h =
        subst
          (λ y. IsCodec (f64 (as_double x)) (read_f64 >>> λ z. returns (double (of_double z))) y)
          (ap double (of_double-as_double x))
          (IsCodec-map (f64 (as_double x)) read_f64 (λ z. double (of_double z)) (as_double x)
            (f64-IsCodec (as_double x) h))
    payload-IsCodec (str s) h =
        IsCodec-map (write_str text s) (read_str text) str s (str-IsCodec s h.0 h.1)
    payload-IsCodec (bool b) h = flag-IsCodec bool b
    payload-IsCodec (ref x) h = IsCodec-map (uvar x) read_uvar ref x (uvar-IsCodec x h)
    payload-IsCodec (uuid u) h = uuid-IsCodec u h
    payload-IsCodec (inst x) h = IsCodec-map (svar x) read_svar inst x (svar-IsCodec x h)
    payload-IsCodec (bytes b) h = IsCodec-map (lbytes b) read_lbytes bytes b (lbytes-IsCodec b h)

    pub value-IsCodec : (v : Value) → IsPayload v → IsCodec (write_value text v) (read_value text) v
    unfolding write_value read_value
    value-IsCodec v h =
        IsCodec-then (u8 (tag v)) (write_payload text v) read_u8 (read_payload text) (tag v) v
          (u8-IsCodec (tag v) (tag-lt v)) (payload-IsCodec v h)

    -- With a text codec whose decoder inverts its encoder on well-formed strings that do not
    -- begin with U+FEFF, for every datom that can be stored (safe ids and transaction, a payload
    -- as `normalizeValue` leaves it, such a string, a byte string of safe length) there are bytes
    -- that `writeDatom` appends from every valid writer, leaving a valid writer, and that
    -- `readDatom`, in front of any rest, reads back as that datom.
    pub datom-IsCodec :
        (d : Datom) → IsStorable d → IsCodec (write_datom text d) (read_datom text) d
    unfolding write_datom read_datom
    datom-IsCodec d s =
        let with_op : Bool → Datom = λ o. record { e = d.e; a = d.a; v = d.v; t = d.t; op = o } in
        IsCodec-then (uvar d.e) _ read_uvar _ d.e d (uvar-IsCodec d.e s.e_safe) (
          IsCodec-then (uvar d.a) _ read_uvar _ d.a d (uvar-IsCodec d.a s.a_safe) (
            IsCodec-then (write_value text d.v) _ (read_value text) _ d.v d
              (value-IsCodec d.v s.v_payload)
              (IsCodec-then (uvar d.t) _ read_uvar _ d.t d (uvar-IsCodec d.t s.t_safe)
                (flag-IsCodec with_op d.op))))
