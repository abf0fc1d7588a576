-- ===== src/Segment/RoundTrip.antt =====
-- `decodeSegment` gives back what `encodeSegment` wrote.
use ramose.Base.{
  ℕ, suc, ◌*◌, ◌^◌, ◌≤◌, ◌<◌, max, ◌≡◌, refl, sym, ap, subst, List, [], ◌∷◌, map, All, arith,
  length,
}
use ramose.Base.Int.{pos}
use ramose.Datom.{Datom, IndexId}
use ramose.Bytes.{ok, Put, Get, ◌then_put◌, uvar, read_uvar, read_u8, read_u32, max_safe}
use ramose.Bytes.Codec.{
  IsCodec, IsCodec-buffer, IsCodec-then, IsCodec-map, uvar-IsCodec, u8-IsCodec, u32-IsCodec,
}
use ramose.Segment.{
  TextCodec, DecodedDatom, DecodedSegment, zip_columns, index_number, magic, write_value,
  read_value, write_segment, read_segment, read_columns, encode_segment, decode_segment,
}
use ramose.Segment.Columns.{
  write_column, read_column, write_deltas, read_deltas, write_ops, read_ops, column-IsCodec,
  deltas-IsCodec, ops-IsCodec,
}
use ramose.Segment.Text.{IsTextCodec}
use ramose.Segment.Rows.{IsStorable, value-IsCodec}

-- A datom as the columns of a segment give it.
abbrev pub decoded : Datom → DecodedDatom
decoded d = record { e = pos d.e; a = d.a; v = d.v; t = pos d.t; op = d.op }

length-map : {A B : Type 0} (f : A → B) (xs : List A) → length (map f xs) ≡ length xs
length-map f [] = refl
length-map f (x ∷ xs) = ap suc (length-map f xs)

zip_lem :
    (ds : List Datom)
    → zip_columns
        (map pos (map (λ d. d.e) ds))
        (map (λ d. d.a) ds)
        (map (λ d. d.v) ds)
        (map pos (map (λ d. d.t) ds))
        (map (λ d. d.op) ds)
      ≡ map decoded ds
unfolding zip_columns
zip_lem [] = refl
zip_lem (d ∷ ds) = ap (λ l. decoded d ∷ l) (zip_lem ds)

pub index_number-lt : (i : IndexId) → index_number i < 256
unfolding index_number
index_number-lt i = ground arith

module _ (text : TextCodec) (law : IsTextCodec text) where
  numbers_safe :
      (f : Datom → ℕ) (ds : List Datom)
      → ((d : Datom) → IsStorable text d → f d ≤ max_safe)
      → All (IsStorable text) ds
      → All (λ x. x ≤ max_safe) (map f ds)
  numbers_safe f [] g h = tt
  numbers_safe f (d ∷ ds) g h = (g d h.0, numbers_safe f ds g h.1)

  a_codecs :
      (ds : List Datom)
      → All (IsStorable text) ds
      → All (λ x. IsCodec (uvar x) read_uvar x) (map (λ d. d.a) ds)
  a_codecs [] h = tt
  a_codecs (d ∷ ds) h = (uvar-IsCodec d.a h.0.a_safe, a_codecs ds h.1)

  v_codecs :
      (ds : List Datom)
      → All (IsStorable text) ds
      → All (λ x. IsCodec (write_value text x) (read_value text) x) (map (λ d. d.v) ds)
  v_codecs [] h = tt
  v_codecs (d ∷ ds) h = (value-IsCodec text law d.v h.0.v_payload, v_codecs ds h.1)

  delta_map-IsCodec :
      (f : Datom → ℕ) (ds : List Datom)
      → ((d : Datom) → IsStorable text d → f d ≤ max_safe)
      → All (IsStorable text) ds
      → IsCodec (write_deltas 0 (map f ds)) (read_deltas (pos 0) (length ds)) (map pos (map f ds))
  delta_map-IsCodec f ds g h =
      subst (λ n. IsCodec (write_deltas 0 (map f ds)) (read_deltas (pos 0) n) (map pos (map f ds)))
        (length-map f ds) (deltas-IsCodec 0 (map f ds) (omega arith) (numbers_safe f ds g h))

  column_map-IsCodec :
      {A : Type 0} (p : A → Put) (g : Get A) (f : Datom → A) (ds : List Datom)
      → All (λ x. IsCodec (p x) g x) (map f ds)
      → IsCodec (write_column p (map f ds)) (read_column g (length ds)) (map f ds)
  column_map-IsCodec p g f ds h =
      subst (λ n. IsCodec (write_column p (map f ds)) (read_column g n) (map f ds))
        (length-map f ds) (column-IsCodec p g (map f ds) h)

  op_map-IsCodec :
      (ds : List Datom)
      → IsCodec
          (write_ops (length ds) (map (λ d. d.op) ds))
          (read_ops (length ds) (length ds))
          (map (λ d. d.op) ds)
  op_map-IsCodec ds =
      let l = length-map (λ (d : Datom). d.op) ds in
      subst
        (λ n.
          IsCodec (write_ops (length ds) (map (λ d. d.op) ds)) (read_ops (length ds) n)
            (map (λ d. d.op) ds))
        l (ops-IsCodec (length ds) (map (λ d. d.op) ds) (omega (arith, l)))

  columns-IsCodec :
      (index : ℕ) (ds : List Datom)
      → All (IsStorable text) ds
      → IsCodec
          (write_deltas 0 (map (λ d. d.e) ds)
            then_put (write_column uvar (map (λ d. d.a) ds)
                then_put (write_column (write_value text) (map (λ d. d.v) ds)
                    then_put (write_deltas 0 (map (λ d. d.t) ds)
                        then_put write_ops (length ds) (map (λ d. d.op) ds)))))
          (read_columns text index (length ds))
          (record { index = index; datoms = map decoded ds })
  unfolding read_columns
  columns-IsCodec index ds h =
      let n = length ds in
      let done : DecodedSegment = record { index = index; datoms = map decoded ds } in
      IsCodec-then _ _ (read_deltas (pos 0) n) _ _ done
        (delta_map-IsCodec (λ d. d.e) ds (λ d s. s.e_safe) h)
        (IsCodec-then _ _ (read_column read_uvar n) _ _ done
          (column_map-IsCodec uvar read_uvar (λ d. d.a) ds (a_codecs ds h))
          (IsCodec-then _ _ (read_column (read_value text) n) _ _ done
            (column_map-IsCodec (write_value text) (read_value text) (λ d. d.v) ds (v_codecs ds h))
            (IsCodec-then _ _ (read_deltas (pos 0) n) _ _ done
              (delta_map-IsCodec (λ d. d.t) ds (λ d s. s.t_safe) h)
              (rw (sym (zip_lem ds)) (IsCodec-map _ (read_ops n n) _ _ (op_map-IsCodec ds))))))

  pub segment-IsCodec :
      (i : IndexId) (ds : List Datom)
      → All (IsStorable text) ds
      → length ds < 2 ^ 32
      → IsCodec
          (write_segment text i ds)
          (read_segment text)
          (record { index = index_number i; datoms = map decoded ds })
  unfolding write_segment read_segment
  segment-IsCodec i ds h short =
      let done : DecodedSegment = record { index = index_number i; datoms = map decoded ds } in
      IsCodec-then _ _ read_u32 _ magic done (u32-IsCodec magic (omega arith)) (
        IsCodec-then _ _ read_u8 _ (index_number i) done
          (u8-IsCodec (index_number i) (index_number-lt i))
          (IsCodec-then _ _ read_u32 _ (length ds) done (u32-IsCodec (length ds) short)
            (columns-IsCodec (index_number i) ds h)))

  -- For a text codec whose decoder inverts its encoder on well-formed strings that do not begin
  -- with U+FEFF, and fewer than 2^32 datoms that can be stored (safe ids and transactions,
  -- payloads as `normalizeValue` leaves them, such strings, byte strings of safe length),
  -- `encodeSegment` succeeds, and `decodeSegment` of its bytes gives the index and the same
  -- datoms in the same order.
  pub decode_segment-encode_segment :
      (i : IndexId) (ds : List Datom)
      → All (IsStorable text) ds
      → length ds < 2 ^ 32
      → (buf : List ℕ) × (encode_segment text i ds ≡ ok buf)
        × (decode_segment text buf
            ≡ ok (record { index = index_number i; datoms = map decoded ds }))
  unfolding encode_segment decode_segment
  decode_segment-encode_segment i ds h short =
      IsCodec-buffer (write_segment text i ds) (read_segment text)
        (record { index = index_number i; datoms = map decoded ds }) (max 1024 (length ds * 24))
        (segment-IsCodec i ds h short) (omega arith)
