-- ===== src/Log/RoundTrip.antt =====
-- `decodeLogChunk` gives back what `encodeLogChunk` wrote.
use ramose.Base.{
  true, ℕ, ◌^◌, ◌≤◌, ◌<◌, ◌≡◌, subst, not, List, [], ◌∷◌, All, arith, ◌==◌, ltb, length,
}
use ramose.Datom.{Datom}
use ramose.Bytes.{ok, ◌>>>◌, returns, u8, read_u8, read_u32, read_uvar, max_safe}
use ramose.Bytes.Codec.{
  IsCodec, IsCodec-then, IsCodec-map, IsCodec-buffer, uvar-IsCodec, u32-IsCodec,
}
use ramose.Segment.{TextCodec, read_value}
use ramose.Segment.Columns.{flag, column-IsCodec}
use ramose.Segment.Text.{IsTextCodec}
use ramose.Segment.Rows.{IsPayload, value-IsCodec, flag-IsCodec}
use ramose.Log.{
  LogEntry, log_magic, write_log_datom, read_log_datom, write_entry, read_entry, write_log_chunk,
  read_log_chunk, encode_log_chunk, decode_log_chunk,
}

module _ (text : TextCodec) where
  -- A datom that can be stored, of the transaction `t`.
  pub record IsLoggable (t : ℕ) (d : Datom) : Type 0 where
    pub e_safe : d.e ≤ max_safe
    pub a_safe : d.a ≤ max_safe
    pub v_payload : IsPayload text d.v
    pub same_t : d.t ≡ t

  pub record IsEntry (e : LogEntry) : Type 0 where
    pub t_safe : e.t ≤ max_safe
    pub instant_safe : e.tx_instant ≤ max_safe
    pub few_datoms : length e.datoms < 2 ^ 32
    pub loggable : All (IsLoggable e.t) e.datoms

  module _ (law : IsTextCodec text) where
    log_datom-IsCodec :
        (t : ℕ) (d : Datom)
        → IsLoggable t d
        → IsCodec (write_log_datom text d) (read_log_datom text t) d
    unfolding write_log_datom read_log_datom
    log_datom-IsCodec t d h = IsCodec-then _ _ read_uvar _ d.e d (uvar-IsCodec d.e h.e_safe) (
        IsCodec-then _ _ read_uvar _ d.a d (uvar-IsCodec d.a h.a_safe) (
          IsCodec-then _ _ (read_value text) _ d.v d (value-IsCodec text law d.v h.v_payload) (
            subst
              (λ k.
                IsCodec (u8 (flag d.op))
                  (read_u8 >>> λ b.
                    returns (record { e = d.e; a = d.a; v = d.v; t = k; op = not (b == 0) }))
                  d)
              h.same_t
              (flag-IsCodec (λ o. record { e = d.e; a = d.a; v = d.v; t = d.t; op = o }) d.op))))

    log_datoms :
        (t : ℕ) (ds : List Datom)
        → All (IsLoggable t) ds
        → All (λ d. IsCodec (write_log_datom text d) (read_log_datom text t) d) ds
    log_datoms t [] h = tt
    log_datoms t (d ∷ ds) h = (log_datom-IsCodec t d h.0, log_datoms t ds h.1)

    entry-IsCodec : (e : LogEntry) → IsEntry e → IsCodec (write_entry text e) (read_entry text) e
    unfolding write_entry read_entry
    entry-IsCodec e h =
        let few : ltb (length e.datoms) (2 ^ 32) ≡ true = ground (arith, h.few_datoms) in
        IsCodec-then _ _ read_uvar _ e.t e (uvar-IsCodec e.t h.t_safe) (
          IsCodec-then _ _ read_uvar _ e.tx_instant e (uvar-IsCodec e.tx_instant h.instant_safe) (
            IsCodec-then _ _ read_uvar _ (length e.datoms) e
              (uvar-IsCodec (length e.datoms) (omega (arith, h.few_datoms)))
              (rw few (
                IsCodec-map _ _ (λ ds. record { t = e.t; tx_instant = e.tx_instant; datoms = ds })
                  e.datoms
                  (column-IsCodec (write_log_datom text) (read_log_datom text e.t) e.datoms
                    (log_datoms e.t e.datoms h.loggable))))))

    entries :
        (es : List LogEntry)
        → All IsEntry es
        → All (λ e. IsCodec (write_entry text e) (read_entry text) e) es
    entries [] h = tt
    entries (e ∷ es) h = (entry-IsCodec e h.0, entries es h.1)

    -- For a text codec whose decoder inverts its encoder on well-formed strings that do not begin
    -- with U+FEFF, and at most 2^53 - 1 entries, each with a safe transaction and instant and
    -- fewer than 2^32 datoms of that transaction that can be stored, `encodeLogChunk` succeeds,
    -- and `decodeLogChunk` of its bytes gives the same entries.
    pub decode_log_chunk-encode_log_chunk :
        (es : List LogEntry)
        → All IsEntry es
        → length es ≤ max_safe
        → (buf : List ℕ) × (encode_log_chunk text es ≡ ok buf) × (decode_log_chunk text buf ≡ ok es)
    unfolding encode_log_chunk decode_log_chunk write_log_chunk read_log_chunk
    decode_log_chunk-encode_log_chunk es h short =
        IsCodec-buffer (write_log_chunk text es) (read_log_chunk text) es 4096
          (IsCodec-then _ _ read_u32 _ log_magic es (u32-IsCodec log_magic (omega arith)) (
            IsCodec-then _ _ read_uvar _ (length es) es (uvar-IsCodec (length es) short)
              (column-IsCodec (write_entry text) (read_entry text) es (entries es h))))
          (omega arith)
