-- ===== src/Log.antt =====
-- packages/ramose/src/internal/core/log.ts: the chunks of the transaction log.
pub mod RoundTrip
use ramose.Base.{ℕ, ◌^◌, Bool, not, List, map, ◌==◌, ltb, length, if◌then◌else◌}
use ramose.Datom.{Datom}
use ramose.Bytes.{
  Result, ok, ◌>>=◌, ByteError, range_error, bad_data, new_writer, Put, ◌then_put◌, Get, ◌>>>◌,
  returns, throws, u8, u32, uvar, read_u8, read_u32, read_uvar,
}
use ramose.Segment.{TextCodec, write_value, read_value}
use ramose.Segment.Columns.{write_column, read_column, flag}

-- One committed transaction.
pub record LogEntry : Type 0 where
  pub t : ℕ
  pub tx_instant : ℕ
  pub datoms : List Datom

abbrev pub log_magic : ℕ
log_magic = 0x524c4731

module _ (text : TextCodec) where
  unfoldable pub write_log_datom : Datom → Put
  unfolding write_value flag
  write_log_datom d =
      uvar d.e then_put (uvar d.a then_put (write_value text d.v then_put u8 (flag d.op)))

  unfoldable pub write_entry : LogEntry → Put
  unfolding write_log_datom write_column
  write_entry e =
      uvar e.t
      then_put (uvar e.tx_instant
          then_put (uvar (length e.datoms) then_put write_column write_log_datom e.datoms))

  unfoldable pub write_log_chunk : List LogEntry → Put
  unfolding write_entry write_column
  write_log_chunk entries =
      u32 log_magic then_put (uvar (length entries) then_put write_column write_entry entries)

  unfoldable pub encode_log_chunk : List LogEntry → Result (List ℕ)
  unfolding write_log_chunk
  encode_log_chunk entries = write_log_chunk entries (new_writer 4096) >>= λ w. ok w.written

  -- The datoms of an entry take their transaction from it.
  unfoldable pub read_log_datom : ℕ → Get Datom
  unfolding read_value
  read_log_datom t = read_uvar >>> λ e. read_uvar >>> λ a. read_value text >>> λ v.
      read_u8 >>> λ b. returns (record { e = e; a = a; v = v; t = t; op = not (b == 0) })

  -- `new Array(m)` throws from 2^32 on.
  unfoldable pub read_entry : Get LogEntry
  unfolding read_log_datom read_column
  read_entry = read_uvar >>> λ t. read_uvar >>> λ tx_instant. read_uvar >>> λ m.
      if ltb m (2 ^ 32)
      then (read_column (read_log_datom t) m >>> λ ds.
          returns (record { t = t; tx_instant = tx_instant; datoms = ds }))
      else throws range_error

  unfoldable pub read_log_chunk : Get (List LogEntry)
  unfolding read_entry read_column
  read_log_chunk = read_u32 >>> λ m.
      if m == log_magic then (read_uvar >>> λ n. read_column read_entry n) else throws bad_data

  -- `decodeLogChunk` ignores bytes behind the entries.
  unfoldable pub decode_log_chunk : List ℕ → Result (List LogEntry)
  unfolding read_log_chunk
  decode_log_chunk buf = read_log_chunk buf >>= λ r. ok r.0
