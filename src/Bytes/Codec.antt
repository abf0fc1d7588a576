-- ===== src/Bytes/Codec.antt =====
-- A writing and a reading method that fit together, and the codecs of bytes.ts.
use ramose.Base.{append-nil, sym, ap, arith, ℕ, ◌≤◌, ◌<◌, ◌^◌, ◌≡◌, subst, List, [], ◌++◌, length}
use ramose.Base.Int.{ℤ}
use ramose.Bytes.{
  ◌>>=◌, new_writer, ok, Put, Get, ◌then_put◌, ◌>>>◌, returns, uvar, svar, lbytes, read_uvar,
  read_svar, read_lbytes, max_safe, u8, u32, bytes, read_u8, read_u32, read_bytes,
}
use ramose.Bytes.Write.{
  Writes, IsSafe, uvar-Writes, svar-Writes, lbytes-Writes, then-Writes, nothing-Writes, u8-Writes,
  u32-Writes, bytes-Writes,
}
use ramose.Bytes.Read.{
  Reads, uvar-Reads, svar-Reads, lbytes-Reads, then-Reads, returns-Reads, u8-Reads, u32-Reads,
  bytes-Reads,
}

-- `put` appends bytes, from every valid writer and without losing any, that `get` reads as `x`
-- in front of any rest.
pub record IsCodec {A : Type 0} (put : Put) (get : Get A) (x : A) : Type 0 where
  pub encoding : List ℕ
  pub writes : Writes put encoding
  pub reads : Reads get encoding x

pub IsCodec-then :
    {A B : Type 0} (p q : Put) (g : Get A) (f : A → Get B) (a : A) (b : B)
    → IsCodec p g a
    → IsCodec q (f a) b
    → IsCodec (p then_put q) (g >>> f) b
IsCodec-then p q g f a b m n = record {
  encoding = m.encoding ++ n.encoding;
  writes = then-Writes p q m.encoding n.encoding m.writes n.writes;
  reads = then-Reads g f m.encoding n.encoding a b m.reads n.reads;
}

pub IsCodec-nothing : {A : Type 0} (a : A) → IsCodec (λ w. ok w) (returns a) a
IsCodec-nothing a = record { encoding = []; writes = nothing-Writes; reads = returns-Reads a }

-- For every safe natural number there are bytes that `uvar` of the writer appends from every
-- valid writer, leaving a valid writer, and that `uvar` of the reader, in front of any rest,
-- reads back as that number.
pub uvar-IsCodec : (x : ℕ) → x ≤ max_safe → IsCodec (uvar x) read_uvar x
uvar-IsCodec x h = record { encoding = _; writes = uvar-Writes x h; reads = uvar-Reads x h }

-- For every signed safe integer there are bytes that `svar` of the writer appends from every
-- valid writer, leaving a valid writer, and that `svar` of the reader, in front of any rest,
-- reads back as that integer.
pub svar-IsCodec : (x : ℤ) → IsSafe x → IsCodec (svar x) read_svar x
svar-IsCodec x s = record { encoding = _; writes = svar-Writes x s; reads = svar-Reads x s }

-- For every byte string of safe length there are bytes that `lbytes` of the writer appends from
-- every valid writer, leaving a valid writer, and that `lbytes` of the reader, in front of any
-- rest, reads back as that string.
pub lbytes-IsCodec : (xs : List ℕ) → length xs ≤ max_safe → IsCodec (lbytes xs) read_lbytes xs
lbytes-IsCodec xs h = record {
  encoding = _;
  writes = lbytes-Writes xs h;
  reads = lbytes-Reads xs h;
}

-- What is read may be converted.
pub IsCodec-map :
    {A B : Type 0} (p : Put) (g : Get A) (f : A → B) (a : A)
    → IsCodec p g a
    → IsCodec p (g >>> λ x. returns (f x)) (f a)
IsCodec-map p g f a m = record {
  encoding = m.encoding;
  writes = m.writes;
  reads = record { run = λ rest. rw (m.reads.run rest) };
}

pub u8-IsCodec : (x : ℕ) → x < 256 → IsCodec (u8 x) read_u8 x
u8-IsCodec x h = record { encoding = _; writes = u8-Writes x; reads = u8-Reads x h }

pub u32-IsCodec : (x : ℕ) → x < 2 ^ 32 → IsCodec (u32 x) read_u32 x
u32-IsCodec x h = record { encoding = _; writes = u32-Writes x; reads = u32-Reads x h }

-- Bytes of a length that the reader knows.
pub bytes-IsCodec : (n : ℕ) (xs : List ℕ) → length xs ≡ n → IsCodec (bytes xs) (read_bytes n) xs
bytes-IsCodec n xs h = record {
  encoding = xs;
  writes = bytes-Writes xs;
  reads = subst (λ k. Reads (read_bytes k) xs xs) h (bytes-Reads xs);
}

-- From a new writer, what is written in the end is read back as `x`.
pub IsCodec-buffer :
    {A : Type 0} (p : Put) (g : Get A) (x : A) (initial : ℕ)
    → IsCodec p g x
    → 0 < initial
    → (buf : List ℕ) × ((p (new_writer initial) >>= λ w. ok w.written) ≡ ok buf)
      × ((g buf >>= λ r. ok r.0) ≡ ok x)
IsCodec-buffer p g x initial c h =
    let (w, e, q, v) =
      c.writes.run (new_writer initial) (record { fits = omega arith; some_room = h }) in
    (c.encoding, rw e (ap ok q), rw (sym (append-nil c.encoding)) (rw (c.reads.run [])))
