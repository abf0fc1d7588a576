-- ===== src/Tree/Nodes/RoundTrip.antt =====
-- `decodeNode` gives back what `encodeNode` wrote.
use ramose.Base.{
  if◌then◌else◌, true, inr, inl, Bool-cases, false, ℕ, ◌+◌, ◌*◌, ◌^◌, ◌≤◌, ◌<◌, ◌≡◌, ◌∙◌, refl, sym,
  ap, subst, List, [], ◌∷◌, map, All, arith, ◌==◌, length,
}
use ramose.Datom.{CodeUnit, Datom, IndexId}
use ramose.Bytes.{
  bad_data, err, throws, Result, ok, Get, ◌then_put◌, ◌>>>◌, u8, u32, uvar, bytes, read_u8,
  read_u32, read_uvar, read_bytes, max_safe, ◌>>=◌,
}
use ramose.Bytes.Codec.{
  IsCodec, IsCodec-then, IsCodec-map, IsCodec-nothing, IsCodec-buffer, uvar-IsCodec, u8-IsCodec,
  u32-IsCodec, bytes-IsCodec,
}
use ramose.Segment.{
  DecodedSegment, TextCodec, write_datom, index_number, magic, decode_segment, read_segment,
}
use ramose.Segment.Columns.{read_column}
use ramose.Segment.Text.{IsTextCodec}
use ramose.Segment.Rows.{IsStorable, datom-IsCodec}
use ramose.Segment.RoundTrip.{decode_segment-encode_segment, decoded, index_number-lt}
use ramose.Segment.Uuid.{to_hex, from_hex, from_hex-to_hex}
use ramose.Tree.Store.{NodeKind, NodeRef, TreeNode, leaf, dir}
use ramose.Tree.Nodes.{
  DecodedEntry, DecodedNode, decoded_leaf, decoded_dir, dir_magic, kind_number, write_ref,
  write_refs, write_dir, read_entry, read_dir, encode_node, decode_node,
}

-- The text of the 32 bytes of a hash, and a safe count.
pub record IsRef (r : NodeRef) : Type 0 where
  pub octets : List ℕ
  pub of_hash : length octets ≡ 32
  pub small : All (λ b. b < 256) octets
  pub printed : to_hex octets ≡ r.hash
  pub count_safe : r.count ≤ max_safe

kind_number-lt : (k : NodeKind) → kind_number k < 256
unfolding kind_number
kind_number-lt k = ground arith

abbrev pub decoded_entry : Datom → NodeRef → DecodedEntry
decoded_entry k r = record {
  key = k;
  ref = record { hash = r.hash; kind = kind_number r.kind; count = r.count };
}

abbrev pub decoded_entries : List Datom → List NodeRef → List DecodedEntry
decoded_entries (k ∷ ks) (r ∷ rs) = decoded_entry k r ∷ decoded_entries ks rs
decoded_entries _ _ = []

abbrev pub decoded_node : IndexId → TreeNode → DecodedNode
decoded_node i (leaf ds) = decoded_leaf (index_number i) (map decoded ds)
decoded_node i (dir keys refs) = decoded_dir (index_number i) (decoded_entries keys refs)

-- What a decoder makes of its first word.
abbrev after_magic : {A : Type 0} → ℕ → Get A → Result (ℕ × List ℕ) → Result A
after_magic number body o =
    (o >>= λ m. (if m.0 == number then body else throws bad_data) m.1) >>= λ r. ok r.0

module _ {A : Type 0} (number : ℕ) (body : Get A) where
  other_magic :
      (m : ℕ) (rest : List ℕ)
      → (m == number) ≡ false
      → after_magic number body (ok (m, rest)) ≡ err bad_data
  other_magic m rest e = rw e refl

  same_magic :
      (m : ℕ) (rest : List ℕ)
      → (m == number) ≡ true
      → after_magic number body (ok (m, rest)) ≡ (body rest >>= λ r. ok r.0)
  same_magic m rest e = rw e refl

  -- If decoding succeeds, that word is the magic number.
  magic_word :
      (o : Result (ℕ × List ℕ)) (x : A)
      → after_magic number body o ≡ ok x
      → (rest : List ℕ) × (o ≡ ok (number, rest)) × ((body rest >>= λ r. ok r.0) ≡ ok x)
  magic_word (err e) x h = absurd (clash h)
    where
      clash : err e ≡ ok x → ⊥
      clash k = cc
  magic_word (ok (m, rest)) x h = elim (Bool-cases (m == number)) [
    | inl e ↦
        let q : m ≡ number = ground (arith, e) in
        (rest, ap (λ k. ok (k, rest)) q, sym (same_magic m rest e) ∙ h)
    | inr e ↦ absurd (clash (sym (other_magic m rest e) ∙ h))
  ]
    where
      clash : err bad_data ≡ ok x → ⊥
      clash k = cc

module _ (text : TextCodec) where
  -- A node that can be stored: at most 2^32 - 1 datoms or references, one key for each reference.
  abbrev pub IsStorableNode : TreeNode → Type 0
  IsStorableNode (leaf ds) = All (IsStorable text) ds × (length ds < 2 ^ 32)
  IsStorableNode (dir keys refs) =
      All (IsStorable text) keys
      × All IsRef refs
      × (length keys ≡ length refs)
      × (length refs < 2 ^ 32)

  module _ (law : IsTextCodec text) where
    entry-IsCodec :
        (k : Datom) (r : NodeRef)
        → IsStorable text k
        → IsRef r
        → IsCodec (write_ref text r (write_datom text k)) (read_entry text) (decoded_entry k r)
    unfolding write_ref read_entry
    entry-IsCodec k r s h =
        let n = kind_number r.kind in
        let done : List CodeUnit → DecodedEntry =
          λ u. record { key = k; ref = record { hash = u; kind = n; count = r.count } } in
        subst
          (λ u.
            IsCodec
              (u8 n
                then_put (bytes (from_hex u) then_put (uvar r.count then_put write_datom text k)))
              (read_entry text) (done u))
          h.printed
          (rw (from_hex-to_hex h.octets h.small) (
            IsCodec-then _ _ read_u8 _ n (done (to_hex h.octets))
              (u8-IsCodec n (kind_number-lt r.kind))
              (IsCodec-then _ _ (read_bytes 32) _ h.octets (done (to_hex h.octets))
                (bytes-IsCodec 32 h.octets h.of_hash)
                (IsCodec-then _ _ read_uvar _ r.count (done (to_hex h.octets))
                  (uvar-IsCodec r.count h.count_safe)
                  (IsCodec-map _ _
                    (λ key. record {
                      key = key;
                      ref = record { hash = to_hex h.octets; kind = n; count = r.count };
                    })
                    k (datom-IsCodec text law k s))))))

    entries-IsCodec :
        (ks : List Datom) (rs : List NodeRef)
        → All (IsStorable text) ks
        → All IsRef rs
        → length ks ≡ length rs
        → IsCodec
            (write_refs text ks rs)
            (read_column (read_entry text) (length rs))
            (decoded_entries ks rs)
    unfolding write_refs read_column
    entries-IsCodec [] [] s h e = IsCodec-nothing []
    entries-IsCodec [] (r ∷ rs) s h e = absurd (omega (arith, e))
    entries-IsCodec (k ∷ ks) [] s h e = absurd (omega (arith, e))
    entries-IsCodec (k ∷ ks) (r ∷ rs) s h e =
        IsCodec-then _ _ (read_entry text) _ (decoded_entry k r) _ (entry-IsCodec k r s.0 h.0) (
          IsCodec-map _ _ (λ l. decoded_entry k r ∷ l) (decoded_entries ks rs)
            (entries-IsCodec ks rs s.1 h.1 (omega (arith, e))))

    dir-IsCodec :
        (i : IndexId) (ks : List Datom) (rs : List NodeRef)
        → IsStorableNode (dir ks rs)
        → IsCodec
            (u8 (index_number i) then_put (u32 (length rs) then_put write_refs text ks rs))
            (read_dir text)
            (decoded_dir (index_number i) (decoded_entries ks rs))
    unfolding read_dir
    dir-IsCodec i ks rs (s, h, e, short) =
        let done = decoded_dir (index_number i) (decoded_entries ks rs) in
        IsCodec-then _ _ read_u8 _ (index_number i) done
          (u8-IsCodec (index_number i) (index_number-lt i))
          (IsCodec-then _ _ read_u32 _ (length rs) done (u32-IsCodec (length rs) short) (
            IsCodec-map _ _ (decoded_dir (index_number i)) (decoded_entries ks rs)
              (entries-IsCodec ks rs s h e)))

    decode_dir :
        (buf rest : List ℕ) (x : DecodedNode)
        → read_u32 buf ≡ ok (dir_magic, rest)
        → (read_dir text rest >>= λ r. ok r.0) ≡ ok x
        → decode_node text buf ≡ ok x
    unfolding decode_node
    decode_dir buf rest x h k = rw (h, decode_node) k

    -- What is decoded as a segment begins with its magic number.
    segment_magic :
        (buf : List ℕ) (x : DecodedSegment)
        → decode_segment text buf ≡ ok x
        → (rest : List ℕ) × (read_u32 buf ≡ ok (magic, rest))
    unfolding decode_segment read_segment
    segment_magic buf x h = let (rest, m, k) = magic_word magic _ (read_u32 buf) x h in (rest, m)

    abbrev after_word : List ℕ → Result (ℕ × List ℕ) → Result DecodedNode
    after_word buf o = o >>= λ m.
        if m.0 == dir_magic
        then (read_dir text m.1 >>= λ r. ok r.0)
        else (decode_segment text buf >>= λ s. ok (decoded_leaf s.index s.datoms))

    decode_leaf :
        (buf : List ℕ) (x : DecodedSegment)
        → decode_segment text buf ≡ ok x
        → decode_node text buf ≡ ok (decoded_leaf x.index x.datoms)
    unfolding decode_node
    decode_leaf buf x h =
        let (rest, m) = segment_magic buf x h in
        ap (after_word buf) m ∙ ap (λ o. o >>= λ s. ok (decoded_leaf s.index s.datoms)) h

    -- For a text codec whose decoder inverts its encoder on well-formed strings that do not begin
    -- with U+FEFF, and a node that can be stored (fewer than 2^32 storable datoms; or fewer than
    -- 2^32 references with the text of a hash of 32 bytes and a safe count, and as many storable
    -- keys), `encodeNode` succeeds, and `decodeNode` of its bytes gives the index and the same
    -- node.
    pub decode_node-encode_node :
        (i : IndexId) (n : TreeNode)
        → IsStorableNode n
        → (buf : List ℕ) × (encode_node text i n ≡ ok buf)
          × (decode_node text buf ≡ ok (decoded_node i n))
    unfolding encode_node write_dir
    decode_node-encode_node i (leaf ds) (h, short) =
        let (buf, e, d) = decode_segment-encode_segment text law i ds h short in
        (buf, e, decode_leaf buf _ d)
    decode_node-encode_node i (dir ks rs) h =
        let x = decoded_node i (dir ks rs) in
        let (buf, e, d) =
          IsCodec-buffer (write_dir text i ks rs)
            (read_u32 >>> λ k. if k == dir_magic then read_dir text else throws bad_data) x
            (length rs * 64 + 16)
            (IsCodec-then _ _ read_u32 _ dir_magic x (u32-IsCodec dir_magic (omega arith))
              (dir-IsCodec i ks rs h))
            (omega arith) in
        let (rest, m, k) = magic_word dir_magic (read_dir text) (read_u32 buf) x d in
        (buf, e, decode_dir buf rest x m k)
