-- ===== src/Tree/Nodes.antt =====
-- `encodeNode` and `decodeNode` of tree.ts: the bytes of a node. A decoded node has the numbers that
-- were read for the index and the kinds.
pub mod RoundTrip
use ramose.Base.{ℕ, ◌+◌, ◌*◌, Bool, List, [], ◌∷◌, map, ◌==◌, length, if◌then◌else◌}
use ramose.Datom.{CodeUnit, Datom, IndexId}
use ramose.Bytes.{
  Result, ok, err, ◌>>=◌, bad_data, new_writer, Put, ◌then_put◌, nothing, Get, ◌>>>◌, returns, u8,
  u32, uvar, bytes, read_u8, read_u32, read_uvar, read_bytes,
}
use ramose.Segment.{
  TextCodec, DecodedDatom, index_number, write_datom, read_datom, encode_segment, decode_segment,
}
use ramose.Segment.Columns.{read_column}
use ramose.Segment.Uuid.{to_hex, from_hex}
use ramose.Tree.Store.{NodeKind, leaf_kind, dir_kind, NodeRef, TreeNode, leaf, dir}

abbrev pub dir_magic : ℕ
dir_magic = 0x52444e31

unfoldable pub kind_number : NodeKind → ℕ
kind_number leaf_kind = 0
kind_number dir_kind = 1

pub record DecodedRef : Type 0 where
  pub hash : List CodeUnit
  pub kind : ℕ
  pub count : ℕ

-- A key and the reference beside it.
pub record DecodedEntry : Type 0 where
  pub key : Datom
  pub ref : DecodedRef

pub data DecodedNode : Type 0 where
  decoded_leaf : ℕ → List DecodedDatom → DecodedNode
  decoded_dir : ℕ → List DecodedEntry → DecodedNode

module _ (text : TextCodec) where
  -- The reference, and then its key.
  unfoldable pub write_ref : NodeRef → Put → Put
  unfolding kind_number from_hex
  write_ref r key =
      u8 (kind_number r.kind)
      then_put (bytes (from_hex r.hash) then_put (uvar r.count then_put key))

  -- The key of a reference that has none is `undefined`, and writing it throws.
  unfoldable pub write_refs : List Datom → List NodeRef → Put
  unfolding write_ref write_datom
  write_refs keys [] = nothing
  write_refs [] (r ∷ rs) = write_ref r (λ w. err bad_data)
  write_refs (k ∷ ks) (r ∷ rs) = write_ref r (write_datom text k) then_put write_refs ks rs

  unfoldable pub write_dir : IndexId → List Datom → List NodeRef → Put
  unfolding write_refs index_number
  write_dir i keys refs =
      u32 dir_magic
      then_put (u8 (index_number i) then_put (u32 (length refs) then_put write_refs keys refs))

  unfoldable pub encode_node : IndexId → TreeNode → Result (List ℕ)
  unfolding write_dir encode_segment
  encode_node i (leaf ds) = encode_segment text i ds
  encode_node i (dir keys refs) =
      write_dir i keys refs (new_writer (length refs * 64 + 16)) >>= λ w. ok w.written

  unfoldable pub read_entry : Get DecodedEntry
  unfolding to_hex read_datom
  read_entry = read_u8 >>> λ kind. read_bytes 32 >>> λ hash. read_uvar >>> λ count.
      read_datom text >>> λ key.
      returns
        (record { key = key; ref = record { hash = to_hex hash; kind = kind; count = count } })

  unfoldable pub read_dir : Get DecodedNode
  unfolding read_entry read_column
  read_dir = read_u8 >>> λ index.
      read_u32 >>> λ n. read_column read_entry n >>> λ es. returns (decoded_dir index es)

  -- A node that is no directory is decoded as a segment, from its first byte.
  unfoldable pub decode_node : List ℕ → Result DecodedNode
  unfolding read_dir decode_segment
  decode_node buf = read_u32 buf >>= λ m.
      if m.0 == dir_magic
      then (read_dir m.1 >>= λ r. ok r.0)
      else (decode_segment text buf >>= λ s. ok (decoded_leaf s.index s.datoms))
