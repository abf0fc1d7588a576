-- ===== src/Tests/Logs.antt =====
-- A chunk of the log with one transaction, and the nodes of a tree as bytes.
use ramose.Base.{◌<◌, ℕ, ◌≡◌, refl, List, [], ◌∷◌, All, arith}
use ramose.Datom.{eavt}
use ramose.Bytes.{ok}
use ramose.Log.{LogEntry, encode_log_chunk, decode_log_chunk}
use ramose.Log.RoundTrip.{IsEntry, decode_log_chunk-encode_log_chunk}
use ramose.Segment.Uuid.{to_hex}
use ramose.Tree.Store.{NodeRef, dir_kind, dir}
use ramose.Tree.Nodes.{encode_node, decode_node}
use ramose.Tree.Nodes.RoundTrip.{IsRef, decoded_node, decode_node-encode_node}
use ramose.Tests.Segments.{plain_text, plain_text-IsTextCodec, named, named-IsStorable}

abbrev entry : LogEntry
entry = record { t = 12; tx_instant = 1700000000000; datoms = named ∷ [] }

entry-IsEntry : IsEntry plain_text entry
entry-IsEntry = record {
  t_safe = omega arith;
  instant_safe = omega arith;
  few_datoms = omega arith;
  loggable = (
    record {
      e_safe = omega arith;
      a_safe = omega arith;
      v_payload = named-IsStorable.v_payload;
      same_t = refl;
    },
    tt,
  );
}

decode_log_chunk-encode_log_chunk_example :
    (buf : List ℕ) × (encode_log_chunk plain_text (entry ∷ []) ≡ ok buf)
    × (decode_log_chunk plain_text buf ≡ ok (entry ∷ []))
decode_log_chunk-encode_log_chunk_example =
    decode_log_chunk-encode_log_chunk plain_text plain_text-IsTextCodec (entry ∷ [])
      (entry-IsEntry, tt) (omega arith)

abbrev octets : List ℕ
octets =
    0 ∷ 255 ∷ 16 ∷ 7 ∷ 0 ∷ 255 ∷ 16 ∷ 7 ∷ 0 ∷ 255 ∷ 16 ∷ 7 ∷ 0 ∷ 255 ∷ 16 ∷ 7 ∷ 0 ∷ 255 ∷ 16 ∷ 7 ∷ 0
    ∷ 255 ∷ 16 ∷ 7 ∷ 0 ∷ 255 ∷ 16 ∷ 7 ∷ 0 ∷ 255 ∷ 16 ∷ 7 ∷ []

abbrev child : NodeRef
child = record { hash = to_hex octets; kind = dir_kind; count = 40 }

octets_small : All (λ b. b < 256) octets
octets_small = ground arith

child-IsRef : IsRef child
child-IsRef = record {
  octets = octets;
  of_hash = refl;
  small = octets_small;
  printed = refl;
  count_safe = omega arith;
}

decode_node-encode_node_example :
    (buf : List ℕ) × (encode_node plain_text eavt (dir (named ∷ []) (child ∷ [])) ≡ ok buf)
    × (decode_node plain_text buf ≡ ok (decoded_node eavt (dir (named ∷ []) (child ∷ []))))
decode_node-encode_node_example =
    decode_node-encode_node plain_text plain_text-IsTextCodec eavt (dir (named ∷ []) (child ∷ []))
      ((named-IsStorable, tt), (child-IsRef, tt), refl, omega arith)
