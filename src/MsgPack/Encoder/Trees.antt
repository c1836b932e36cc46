-- ===== src/MsgPack/Encoder/Trees.antt =====
-- The encoder of src/core/vl_msgpack_io.c on a document.
use veritable_lasagna.Base.{ℕ}
use veritable_lasagna.MsgPack.Format.{Doc, Docs, Pairs}
use veritable_lasagna.MsgPack.Encoder.{Encoder, array_begin, array_end, map_begin, map_end}
use veritable_lasagna.MsgPack.Encoder.Values.{encode_item, encode_string}

-- vlMsgPackIOEncodeFromDOM on the document that the iterators read off.
unfoldable mutual
  pub encode_doc : (ℕ → ℕ) → Encoder → Doc → Encoder
  encode_doc raw enc (Doc.value item) = encode_item enc item
  encode_doc raw enc (Doc.array ds) = array_end (encode_docs raw (array_begin raw enc) ds)
  encode_doc raw enc (Doc.map ps) = map_end (encode_pairs raw (map_begin raw enc) ps)

  pub encode_docs : (ℕ → ℕ) → Encoder → Docs → Encoder
  encode_docs raw enc Docs.no_more = enc
  encode_docs raw enc (Docs.element d ds) = encode_docs raw (encode_doc raw enc d) ds

  pub encode_pairs : (ℕ → ℕ) → Encoder → Pairs → Encoder
  encode_pairs raw enc Pairs.end = enc
  encode_pairs raw enc (Pairs.pair k d ps) =
      encode_pairs raw (encode_doc raw (encode_string enc k) d) ps
