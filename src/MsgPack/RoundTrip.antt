-- ===== src/MsgPack/RoundTrip.antt =====
-- What the encoder of src/core/vl_msgpack_io.c writes, its decoder reads.
use veritable_lasagna.Base.{
  ℕ, ◌+◌, ◌^◌, ◌<◌, ◌≡◌, refl, subst, ap, none, List, [], arith, length, inl, inr,
}
use veritable_lasagna.MsgPack.Format.{
  Item, Doc, value, array, map, Docs, no_more, element, Pairs, end, pair, doc_bytes, InRange,
}
use veritable_lasagna.MsgPack.Encoder.{init}
use veritable_lasagna.MsgPack.Encoder.Trees.{encode_doc}
use veritable_lasagna.MsgPack.Encoder.Documents.{Sized, SizedDocs, SizedPairs, encode_doc_lem}
use veritable_lasagna.MsgPack.Decoder.{Token, Decoder, start, next}
use veritable_lasagna.MsgPack.Decoder.Source.{Holds, moved, memory_of, memory_of-Holds, next-end}
use veritable_lasagna.MsgPack.Decoder.Items.{Decodable}
use veritable_lasagna.MsgPack.Decoder.Documents.{
  Steps, last_token, Spells, Readable, ReadableDocs, ReadablePairs, doc_reads,
}

Decodable-InRange : (item : Item) → Decodable item → InRange item
Decodable-InRange Item.nil r = r
Decodable-InRange (Item.boolean b) r = r
Decodable-InRange (Item.integer z) r = r
Decodable-InRange (Item.uinteger n) r = r
Decodable-InRange (Item.float32 bits) r = r
Decodable-InRange (Item.float64 bits) r = r
Decodable-InRange (Item.string v) r = r
Decodable-InRange (Item.binary v) r = r
Decodable-InRange (Item.ext type v) (inl few) = omega arith
Decodable-InRange (Item.ext type v) (inr (many, few)) = omega arith

mutual
  unfolding Readable Sized

  Readable-Sized : (d : Doc) → Readable d → Sized d
  Readable-Sized (value item) r = Decodable-InRange item r
  Readable-Sized (array ds) (few, r) = (few, ReadableDocs-Sized ds r)
  Readable-Sized (map ps) (few, r) = (few, ReadablePairs-Sized ps r)

  ReadableDocs-Sized : (ds : Docs) → ReadableDocs ds → SizedDocs ds
  ReadableDocs-Sized no_more r = tt
  ReadableDocs-Sized (element d ds) (r, rs) = (Readable-Sized d r, ReadableDocs-Sized ds rs)

  ReadablePairs-Sized : (ps : Pairs) → ReadablePairs ps → SizedPairs ps
  ReadablePairs-Sized end r = tt
  ReadablePairs-Sized (pair k d ps) (rk, r, rs) =
      (rk, Readable-Sized d r, ReadablePairs-Sized ps rs)

-- The decoder on the bytes that the encoder wrote of a document.
abbrev pub decoder_of : (ℕ → ℕ) → Doc → Decoder
decoder_of raw d =
    let bytes = (encode_doc raw init d).buffer in start (memory_of bytes) (length bytes)

-- What the encoder writes of a document, whose values are in the ranges of the C types and whose
-- extensions have lengths that are read as they were written, `next` reads back: calls of it, none
-- of which fails, store tokens that spell the document and end just behind the bytes, where the
-- next call reports the end and no error.
pub next-encode_doc :
    (raw : ℕ → ℕ) (d : Doc) (old : Token)
    → Readable d
    → (decoder_of raw d).src_len < 2 ^ 63
    → (toks : List Token) × Steps
        (decoder_of raw d)
        old
        toks
        (moved (decoder_of raw d) (decoder_of raw d).src_len)
      × Spells (decoder_of raw d).src_mem toks d
      × (next (moved (decoder_of raw d) (decoder_of raw d).src_len) (last_token old toks)
          ≡ (none, moved (decoder_of raw d) (decoder_of raw d).src_len))
next-encode_doc raw d old r small =
    let bytes = (encode_doc raw init d).buffer in
    let dec = decoder_of raw d in
    let written : bytes ≡ doc_bytes d =
      ap (λ e. e.buffer) (encode_doc_lem raw init d (Readable-Sized d r)) in
    let held = subst (Holds (memory_of bytes) 0) written (memory_of-Holds [] bytes) in
    let len : 0 + length (doc_bytes d) ≡ length bytes = omega (arith, ap length written) in
    let (toks, steps, spells) = doc_reads dec small 0 old d r held (omega arith) in
    (
      toks,
      subst (λ z. Steps dec old toks (moved dec z)) len steps,
      spells,
      next-end (moved dec (length bytes)) (last_token old toks) refl small,
    )
