-- ===== src/MsgPack/Examples.antt =====
-- The theorems on vl_msgpack_io.c at a document of a map with an array in it, and at sources of a few bytes.
use veritable_lasagna.Base.{
  ℕ, ◌+◌, ◌^◌, ◌≤◌, ◌<◌, ◌≡◌, refl, sym, subst, ap, true, none, some, List, [], ◌∷◌, arith, length,
}
use veritable_lasagna.MsgPack.Bytes.{negsuc, word_bytes, word_bytes-two}
use veritable_lasagna.MsgPack.Format.{
  Item, Doc, value, array, map, Docs, no_more, element, end, pair, item_bytes, doc_bytes,
}
use veritable_lasagna.MsgPack.Encoder.{init, write, increment}
use veritable_lasagna.MsgPack.Encoder.Trees.{encode_doc}
use veritable_lasagna.MsgPack.Encoder.Documents.{Sized, SizedDocs, encode_doc_lem}
use veritable_lasagna.MsgPack.Decoder.{Token, Decoder, start, next}
use veritable_lasagna.MsgPack.Decoder.Source.{Holds, moved, Reads, memory_of}
use veritable_lasagna.MsgPack.Decoder.Items.{item-Reads}
use veritable_lasagna.MsgPack.Decoder.Progress.{Steps-bounded}
use veritable_lasagna.MsgPack.Decoder.Overrun.{ext16_overruns}
use veritable_lasagna.MsgPack.Decoder.Documents.{Steps, done, step, last_token, Spells, Readable}
use veritable_lasagna.MsgPack.RoundTrip.{decoder_of, next-encode_doc}

-- What claimed bytes hold.
abbrev raw : ℕ → ℕ
raw i = 255

-- An array of -1, true and the name "a", and a map with that array at the key "k".
abbrev listed : Docs
listed =
    element (value (Item.integer (negsuc 0)))
      (element (value (Item.boolean true)) (element (value (Item.string (97 ∷ []))) no_more))

abbrev doc : Doc
doc = map (pair (107 ∷ []) (array listed) end)

doc-Readable : Readable doc
unfolding Readable
doc-Readable =
    (omega arith, (omega arith, (omega arith, (omega arith, (tt, (omega arith, tt)))), tt))

doc-Sized : Sized doc
unfolding Sized
doc-Sized = (omega arith, (omega arith, (omega arith, (omega arith, (tt, (omega arith, tt)))), tt))

listed-SizedDocs : SizedDocs listed
unfolding Sized
listed-SizedDocs = (omega arith, (tt, (omega arith, tt)))

doc_small : (decoder_of raw doc).src_len < 2 ^ 63
unfolding doc_bytes
doc_small = omega (arith, ap (λ e. length e.buffer) (encode_doc_lem raw init doc doc-Sized))

next-encode_doc_example :
    (toks : List Token) × Steps
      (decoder_of raw doc)
      Token.unset
      toks
      (moved (decoder_of raw doc) (decoder_of raw doc).src_len)
    × Spells (decoder_of raw doc).src_mem toks doc
    × (next (moved (decoder_of raw doc) (decoder_of raw doc).src_len) (last_token Token.unset toks)
        ≡ (none, moved (decoder_of raw doc) (decoder_of raw doc).src_len))
next-encode_doc_example = next-encode_doc raw doc Token.unset doc-Readable doc_small

encode_doc_lem_example : encode_doc raw init doc ≡ write (increment init) (doc_bytes doc)
encode_doc_lem_example = encode_doc_lem raw init doc doc-Sized

abbrev binary_item : Item
binary_item = Item.binary (1 ∷ 2 ∷ 3 ∷ [])

abbrev short_source : Decoder
short_source = start (memory_of (item_bytes binary_item)) 5

-- A source of short strings, and one of nothing but nil.
abbrev string_source : Decoder
string_source = start (λ i. 0xA3) 10

abbrev nil_source : Decoder
nil_source = start (λ i. 0xC0) 2

nil_source-Steps : Steps nil_source Token.unset (Token.nil ∷ []) (moved nil_source 1)
nil_source-Steps =
    let (tok, call, shows) =
      item-Reads nil_source Token.unset (omega arith) Item.nil tt (refl, tt) (omega arith) in
    step nil_source (moved nil_source 1) (moved nil_source 1) Token.unset Token.nil []
      (subst (Reads nil_source Token.unset (192 ∷ [])) shows call)
      (done (moved nil_source 1) Token.nil)

Steps-bounded_example : 0 + length (Token.nil ∷ []) ≤ 2
Steps-bounded_example =
    Steps-bounded nil_source (moved nil_source 1) Token.unset (Token.nil ∷ []) (omega arith)
      (omega arith) (λ i. omega arith) nil_source-Steps

-- The largest length of an EXT16, and nothing behind it.
abbrev ext_source : Decoder
ext_source = start (memory_of (0xC8 ∷ 0xFF ∷ 0xFF ∷ [])) 3

ext_source-Holds : Holds ext_source.src_mem 1 (word_bytes 2 65535)
ext_source-Holds =
    subst (Holds ext_source.src_mem 1) (sym (word_bytes-two 65535)) (refl, (refl, tt))

ext16_overruns_example :
    (type : ℕ) × (at : ℕ) × (n : ℕ) × ((next ext_source Token.unset).0 ≡ some (Token.ext type at n))
    × (3 < at + n)
ext16_overruns_example =
    ext16_overruns ext_source Token.unset 65535 (omega arith) refl ext_source-Holds (omega arith)
      (omega arith) (omega arith) (omega arith)
