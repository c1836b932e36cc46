-- ===== src/MsgPack/Decoder/Items.antt =====
-- The decoder of src/core/vl_msgpack_io.c reads single values back from their format.
use veritable_lasagna.Base.{ℕ, ◌+◌, ◌^◌, ◌≤◌, ◌<◌, ◌≡◌, refl, true, false, ◌∷◌, arith, length}
use veritable_lasagna.MsgPack.{MsgType}
use veritable_lasagna.MsgPack.Bytes.{pos, negsuc, word_bytes}
use veritable_lasagna.MsgPack.Format.{Item, ext_payload, item_bytes, InRange}
use veritable_lasagna.MsgPack.Decoder.{
  Token, Decoder, string, binary, uinteger, integer, float32, float64, boolean, ext, next_float32,
  next_float64, next_tagged,
}
use veritable_lasagna.MsgPack.Decoder.Numbers.{
  uint-Reads, pos-Reads, negsuc-Reads, tag-Reads, Reads-word,
}
use veritable_lasagna.MsgPack.Decoder.Strings.{string-Reads, binary-Reads}
use veritable_lasagna.MsgPack.Decoder.Extensions.{ExtFits, ext-Reads}
use veritable_lasagna.MsgPack.Decoder.Source.{Holds, Reads, word_case}

-- A token shows a value: the same scalar, or the place and the length of its bytes in the source.
abbrev pub Shows : (ℕ → ℕ) → Token → Item → Type 0
Shows mem tok Item.nil = tok ≡ Token.nil
Shows mem tok (Item.boolean b) = tok ≡ boolean b
Shows mem tok (Item.integer z) = tok ≡ integer z
Shows mem tok (Item.uinteger n) = tok ≡ uinteger n
Shows mem tok (Item.float32 bits) = tok ≡ float32 bits
Shows mem tok (Item.float64 bits) = tok ≡ float64 bits
Shows mem tok (Item.string v) = (at : ℕ) × (tok ≡ string at (length v)) × Holds mem at v
Shows mem tok (Item.binary v) = (at : ℕ) × (tok ≡ binary at (length v)) × Holds mem at v
Shows mem tok (Item.ext type v) =
    (at : ℕ) × (tok ≡ ext type at (length (ext_payload v))) × Holds mem at (ext_payload v)

-- The values that the decoder reads back: those in the ranges of the C types, but for some lengths of
-- an extension.
abbrev pub Decodable : Item → Type 0
Decodable (Item.ext type v) = ExtFits (length v)
Decodable item = InRange item

module _ (dec : Decoder) (old : Token) (small : dec.src_len < 2 ^ 63) where
  float32-Reads :
      (bits : ℕ)
      → bits < 2 ^ 32
      → Holds dec.src_mem dec.src_offset (202 ∷ word_bytes 4 bits)
      → dec.src_offset + length (202 ∷ word_bytes 4 bits) ≤ dec.src_len
      → Reads dec old (202 ∷ word_bytes 4 bits) (float32 bits)
  unfolding next_tagged next_float32
  float32-Reads bits r held fits =
      Reads-word dec old small _ 202 4 bits (float32 bits) refl held fits λ h room.
        word_case dec small (dec.src_offset + 1) 4 bits MsgType.float32 float32 h (omega arith) room

  float64-Reads :
      (bits : ℕ)
      → bits < 2 ^ 64
      → Holds dec.src_mem dec.src_offset (203 ∷ word_bytes 8 bits)
      → dec.src_offset + length (203 ∷ word_bytes 8 bits) ≤ dec.src_len
      → Reads dec old (203 ∷ word_bytes 8 bits) (float64 bits)
  unfolding next_tagged next_float64
  float64-Reads bits r held fits =
      Reads-word dec old small _ 203 8 bits (float64 bits) refl held fits λ h room.
        word_case dec small (dec.src_offset + 1) 8 bits MsgType.float64 float64 h (omega arith) room

  -- Where the source holds the bytes of a value from the offset on, inside the source, `next`
  -- succeeds, stores the value or the place and length of its bytes, and moves behind them.
  pub item-Reads :
      (item : Item)
      → Decodable item
      → Holds dec.src_mem dec.src_offset (item_bytes item)
      → dec.src_offset + length (item_bytes item) ≤ dec.src_len
      → (tok : Token) × Reads dec old (item_bytes item) tok × Shows dec.src_mem tok item
  unfolding next_tagged
  item-Reads Item.nil r h fits =
      (Token.nil, tag-Reads dec old small _ 192 Token.nil refl h fits refl, refl)
  item-Reads (Item.boolean true) r h fits =
      (boolean true, tag-Reads dec old small _ 195 (boolean true) refl h fits refl, refl)
  item-Reads (Item.boolean false) r h fits =
      (boolean false, tag-Reads dec old small _ 194 (boolean false) refl h fits refl, refl)
  item-Reads (Item.integer (pos n)) r h fits =
      (integer (pos n), pos-Reads dec old small n r h fits, refl)
  item-Reads (Item.integer (negsuc n)) r h fits =
      (integer (negsuc n), negsuc-Reads dec old small n r h fits, refl)
  item-Reads (Item.uinteger n) r h fits = (uinteger n, uint-Reads dec old small n r h fits, refl)
  item-Reads (Item.float32 bits) r h fits = (float32 bits, float32-Reads bits r h fits, refl)
  item-Reads (Item.float64 bits) r h fits = (float64 bits, float64-Reads bits r h fits, refl)
  item-Reads (Item.string v) r h fits =
      let (at, reads, there) = string-Reads dec old small v r h fits in
      (string at (length v), reads, (at, refl, there))
  item-Reads (Item.binary v) r h fits =
      let (at, reads, there) = binary-Reads dec old small v r h fits in
      (binary at (length v), reads, (at, refl, there))
  item-Reads (Item.ext type v) r h fits =
      let (at, reads, there) = ext-Reads dec old small type v r h fits in
      (ext type at (length (ext_payload v)), reads, (at, refl, there))
