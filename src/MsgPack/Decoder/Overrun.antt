-- ===== src/MsgPack/Decoder/Overrun.antt =====
-- The lengths of an extension that src/core/vl_msgpack_io.c reads as negative numbers.
use veritable_lasagna.Base.{
  ℕ, ◌+◌, ◌-◌, ◌%◌, ◌^◌, ◌≤◌, ◌<◌, ◌≡◌, refl, ap, ◌∙◌, false, some, ltb, arith,
}
use veritable_lasagna.MsgPack.{MsgType}
use veritable_lasagna.MsgPack.Bytes.{word_bytes}
use veritable_lasagna.MsgPack.Decoder.{
  Token, Decoder, ext, advance, extended, next_ext_bytes, next_ext16, next_tagged, next,
}
use veritable_lasagna.MsgPack.Decoder.Source.{
  Holds, moved, eof_check-passes, read_word_lem, advance-moved, next-tag,
}

-- In a source of less than 2 ^ 31 bytes, where the length of an EXT16 has its top bit set and its
-- sum with the offset of the payload is at least 2 ^ 16, `next` delivers an extension that ends
-- outside the source.
pub ext16_overruns :
    (dec : Decoder) (old : Token) (len : ℕ)
    → dec.src_len < 2 ^ 31
    → dec.src_mem dec.src_offset ≡ 0xC8
    → Holds dec.src_mem (dec.src_offset + 1) (word_bytes 2 len)
    → 2 ^ 15 ≤ len
    → len < 2 ^ 16
    → dec.src_offset + 3 ≤ dec.src_len
    → 2 ^ 16 ≤ dec.src_offset + 4 + len
    → (type : ℕ) × (at : ℕ) × (n : ℕ) × ((next dec old).0 ≡ some (ext type at n))
      × (dec.src_len < at + n)
unfolding next_tagged next_ext16
ext16_overruns dec old len small tag word many few fits long =
    let k = dec.src_offset + 1 in
    let below : dec.src_len < 2 ^ 63 = omega arith in
    let negative : extended 16 len ≡ len + 2 ^ 64 - 2 ^ 16 = ground arith in
    let inside : ltb dec.src_len ((k + 2 + (len + 2 ^ 64 - 2 ^ 16 + 1) % 2 ^ 64) % 2 ^ 64) ≡ false =
      ground arith in
    let call =
      next-tag dec below old 0xC8 tag (omega arith)
      ∙ eof_check-passes dec below k MsgType.ext 2 _ (omega arith)
      ∙ ap (λ z. next_ext_bytes (advance 2 (moved dec k)) (extended 16 z))
          (read_word_lem dec below k 2 len word (omega arith))
      ∙ ap (λ z. next_ext_bytes z (extended 16 len)) (advance-moved dec below k 2 (omega arith))
      ∙ ap (next_ext_bytes (moved dec (k + 2))) negative in
    let first = ap (λ z. z.0) call in
    let size : (len + 2 ^ 64 - 2 ^ 16) % 2 ^ 32 ≡ len + 2 ^ 32 - 2 ^ 16 = omega arith in
    (
      dec.src_mem (k + 2),
      (k + 2 + 1) % 2 ^ 64,
      (len + 2 ^ 64 - 2 ^ 16) % 2 ^ 32,
      first ∙ rw inside refl,
      omega (arith, size),
    )
