-- ===== src/MsgPack/Decoder/Safety.antt =====
-- A call of the decoder of src/core/vl_msgpack_io.c stays inside the source, whatever bytes it holds.
use Prim.Native.Nat.{bit_and}
use native.Mathlib.Nat.{pow-le-pow_right}
use veritable_lasagna.Base.{
  Bool, Option, if◌then◌else◌, ℕ, ◌-◌, ◌*◌, ◌^◌, ◌≤◌, ◌<◌, ◌≡◌, inl, inr, refl, true, false, some,
  leb, ◌==◌, ◌&&◌, arith,
}
use veritable_lasagna.MsgPack.{MsgType}
use veritable_lasagna.MsgPack.Bytes.{pos, signed, and_string_small}
use veritable_lasagna.MsgPack.Decoder.{
  Token, Decoder, string, nil, boolean, integer, uinteger, float32, float64, array, map, read_word,
  next_fixext, next_float32, next_float64, next_uint, next_int, next_array, next_map, next_fixed,
  next_tagged,
}
use veritable_lasagna.MsgPack.Decoder.Bounds.{
  Inside, Safe, arms-Safe, word-Safe, next_bytes-Safe, next_ext_bytes-Safe, next_string-Safe,
  next_binary-Safe, next_ext8-Safe, next_ext16-Safe, next_ext32-Safe,
}

infixr 20 ◌▷◌
-- The first of two arms of a test, which knows that the test holds, and the second.
◌▷◌ :
    {old : Token} {dec : Decoder} {a b : Option Token × Decoder}
    → (first : (c : Bool) × (c ≡ true → Safe old dec a)) → Safe old dec b
    → Safe old dec (if first.0 then a else b)
◌▷◌ {old = old} {dec = dec} {a = a} {b = b} (c, first) second =
    arms-Safe old dec c a b first λ e. second

module _ (old : Token) (dec : Decoder) (here : dec.src_offset ≤ dec.src_len)
    (small : dec.src_len < 2 ^ 63) (narrow : (i : ℕ) → dec.src_mem i < 256) where
  -- A case that reads nothing more.
  still-Safe : (tok : Token) → Inside dec.src_len tok → Safe old dec (some tok, dec)
  still-Safe tok within = record {
    source = refl;
    size = refl;
    forward = omega arith;
    inside = here;
    token = inr within;
  }

  old-Safe : Safe old dec (some old, dec)
  old-Safe = record {
    source = refl;
    size = refl;
    forward = omega arith;
    inside = here;
    token = inl refl;
  }

  next_fixed-Safe : (tag : ℕ) → tag < 256 → Safe old dec (next_fixed old tag dec)
  unfolding next_fixed
  next_fixed-Safe tag byte =
      (leb tag 0x7F, λ e. still-Safe (integer (pos (bit_and tag 0x7F))) tt)
      ▷ (leb 0xE0 tag, λ e. still-Safe (integer (signed 8 tag)) tt)
      ▷ ((leb 0x80 tag) && leb tag 0x8F, λ e. still-Safe (map (bit_and tag 0xF)) tt)
      ▷ ((leb 0x90 tag) && leb tag 0x9F, λ e. still-Safe (array (bit_and tag 0xF)) tt)
      ▷ (
        (leb 0xA0 tag) && leb tag 0xBF,
        λ e.
            next_bytes-Safe old dec here small narrow MsgType.string string (bit_and tag 0x1F)
              (omega (arith, and_string_small tag byte)) λ at n h. h,
      )
      ▷ old-Safe

  next_fixext-Safe : (tag : ℕ) → tag ≤ 0xD8 → Safe old dec (next_fixext tag dec)
  unfolding next_fixext
  next_fixext-Safe tag h =
      let two_power : 2 ^ (tag - 0xD4) ≤ 2 ^ 4 =
        pow-le-pow_right (omega arith) {i = tag - 0xD4} {j = 4} (omega arith) in
      next_ext_bytes-Safe old dec here small narrow (2 ^ (tag - 0xD4)) (omega (arith, two_power))

  uint-Safe : (n : ℕ) → n < 9 → Safe old dec (next_uint n dec)
  unfolding next_uint
  uint-Safe n few = word-Safe old dec here small MsgType.uint n (uinteger (read_word dec n)) few tt

  int-Safe : (n : ℕ) → n < 9 → Safe old dec (next_int n dec)
  unfolding next_int
  int-Safe n few =
      word-Safe old dec here small MsgType.int n (integer (signed (8 * n) (read_word dec n))) few tt

  array-Safe : (n : ℕ) → n < 9 → Safe old dec (next_array n dec)
  unfolding next_array
  array-Safe n few = word-Safe old dec here small MsgType.array n (array (read_word dec n)) few tt

  map-Safe : (n : ℕ) → n < 9 → Safe old dec (next_map n dec)
  unfolding next_map
  map-Safe n few = word-Safe old dec here small MsgType.map n (map (read_word dec n)) few tt

  pub next_tagged-Safe :
      (tag : ℕ)
      → tag < 256
      → (tag ≡ 0xC8 → dec.src_mem dec.src_offset < 128)
      → (tag ≡ 0xC9 → dec.src_mem dec.src_offset < 128)
      → Safe old dec (next_tagged old tag dec)
  unfolding next_tagged next_float32 next_float64
  next_tagged-Safe tag byte positive positive' =
      let low : (tag == 0xC8) ≡ true → dec.src_mem dec.src_offset < 128 =
        λ e. positive (ground arith) in
      let low' : (tag == 0xC9) ≡ true → dec.src_mem dec.src_offset < 128 =
        λ e. positive' (ground arith) in
      let fixed : ((leb 0xD4 tag) && leb tag 0xD8) ≡ true → tag ≤ 0xD8 = λ e. ground arith in
      (leb tag 0xBF, λ e. next_fixed-Safe tag byte)
      ▷ (leb 0xE0 tag, λ e. next_fixed-Safe tag byte)
      ▷ (tag == 0xC0, λ e. still-Safe nil tt)
      ▷ (tag == 0xC2, λ e. still-Safe (boolean false) tt)
      ▷ (tag == 0xC3, λ e. still-Safe (boolean true) tt)
      ▷ (tag == 0xC4, λ e. next_binary-Safe old dec here small narrow 1 (omega arith) (omega arith))
      ▷ (tag == 0xC5, λ e. next_binary-Safe old dec here small narrow 2 (omega arith) (omega arith))
      ▷ (tag == 0xC6, λ e. next_binary-Safe old dec here small narrow 4 (omega arith) (omega arith))
      ▷ (tag == 0xC7, λ e. next_ext8-Safe old dec here small narrow)
      ▷ (tag == 0xC8, λ e. next_ext16-Safe old dec here small narrow (low e))
      ▷ (tag == 0xC9, λ e. next_ext32-Safe old dec here small narrow (low' e))
      ▷ (
        tag == 0xCA,
        λ e.
            word-Safe old dec here small MsgType.float32 4 (float32 (read_word dec 4)) (omega arith)
              tt,
      )
      ▷ (
        tag == 0xCB,
        λ e.
            word-Safe old dec here small MsgType.float64 8 (float64 (read_word dec 8)) (omega arith)
              tt,
      )
      ▷ (tag == 0xCC, λ e. uint-Safe 1 (omega arith))
      ▷ (tag == 0xCD, λ e. uint-Safe 2 (omega arith))
      ▷ (tag == 0xCE, λ e. uint-Safe 4 (omega arith))
      ▷ (tag == 0xCF, λ e. uint-Safe 8 (omega arith))
      ▷ (tag == 0xD0, λ e. int-Safe 1 (omega arith))
      ▷ (tag == 0xD1, λ e. int-Safe 2 (omega arith))
      ▷ (tag == 0xD2, λ e. int-Safe 4 (omega arith))
      ▷ (tag == 0xD3, λ e. int-Safe 8 (omega arith))
      ▷ ((leb 0xD4 tag) && leb tag 0xD8, λ e. next_fixext-Safe tag (fixed e))
      ▷ (tag == 0xD9, λ e. next_string-Safe old dec here small narrow 1 (omega arith) (omega arith))
      ▷ (tag == 0xDA, λ e. next_string-Safe old dec here small narrow 2 (omega arith) (omega arith))
      ▷ (tag == 0xDB, λ e. next_string-Safe old dec here small narrow 4 (omega arith) (omega arith))
      ▷ (tag == 0xDC, λ e. array-Safe 2 (omega arith))
      ▷ (tag == 0xDD, λ e. array-Safe 4 (omega arith))
      ▷ (tag == 0xDE, λ e. map-Safe 2 (omega arith))
      ▷ (tag == 0xDF, λ e. map-Safe 4 (omega arith))
      ▷ next_fixed-Safe tag byte
