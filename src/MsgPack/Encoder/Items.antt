-- ===== src/MsgPack/Encoder/Items.antt =====
-- The calls of the encoder of src/core/vl_msgpack_io.c write single values in their format.
use Prim.Native.Nat.{bit_or, bit_and}
use veritable_lasagna.Base.{
  ℕ, ◌%◌, ◌^◌, ◌<◌, ◌≡◌, inl, inr, refl, ap, ◌∙◌, List, [], ◌∷◌, ◌++◌, leb, if◌then◌else◌, arith,
  length, Bool-cases,
}
use veritable_lasagna.MsgPack.Bytes.{pos, negsuc, word_bytes, or_string}
use veritable_lasagna.MsgPack.Encoder.{Encoder, write, increment, write_word}
use veritable_lasagna.MsgPack.Encoder.Values.{
  encode_nil, encode_bool, encode_string, encode_float32, encode_float64, encode_binary,
  encode_item,
}
use veritable_lasagna.MsgPack.Format.{
  Item, nil, boolean, integer, uinteger, float32, float64, string, binary, ext, string_header,
  binary_header, item_bytes, InRange,
}
use veritable_lasagna.MsgPack.Encoder.Integers.{write-write, uint_lem, int_pos_lem, int_negsuc_lem}
use veritable_lasagna.MsgPack.Encoder.Extensions.{ext_lem}

-- What is written before the bytes of a string of `n` bytes.
string_written :
    (enc : Encoder) (n : ℕ)
    → n < 2 ^ 32
    → (if leb n 0x1F
        then write enc (bit_or 0xA0 (bit_and (n % 2 ^ 8) 0x1F) ∷ [])
        else if leb n 0xFF
        then write (write enc (0xD9 ∷ [])) ((n % 2 ^ 8) ∷ [])
        else if leb n 0xFFFF
        then write_word enc 0xDA 2 (n % 2 ^ 16)
        else write_word enc 0xDB 4 (n % 2 ^ 32))
      ≡ write enc (string_header n)
string_written enc n h = elim (Bool-cases (leb n 31)) [
  | inl e ↦
      let small : n % 2 ^ 8 ≡ n = ground arith in rw (e, small, or_string n (ground arith)) refl
  | inr e ↦ elim (Bool-cases (leb n 255)) [
    | inl f ↦
        let small : n % 2 ^ 8 ≡ n = ground arith in
        rw (e, f, small) (write-write enc (0xD9 ∷ []) (n ∷ []))
    | inr f ↦ elim (Bool-cases (leb n 65535)) [
      | inl g ↦
          let small : n % 2 ^ 16 ≡ n = ground arith in
          rw (e, f, g, small) (write-write enc (0xDA ∷ []) (word_bytes 2 n))
      | inr g ↦
          let small : n % 2 ^ 32 ≡ n = omega arith in
          rw (e, f, g, small) (write-write enc (0xDB ∷ []) (word_bytes 4 n))
    ]
  ]
]

string_lem :
    (enc : Encoder) (v : List ℕ)
    → length v < 2 ^ 32
    → encode_string enc v ≡ write (increment enc) (string_header (length v) ++ v)
unfolding encode_string
string_lem enc v h =
    ap (λ z. write z v) (string_written (increment enc) (length v) h)
    ∙ write-write (increment enc) (string_header (length v)) v

binary_written :
    (enc : Encoder) (n : ℕ)
    → n < 2 ^ 32
    → (if leb n 0xFF
        then write (write enc (0xC4 ∷ [])) ((n % 2 ^ 8) ∷ [])
        else if leb n 0xFFFF
        then write_word enc 0xC5 2 (n % 2 ^ 16)
        else write_word enc 0xC6 4 (n % 2 ^ 32))
      ≡ write enc (binary_header n)
binary_written enc n h = elim (Bool-cases (leb n 255)) [
  | inl f ↦
      let small : n % 2 ^ 8 ≡ n = ground arith in
      rw (f, small) (write-write enc (0xC4 ∷ []) (n ∷ []))
  | inr f ↦ elim (Bool-cases (leb n 65535)) [
    | inl g ↦
        let small : n % 2 ^ 16 ≡ n = ground arith in
        rw (f, g, small) (write-write enc (0xC5 ∷ []) (word_bytes 2 n))
    | inr g ↦
        let small : n % 2 ^ 32 ≡ n = omega arith in
        rw (f, g, small) (write-write enc (0xC6 ∷ []) (word_bytes 4 n))
  ]
]

binary_lem :
    (enc : Encoder) (v : List ℕ)
    → length v < 2 ^ 32
    → encode_binary enc v ≡ write (increment enc) (binary_header (length v) ++ v)
unfolding encode_binary
binary_lem enc v h =
    ap (λ z. write z v) (binary_written (increment enc) (length v) h)
    ∙ write-write (increment enc) (binary_header (length v)) v

-- The call that encodes a value in the ranges of the C types appends its bytes in the format and
-- counts one element in the frame on top.
pub encode_item_lem :
    (enc : Encoder) (item : Item)
    → InRange item
    → encode_item enc item ≡ write (increment enc) (item_bytes item)
unfolding encode_item encode_nil encode_bool encode_float32 encode_float64
encode_item_lem enc nil r = refl
encode_item_lem enc (boolean b) r = refl
encode_item_lem enc (integer (pos n)) r = int_pos_lem enc n r
encode_item_lem enc (integer (negsuc n)) r = int_negsuc_lem enc n r
encode_item_lem enc (uinteger n) r = uint_lem enc n r
encode_item_lem enc (float32 bits) r = write-write (increment enc) (0xCA ∷ []) (word_bytes 4 bits)
encode_item_lem enc (float64 bits) r = write-write (increment enc) (0xCB ∷ []) (word_bytes 8 bits)
encode_item_lem enc (string v) r = string_lem enc v r
encode_item_lem enc (binary v) r = binary_lem enc v r
encode_item_lem enc (ext type v) r = ext_lem enc type v r
