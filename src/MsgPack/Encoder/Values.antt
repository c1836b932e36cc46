-- ===== src/MsgPack/Encoder/Values.antt =====
-- The calls of the encoder of src/core/vl_msgpack_io.c for single values.
use Prim.Native.Nat.{bit_and, bit_or}
use veritable_lasagna.Base.{ℕ, ◌%◌, ◌^◌, Bool, ◌&&◌, List, [], ◌∷◌, leb, if◌then◌else◌, length}
use veritable_lasagna.MsgPack.Bytes.{ℤ, pos, negsuc, leb_int, low_bits, padded}
use veritable_lasagna.MsgPack.Format.{Item}
use veritable_lasagna.MsgPack.Encoder.{Encoder, write, increment, write_word}

-- vlMsgPackIOEncodeNil, vlMsgPackIOEncodeBool
unfoldable pub encode_nil : Encoder → Encoder
encode_nil enc = write (increment enc) (0xC0 ∷ [])

unfoldable pub encode_bool : Encoder → Bool → Encoder
encode_bool enc value = write (increment enc) ((if value then 0xC3 else 0xC2) ∷ [])

-- vlMsgPackIOEncodeStringLen
unfoldable pub encode_string : Encoder → List ℕ → Encoder
encode_string enc value =
    let len = length value in
    let enc = increment enc in
    write
      (if leb len 0x1F
        then write enc (bit_or 0xA0 (bit_and (len % 2 ^ 8) 0x1F) ∷ [])
        else if leb len 0xFF
        then write (write enc (0xD9 ∷ [])) ((len % 2 ^ 8) ∷ [])
        else if leb len 0xFFFF
        then write_word enc 0xDA 2 (len % 2 ^ 16)
        else write_word enc 0xDB 4 (len % 2 ^ 32))
      value

-- vlMsgPackIOEncodeFloat32, vlMsgPackIOEncodeFloat64: a value is its bits.
unfoldable pub encode_float32 : Encoder → ℕ → Encoder
encode_float32 enc value = write_word (increment enc) 0xCA 4 value

unfoldable pub encode_float64 : Encoder → ℕ → Encoder
encode_float64 enc value = write_word (increment enc) 0xCB 8 value

-- vlMsgPackIOEncodeBinary
unfoldable pub encode_binary : Encoder → List ℕ → Encoder
encode_binary enc value =
    let len = length value in
    let enc = increment enc in
    write
      (if leb len 0xFF
        then write (write enc (0xC4 ∷ [])) ((len % 2 ^ 8) ∷ [])
        else if leb len 0xFFFF
        then write_word enc 0xC5 2 (len % 2 ^ 16)
        else write_word enc 0xC6 4 (len % 2 ^ 32))
      value

-- vlMsgPackIOEncodeExt; `type` is the byte of the extension type.
unfoldable pub encode_fixext : Encoder → ℕ → ℕ → ℕ → List ℕ → Encoder
encode_fixext enc tag n type value =
    write (write (write enc (tag ∷ [])) (type ∷ [])) (padded n value)

unfoldable pub encode_longext : Encoder → ℕ → List ℕ → Encoder
encode_longext enc type value =
    let len = length value in
    write
      (write
        (if leb len 0xFF
          then write (write enc (0xC7 ∷ [])) ((len % 2 ^ 8) ∷ [])
          else if leb len 0xFFFF
          then write_word enc 0xC8 2 (len % 2 ^ 16)
          else write_word enc 0xC9 4 (len % 2 ^ 32))
        (type ∷ []))
      value

unfoldable pub encode_ext : Encoder → ℕ → List ℕ → Encoder
unfolding encode_fixext encode_longext
encode_ext enc type value =
    let len = length value in
    let enc = increment enc in
    if leb len 1
    then encode_fixext enc 0xD4 1 type value
    else if leb len 2
    then encode_fixext enc 0xD5 2 type value
    else if leb len 4
    then encode_fixext enc 0xD6 4 type value
    else if leb len 8
    then encode_fixext enc 0xD7 8 type value
    else if leb len 16
    then encode_fixext enc 0xD8 16 type value
    else encode_longext enc type value

-- vlMsgPackIOEncodeInt
abbrev pub between : ℤ → ℤ → ℤ → Bool
between low high value = (leb_int value high) && leb_int low value

unfoldable pub encode_int : Encoder → ℤ → Encoder
encode_int enc value =
    let enc = increment enc in
    if between (pos 0) (pos 0x7F) value
    then write enc (bit_or 0x00 (low_bits 8 value) ∷ [])
    else if between (negsuc 0x1E) (negsuc 0) value
    then write enc (bit_or 0xE0 (low_bits 8 value) ∷ [])
    else if between (negsuc 0x7E) (pos 0x7F) value
    then write (write enc (0xD0 ∷ [])) (low_bits 8 value ∷ [])
    else if between (negsuc 0x7FFE) (pos 0x7FFF) value
    then write_word enc 0xD1 2 (low_bits 16 value)
    else if between (negsuc 0x7FFFFFFE) (pos 0x7FFFFFFF) value
    then write_word enc 0xD2 4 (low_bits 32 value)
    else write_word enc 0xD3 8 (low_bits 64 value)

-- vlMsgPackIOEncodeUInt
unfoldable pub encode_uint : Encoder → ℕ → Encoder
encode_uint enc value =
    let enc = increment enc in
    if leb value 0xFF
    then write (write enc (0xCC ∷ [])) ((value % 2 ^ 8) ∷ [])
    else if leb value 0xFFFF
    then write_word enc 0xCD 2 (value % 2 ^ 16)
    else if leb value 0xFFFFFFFF
    then write_word enc 0xCE 4 (value % 2 ^ 32)
    else write_word enc 0xCF 8 value

-- The call that encodes a value, as vlMsgPackIOEncodeFromDOM chooses it.
unfoldable pub encode_item : Encoder → Item → Encoder
unfolding encode_nil encode_bool encode_string encode_float32 encode_float64 encode_binary
    encode_ext encode_int encode_uint
encode_item enc Item.nil = encode_nil enc
encode_item enc (Item.boolean b) = encode_bool enc b
encode_item enc (Item.integer z) = encode_int enc z
encode_item enc (Item.uinteger n) = encode_uint enc n
encode_item enc (Item.float32 bits) = encode_float32 enc bits
encode_item enc (Item.float64 bits) = encode_float64 enc bits
encode_item enc (Item.string v) = encode_string enc v
encode_item enc (Item.binary v) = encode_binary enc v
encode_item enc (Item.ext type v) = encode_ext enc type v
