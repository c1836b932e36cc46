-- ===== src/MsgPack/Decoder.antt =====
-- The decoder of src/core/vl_msgpack_io.c.
pub mod Source
pub mod Numbers
pub mod Strings
pub mod Extensions
pub mod Items
pub mod Containers
pub mod Documents
pub mod Bounds
pub mod Safety
pub mod Progress
pub mod Overrun
use Prim.Native.Nat.{bit_and}
use veritable_lasagna.Base.{
  ℕ, zero, suc, ◌+◌, ◌-◌, ◌*◌, ◌%◌, ◌^◌, Bool, true, false, Option, none, some, List, [], ◌∷◌, ltb,
  leb, ◌==◌, if◌then◌else◌, ◌&&◌,
}
use veritable_lasagna.MsgPack.{MsgType, IoError}
use veritable_lasagna.MsgPack.Bytes.{ℤ, pos, negsuc, signed, word_of}

-- A `vl_msgpack_io_token`. `unset` is a token before anything is stored in it; a pointer is an offset
-- in the source, and a float its bits.
pub data Token : Type 0 where
  unset nil : Token
  boolean : Bool → Token
  integer : ℤ → Token
  uinteger : ℕ → Token
  float32 : ℕ → Token
  float64 : ℕ → Token
  string : ℕ → ℕ → Token
  binary : ℕ → ℕ → Token
  ext : ℕ → ℕ → ℕ → Token
  array : ℕ → Token
  map : ℕ → Token

-- vl_msgpack_decoder
pub record Decoder : Type 0 where
  pub src_mem : ℕ → ℕ
  pub src_len : ℕ
  pub src_offset : ℕ
  pub error : IoError
  pub error_type : MsgType
  pub error_offset : ℕ

-- vlMsgPackIODecoderStart
abbrev pub start : (ℕ → ℕ) → ℕ → Decoder
start src_mem src_len = record {
  src_mem = src_mem;
  src_len = src_len;
  src_offset = 0;
  error = IoError.err_none;
  error_type = MsgType.nil;
  error_offset = 0;
}

-- `dec->srcOffset += n`
abbrev pub advance : ℕ → Decoder → Decoder
advance n dec = record dec { src_offset = (dec.src_offset + n) % 2 ^ 64 }

-- `n` bytes of the source from an offset on, and the word that they make after the flip.
abbrev pub bytes_at : (ℕ → ℕ) → ℕ → ℕ → List ℕ
bytes_at mem at zero = []
bytes_at mem at (suc n) = mem at ∷ bytes_at mem (at + 1) n

pub read_word : Decoder → ℕ → ℕ
read_word dec n = word_of (bytes_at dec.src_mem dec.src_offset n)

-- _VL_DECODE_EOFCHECK with the rest of its case. The result is the token, `none` for VL_FALSE.
abbrev pub eof_check : Decoder → MsgType → ℕ → Option Token × Decoder → Option Token × Decoder
eof_check dec type size rest =
    if ltb dec.src_len ((dec.src_offset + size) % 2 ^ 64)
    then (
      none,
      record dec {
        error = IoError.unexpected_eof;
        error_offset = dec.src_offset;
        error_type = type;
      },
    )
    else rest

-- Behind the length of a string or a binary: the check of the length, the pointer, and the step over
-- the bytes.
abbrev pub next_bytes : Decoder → MsgType → (ℕ → ℕ → Token) → ℕ → Option Token × Decoder
next_bytes dec type token len =
    eof_check dec type len (some (token dec.src_offset len), advance len dec)

-- The cases BIN8, BIN16 and BIN32, with `n` bytes of length.
pub next_binary : ℕ → Decoder → Option Token × Decoder
unfolding read_word
next_binary n dec =
    eof_check dec MsgType.binary n
      (next_bytes (advance n dec) MsgType.binary binary (read_word dec n))

-- The cases STR8, STR16 and STR32.
pub next_string : ℕ → Decoder → Option Token × Decoder
unfolding read_word
next_string n dec =
    eof_check dec MsgType.string n
      (next_bytes (advance n dec) MsgType.string string (read_word dec n))

-- The 64 bits of a signed word of `w` bits.
abbrev pub extended : ℕ → ℕ → ℕ
extended w u = if ltb u (2 ^ (w - 1)) then u else u + 2 ^ 64 - 2 ^ w

-- Behind the length of an extension, which is given by its 64 bits: the check, the type, and the
-- bytes. The length is stored in 32 bits.
abbrev pub next_ext_bytes : Decoder → ℕ → Option Token × Decoder
next_ext_bytes dec len = eof_check dec MsgType.ext ((len + 1) % 2 ^ 64) (
  some (ext (dec.src_mem dec.src_offset) ((dec.src_offset + 1) % 2 ^ 64) (len % 2 ^ 32)),
  advance (len % 2 ^ 32) (advance 1 dec),
)

-- The cases EXT8, EXT16 and EXT32. The length of the last two is a signed word.
pub next_ext8 : Decoder → Option Token × Decoder
unfolding read_word
next_ext8 dec = eof_check dec MsgType.ext 1 (next_ext_bytes (advance 1 dec) (read_word dec 1))

pub next_ext16 : Decoder → Option Token × Decoder
unfolding read_word
next_ext16 dec =
    eof_check dec MsgType.ext 2 (next_ext_bytes (advance 2 dec) (extended 16 (read_word dec 2)))

pub next_ext32 : Decoder → Option Token × Decoder
unfolding read_word
next_ext32 dec =
    eof_check dec MsgType.ext 4 (next_ext_bytes (advance 4 dec) (extended 32 (read_word dec 4)))

-- The cases FIXEXT1 to FIXEXT16.
pub next_fixext : ℕ → Decoder → Option Token × Decoder
next_fixext tag dec = next_ext_bytes dec (2 ^ (tag - 0xD4))

-- The cases FLOAT32 and FLOAT64, UINT8 to UINT64, INT8 to INT64, ARRAY16 and ARRAY32, MAP16 and MAP32.
pub next_float32 : Decoder → Option Token × Decoder
unfolding read_word
next_float32 dec = eof_check dec MsgType.float32 4 (some (float32 (read_word dec 4)), advance 4 dec)

pub next_float64 : Decoder → Option Token × Decoder
unfolding read_word
next_float64 dec = eof_check dec MsgType.float64 8 (some (float64 (read_word dec 8)), advance 8 dec)

pub next_uint : ℕ → Decoder → Option Token × Decoder
unfolding read_word
next_uint n dec = eof_check dec MsgType.uint n (some (uinteger (read_word dec n)), advance n dec)

pub next_int : ℕ → Decoder → Option Token × Decoder
unfolding read_word
next_int n dec =
    eof_check dec MsgType.int n (some (integer (signed (8 * n) (read_word dec n))), advance n dec)

pub next_array : ℕ → Decoder → Option Token × Decoder
unfolding read_word
next_array n dec = eof_check dec MsgType.array n (some (array (read_word dec n)), advance n dec)

pub next_map : ℕ → Decoder → Option Token × Decoder
unfolding read_word
next_map n dec = eof_check dec MsgType.map n (some (map (read_word dec n)), advance n dec)

-- The default case. A tag that has no meaning leaves the token as it was.
pub next_fixed : Token → ℕ → Decoder → Option Token × Decoder
next_fixed old tag dec =
    if leb tag 0x7F
    then (some (integer (pos (bit_and tag 0x7F))), dec)
    else if leb 0xE0 tag
    then (some (integer (signed 8 tag)), dec)
    else if (leb 0x80 tag) && leb tag 0x8F
    then (some (map (bit_and tag 0xF)), dec)
    else if (leb 0x90 tag) && leb tag 0x9F
    then (some (array (bit_and tag 0xF)), dec)
    else if (leb 0xA0 tag) && leb tag 0xBF
    then next_bytes dec MsgType.string string (bit_and tag 0x1F)
    else (some old, dec)

-- The `switch` on the tag. Its labels lie between 0xC0 and 0xDF.
pub next_tagged : Token → ℕ → Decoder → Option Token × Decoder
unfolding next_binary next_string next_ext8 next_ext16 next_ext32 next_fixext next_float32
    next_float64 next_uint next_int next_array next_map next_fixed
next_tagged old tag dec =
    if (leb tag 0xBF)
    then next_fixed old tag dec
    else if leb 0xE0 tag
    then next_fixed old tag dec
    else if tag == 0xC0
    then (some nil, dec)
    else if tag == 0xC2
    then (some (boolean false), dec)
    else if tag == 0xC3
    then (some (boolean true), dec)
    else if tag == 0xC4
    then next_binary 1 dec
    else if tag == 0xC5
    then next_binary 2 dec
    else if tag == 0xC6
    then next_binary 4 dec
    else if tag == 0xC7
    then next_ext8 dec
    else if tag == 0xC8
    then next_ext16 dec
    else if tag == 0xC9
    then next_ext32 dec
    else if tag == 0xCA
    then next_float32 dec
    else if tag == 0xCB
    then next_float64 dec
    else if tag == 0xCC
    then next_uint 1 dec
    else if tag == 0xCD
    then next_uint 2 dec
    else if tag == 0xCE
    then next_uint 4 dec
    else if tag == 0xCF
    then next_uint 8 dec
    else if tag == 0xD0
    then next_int 1 dec
    else if tag == 0xD1
    then next_int 2 dec
    else if tag == 0xD2
    then next_int 4 dec
    else if tag == 0xD3
    then next_int 8 dec
    else if (leb 0xD4 tag) && leb tag 0xD8
    then next_fixext tag dec
    else if tag == 0xD9
    then next_string 1 dec
    else if tag == 0xDA
    then next_string 2 dec
    else if tag == 0xDB
    then next_string 4 dec
    else if tag == 0xDC
    then next_array 2 dec
    else if tag == 0xDD
    then next_array 4 dec
    else if tag == 0xDE
    then next_map 2 dec
    else if tag == 0xDF
    then next_map 4 dec
    else next_fixed old tag dec

-- vlMsgPackIODecoderNext. `old` is what the token holds before the call.
pub next : Decoder → Token → Option Token × Decoder
unfolding next_tagged
next dec old =
    if ltb dec.src_len ((dec.src_offset + 1) % 2 ^ 64)
    then (none, dec)
    else next_tagged old (dec.src_mem dec.src_offset) (advance 1 dec)
