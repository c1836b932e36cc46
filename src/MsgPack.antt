-- ===== src/MsgPack.antt =====
-- src/core/vl_msgpack_io.c, include/core/vl/vl_msgpack_io.h: the types that the MessagePack encoder
-- and decoder share.
pub mod Bytes
pub mod Encoder
pub mod Decoder
pub mod Format
pub mod RoundTrip
mod Examples

-- vl_msgpack_type
pub data MsgType : Type 0 where
  nil bool int uint float32 float64 string binary array map ext : MsgType

-- vl_msgpack_io_error
pub data IoError : Type 0 where
  err_none stack_underflow unexpected_token unbalanced_map unexpected_eof : IoError
