-- ===== src/MsgPack/Encoder.antt =====
-- The encoder of src/core/vl_msgpack_io.c.
pub mod Values
pub mod Trees
pub mod Integers
pub mod Extensions
pub mod Items
pub mod Containers
pub mod Documents
pub mod Errors
use Prim.Native.Nat.{bit_and, bit_or}
pub use veritable_lasagna.Base.{take, drop}
use veritable_lasagna.Base.{
  ℕ, zero, suc, ◌+◌, ◌-◌, ◌*◌, ◌/◌, ◌%◌, ◌^◌, Bool, true, false, ◌&&◌, List, [], ◌∷◌, ◌++◌, ltb,
  leb, ◌==◌, if◌then◌else◌, length,
}
use veritable_lasagna.MsgPack.{MsgType, IoError}
use veritable_lasagna.MsgPack.Bytes.{ℤ, pos, negsuc, leb_int, low_bits, word_bytes, padded}
use veritable_lasagna.MsgPack.Format.{Item, Doc, Docs, Pairs}

-- vl_msgpack_encframe
pub record Frame : Type 0 where
  pub is_array : Bool
  pub start_offset : ℕ
  pub size_offset : ℕ
  pub data_offset : ℕ
  pub total_elements : ℕ

-- A `vl_msgpack_encoder`. `state_stack` is the stack of frames, its top first; `buffer` is what the
-- byte buffer holds below its offset, so the offset is its length.
pub record Encoder : Type 0 where
  pub state_stack : List Frame
  pub buffer : List ℕ
  pub error : IoError
  pub error_type : MsgType
  pub error_depth : ℕ

-- vlMsgPackIOEncoderInit and vlMsgPackIOEncoderClear
abbrev pub init : Encoder
init = record {
  state_stack = [];
  buffer = [];
  error = IoError.err_none;
  error_type = MsgType.nil;
  error_depth = 0;
}

abbrev pub clear : Encoder → Encoder
clear enc = init

-- `vlBufferWrite(&enc->buffer, ...)` of these bytes.
abbrev pub write : Encoder → List ℕ → Encoder
write enc bytes = record enc { buffer = enc.buffer ++ bytes }

-- `memcpy(enc->buffer.data + at, &src, ...)` inside what was written.
abbrev pub overwrite : List ℕ → ℕ → List ℕ → List ℕ
overwrite bytes at src = take at bytes ++ (src ++ drop (at + length src) bytes)

-- vl_MsgPackEncodeIncrement
abbrev pub bump_top : List Frame → List Frame
bump_top [] = []
bump_top (f ∷ fs) = record f { total_elements = (f.total_elements + 1) % 2 ^ 32 } ∷ fs

abbrev pub increment : Encoder → Encoder
increment enc = record enc { state_stack = bump_top enc.state_stack }

-- vl_MsgPackEncodeFrame: the number of elements that it leaves in the frame, and the tag with the
-- offset.
abbrev pub frame_elements : Frame → ℕ
frame_elements f = if f.is_array then f.total_elements else f.total_elements / 2

pub encode_frame : Frame → ℕ × ℕ
encode_frame f =
    let total = frame_elements f in
    if leb total 0xF
    then (bit_or (if f.is_array then 0x90 else 0x80) (bit_and total 0xF), 4)
    else if leb total 0xFFFF
    then (if f.is_array then 0xDC else 0xDE, 2)
    else (if f.is_array then 0xDD else 0xDF, 0)

-- vl_MsgPackEncodePush. `raw` is what the claimed bytes hold.
pub encode_push : (ℕ → ℕ) → Encoder → Bool → Encoder
encode_push raw enc is_array =
    let start = length enc.buffer in
    record enc {
      state_stack =
          record {
            is_array = is_array;
            start_offset = start;
            size_offset = start + 1;
            data_offset = start + 5;
            total_elements = 0;
          }
          ∷ enc.state_stack;
      buffer = enc.buffer ++ (raw 0 ∷ raw 1 ∷ raw 2 ∷ raw 3 ∷ raw 4 ∷ []);
    }

-- vl_MsgPackEncodePop, on the frame that it takes off: the tag, the size, and the move of the data
-- that follows. The write offset falls with the move.
pub resolved : Frame → List ℕ → List ℕ
unfolding encode_frame
resolved f buffer =
    let (tag, offset) = encode_frame f in
    let total = frame_elements f in
    let tagged = overwrite buffer f.start_offset (tag ∷ []) in
    let sized =
      if 4 - offset == 2
      then overwrite tagged f.size_offset (word_bytes 2 (total % 2 ^ 16))
      else if 4 - offset == 4
      then overwrite tagged f.size_offset (word_bytes 4 (total % 2 ^ 32))
      else tagged in
    if ltb 0 offset then take (f.data_offset - offset) sized ++ drop f.data_offset sized else sized

pub pop_frame : Encoder → List Frame → Bool × Encoder
unfolding resolved
pop_frame enc [] = (false, enc)
pop_frame enc (f ∷ fs) = (true, record enc { state_stack = fs; buffer = resolved f enc.buffer })

pub encode_pop : Encoder → Bool × Encoder
unfolding pop_frame
encode_pop enc = pop_frame enc enc.state_stack

-- vlMsgPackIOEncodeMapBegin, vlMsgPackIOEncodeArrayBegin
pub map_begin : (ℕ → ℕ) → Encoder → Encoder
unfolding encode_push
map_begin raw enc = encode_push raw (increment enc) false

pub array_begin : (ℕ → ℕ) → Encoder → Encoder
unfolding encode_push
array_begin raw enc = encode_push raw (increment enc) true

-- vlMsgPackIOEncodeMapEnd and vlMsgPackIOEncodeArrayEnd
pub end_map : Encoder → List Frame → Encoder
unfolding encode_pop
end_map enc [] = record enc {
  error = IoError.stack_underflow;
  error_depth = 0;
  error_type = MsgType.map;
}
end_map enc (top ∷ fs) =
    if top.total_elements % 2 == 1
    then record enc {
      error = IoError.unbalanced_map;
      error_depth = length (top ∷ fs);
      error_type = MsgType.map;
    }
    else (encode_pop enc).1

pub map_end : Encoder → Encoder
unfolding end_map
map_end enc = end_map enc enc.state_stack

pub end_array : Encoder → List Frame → Encoder
unfolding encode_pop
end_array enc [] = record enc {
  error = IoError.stack_underflow;
  error_depth = 0;
  error_type = MsgType.array;
}
end_array enc (top ∷ fs) = (encode_pop enc).1

pub array_end : Encoder → Encoder
unfolding end_array
array_end enc = end_array enc enc.state_stack

-- A tag and behind it a word of `n` bytes, in two writes.
abbrev pub write_word : Encoder → ℕ → ℕ → ℕ → Encoder
write_word enc tag n v = write (write enc (tag ∷ [])) (word_bytes n v)
