-- ===== src/Stream.antt =====
-- src/core/vl_stream_memory.c: the stream over a block of memory.
pub mod Bounds
pub mod Seek
pub mod RoundTrip
mod Examples
use veritable_lasagna.Base.{
  ℕ, ◌+◌, ◌-◌, ◌%◌, ◌^◌, Bool, true, false, Option, none, some, ltb, ◌==◌, if◌then◌else◌,
}
use veritable_lasagna.Buffer.{copied}
use veritable_lasagna.Compare.{less_signed}

-- vl_stream_ctx_mem; `bytes` is the memory from `start` on.
pub record MemStream : Type 0 where
  pub bytes : ℕ → ℕ
  pub size : ℕ
  pub cursor : ℕ
  pub read_only : Bool

-- vl_stream_origin
pub data Origin : Type 0 where
  from_start : Origin
  from_cursor : Origin
  from_end : Origin

-- InternalOpenMem, where its allocations succeed. `none` stands for NULL, as memory and as the
-- stream.
pub open_memory : Option (ℕ → ℕ) → ℕ → Bool → Option MemStream
open_memory none size read_only =
    if ltb 0 size
    then none
    else some (record { bytes = λ i. 0; size = size; cursor = 0; read_only = read_only })
open_memory (some bytes) size read_only =
    some (record { bytes = bytes; size = size; cursor = 0; read_only = read_only })

-- How many bytes a call moves, and the cursor behind them.
pub available : MemStream → ℕ
available s = (s.size + 2 ^ 64 - s.cursor) % 2 ^ 64

pub moved : MemStream → ℕ → ℕ
unfolding available
moved s size = if ltb (available s) size then available s else size

pub advance : MemStream → ℕ → MemStream
advance s n = record s { cursor = (s.cursor + n) % 2 ^ 64 }

-- StreamMemRead: the number of bytes that are read, what `buf` holds, and the stream.
pub read : MemStream → ℕ → (ℕ → ℕ) → ℕ × (ℕ → ℕ) × MemStream
unfolding moved available advance
read s size buf =
    let n = moved s size in
    if available s == 0
    then (0, buf, s)
    else (n, copied buf 0 n (λ i. s.bytes (s.cursor + i)), advance s n)

-- StreamMemWrite, behind its test of the mode
pub write_open : MemStream → ℕ → (ℕ → ℕ) → ℕ × MemStream
unfolding moved available advance
write_open s size buf =
    let n = moved s size in
    if available s == 0
    then (0, s)
    else (n, advance (record s { bytes = copied s.bytes s.cursor n buf }) n)

pub write : MemStream → ℕ → (ℕ → ℕ) → ℕ × MemStream
unfolding write_open
write s size buf = if s.read_only then (0, s) else write_open s size buf

-- The new position of StreamMemSeek, as the bits of a signed word.
pub position : MemStream → ℕ → Origin → ℕ
position s offset from_start = offset
position s offset from_cursor = (s.cursor + offset) % 2 ^ 64
position s offset from_end = (s.size + offset) % 2 ^ 64

-- StreamMemSeek
pub seek : MemStream → ℕ → Origin → Bool × MemStream
unfolding position
seek s offset origin =
    let new_pos = position s offset origin in
    if less_signed 64 new_pos 0
    then (false, s)
    else (true, record s { cursor = if less_signed 64 s.size new_pos then s.size else new_pos })

-- StreamMemTell
pub tell : MemStream → ℕ
tell s = s.cursor
