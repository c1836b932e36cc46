-- ===== src/Buffer.antt =====
-- src/core/vl_buffer.c, include/core/vl/vl_buffer.h: the growable byte buffer with an offset.
pub mod Write
pub mod Read
mod Examples
use veritable_lasagna.Base.{
  ℕ, zero, suc, ◌+◌, ◌-◌, ◌*◌, ◌%◌, ◌^◌, Bool, true, false, ◌&&◌, Option, none, some, ltb, leb,
  ◌==◌, if◌then◌else◌,
}

-- `capacity` is the size of the allocation `data`, and `bytes` its contents.
pub record Buffer : Type 0 where
  pub size : ℕ
  pub offset : ℕ
  pub capacity : ℕ
  pub bytes : ℕ → ℕ

-- `vlMemRealloc(buffer->data, newCapacity)`: the bytes of the old allocation stay, as far as both
-- reach, and `rest` is what the others hold.
pub resize : (ℕ → ℕ) → Buffer → ℕ → Buffer
resize rest b new_capacity = record b {
  capacity = new_capacity;
  bytes = λ i. if ltb i b.capacity then b.bytes i else rest i;
}

-- `memcpy(data + offset, src, size)` on the bytes `old` of `data`.
pub copied : (ℕ → ℕ) → ℕ → ℕ → (ℕ → ℕ) → ℕ → ℕ
copied old offset size src i =
    if (leb offset i) && ltb i (offset + size) then src (i - offset) else old i

-- The loop of vlBufferWrite. `none` means that the fuel ran out.
pub grow : ℕ → ℕ → ℕ → Option ℕ
grow zero new_size need = none
grow (suc fuel) new_size need =
    let rest = grow fuel (new_size * 2 % 2 ^ 64) need in
    if leb new_size need then rest else some new_size

-- vlBufferWrite with an offset and a size whose sum fits a word, behind its loop. `src` is `none`
-- for NULL. The result is the offset that is returned and the buffer.
pub write_at : (ℕ → ℕ) → Buffer → ℕ → Option (ℕ → ℕ) → ℕ → ℕ × Buffer
unfolding resize copied
write_at rest b size src new_size =
    let grown = if ltb b.capacity new_size then resize rest b new_size else b in
    let end = (b.offset + size) % 2 ^ 64 in
    (
      b.offset,
      record {
        size = if ltb b.size end then end else b.size;
        offset = end;
        capacity = grown.capacity;
        bytes = elim src [ none ↦ grown.bytes | some from ↦ copied grown.bytes b.offset size from ];
      },
    )

-- vlBufferWrite, where the reallocation succeeds. From a capacity other than 0, 64 doublings reach
-- every size below 2 ^ 63.
pub write : (ℕ → ℕ) → Buffer → ℕ → Option (ℕ → ℕ) → Option (ℕ × Buffer)
unfolding grow write_at
write rest b size src = elim (grow 65 b.capacity ((size + b.offset) % 2 ^ 64)) [
  | none ↦ none
  | some new_size ↦ some (write_at rest b size src new_size)
]

-- vlBufferRead. `dest` is the memory that is written to; the result is the number that is returned,
-- that memory, and the buffer. The copy is of `size` bytes, also where fewer are reported. `none` is a
-- copy from behind the allocation.
pub read : Buffer → ℕ → (ℕ → ℕ) → Option (ℕ × (ℕ → ℕ) × Buffer)
unfolding copied
read b size dest =
    let short = ltb b.size ((b.offset + size) % 2 ^ 64) in
    let actual = if short then (b.size + 2 ^ 64 - b.offset) % 2 ^ 64 else size in
    let after = record b { offset = (b.offset + actual) % 2 ^ 64 } in
    if ltb 0 actual
    then if leb (b.offset + size) b.capacity
      then some (actual, copied dest 0 size (λ i. b.bytes (b.offset + i)), after)
      else none
    else some (actual, dest, after)

-- vlBufferCopy between two buffers. `none` is a copy from behind the allocation of the source, or a
-- write whose loop does not end.
pub copy_behind : Buffer → ℕ → Option (ℕ × Buffer) → Option (ℕ × Buffer × Buffer)
copy_behind src n none = none
copy_behind src n (some (at, dest)) =
    if leb (src.offset + n) src.capacity
    then some (n, record src { offset = (src.offset + n) % 2 ^ 64 }, dest)
    else none

pub copy : (ℕ → ℕ) → Buffer → Buffer → ℕ → Option (ℕ × Buffer × Buffer)
unfolding write copy_behind
copy rest src dest len =
    let end = (src.offset + len) % 2 ^ 64 in
    let n = if ltb src.size end then end - src.size else len in
    copy_behind src n (write rest dest n (some (λ i. src.bytes (src.offset + i))))

-- vlBufferReset, vlBufferClear, vlBufferShrinkToFit
pub reset : (ℕ → ℕ) → Buffer → ℕ → Buffer
unfolding resize
reset rest b new_capacity = resize rest (record b { size = 0; offset = 0 }) new_capacity

pub clear : Buffer → Buffer
clear b = record { size = 0; offset = 0; capacity = b.capacity; bytes = λ i. 0 }

pub shrink_to_fit : (ℕ → ℕ) → Buffer → Buffer
unfolding resize
shrink_to_fit rest b = if ltb 0 b.size then resize rest b b.size else b

-- vlBufferClone into an existing buffer: whatever its allocation was, it becomes one of the size of
-- the source's, and its contents are copied.
pub clone : Buffer → Buffer → Buffer
clone src dest = record {
  size = src.size;
  offset = src.offset;
  capacity = src.capacity;
  bytes = src.bytes;
}

-- vlBufferSeek and vlBufferSeekEnd
pub seek : Buffer → ℕ → Buffer
seek b offset = record b { offset = offset }

pub seek_end : Buffer → Buffer
seek_end b = record b { offset = b.size }
