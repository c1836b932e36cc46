-- ===== src/Stack.antt =====
-- src/core/vl_stack.c, include/core/vl/vl_stack.h: a stack of blocks of bytes in a growable buffer.
pub mod Words
pub mod Lifo
mod Examples
use veritable_lasagna.Base.{
  ℕ, zero, suc, ◌+◌, ◌-◌, ◌*◌, ◌/◌, ◌%◌, ◌^◌, Bool, true, false, Option, none, some, ltb, leb,
  if◌then◌else◌,
}
use veritable_lasagna.Buffer.{Buffer, copied, write}

pub record Stack : Type 0 where
  pub depth : ℕ
  pub head_offset : ℕ
  pub buffer : Buffer

-- The number that `n` bytes in memory stand for, the low byte first, and the bytes of a number.
abbrev pub value : ℕ → (ℕ → ℕ) → ℕ
value zero f = 0
value (suc n) f = f 0 + 256 * value n (λ i. f (suc i))

abbrev pub digit : ℕ → ℕ → ℕ
digit v i = v / 256 ^ i % 256

-- A word in memory, and its store.
abbrev pub word_at : (ℕ → ℕ) → ℕ → ℕ
word_at bytes at = value 8 (λ i. bytes (at + i))

abbrev pub set_word : (ℕ → ℕ) → ℕ → ℕ → ℕ → ℕ
set_word bytes at v = copied bytes at 8 (digit v)

-- A `vl_stack_header` at an offset: the size, and the offset of the header below.
abbrev pub set_header : (ℕ → ℕ) → ℕ → ℕ → ℕ → ℕ → ℕ
set_header bytes at size previous = set_word (set_word bytes at size) (at + 8) previous

-- vlStackInit, on an allocation of VL_DEFAULT_MEMORY_SIZE bytes, and vlStackReset
abbrev pub init : (ℕ → ℕ) → Stack
init raw = record {
  depth = 0;
  head_offset = 0;
  buffer = record { size = 0; offset = 0; capacity = 1024; bytes = set_header raw 0 0 0 };
}

abbrev pub reset : Stack → Stack
reset s = record s { depth = 0; head_offset = 0; buffer = record s.buffer { offset = 0 } }

-- VL_MEMORY_PAD_UP of a block with its header, to a multiple of eight: the mask clears three bits.
abbrev pub aligned_size : ℕ → ℕ
aligned_size size = ((size + 16) % 2 ^ 64 + 7) % 2 ^ 64 / 8 * 8

-- vlStackPush, where the allocation succeeds. The result is the offset that is returned, and the stack.
pub push : (ℕ → ℕ) → Stack → ℕ → Option (ℕ × Stack)
push rest s size = elim (write rest s.buffer (aligned_size size) none) [
  | none ↦ none
  | some (head, b) ↦ some (
    (head + 16) % 2 ^ 64,
    record {
      depth = (s.depth + 1) % 2 ^ 32;
      head_offset = head;
      buffer = record b { bytes = set_header b.bytes head size s.head_offset };
    },
  )
]

-- vlStackPushValue
pub push_value : (ℕ → ℕ) → Stack → (ℕ → ℕ) → ℕ → Option (ℕ × Stack)
unfolding push
push_value rest s src size = elim (push rest s size) [
  | none ↦ none
  | some (offset, s') ↦ some (
    offset,
    record s' { buffer = record s'.buffer { bytes = copied s'.buffer.bytes offset size src } },
  )
]

-- vlStackSample, vlStackSampleSize, vlStackPeek and vlStackPeekSize: a pointer is the bytes from it on.
abbrev pub sample : Stack → ℕ → ℕ → ℕ
sample s offset i = s.buffer.bytes (offset + i)

abbrev pub sample_size : Stack → ℕ → ℕ
sample_size s offset = word_at s.buffer.bytes ((offset + 2 ^ 64 - 16) % 2 ^ 64)

abbrev pub peek : Stack → ℕ → ℕ
peek s i = s.buffer.bytes (s.head_offset + 16 + i)

abbrev pub peek_size : Stack → ℕ
peek_size s = word_at s.buffer.bytes s.head_offset

-- vlStackPop
pub pop : Stack → Stack
pop s = if leb s.depth 0 then s else record {
  depth = (s.depth + 2 ^ 32 - 1) % 2 ^ 32;
  head_offset = word_at s.buffer.bytes (s.head_offset + 8);
  buffer = record s.buffer { offset = s.head_offset };
}
