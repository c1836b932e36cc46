-- ===== src/Stack/Lifo.antt =====
-- The stack of vl_stack.c holds the blocks that were pushed, the last one on top.
use veritable_lasagna.Base.{
  ℕ, ◌+◌, ◌%◌, ◌^◌, ◌≤◌, ◌<◌, ◌≡◌, refl, sym, subst, ◌∙◌, false, some, List, [], ◌∷◌, leb, arith,
  length,
}
use veritable_lasagna.Buffer.{Buffer, copied}
use veritable_lasagna.Buffer.Write.{Fits, Claimed, write-Claimed, copied-inside}
use veritable_lasagna.Stack.{
  Stack, word_at, set_word, set_header, aligned_size, init, push, push_value, peek, peek_size, pop,
}
use veritable_lasagna.Stack.Words.{word_at-set_word, word_at-agree, copied-before}

-- A block: its size, and the bytes in it.
abbrev pub Block : Type 0
Block = ℕ × (ℕ → ℕ)

-- The blocks from a header down, the first of which ends at `end` or before.
abbrev pub Chain : (ℕ → ℕ) → ℕ → ℕ → List Block → Type 0
Chain bytes head end [] = (head ≡ 0) × (end ≡ 0)
Chain bytes head end ((size, v) ∷ fs) =
    (head + 16 + size ≤ end)
    × (word_at bytes head ≡ size)
    × ((i : ℕ) → i < size → bytes (head + 16 + i) ≡ v i)
    × Chain bytes (word_at bytes (head + 8)) head fs

pub record IsStack (s : Stack) (fs : List Block) : Type 0 where
  pub fits : Fits s.buffer
  pub inside : s.buffer.offset ≤ s.buffer.size
  pub low : s.head_offset ≤ s.buffer.offset
  pub few : s.depth < 2 ^ 32
  pub counted : s.depth ≡ length fs
  pub blocks : Chain s.buffer.bytes s.head_offset s.buffer.offset fs

-- Only the bytes below the end matter.
Chain-agree :
    (f g : ℕ → ℕ) (head end : ℕ) (fs : List Block)
    → ((i : ℕ) → i < end → g i ≡ f i)
    → Chain f head end fs
    → Chain g head end fs
Chain-agree f g head end [] same c = c
Chain-agree f g head end ((size, v) ∷ fs) same (room, here, bytes, below) =
    let sized = word_at-agree g f head λ i low high. same i (omega arith) in
    let link = word_at-agree g f (head + 8) λ i low high. same i (omega arith) in
    (
      room,
      sized ∙ here,
      (λ i h. same (head + 16 + i) (omega arith) ∙ bytes i h),
      subst (λ z. Chain g z head fs) (sym link)
          (Chain-agree f g (word_at f (head + 8)) head fs (λ i h. same i (omega arith)) below),
    )

-- The bytes of a new header, of the block behind it, and of those before it.
module _ (bytes v : ℕ → ℕ) (at size previous : ℕ) where
  abbrev stored : ℕ → ℕ
  stored = copied (set_header bytes at size previous) (at + 16) size v

  stored_size : size < 2 ^ 64 → word_at stored at ≡ size
  stored_size h =
      word_at-agree stored (set_word bytes at size) at (λ i low high.
        copied-before (set_header bytes at size previous) (at + 16) size i v (omega arith)
        ∙ copied-before (set_word bytes at size) (at + 8) 8 i _ (omega arith))
      ∙ word_at-set_word bytes at size h

  stored_previous : previous < 2 ^ 64 → word_at stored (at + 8) ≡ previous
  stored_previous h =
      word_at-agree stored (set_header bytes at size previous) (at + 8) (λ i low high.
        copied-before (set_header bytes at size previous) (at + 16) size i v (omega arith))
      ∙ word_at-set_word (set_word bytes at size) (at + 8) previous h

  stored_below : (i : ℕ) → i < at → stored i ≡ bytes i
  stored_below i h =
      copied-before (set_header bytes at size previous) (at + 16) size i v (omega arith)
      ∙ copied-before (set_word bytes at size) (at + 8) 8 i _ (omega arith)
      ∙ copied-before bytes at 8 i _ h

  stored_block : (i : ℕ) → i < size → stored (at + 16 + i) ≡ v i
  stored_block i h = copied-inside (set_header bytes at size previous) (at + 16) size i v h

pub init-IsStack : (raw : ℕ → ℕ) → IsStack (init raw) []
init-IsStack raw = record {
  fits = record { used = omega arith; pos = omega arith; narrow = omega arith };
  inside = omega arith;
  low = omega arith;
  few = omega arith;
  counted = refl;
  blocks = (refl, refl);
}

-- The stack after a push onto it.
abbrev pushed : Stack → (ℕ → ℕ) → ℕ → Buffer → Stack
pushed s src size b = record {
  depth = (s.depth + 1) % 2 ^ 32;
  head_offset = s.buffer.offset;
  buffer = record b { bytes = stored b.bytes src s.buffer.offset size s.head_offset };
}

push_value-pushed :
    (rest : ℕ → ℕ) (s : Stack) (src : ℕ → ℕ) (size : ℕ) (fs : List Block)
    → IsStack s fs
    → s.buffer.offset + size + 24 < 2 ^ 63
    → (b : Buffer) × (push_value rest s src size ≡ some (s.buffer.offset + 16, pushed s src size b))
      × Claimed s.buffer (aligned_size size) s.buffer.offset b
unfolding push_value push
push_value-pushed rest s src size fs is room =
    let (at, b, e, claimed) =
      write-Claimed rest s.buffer (aligned_size size) is.fits (omega arith) in
    let place = claimed.place in
    let next : (at + 16) % 2 ^ 64 ≡ s.buffer.offset + 16 = omega arith in
    (
      b,
      rw (e, push, push_value, next, place) refl,
      subst (λ z. Claimed s.buffer (aligned_size size) z b) place claimed,
    )

-- On a stack of blocks `fs` whose buffer has room below 2 ^ 63, `push_value` succeeds, the stack
-- then has the new block on top of `fs`, and the offset that it returns is that of the block's
-- bytes.
pub push_value-IsStack :
    (rest : ℕ → ℕ) (s : Stack) (src : ℕ → ℕ) (size : ℕ) (fs : List Block)
    → IsStack s fs
    → s.buffer.offset + size + 24 < 2 ^ 63
    → s.depth + 1 < 2 ^ 32
    → (at : ℕ) × (s' : Stack) × (push_value rest s src size ≡ some (at, s'))
      × IsStack s' ((size, src) ∷ fs)
      × ((i : ℕ) → i < size → s'.buffer.bytes (at + i) ≡ src i)
push_value-IsStack rest s src size fs is room few =
    let (b, e, claimed) = push_value-pushed rest s src size fs is room in
    let head = s.buffer.offset in
    let fits = claimed.fits in
    let inside = is.inside in
    let low = is.low in
    let end = claimed.end in
    let link = stored_previous b.bytes src head size s.head_offset (omega arith) in
    let block = stored_block b.bytes src head size s.head_offset in
    let same : (i : ℕ)
        → i < head
        → stored b.bytes src head size s.head_offset i ≡ s.buffer.bytes i =
      λ i h. stored_below b.bytes src head size s.head_offset i h ∙ claimed.old i (omega arith) in
    let below =
      Chain-agree s.buffer.bytes (stored b.bytes src head size s.head_offset) s.head_offset head fs
        same is.blocks in
    (
      head + 16,
      pushed s src size b,
      e,
      record {
        fits = record { used = fits.used; pos = fits.pos; narrow = fits.narrow };
        inside = claimed.covers;
        low = omega (arith, end);
        few = omega arith;
        counted = omega (arith, is.counted);
        blocks = (
          omega (arith, end),
          stored_size b.bytes src head size s.head_offset (omega arith),
          block,
          subst (λ z. Chain (stored b.bytes src head size s.head_offset) z head fs) (sym link)
              below,
        );
      },
      block,
    )

Chain-low : (bytes : ℕ → ℕ) (head end : ℕ) (fs : List Block) → Chain bytes head end fs → head ≤ end
Chain-low bytes head end [] (e, f) = omega arith
Chain-low bytes head end ((size, v) ∷ fs) (room, here, held, below) = omega arith

-- On a stack that is not empty, the peeks show the size and the bytes of the block on top, and
-- `pop` leaves a stack of the blocks below it.
pub pop-IsStack :
    (s : Stack) (size : ℕ) (v : ℕ → ℕ) (fs : List Block)
    → IsStack s ((size, v) ∷ fs)
    → (peek_size s ≡ size) × ((i : ℕ) → i < size → peek s i ≡ v i) × IsStack (pop s) fs
unfolding pop
pop-IsStack s size v fs is =
    let (room, here, bytes, below) = is.blocks in
    let some_left : leb s.depth 0 ≡ false = ground (arith, is.counted) in
    let fits = is.fits in
    let inside = is.inside in
    (
      here,
      bytes,
      rw some_left (record {
        fits = record { used = fits.used; pos = fits.pos; narrow = fits.narrow };
        inside = omega (arith, is.low);
        low =
            Chain-low s.buffer.bytes (word_at s.buffer.bytes (s.head_offset + 8)) s.head_offset fs
              below;
        few = omega arith;
        counted = omega (arith, is.counted, is.few);
        blocks = below;
      }),
    )

-- On a stack of blocks whose depth is below 2 ^ 32 - 1 and whose buffer's offset, the size of the
-- value and 24 bytes are together below 2 ^ 63, a `pop` after `push_value` gives the depth, the
-- head and the write offset back, and leaves every byte below that offset.
pub pop-push_value :
    (rest : ℕ → ℕ) (s : Stack) (src : ℕ → ℕ) (size : ℕ) (fs : List Block)
    → IsStack s fs
    → s.buffer.offset + size + 24 < 2 ^ 63
    → s.depth + 1 < 2 ^ 32
    → (at : ℕ) × (s' : Stack) × (push_value rest s src size ≡ some (at, s'))
      × ((pop s').depth ≡ s.depth)
      × ((pop s').head_offset ≡ s.head_offset)
      × ((pop s').buffer.offset ≡ s.buffer.offset)
      × ((i : ℕ) → i < s.buffer.offset → (pop s').buffer.bytes i ≡ s.buffer.bytes i)
unfolding pop
pop-push_value rest s src size fs is room few =
    let (b, e, claimed) = push_value-pushed rest s src size fs is room in
    let head = s.buffer.offset in
    let inside = is.inside in
    let low = is.low in
    let fits = is.fits in
    let used = fits.used in
    let some_left : leb ((s.depth + 1) % 2 ^ 32) 0 ≡ false = ground arith in
    (
      head + 16,
      pushed s src size b,
      e,
      rw some_left (omega arith),
      rw some_left (stored_previous b.bytes src head size s.head_offset (omega arith)),
      rw some_left refl,
      rw some_left
          λ i h. stored_below b.bytes src head size s.head_offset i h ∙ claimed.old i (omega arith),
    )
