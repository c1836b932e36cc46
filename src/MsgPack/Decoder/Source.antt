-- ===== src/MsgPack/Decoder/Source.antt =====
-- What the cases of the decoder of src/core/vl_msgpack_io.c read from a source that holds given bytes.
use veritable_lasagna.Base.{
  ℕ, zero, suc, ◌+◌, ◌%◌, ◌^◌, ◌≤◌, ◌<◌, ◌≡◌, refl, sym, subst, ap, ◌∙◌, true, false, Option, none,
  some, List, [], ◌∷◌, ◌++◌, ltb, arith, length, length-append,
}
use mathlib.Core.List.{append_assoc}
use veritable_lasagna.MsgPack.{MsgType}
use veritable_lasagna.MsgPack.Bytes.{word_bytes, word_of, word_of-word_bytes, length-word_bytes}
use veritable_lasagna.MsgPack.Decoder.{
  Token, Decoder, ext, advance, bytes_at, read_word, eof_check, next_bytes, next_ext_bytes,
  next_tagged, next,
}

-- The source holds these bytes from an offset on.
abbrev pub Holds : (ℕ → ℕ) → ℕ → List ℕ → Type 0
Holds mem at [] = Unit {0}
Holds mem at (b ∷ bs) = (mem at ≡ b) × Holds mem (at + 1) bs

pub Holds-append :
    (mem : ℕ → ℕ) (at : ℕ) (xs ys : List ℕ)
    → Holds mem at (xs ++ ys)
    → Holds mem at xs × Holds mem (at + length xs) ys
Holds-append mem at [] ys h = (tt, subst (λ z. Holds mem z ys) (omega arith) h)
Holds-append mem at (x ∷ xs) ys (e, h) =
    let (first, second) = Holds-append mem (at + 1) xs ys h in
    ((e, first), subst (λ z. Holds mem z ys) (omega arith) second)

bytes_at-Holds :
    (mem : ℕ → ℕ) (at : ℕ) (bs : List ℕ) → Holds mem at bs → bytes_at mem at (length bs) ≡ bs
bytes_at-Holds mem at [] h = refl
bytes_at-Holds mem at (b ∷ bs) (e, h) = rw (e, bytes_at-Holds mem (at + 1) bs h) refl

-- The decoder at another offset.
abbrev pub moved : Decoder → ℕ → Decoder
moved dec k = record dec { src_offset = k }

-- The call of the decoder that reads these bytes, and leaves the decoder behind them.
abbrev pub Reads : Decoder → Token → List ℕ → Token → Type 0
Reads dec old bytes tok = next dec old ≡ (some tok, moved dec (dec.src_offset + length bytes))

module _ (dec : Decoder) (small : dec.src_len < 2 ^ 63) where
  pub advance-moved : (k n : ℕ) → k + n ≤ dec.src_len → advance n (moved dec k) ≡ moved dec (k + n)
  advance-moved k n h = ap (λ z. record dec { src_offset = z }) (omega arith)

  pub eof_check-passes :
      (k : ℕ) (type : MsgType) (size : ℕ) (rest : Option Token × Decoder)
      → k + size ≤ dec.src_len
      → eof_check (moved dec k) type size rest ≡ rest
  eof_check-passes k type size rest h =
      let inside : ltb dec.src_len ((k + size) % 2 ^ 64) ≡ false = ground arith in rw inside refl

  pub read_word_lem :
      (k n v : ℕ)
      → Holds dec.src_mem k (word_bytes n v)
      → v < 256 ^ n
      → read_word (moved dec k) n ≡ v
  unfolding read_word
  read_word_lem k n v h r =
      ap word_of (
        ap (bytes_at dec.src_mem k) (sym (length-word_bytes n v))
        ∙ bytes_at-Holds dec.src_mem k (word_bytes n v) h)
      ∙ word_of-word_bytes n v r

  -- A case that stores a word.
  pub word_case :
      (k n v : ℕ) (type : MsgType) (token : ℕ → Token)
      → Holds dec.src_mem k (word_bytes n v)
      → v < 256 ^ n
      → k + n ≤ dec.src_len
      → eof_check
          (moved dec k)
          type
          n
          (some (token (read_word (moved dec k) n)), advance n (moved dec k))
        ≡ (some (token v), moved dec (k + n))
  word_case k n v type token h r fits =
      eof_check-passes k type n _ fits ∙ rw (read_word_lem k n v h r, advance-moved k n fits) refl

  pub bytes_case :
      (k len : ℕ) (type : MsgType) (token : ℕ → ℕ → Token)
      → k + len ≤ dec.src_len
      → next_bytes (moved dec k) type token len ≡ (some (token k len), moved dec (k + len))
  bytes_case k len type token fits =
      eof_check-passes k type len _ fits ∙ rw (advance-moved k len fits) refl

  -- A case that stores the place and the length of bytes.
  pub counted_case :
      (k n len : ℕ) (type : MsgType) (token : ℕ → ℕ → Token)
      → Holds dec.src_mem k (word_bytes n len)
      → len < 256 ^ n
      → k + n + len ≤ dec.src_len
      → eof_check
          (moved dec k)
          type
          n
          (next_bytes (advance n (moved dec k)) type token (read_word (moved dec k) n))
        ≡ (some (token (k + n) len), moved dec (k + n + len))
  counted_case k n len type token h r fits =
      eof_check-passes k type n _ (omega arith)
      ∙ ap (λ z. next_bytes (advance n (moved dec k)) type token z) (read_word_lem k n len h r)
      ∙ ap (λ z. next_bytes z type token len) (advance-moved k n (omega arith))
      ∙ bytes_case (k + n) len type token fits

  -- The rest of a case of an extension, where its length is no negative number.
  pub ext_bytes_case :
      (k len type : ℕ)
      → dec.src_mem k ≡ type
      → len < 2 ^ 32
      → k + 1 + len ≤ dec.src_len
      → next_ext_bytes (moved dec k) len ≡ (some (ext type (k + 1) len), moved dec (k + 1 + len))
  ext_bytes_case k len type e r fits =
      let size : (len + 1) % 2 ^ 64 ≡ 1 + len = omega arith in
      let low : len % 2 ^ 32 ≡ len = omega arith in
      let here : (k + 1) % 2 ^ 64 ≡ k + 1 = omega arith in
      rw (size, low, here)
        (eof_check-passes k MsgType.ext (1 + len) _ (omega arith)
          ∙ rw (e, advance-moved (k + 1) len fits) refl)

  -- A case of an extension with a length of `n` bytes, which is read as it was meant.
  pub ext_case :
      (k n len type : ℕ) (read_as : ℕ → ℕ)
      → Holds dec.src_mem k (word_bytes n len)
      → len < 256 ^ n
      → read_as len ≡ len
      → dec.src_mem (k + n) ≡ type
      → len < 2 ^ 32
      → k + n + 1 + len ≤ dec.src_len
      → eof_check
          (moved dec k)
          MsgType.ext
          n
          (next_ext_bytes (advance n (moved dec k)) (read_as (read_word (moved dec k) n)))
        ≡ (some (ext type (k + n + 1) len), moved dec (k + n + 1 + len))
  ext_case k n len type read_as h r same e low fits =
      eof_check-passes k MsgType.ext n _ (omega arith)
      ∙ ap (λ z. next_ext_bytes (advance n (moved dec k)) z)
          (ap read_as (read_word_lem k n len h r) ∙ same)
      ∙ ap (λ z. next_ext_bytes z len) (advance-moved k n (omega arith))
      ∙ ext_bytes_case (k + n) len type e low fits

  -- The call reads the tag and goes on behind it.
  pub next-tag :
      (old : Token) (tag : ℕ)
      → dec.src_mem dec.src_offset ≡ tag
      → dec.src_offset + 1 ≤ dec.src_len
      → next dec old ≡ next_tagged old tag (moved dec (dec.src_offset + 1))
  unfolding next
  next-tag old tag e fits =
      let inside : ltb dec.src_len ((dec.src_offset + 1) % 2 ^ 64) ≡ false = ground arith in
      rw (inside, e) (ap (next_tagged old tag) (advance-moved dec.src_offset 1 fits))

-- The memory of a block of bytes.
abbrev pub memory_of : List ℕ → ℕ → ℕ
memory_of [] i = 0
memory_of (b ∷ bs) zero = b
memory_of (b ∷ bs) (suc i) = memory_of bs i

memory_of-middle : (xs : List ℕ) (b : ℕ) (bs : List ℕ) → memory_of (xs ++ (b ∷ bs)) (length xs) ≡ b
memory_of-middle [] b bs = refl
memory_of-middle (x ∷ xs) b bs = memory_of-middle xs b bs

-- It holds them.
pub memory_of-Holds : (xs ys : List ℕ) → Holds (memory_of (xs ++ ys)) (length xs) ys
memory_of-Holds xs [] = tt
memory_of-Holds xs (b ∷ bs) = (
  memory_of-middle xs b bs,
  subst (λ z. Holds (memory_of (xs ++ (b ∷ bs))) z bs) (length-append xs (b ∷ []))
      (subst (λ z. Holds (memory_of z) (length (xs ++ (b ∷ []))) bs) (append_assoc xs (b ∷ []) bs)
        (memory_of-Holds (xs ++ (b ∷ [])) bs)),
)

-- At the end of the source there is no token and no error.
pub next-end :
    (dec : Decoder) (old : Token)
    → dec.src_offset ≡ dec.src_len
    → dec.src_len < 2 ^ 63
    → next dec old ≡ (none, dec)
unfolding next
next-end dec old e small =
    let over : ltb dec.src_len ((dec.src_offset + 1) % 2 ^ 64) ≡ true = ground arith in rw over refl
