-- ===== src/MsgPack/Decoder/Bounds.antt =====
-- The cases of the decoder of src/core/vl_msgpack_io.c stay inside the source, whatever bytes it holds.
use veritable_lasagna.Base.{
  ℕ, zero, suc, ◌+◌, ◌%◌, ◌^◌, ◌≤◌, ◌<◌, ◌≡◌, ◌⊎◌, inr, refl, subst, Bool, true, false, Option,
  none, some, [], ◌∷◌, ltb, if◌then◌else◌, arith, length,
}
use veritable_lasagna.MsgPack.{MsgType}
use veritable_lasagna.MsgPack.Bytes.{AreBytes, word_of, word_of-cons, word_of_below}
use veritable_lasagna.MsgPack.Decoder.{
  Token, Decoder, string, binary, ext, advance, bytes_at, read_word, eof_check, next_bytes,
  next_binary, next_string, next_ext_bytes, next_ext8, next_ext16, next_ext32,
}

-- The bytes of a token end at the end of a source of `len` bytes or before.
abbrev pub Inside : ℕ → Token → Type 0
Inside len (string at n) = at + n ≤ len
Inside len (binary at n) = at + n ≤ len
Inside len (ext type at n) = at + n ≤ len
Inside len tok = Unit {0}

abbrev pub InsideIfAny : ℕ → Option Token → Type 0
InsideIfAny len none = Unit {0}
InsideIfAny len (some tok) = Inside len tok

-- The outcome of a call: the same source, an offset in it that has not moved back, and a token whose
-- bytes are inside.
pub record Safe (old : Token) (dec : Decoder) (r : Option Token × Decoder) : Type 0 where
  pub source : r.1.src_mem ≡ dec.src_mem
  pub size : r.1.src_len ≡ dec.src_len
  pub forward : dec.src_offset ≤ r.1.src_offset
  pub inside : r.1.src_offset ≤ dec.src_len
  pub token : (r.0 ≡ some old) ⊎ InsideIfAny dec.src_len r.0

-- Both arms of a test.
pub arms-Safe :
    (old : Token) (dec : Decoder) (c : Bool) (a b : Option Token × Decoder)
    → (c ≡ true → Safe old dec a)
    → (c ≡ false → Safe old dec b)
    → Safe old dec (if c then a else b)
arms-Safe old dec true a b f g = f refl
arms-Safe old dec false a b f g = g refl

module _ (old : Token) (dec : Decoder) (here : dec.src_offset ≤ dec.src_len)
    (small : dec.src_len < 2 ^ 63) where
  pub eof_check-Safe :
      (type : MsgType) (n : ℕ) (rest : Option Token × Decoder)
      → n < 2 ^ 63
      → (dec.src_offset + n ≤ dec.src_len → Safe old dec rest)
      → Safe old dec (eof_check dec type n rest)
  eof_check-Safe type n rest few safe =
      arms-Safe old dec (ltb dec.src_len ((dec.src_offset + n) % 2 ^ 64)) _ rest
        (λ e. record {
          source = refl;
          size = refl;
          forward = omega arith;
          inside = here;
          token = inr tt;
        })
        λ e. safe (ground arith)

  pub advance-Safe :
      (n : ℕ) (tok : Token)
      → dec.src_offset + n ≤ dec.src_len
      → Inside dec.src_len tok
      → Safe old dec (some tok, advance n dec)
  advance-Safe n tok room within = record {
    source = refl;
    size = refl;
    forward = omega arith;
    inside = omega arith;
    token = inr within;
  }

  pub Safe-advance :
      (n : ℕ) (r : Option Token × Decoder)
      → dec.src_offset + n ≤ dec.src_len
      → Safe old (advance n dec) r
      → Safe old dec r
  Safe-advance n r room safe = record {
    source = safe.source;
    size = safe.size;
    forward = omega (arith, safe.forward);
    inside = safe.inside;
    token = safe.token;
  }

  pub word-Safe :
      (type : MsgType) (n : ℕ) (tok : Token)
      → n < 9
      → Inside dec.src_len tok
      → Safe old dec (eof_check dec type n (some tok, advance n dec))
  word-Safe type n tok few within =
      eof_check-Safe type n _ (omega arith) λ room. advance-Safe n tok room within

bytes_at-AreBytes :
    (mem : ℕ → ℕ) (at n : ℕ) → ((i : ℕ) → mem i < 256) → AreBytes (bytes_at mem at n)
bytes_at-AreBytes mem at zero narrow = tt
bytes_at-AreBytes mem at (suc n) narrow = (narrow at, bytes_at-AreBytes mem (at + 1) n narrow)

length-bytes_at : (mem : ℕ → ℕ) (at n : ℕ) → length (bytes_at mem at n) ≡ n
length-bytes_at mem at zero = refl
length-bytes_at mem at (suc n) = omega (arith, length-bytes_at mem (at + 1) n)

module _ (old : Token) (dec : Decoder) (here : dec.src_offset ≤ dec.src_len)
    (small : dec.src_len < 2 ^ 63) (narrow : (i : ℕ) → dec.src_mem i < 256) where
  read_word_below : (k n : ℕ) → read_word (record dec { src_offset = k }) n < 256 ^ n
  unfolding read_word
  read_word_below k n =
      subst (λ z. word_of (bytes_at dec.src_mem k n) < 256 ^ z) (length-bytes_at dec.src_mem k n)
        (word_of_below (bytes_at dec.src_mem k n) (bytes_at-AreBytes dec.src_mem k n narrow))

  pub next_bytes-Safe :
      (type : MsgType) (tok : ℕ → ℕ → Token) (len : ℕ)
      → len < 2 ^ 32
      → ((at n : ℕ) → at + n ≤ dec.src_len → Inside dec.src_len (tok at n))
      → Safe old dec (next_bytes dec type tok len)
  next_bytes-Safe type tok len few within =
      eof_check-Safe old dec here small type len _ (omega arith) λ room.
        advance-Safe old dec here small len (tok dec.src_offset len) room
          (within dec.src_offset len room)

  pub next_ext_bytes-Safe : (len : ℕ) → len < 2 ^ 32 → Safe old dec (next_ext_bytes dec len)
  next_ext_bytes-Safe len few =
      eof_check-Safe old dec here small MsgType.ext ((len + 1) % 2 ^ 64) _ (omega arith) λ room.
        record {
          source = refl;
          size = refl;
          forward = omega arith;
          inside = omega arith;
          token = inr (omega arith);
        }

module _ (old : Token) (dec : Decoder) (here : dec.src_offset ≤ dec.src_len)
    (small : dec.src_len < 2 ^ 63) (narrow : (i : ℕ) → dec.src_mem i < 256) where
  -- A length of `n` bytes, and what follows it.
  counted-Safe :
      (type : MsgType) (n : ℕ) (rest : ℕ → Decoder → Option Token × Decoder)
      → n < 9
      → (dec.src_offset + n ≤ dec.src_len
          → Safe old (advance n dec) (rest (read_word dec n) (advance n dec)))
      → Safe old dec (eof_check dec type n (rest (read_word dec n) (advance n dec)))
  counted-Safe type n rest few safe =
      eof_check-Safe old dec here small type n _ (omega arith)
        λ room. Safe-advance old dec here small n _ room (safe room)

  pub next_string-Safe : (n : ℕ) → 256 ^ n ≤ 2 ^ 32 → n < 9 → Safe old dec (next_string n dec)
  unfolding next_string
  next_string-Safe n low few =
      counted-Safe MsgType.string n (λ len d. next_bytes d MsgType.string string len) few
        λ room.
          next_bytes-Safe old (advance n dec) (omega arith) small narrow MsgType.string string
            (read_word dec n)
            (omega (arith, read_word_below old dec here small narrow dec.src_offset n)) λ at m h. h

  pub next_binary-Safe : (n : ℕ) → 256 ^ n ≤ 2 ^ 32 → n < 9 → Safe old dec (next_binary n dec)
  unfolding next_binary
  next_binary-Safe n low few =
      counted-Safe MsgType.binary n (λ len d. next_bytes d MsgType.binary binary len) few
        λ room.
          next_bytes-Safe old (advance n dec) (omega arith) small narrow MsgType.binary binary
            (read_word dec n)
            (omega (arith, read_word_below old dec here small narrow dec.src_offset n)) λ at m h. h

  -- An extension whose length is no negative number.
  pub next_ext8-Safe : Safe old dec (next_ext8 dec)
  unfolding next_ext8
  next_ext8-Safe =
      counted-Safe MsgType.ext 1 (λ len d. next_ext_bytes d len) (omega arith)
        λ room.
          next_ext_bytes-Safe old (advance 1 dec) (omega arith) small narrow (read_word dec 1)
            (omega (arith, read_word_below old dec here small narrow dec.src_offset 1))

  pub next_ext16-Safe : dec.src_mem dec.src_offset < 128 → Safe old dec (next_ext16 dec)
  unfolding next_ext16 read_word
  next_ext16-Safe unsigned =
      let mem = dec.src_mem in
      let k = dec.src_offset in
      let word = word_of-cons (mem k) (mem (k + 1) ∷ []) in
      let rest = word_of_below (mem (k + 1) ∷ []) (narrow (k + 1), tt) in
      let low : ltb (read_word dec 2) (2 ^ 15) ≡ true = ground arith in
      rw low (
        counted-Safe MsgType.ext 2 (λ len d. next_ext_bytes d len) (omega arith)
          λ room.
            next_ext_bytes-Safe old (advance 2 dec) (omega arith) small narrow (read_word dec 2)
              (omega (arith, read_word_below old dec here small narrow dec.src_offset 2)))

  pub next_ext32-Safe : dec.src_mem dec.src_offset < 128 → Safe old dec (next_ext32 dec)
  unfolding next_ext32 read_word
  next_ext32-Safe unsigned =
      let mem = dec.src_mem in
      let k = dec.src_offset in
      let others = bytes_at mem (k + 1) 3 in
      let word = word_of-cons (mem k) others in
      let rest = word_of_below others (bytes_at-AreBytes mem (k + 1) 3 narrow) in
      let low : ltb (read_word dec 4) (2 ^ 31) ≡ true = ground arith in
      rw low (
        counted-Safe MsgType.ext 4 (λ len d. next_ext_bytes d len) (omega arith)
          λ room.
            next_ext_bytes-Safe old (advance 4 dec) (omega arith) small narrow (read_word dec 4)
              (omega (arith, read_word_below old dec here small narrow dec.src_offset 4)))
