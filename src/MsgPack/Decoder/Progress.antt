-- ===== src/MsgPack/Decoder/Progress.antt =====
-- Every successful call of the decoder of src/core/vl_msgpack_io.c moves it forward, so that a loop of
-- calls ends.
use veritable_lasagna.Base.{
  ℕ, ◌+◌, ◌-◌, ◌%◌, ◌^◌, ◌≤◌, ◌<◌, ◌≡◌, inl, inr, refl, sym, subst, ap, ◌∙◌, Bool, true, false,
  Option, none, some, List, ltb, ◌==◌, if◌then◌else◌, arith, length, Bool-cases,
}
use veritable_lasagna.MsgPack.{MsgType, IoError}
use veritable_lasagna.MsgPack.Decoder.{
  Token, Decoder, advance, eof_check, read_word, extended, next_ext_bytes, next_ext16, next_ext32,
  next_tagged, next,
}
use veritable_lasagna.MsgPack.Decoder.Bounds.{Safe}
use veritable_lasagna.MsgPack.Decoder.Safety.{next_tagged-Safe}
use veritable_lasagna.MsgPack.Decoder.Documents.{Steps, done, step}

-- The outcome of a call, whatever it reads: the same source, and an offset that has not moved back and
-- is far from wrapping.
record Goes (dec : Decoder) (r : Option Token × Decoder) : Type 0 where
  source : r.1.src_mem ≡ dec.src_mem
  size : r.1.src_len ≡ dec.src_len
  forward : dec.src_offset ≤ r.1.src_offset
  near : r.1.src_offset < 2 ^ 63 + 2 ^ 33

Safe-Goes :
    (old : Token) (dec : Decoder) (r : Option Token × Decoder)
    → dec.src_len < 2 ^ 63
    → Safe old dec r
    → Goes dec r
Safe-Goes old dec r small safe = record {
  source = safe.source;
  size = safe.size;
  forward = safe.forward;
  near = omega (arith, safe.inside);
}

arms-Goes :
    (dec : Decoder) (c : Bool) (a b : Option Token × Decoder)
    → (c ≡ true → Goes dec a)
    → (c ≡ false → Goes dec b)
    → Goes dec (if c then a else b)
arms-Goes dec true a b f g = f refl
arms-Goes dec false a b f g = g refl

module _ (dec : Decoder) (here : dec.src_offset ≤ dec.src_len) (small : dec.src_len < 2 ^ 63) where
  stopped-Goes :
      (type : MsgType) (k : ℕ)
      → k ≤ dec.src_len
      → dec.src_offset ≤ k
      → Goes dec (
        none,
        record dec {
          src_offset = k;
          error = IoError.unexpected_eof;
          error_offset = k;
          error_type = type;
        },
      )
  stopped-Goes type k low high = record {
    source = refl;
    size = refl;
    forward = high;
    near = omega arith;
  }

  -- An extension with any length.
  ext-Goes :
      (n len : ℕ)
      → n < 9
      → Goes dec (eof_check dec MsgType.ext n (next_ext_bytes (advance n dec) len))
  ext-Goes n len few =
      arms-Goes dec (ltb dec.src_len ((dec.src_offset + n) % 2 ^ 64)) _ _
        (λ e. stopped-Goes MsgType.ext dec.src_offset here (omega arith))
        λ e.
          let room : dec.src_offset + n ≤ dec.src_len = ground arith in
          arms-Goes dec
            (ltb dec.src_len (((dec.src_offset + n) % 2 ^ 64 + (len + 1) % 2 ^ 64) % 2 ^ 64)) _ _
            (λ e.
              stopped-Goes MsgType.ext ((dec.src_offset + n) % 2 ^ 64) (omega arith) (omega arith))
            λ e. record { source = refl; size = refl; forward = omega arith; near = omega arith }

  next_tagged-Goes :
      (old : Token) (tag : ℕ)
      → ((i : ℕ) → dec.src_mem i < 256)
      → tag < 256
      → Goes dec (next_tagged old tag dec)
  unfolding next_tagged next_ext16 next_ext32
  next_tagged-Goes old tag narrow byte = elim (Bool-cases (tag == 0xC8)) [
    | inl e ↦
        let same : 0xC8 ≡ tag = ground arith in
        subst (λ z. Goes dec (next_tagged old z dec)) same
          (ext-Goes 2 (extended 16 (read_word dec 2)) (omega arith))
    | inr e ↦ elim (Bool-cases (tag == 0xC9)) [
      | inl f ↦
          let same : 0xC9 ≡ tag = ground arith in
          subst (λ z. Goes dec (next_tagged old z dec)) same
            (ext-Goes 4 (extended 32 (read_word dec 4)) (omega arith))
      | inr f ↦ Safe-Goes old dec (next_tagged old tag dec) small (
          next_tagged-Safe old dec here small narrow tag byte (λ h. absurd (ground arith))
            λ h. absurd (ground arith))
    ]
  ]

-- A call that succeeds started before the end and moves forward.
record Moves (dec dec' : Decoder) : Type 0 where
  before : dec.src_offset + 1 ≤ dec.src_len
  goes : Goes (advance 1 dec) (none, dec')

next-Moves :
    (dec dec' : Decoder) (old tok : Token)
    → dec.src_offset < 2 ^ 63 + 2 ^ 33
    → dec.src_len < 2 ^ 63
    → ((i : ℕ) → dec.src_mem i < 256)
    → next dec old ≡ (some tok, dec')
    → Moves dec dec'
unfolding next
next-Moves dec dec' old tok low small narrow call =
    elim (Bool-cases (ltb dec.src_len ((dec.src_offset + 1) % 2 ^ 64))) [
      | inl e ↦
          let failed : next dec old ≡ (none, dec) = rw e refl in
          absurd (ground (arith, ap (λ z. z.0) (sym failed ∙ call)))
      | inr e ↦
          let room : dec.src_offset + 1 ≤ dec.src_len = ground arith in
          let tag = dec.src_mem dec.src_offset in
          let same : next dec old ≡ next_tagged old tag (advance 1 dec) = rw e refl in
          let outcome =
            next_tagged-Goes (advance 1 dec) (omega arith) small old tag narrow (narrow _) in
          let goes = subst (Goes (advance 1 dec)) (sym same ∙ call) outcome in
          record {
            before = room;
            goes = record {
              source = goes.source;
              size = goes.size;
              forward = goes.forward;
              near = goes.near;
            };
          }
    ]

fewer_tokens :
    (dec dec' : Decoder) (old : Token) (toks : List Token)
    → dec.src_offset < 2 ^ 63 + 2 ^ 33
    → dec.src_len < 2 ^ 63
    → ((i : ℕ) → dec.src_mem i < 256)
    → Steps dec old toks dec'
    → length toks ≤ dec.src_len - dec.src_offset
fewer_tokens dec dec' old toks low small narrow (done d o) = omega arith
fewer_tokens dec dec' old toks low small narrow (step d e f o tok rest call others) =
    let moves = next-Moves d e o tok low small narrow call in
    let goes = moves.goes in
    let fewer =
      fewer_tokens e f tok rest goes.near (subst (λ z. z < 2 ^ 63) (sym goes.size) small)
        (λ i. subst (λ z. z i < 256) (sym goes.source) (narrow i)) others in
    omega (arith, fewer, moves.before, goes.forward, goes.size)

-- Whatever bytes the source holds, successful calls of `next` from an offset inside it deliver at
-- most one token for each byte that is left, so that a loop of calls ends.
pub Steps-bounded :
    (dec dec' : Decoder) (old : Token) (toks : List Token)
    → dec.src_offset ≤ dec.src_len
    → dec.src_len < 2 ^ 63
    → ((i : ℕ) → dec.src_mem i < 256)
    → Steps dec old toks dec'
    → dec.src_offset + length toks ≤ dec.src_len
Steps-bounded dec dec' old toks here small narrow steps =
    omega (arith, fewer_tokens dec dec' old toks (omega arith) small narrow steps)
