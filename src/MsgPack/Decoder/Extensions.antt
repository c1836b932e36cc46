-- ===== src/MsgPack/Decoder/Extensions.antt =====
-- The decoder of src/core/vl_msgpack_io.c reads extensions back, but for some lengths.
use veritable_lasagna.Base.{
  ℕ, zero, suc, ◌+◌, ◌-◌, ◌^◌, ◌≤◌, ◌<◌, ◌≡◌, ◌⊎◌, inl, inr, refl, sym, subst, ap, ◌∙◌, false, some,
  List, [], ◌∷◌, ◌++◌, leb, arith, length, length-append, Bool-cases,
}
use veritable_lasagna.MsgPack.{MsgType}
use veritable_lasagna.MsgPack.Bytes.{word_bytes, padded, word_bytes-one, length-word_bytes}
use veritable_lasagna.MsgPack.Format.{ext_header, ext_payload, not_short}
use veritable_lasagna.MsgPack.Decoder.{
  Token, Decoder, ext, next_ext8, next_ext16, next_ext32, next_fixext, next_tagged, advance,
  eof_check, read_word, next_ext_bytes, extended,
}
use veritable_lasagna.MsgPack.Decoder.Source.{
  Holds, Holds-append, moved, Reads, ext_bytes_case, ext_case, next-tag,
}

-- The lengths of an extension that the decoder reads as they are: not those whose top bit is set in
-- the field that the encoder chooses.
abbrev pub ExtFits : ℕ → Type 0
ExtFits n = (n < 2 ^ 15) ⊎ ((2 ^ 16 ≤ n) × (n < 2 ^ 31 - 1))

length-padded : (n : ℕ) (v : List ℕ) → length (padded n v) ≡ n
length-padded zero v = refl
length-padded (suc n) [] = omega (arith, length-padded n [])
length-padded (suc n) (b ∷ v) = omega (arith, length-padded n v)

module _ (dec : Decoder) (old : Token) (small : dec.src_len < 2 ^ 63) where
  fixext-Reads :
      (bs : List ℕ) (tag n type : ℕ) (v : List ℕ)
      → bs ≡ tag ∷ type ∷ v
      → length v ≡ n
      → n < 2 ^ 32
      → Holds dec.src_mem dec.src_offset bs
      → dec.src_offset + length bs ≤ dec.src_len
      → (let here = moved dec (dec.src_offset + 1) in
          next_tagged old tag here ≡ next_ext_bytes here n)
      → (at : ℕ) × Reads dec old bs (ext type at (length v)) × Holds dec.src_mem at v
  fixext-Reads bs tag n type v eq size low held fits case =
      let k = dec.src_offset + 1 in
      let (e, (t, h)) = subst (Holds dec.src_mem dec.src_offset) eq held in
      let len : length bs ≡ suc (suc n) = ap length eq ∙ ap (λ z. suc (suc z)) size in
      (
        k + 1,
        next-tag dec small old tag e (omega arith)
            ∙ case
            ∙ ext_bytes_case dec small k n type t low (omega arith)
            ∙ ap (λ z. (some (ext type (k + 1) z), moved dec (k + 1 + n))) (sym size)
            ∙ ap (λ z. (some (ext type (k + 1) (length v)), moved dec z)) (omega arith),
        h,
      )

  longext-Reads :
      (bs : List ℕ) (tag n type : ℕ) (v : List ℕ) (read_as : ℕ → ℕ)
      → bs ≡ (tag ∷ (word_bytes n (length v) ++ (type ∷ []))) ++ v
      → length v < 256 ^ n
      → read_as (length v) ≡ length v
      → length v < 2 ^ 32
      → Holds dec.src_mem dec.src_offset bs
      → dec.src_offset + length bs ≤ dec.src_len
      → (let here = moved dec (dec.src_offset + 1) in
          next_tagged old tag here
          ≡ eof_check here MsgType.ext n
              (next_ext_bytes (advance n here) (read_as (read_word here n))))
      → (at : ℕ) × Reads dec old bs (ext type at (length v)) × Holds dec.src_mem at v
  longext-Reads bs tag n type v read_as eq r same low held fits case =
      let k = dec.src_offset + 1 in
      let size = length-word_bytes n (length v) in
      let (e, h) = subst (Holds dec.src_mem dec.src_offset) eq held in
      let (head, bytes) = Holds-append dec.src_mem k (word_bytes n (length v) ++ (type ∷ [])) v h in
      let (word, (t, end)) =
        Holds-append dec.src_mem k (word_bytes n (length v)) (type ∷ []) head in
      let front : length (word_bytes n (length v) ++ (type ∷ [])) ≡ n + 1 =
        length-append (word_bytes n (length v)) (type ∷ []) ∙ ap (λ z. z + 1) size in
      let len : length bs ≡ suc (n + 1 + length v) =
        ap length eq
        ∙ ap suc (
            length-append (word_bytes n (length v) ++ (type ∷ [])) v
            ∙ ap (λ z. z + length v) front) in
      let place : k + length (word_bytes n (length v) ++ (type ∷ [])) ≡ k + n + 1 =
        omega (arith, front) in
      (
        k + n + 1,
        next-tag dec small old tag e (omega arith)
            ∙ case
            ∙ ext_case dec small k n (length v) type read_as word r same
                (ap (λ z. dec.src_mem (k + z)) (sym size) ∙ t) low (omega arith)
            ∙ ap (λ z. (some (ext type (k + n + 1) (length v)), moved dec z)) (omega arith),
        subst (λ z. Holds dec.src_mem z v) place bytes,
      )

  long_ext-Reads :
      (type : ℕ) (v : List ℕ)
      → leb (length v) 16 ≡ false
      → ExtFits (length v)
      → Holds dec.src_mem dec.src_offset (ext_header type (length v) ++ v)
      → dec.src_offset + length (ext_header type (length v) ++ v) ≤ dec.src_len
      → (at : ℕ) × Reads dec old (ext_header type (length v) ++ v) (ext type at (length v))
        × Holds dec.src_mem at v
  unfolding next_tagged next_ext8 next_ext16 next_ext32
  long_ext-Reads type v f ok h fits =
      let (a, b, c, d) = not_short (length v) f in
      let bs = ext_header type (length v) ++ v in
      elim (Bool-cases (leb (length v) 255)) [
        | inl g ↦
            longext-Reads bs 199 1 type v (λ z. z)
              (rw (a, b, c, d, f, g)
                (ap (λ z. 199 ∷ ((z ++ (type ∷ [])) ++ v))
                  (sym (word_bytes-one (length v) (ground arith)))))
              (ground arith) refl (ground arith) h fits refl
        | inr g ↦ elim (Bool-cases (leb (length v) 65535)) [
          | inl i ↦
              let same : extended 16 (length v) ≡ length v = ground arith in
              longext-Reads bs 200 2 type v (extended 16) (rw (a, b, c, d, f, g, i) refl)
                (ground arith) same (ground arith) h fits refl
          | inr i ↦
              let same : extended 32 (length v) ≡ length v = ground arith in
              longext-Reads bs 201 4 type v (extended 32) (rw (a, b, c, d, f, g, i) refl)
                (ground arith) same (ground arith) h fits refl
        ]
      ]

  padded_ext-Reads :
      (tag n type : ℕ) (v : List ℕ)
      → ext_header type (length v) ≡ tag ∷ type ∷ []
      → ext_payload v ≡ padded n v
      → n < 2 ^ 32
      → Holds dec.src_mem dec.src_offset (ext_header type (length v) ++ ext_payload v)
      → dec.src_offset + length (ext_header type (length v) ++ ext_payload v) ≤ dec.src_len
      → (let here = moved dec (dec.src_offset + 1) in
          next_tagged old tag here ≡ next_ext_bytes here n)
      → (at : ℕ) × Reads dec old
          (ext_header type (length v) ++ ext_payload v)
          (ext type at (length (ext_payload v)))
        × Holds dec.src_mem at (ext_payload v)
  padded_ext-Reads tag n type v head tail low h fits case =
      fixext-Reads (ext_header type (length v) ++ ext_payload v) tag n type (ext_payload v)
        (ap (λ z. z ++ ext_payload v) head) (ap length tail ∙ length-padded n v) low h fits case

  pub ext-Reads :
      (type : ℕ) (v : List ℕ)
      → ExtFits (length v)
      → Holds dec.src_mem dec.src_offset (ext_header type (length v) ++ ext_payload v)
      → dec.src_offset + length (ext_header type (length v) ++ ext_payload v) ≤ dec.src_len
      → (at : ℕ) × Reads dec old
          (ext_header type (length v) ++ ext_payload v)
          (ext type at (length (ext_payload v)))
        × Holds dec.src_mem at (ext_payload v)
  unfolding next_tagged next_fixext
  ext-Reads type v ok h fits = elim (Bool-cases (leb (length v) 1)) [
    | inl e ↦ padded_ext-Reads 212 1 type v (rw e refl) (rw e refl) (omega arith) h fits refl
    | inr a ↦ elim (Bool-cases (leb (length v) 2)) [
      | inl e ↦
          padded_ext-Reads 213 2 type v (rw (a, e) refl) (rw (a, e) refl) (omega arith) h fits refl
      | inr b ↦ elim (Bool-cases (leb (length v) 4)) [
        | inl e ↦
            padded_ext-Reads 214 4 type v (rw (a, b, e) refl) (rw (a, b, e) refl) (omega arith) h
              fits refl
        | inr c ↦ elim (Bool-cases (leb (length v) 8)) [
          | inl e ↦
              padded_ext-Reads 215 8 type v (rw (a, b, c, e) refl) (rw (a, b, c, e) refl)
                (omega arith) h fits refl
          | inr d ↦ elim (Bool-cases (leb (length v) 16)) [
            | inl e ↦
                padded_ext-Reads 216 16 type v (rw (a, b, c, d, e) refl) (rw (a, b, c, d, e) refl)
                  (omega arith) h fits refl
            | inr f ↦
                let whole : ext_payload v ≡ v = rw (a, b, c, d, f) refl in
                let bs = ext_header type (length v) ++ ext_payload v in
                subst
                  (λ z.
                    (at : ℕ) × Reads dec old (ext_header type (length v) ++ z)
                      (ext type at (length z))
                    × Holds dec.src_mem at z)
                  (sym whole)
                  (long_ext-Reads type v f ok
                    (subst (λ z. Holds dec.src_mem dec.src_offset (ext_header type (length v) ++ z))
                      whole h)
                    (subst
                      (λ z. dec.src_offset + length (ext_header type (length v) ++ z) ≤ dec.src_len)
                      whole fits))
          ]
        ]
      ]
    ]
  ]
