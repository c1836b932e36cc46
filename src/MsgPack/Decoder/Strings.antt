-- ===== src/MsgPack/Decoder/Strings.antt =====
-- The decoder of src/core/vl_msgpack_io.c reads strings, binaries and extensions back.
use veritable_lasagna.Base.{
  ℕ, suc, ◌+◌, ◌^◌, ◌≤◌, ◌<◌, ◌≡◌, inl, inr, refl, sym, subst, ap, ◌∙◌, true, false, some, List,
  ◌∷◌, ◌++◌, leb, arith, length, length-append, Bool-cases,
}
use veritable_lasagna.MsgPack.{MsgType}
use veritable_lasagna.MsgPack.Bytes.{word_bytes, word_bytes-one, length-word_bytes, and_string}
use veritable_lasagna.MsgPack.Format.{string_header, binary_header}
use veritable_lasagna.MsgPack.Decoder.{
  Token, Decoder, string, binary, next_string, next_binary, next_fixed, next_tagged, next_bytes,
  advance, eof_check, read_word,
}
use veritable_lasagna.MsgPack.Decoder.Source.{
  Holds, Holds-append, moved, Reads, bytes_case, counted_case, next-tag,
}

module _ (dec : Decoder) (old : Token) (small : dec.src_len < 2 ^ 63) where
  -- A tag, a length of `n` bytes, and as many bytes.
  counted-Reads :
      (bs : List ℕ) (tag n : ℕ) (v : List ℕ) (type : MsgType) (token : ℕ → ℕ → Token)
      → bs ≡ (tag ∷ word_bytes n (length v)) ++ v
      → Holds dec.src_mem dec.src_offset bs
      → dec.src_offset + length bs ≤ dec.src_len
      → length v < 256 ^ n
      → (let here = moved dec (dec.src_offset + 1) in
          next_tagged old tag here
          ≡ eof_check here type n (next_bytes (advance n here) type token (read_word here n)))
      → (at : ℕ) × Reads dec old bs (token at (length v)) × Holds dec.src_mem at v
  counted-Reads bs tag n v type token eq held fits r case =
      let k = dec.src_offset + 1 in
      let (e, h) = subst (Holds dec.src_mem dec.src_offset) eq held in
      let (word, bytes) = Holds-append dec.src_mem k (word_bytes n (length v)) v h in
      let len : length bs ≡ suc (n + length v) =
        ap length eq
        ∙ ap suc (
            length-append (word_bytes n (length v)) v
            ∙ ap (λ z. z + length v) (length-word_bytes n (length v))) in
      (
        k + n,
        next-tag dec small old tag e (omega arith)
            ∙ case
            ∙ counted_case dec small k n (length v) type token word r (omega arith)
            ∙ ap (λ z. (some (token (k + n) (length v)), moved dec z)) (omega arith),
        subst (λ z. Holds dec.src_mem (k + z) v) (length-word_bytes n (length v)) bytes,
      )

  -- A tag with a length in itself, and as many bytes.
  fixstr-Reads :
      (v : List ℕ)
      → leb (length v) 31 ≡ true
      → Holds dec.src_mem dec.src_offset ((160 + length v) ∷ v)
      → dec.src_offset + suc (length v) ≤ dec.src_len
      → Reads dec old ((160 + length v) ∷ v) (string (dec.src_offset + 1) (length v))
  unfolding next_tagged next_fixed
  fixstr-Reads v short (e, h) fits =
      let n = length v in
      let k = dec.src_offset + 1 in
      let a : leb (160 + n) 191 ≡ true = ground arith in
      let b : leb (160 + n) 127 ≡ false = ground arith in
      let c : leb 224 (160 + n) ≡ false = ground arith in
      let d : leb 128 (160 + n) ≡ true = ground arith in
      let f : leb (160 + n) 143 ≡ false = ground arith in
      let g : leb 144 (160 + n) ≡ true = ground arith in
      let i : leb (160 + n) 159 ≡ false = ground arith in
      let j : leb 160 (160 + n) ≡ true = ground arith in
      next-tag dec small old (160 + n) e (omega arith)
      ∙ rw (a, b, c, d, f, g, i, j, and_string n (ground arith))
          (bytes_case dec small k n MsgType.string string (omega arith)
            ∙ ap (λ z. (some (string k n), moved dec z)) (omega arith))

  pub string-Reads :
      (v : List ℕ)
      → length v < 2 ^ 32
      → Holds dec.src_mem dec.src_offset (string_header (length v) ++ v)
      → dec.src_offset + length (string_header (length v) ++ v) ≤ dec.src_len
      → (at : ℕ) × Reads dec old (string_header (length v) ++ v) (string at (length v))
        × Holds dec.src_mem at v
  unfolding next_tagged next_string
  string-Reads v r h fits = elim (Bool-cases (leb (length v) 31)) [
    | inl e ↦
        let eq : string_header (length v) ++ v ≡ (160 + length v) ∷ v = rw e refl in
        let (tag, held) = subst (Holds dec.src_mem dec.src_offset) eq h in
        (
          dec.src_offset + 1,
          subst (λ z. Reads dec old z (string (dec.src_offset + 1) (length v))) (sym eq)
              (fixstr-Reads v e (tag, held)
                (subst (λ z. dec.src_offset + length z ≤ dec.src_len) eq fits)),
          held,
        )
    | inr e ↦ elim (Bool-cases (leb (length v) 255)) [
      | inl f ↦
          counted-Reads (string_header (length v) ++ v) 217 1 v MsgType.string string
            (rw (e, f) (ap (λ z. 217 ∷ (z ++ v)) (sym (word_bytes-one (length v) (ground arith)))))
            h fits (ground arith) refl
      | inr f ↦ elim (Bool-cases (leb (length v) 65535)) [
        | inl g ↦
            counted-Reads (string_header (length v) ++ v) 218 2 v MsgType.string string
              (rw (e, f, g) refl) h fits (ground arith) refl
        | inr g ↦
            counted-Reads (string_header (length v) ++ v) 219 4 v MsgType.string string
              (rw (e, f, g) refl) h fits (omega arith) refl
      ]
    ]
  ]

  pub binary-Reads :
      (v : List ℕ)
      → length v < 2 ^ 32
      → Holds dec.src_mem dec.src_offset (binary_header (length v) ++ v)
      → dec.src_offset + length (binary_header (length v) ++ v) ≤ dec.src_len
      → (at : ℕ) × Reads dec old (binary_header (length v) ++ v) (binary at (length v))
        × Holds dec.src_mem at v
  unfolding next_tagged next_binary
  binary-Reads v r h fits = elim (Bool-cases (leb (length v) 255)) [
    | inl f ↦
        counted-Reads (binary_header (length v) ++ v) 196 1 v MsgType.binary binary
          (rw f (ap (λ z. 196 ∷ (z ++ v)) (sym (word_bytes-one (length v) (ground arith))))) h fits
          (ground arith) refl
    | inr f ↦ elim (Bool-cases (leb (length v) 65535)) [
      | inl g ↦
          counted-Reads (binary_header (length v) ++ v) 197 2 v MsgType.binary binary
            (rw (f, g) refl) h fits (ground arith) refl
      | inr g ↦
          counted-Reads (binary_header (length v) ++ v) 198 4 v MsgType.binary binary
            (rw (f, g) refl) h fits (omega arith) refl
    ]
  ]
