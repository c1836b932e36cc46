-- ===== src/MsgPack/Decoder/Numbers.antt =====
-- The decoder of src/core/vl_msgpack_io.c reads numbers back from their format.
use veritable_lasagna.Base.{
  ℕ, suc, ◌+◌, ◌-◌, ◌*◌, ◌^◌, ◌≤◌, ◌<◌, ◌≡◌, inl, inr, refl, sym, subst, ap, ◌∙◌, true, false, some,
  List, [], ◌∷◌, leb, arith, length, Bool-cases,
}
use veritable_lasagna.MsgPack.{MsgType}
use veritable_lasagna.MsgPack.Bytes.{
  ℤ, pos, negsuc, signed, word_bytes, word_bytes-one, length-word_bytes, and_positive,
}
use veritable_lasagna.MsgPack.Format.{uint_bytes, int_bytes}
use veritable_lasagna.MsgPack.Decoder.{
  Token, Decoder, uinteger, integer, next_uint, next_int, next_fixed, next_tagged,
}
use veritable_lasagna.MsgPack.Decoder.Source.{Holds, moved, word_case, Reads, next-tag}

module _ (dec : Decoder) (old : Token) (small : dec.src_len < 2 ^ 63) where
  -- A tag with a word of `n` bytes behind it.
  pub Reads-word :
      (bs : List ℕ) (tag n v : ℕ) (tok : Token)
      → bs ≡ tag ∷ word_bytes n v
      → Holds dec.src_mem dec.src_offset bs
      → dec.src_offset + length bs ≤ dec.src_len
      → (Holds dec.src_mem (dec.src_offset + 1) (word_bytes n v)
          → dec.src_offset + 1 + n ≤ dec.src_len
          → next_tagged old tag (moved dec (dec.src_offset + 1))
            ≡ (some tok, moved dec (dec.src_offset + 1 + n)))
      → Reads dec old bs tok
  Reads-word bs tag n v tok eq held fits case =
      let (e, h) = subst (Holds dec.src_mem dec.src_offset) eq held in
      let len : length bs ≡ suc n = ap length eq ∙ ap suc (length-word_bytes n v) in
      next-tag dec small old tag e (omega arith)
      ∙ case h (omega arith)
      ∙ ap (λ z. (some tok, moved dec z)) (omega arith)

  uint_word :
      (bs : List ℕ) (tag n v : ℕ)
      → bs ≡ tag ∷ word_bytes n v
      → Holds dec.src_mem dec.src_offset bs
      → dec.src_offset + length bs ≤ dec.src_len
      → v < 256 ^ n
      → next_tagged old tag (moved dec (dec.src_offset + 1))
        ≡ next_uint n (moved dec (dec.src_offset + 1))
      → Reads dec old bs (uinteger v)
  unfolding next_uint
  uint_word bs tag n v eq held fits r case =
      Reads-word bs tag n v (uinteger v) eq held fits
        λ h room. case ∙ word_case dec small (dec.src_offset + 1) n v MsgType.uint uinteger h r room

  pub uint-Reads :
      (v : ℕ)
      → v < 2 ^ 64
      → Holds dec.src_mem dec.src_offset (uint_bytes v)
      → dec.src_offset + length (uint_bytes v) ≤ dec.src_len
      → Reads dec old (uint_bytes v) (uinteger v)
  unfolding next_tagged
  uint-Reads v r h fits = elim (Bool-cases (leb v 255)) [
    | inl e ↦
        uint_word (uint_bytes v) 204 1 v
          (rw e (ap (λ z. 204 ∷ z) (sym (word_bytes-one v (ground arith))))) h fits (ground arith)
          refl
    | inr e ↦ elim (Bool-cases (leb v 65535)) [
      | inl f ↦ uint_word (uint_bytes v) 205 2 v (rw (e, f) refl) h fits (ground arith) refl
      | inr f ↦ elim (Bool-cases (leb v (2 ^ 32 - 1))) [
        | inl g ↦ uint_word (uint_bytes v) 206 4 v (rw (e, f, g) refl) h fits (ground arith) refl
        | inr g ↦ uint_word (uint_bytes v) 207 8 v (rw (e, f, g) refl) h fits (omega arith) refl
      ]
    ]
  ]

  int_word :
      (bs : List ℕ) (tag n v : ℕ) (z : ℤ)
      → bs ≡ tag ∷ word_bytes n v
      → Holds dec.src_mem dec.src_offset bs
      → dec.src_offset + length bs ≤ dec.src_len
      → v < 256 ^ n
      → signed (8 * n) v ≡ z
      → next_tagged old tag (moved dec (dec.src_offset + 1))
        ≡ next_int n (moved dec (dec.src_offset + 1))
      → Reads dec old bs (integer z)
  unfolding next_int
  int_word bs tag n v z eq held fits r sign case =
      Reads-word bs tag n v (integer z) eq held fits λ h room.
        case
        ∙ word_case dec small (dec.src_offset + 1) n v MsgType.int (λ u. integer (signed (8 * n) u))
            h r room
        ∙ ap (λ u. (some (integer u), moved dec (dec.src_offset + 1 + n))) sign

  -- A tag that has its value in itself.
  pub tag-Reads :
      (bs : List ℕ) (tag : ℕ) (tok : Token)
      → bs ≡ tag ∷ []
      → Holds dec.src_mem dec.src_offset bs
      → dec.src_offset + length bs ≤ dec.src_len
      → next_tagged old tag (moved dec (dec.src_offset + 1))
        ≡ (some tok, moved dec (dec.src_offset + 1))
      → Reads dec old bs tok
  tag-Reads bs tag tok eq held fits case =
      let (e, h) = subst (Holds dec.src_mem dec.src_offset) eq held in
      let len : length bs ≡ 1 = ap length eq in
      next-tag dec small old tag e (omega arith)
      ∙ case
      ∙ ap (λ z. (some tok, moved dec z)) (omega arith)

  pub pos-Reads :
      (n : ℕ)
      → n < 2 ^ 63
      → Holds dec.src_mem dec.src_offset (int_bytes (pos n))
      → dec.src_offset + length (int_bytes (pos n)) ≤ dec.src_len
      → Reads dec old (int_bytes (pos n)) (integer (pos n))
  unfolding next_tagged next_fixed
  pos-Reads n r h fits = elim (Bool-cases (leb n 127)) [
    | inl e ↦
        let low : leb n 191 ≡ true = ground arith in
        tag-Reads (int_bytes (pos n)) n (integer (pos n)) (rw e refl) h fits
          (rw (low, e, and_positive n (ground arith)) refl)
    | inr e ↦ elim (Bool-cases (leb n 32767)) [
      | inl f ↦
          let sign : signed 16 n ≡ pos n = ground arith in
          int_word (int_bytes (pos n)) 209 2 n (pos n) (rw (e, f) refl) h fits (ground arith) sign
            refl
      | inr f ↦ elim (Bool-cases (leb n (2 ^ 31 - 1))) [
        | inl g ↦
            let sign : signed 32 n ≡ pos n = ground arith in
            int_word (int_bytes (pos n)) 210 4 n (pos n) (rw (e, f, g) refl) h fits (ground arith)
              sign refl
        | inr g ↦
            let sign : signed 64 n ≡ pos n = ground arith in
            int_word (int_bytes (pos n)) 211 8 n (pos n) (rw (e, f, g) refl) h fits (omega arith)
              sign refl
      ]
    ]
  ]

  pub negsuc-Reads :
      (n : ℕ)
      → n < 2 ^ 63
      → Holds dec.src_mem dec.src_offset (int_bytes (negsuc n))
      → dec.src_offset + length (int_bytes (negsuc n)) ≤ dec.src_len
      → Reads dec old (int_bytes (negsuc n)) (integer (negsuc n))
  unfolding next_tagged next_fixed
  negsuc-Reads n r h fits = elim (Bool-cases (leb n 30)) [
    | inl e ↦
        let low : leb (255 - n) 191 ≡ false = ground arith in
        let high : leb 224 (255 - n) ≡ true = ground arith in
        let low' : leb (255 - n) 127 ≡ false = ground arith in
        let sign : signed 8 (255 - n) ≡ negsuc n = ground arith in
        tag-Reads (int_bytes (negsuc n)) (255 - n) (integer (negsuc n)) (rw e refl) h fits
          (rw (low, high, low') (ap (λ z. (some (integer z), moved dec (dec.src_offset + 1))) sign))
    | inr e ↦ elim (Bool-cases (leb n 126)) [
      | inl f ↦
          let sign : signed 8 (255 - n) ≡ negsuc n = ground arith in
          int_word (int_bytes (negsuc n)) 208 1 (255 - n) (negsuc n)
            (rw (e, f) (ap (λ z. 208 ∷ z) (sym (word_bytes-one (255 - n) (omega arith))))) h fits
            (omega arith) sign refl
      | inr f ↦ elim (Bool-cases (leb n 32766)) [
        | inl g ↦
            let sign : signed 16 (65535 - n) ≡ negsuc n = ground arith in
            int_word (int_bytes (negsuc n)) 209 2 (65535 - n) (negsuc n) (rw (e, f, g) refl) h fits
              (omega arith) sign refl
        | inr g ↦ elim (Bool-cases (leb n (2 ^ 31 - 2))) [
          | inl k ↦
              let sign : signed 32 (2 ^ 32 - 1 - n) ≡ negsuc n = ground arith in
              int_word (int_bytes (negsuc n)) 210 4 (2 ^ 32 - 1 - n) (negsuc n)
                (rw (e, f, g, k) refl) h fits (omega arith) sign refl
          | inr k ↦
              let sign : signed 64 (2 ^ 64 - 1 - n) ≡ negsuc n = ground arith in
              int_word (int_bytes (negsuc n)) 211 8 (2 ^ 64 - 1 - n) (negsuc n)
                (rw (e, f, g, k) refl) h fits (omega arith) sign refl
        ]
      ]
    ]
  ]
