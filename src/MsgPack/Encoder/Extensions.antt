-- ===== src/MsgPack/Encoder/Extensions.antt =====
-- The extensions that src/core/vl_msgpack_io.c encodes.
use veritable_lasagna.Base.{
  ℕ, ◌%◌, ◌^◌, ◌<◌, ◌≡◌, inl, inr, refl, sym, ap, ◌∙◌, false, List, [], ◌∷◌, ◌++◌, leb,
  if◌then◌else◌, arith, length, Bool-cases,
}
use veritable_lasagna.MsgPack.Bytes.{word_bytes, padded}
use veritable_lasagna.MsgPack.Encoder.{Encoder, write, increment, write_word}
use veritable_lasagna.MsgPack.Encoder.Values.{encode_fixext, encode_longext, encode_ext}
use veritable_lasagna.MsgPack.Format.{ext_header, ext_payload, not_short}
use veritable_lasagna.MsgPack.Encoder.Integers.{write-write}

-- What is written before the bytes of an extension that is longer than sixteen bytes.
ext_written :
    (enc : Encoder) (type n : ℕ)
    → n < 2 ^ 32
    → leb n 16 ≡ false
    → write
        (if leb n 0xFF
          then write (write enc (0xC7 ∷ [])) ((n % 2 ^ 8) ∷ [])
          else if leb n 0xFFFF
          then write_word enc 0xC8 2 (n % 2 ^ 16)
          else write_word enc 0xC9 4 (n % 2 ^ 32))
        (type ∷ [])
      ≡ write enc (ext_header type n)
ext_written enc type n h long =
    let a : leb n 1 ≡ false = ground arith in
    let b : leb n 2 ≡ false = ground arith in
    let c : leb n 4 ≡ false = ground arith in
    let d : leb n 8 ≡ false = ground arith in
    elim (Bool-cases (leb n 255)) [
      | inl f ↦
          let small : n % 2 ^ 8 ≡ n = ground arith in
          rw (a, b, c, d, long, f, small)
            (ap (λ z. write z (type ∷ [])) (write-write enc (0xC7 ∷ []) (n ∷ []))
              ∙ write-write enc (0xC7 ∷ n ∷ []) (type ∷ []))
      | inr f ↦ elim (Bool-cases (leb n 65535)) [
        | inl g ↦
            let small : n % 2 ^ 16 ≡ n = ground arith in
            rw (a, b, c, d, long, f, g, small)
              (ap (λ z. write z (type ∷ [])) (write-write enc (0xC8 ∷ []) (word_bytes 2 n))
                ∙ write-write enc (0xC8 ∷ word_bytes 2 n) (type ∷ []))
        | inr g ↦
            let small : n % 2 ^ 32 ≡ n = omega arith in
            rw (a, b, c, d, long, f, g, small)
              (ap (λ z. write z (type ∷ [])) (write-write enc (0xC9 ∷ []) (word_bytes 4 n))
                ∙ write-write enc (0xC9 ∷ word_bytes 4 n) (type ∷ []))
      ]
    ]

fixext_lem :
    (enc : Encoder) (tag n type : ℕ) (v : List ℕ)
    → encode_fixext enc tag n type v ≡ write enc ((tag ∷ type ∷ []) ++ padded n v)
unfolding encode_fixext
fixext_lem enc tag n type v =
    ap (λ z. write z (padded n v)) (write-write enc (tag ∷ []) (type ∷ []))
    ∙ write-write enc (tag ∷ type ∷ []) (padded n v)

ext_payload-long : (v : List ℕ) → leb (length v) 16 ≡ false → ext_payload v ≡ v
ext_payload-long v f = let (a, b, c, d) = not_short (length v) f in rw (a, b, c, d, f) refl

encode_ext-long :
    (enc : Encoder) (type : ℕ) (v : List ℕ)
    → leb (length v) 16 ≡ false
    → encode_ext enc type v ≡ encode_longext (increment enc) type v
unfolding encode_ext
encode_ext-long enc type v f = let (a, b, c, d) = not_short (length v) f in rw (a, b, c, d, f) refl

longext_lem :
    (enc : Encoder) (type : ℕ) (v : List ℕ)
    → length v < 2 ^ 32
    → leb (length v) 16 ≡ false
    → encode_longext enc type v ≡ write enc (ext_header type (length v) ++ v)
unfolding encode_longext
longext_lem enc type v h f =
    ap (λ z. write z v) (ext_written enc type (length v) h f)
    ∙ write-write enc (ext_header type (length v)) v

pub ext_lem :
    (enc : Encoder) (type : ℕ) (v : List ℕ)
    → length v < 2 ^ 32
    → encode_ext enc type v ≡ write (increment enc) (ext_header type (length v) ++ ext_payload v)
unfolding encode_ext
ext_lem enc type v h = elim (Bool-cases (leb (length v) 1)) [
  | inl e ↦ rw e (fixext_lem (increment enc) 0xD4 1 type v)
  | inr a ↦ elim (Bool-cases (leb (length v) 2)) [
    | inl e ↦ rw (a, e) (fixext_lem (increment enc) 0xD5 2 type v)
    | inr b ↦ elim (Bool-cases (leb (length v) 4)) [
      | inl e ↦ rw (a, b, e) (fixext_lem (increment enc) 0xD6 4 type v)
      | inr c ↦ elim (Bool-cases (leb (length v) 8)) [
        | inl e ↦ rw (a, b, c, e) (fixext_lem (increment enc) 0xD7 8 type v)
        | inr d ↦ elim (Bool-cases (leb (length v) 16)) [
          | inl e ↦ rw (a, b, c, d, e) (fixext_lem (increment enc) 0xD8 16 type v)
          | inr f ↦
              encode_ext-long enc type v f
              ∙ longext_lem (increment enc) type v h f
              ∙ ap (λ z. write (increment enc) (ext_header type (length v) ++ z))
                  (sym (ext_payload-long v f))
        ]
      ]
    ]
  ]
]
