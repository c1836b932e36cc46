-- ===== src/MsgPack/Encoder/Integers.antt =====
-- The integers that src/core/vl_msgpack_io.c encodes.
use mathlib.Core.List.{append_assoc}
use veritable_lasagna.Base.{
  ℕ, ◌-◌, ◌%◌, ◌^◌, ◌<◌, ◌≡◌, inl, inr, refl, ap, true, List, [], ◌∷◌, ◌++◌, leb, arith, Bool-cases,
}
use veritable_lasagna.MsgPack.Bytes.{pos, negsuc, word_bytes, or_negative, or_positive}
use veritable_lasagna.MsgPack.Encoder.{Encoder, write, increment}
use veritable_lasagna.MsgPack.Encoder.Values.{encode_int, encode_uint}
use veritable_lasagna.MsgPack.Format.{uint_bytes, int_bytes}

pub write-write : (enc : Encoder) (xs ys : List ℕ) → write (write enc xs) ys ≡ write enc (xs ++ ys)
write-write enc xs ys = ap (λ z. record enc { buffer = z }) (append_assoc enc.buffer xs ys)

pub uint_lem :
    (enc : Encoder) (n : ℕ) → n < 2 ^ 64 → encode_uint enc n ≡ write (increment enc) (uint_bytes n)
unfolding encode_uint
uint_lem enc n h = elim (Bool-cases (leb n 255)) [
  | inl e ↦
      let small : n % 2 ^ 8 ≡ n = ground arith in
      rw (e, small) (write-write (increment enc) (0xCC ∷ []) (n ∷ []))
  | inr e ↦ elim (Bool-cases (leb n 65535)) [
    | inl f ↦
        let small : n % 2 ^ 16 ≡ n = ground arith in
        rw (e, f, small) (write-write (increment enc) (0xCD ∷ []) (word_bytes 2 n))
    | inr f ↦ elim (Bool-cases (leb n (2 ^ 32 - 1))) [
      | inl g ↦
          let small : n % 2 ^ 32 ≡ n = ground arith in
          rw (e, f, g, small) (write-write (increment enc) (0xCE ∷ []) (word_bytes 4 n))
      | inr g ↦ rw (e, f, g) (write-write (increment enc) (0xCF ∷ []) (word_bytes 8 n))
    ]
  ]
]

leb-zero : (n : ℕ) → leb 0 n ≡ true
leb-zero n = ground arith

pub int_pos_lem :
    (enc : Encoder) (n : ℕ)
    → n < 2 ^ 63
    → encode_int enc (pos n) ≡ write (increment enc) (int_bytes (pos n))
unfolding encode_int
int_pos_lem enc n h =
    let z = leb-zero n in
    elim (Bool-cases (leb n 127)) [
      | inl e ↦
          let small : n % 2 ^ 8 ≡ n = ground arith in
          rw (z, e, small, or_positive n (ground arith)) refl
      | inr e ↦ elim (Bool-cases (leb n 32767)) [
        | inl f ↦
            let small : n % 2 ^ 16 ≡ n = ground arith in
            rw (z, e, f, small) (write-write (increment enc) (0xD1 ∷ []) (word_bytes 2 n))
        | inr f ↦ elim (Bool-cases (leb n (2 ^ 31 - 1))) [
          | inl g ↦
              let small : n % 2 ^ 32 ≡ n = ground arith in
              rw (z, e, f, g, small) (write-write (increment enc) (0xD2 ∷ []) (word_bytes 4 n))
          | inr g ↦
              let small : n % 2 ^ 64 ≡ n = omega arith in
              rw (z, e, f, g, small) (write-write (increment enc) (0xD3 ∷ []) (word_bytes 8 n))
        ]
      ]
    ]

pub int_negsuc_lem :
    (enc : Encoder) (n : ℕ)
    → n < 2 ^ 63
    → encode_int enc (negsuc n) ≡ write (increment enc) (int_bytes (negsuc n))
unfolding encode_int
int_negsuc_lem enc n h =
    let z = leb-zero n in
    elim (Bool-cases (leb n 30)) [
      | inl e ↦
          let small : n % 2 ^ 8 ≡ n = ground arith in
          rw (z, e, small, or_negative n (ground arith)) refl
      | inr e ↦ elim (Bool-cases (leb n 126)) [
        | inl f ↦
            let small : n % 2 ^ 8 ≡ n = ground arith in
            rw (z, e, f, small) (write-write (increment enc) (0xD0 ∷ []) ((255 - n) ∷ []))
        | inr f ↦ elim (Bool-cases (leb n 32766)) [
          | inl g ↦
              let small : n % 2 ^ 16 ≡ n = ground arith in
              rw (z, e, f, g, small)
                (write-write (increment enc) (0xD1 ∷ []) (word_bytes 2 (65535 - n)))
          | inr g ↦ elim (Bool-cases (leb n (2 ^ 31 - 2))) [
            | inl k ↦
                let small : n % 2 ^ 32 ≡ n = ground arith in
                rw (z, e, f, g, k, small)
                  (write-write (increment enc) (0xD2 ∷ []) (word_bytes 4 (2 ^ 32 - 1 - n)))
            | inr k ↦
                let small : n % 2 ^ 64 ≡ n = omega arith in
                rw (z, e, f, g, k, small)
                  (write-write (increment enc) (0xD3 ∷ []) (word_bytes 8 (2 ^ 64 - 1 - n)))
          ]
        ]
      ]
    ]
