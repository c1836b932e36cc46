-- ===== src/MsgPack/Decoder/Containers.antt =====
-- The decoder of src/core/vl_msgpack_io.c reads the headers of containers back.
use veritable_lasagna.Base.{
  ℕ, ◌+◌, ◌^◌, ◌≤◌, ◌<◌, ◌≡◌, refl, true, false, leb, arith, length, Bool-cases, inl, inr,
}
use veritable_lasagna.MsgPack.{MsgType}
use veritable_lasagna.MsgPack.Bytes.{and_map, and_array}
use veritable_lasagna.MsgPack.Format.{container_header}
use veritable_lasagna.MsgPack.Decoder.{
  Token, Decoder, array, map, next_array, next_map, next_fixed, next_tagged,
}
use veritable_lasagna.MsgPack.Decoder.Numbers.{tag-Reads, Reads-word}
use veritable_lasagna.MsgPack.Decoder.Source.{Holds, Reads, word_case}

module _ (dec : Decoder) (old : Token) (small : dec.src_len < 2 ^ 63) where
  pub array-Reads :
      (n : ℕ)
      → n < 2 ^ 32
      → Holds dec.src_mem dec.src_offset (container_header true n)
      → dec.src_offset + length (container_header true n) ≤ dec.src_len
      → Reads dec old (container_header true n) (array n)
  unfolding next_tagged next_fixed next_array
  array-Reads n few held fits = elim (Bool-cases (leb n 15)) [
    | inl e ↦
        let a : leb (144 + n) 191 ≡ true = ground arith in
        let b : leb (144 + n) 127 ≡ false = ground arith in
        let c : leb 224 (144 + n) ≡ false = ground arith in
        let d : leb 128 (144 + n) ≡ true = ground arith in
        let f : leb (144 + n) 143 ≡ false = ground arith in
        let g : leb 144 (144 + n) ≡ true = ground arith in
        let i : leb (144 + n) 159 ≡ true = ground arith in
        tag-Reads dec old small (container_header true n) (144 + n) (array n) (rw e refl) held fits
          (rw (a, b, c, d, f, g, i, and_array n (ground arith)) refl)
    | inr e ↦ elim (Bool-cases (leb n 65535)) [
      | inl f ↦
          Reads-word dec old small (container_header true n) 220 2 n (array n) (rw (e, f) refl) held
            fits
            λ h room.
              word_case dec small (dec.src_offset + 1) 2 n MsgType.array array h (ground arith) room
      | inr f ↦
          Reads-word dec old small (container_header true n) 221 4 n (array n) (rw (e, f) refl) held
            fits
            λ h room.
              word_case dec small (dec.src_offset + 1) 4 n MsgType.array array h (omega arith) room
    ]
  ]

  pub map-Reads :
      (n : ℕ)
      → n < 2 ^ 32
      → Holds dec.src_mem dec.src_offset (container_header false n)
      → dec.src_offset + length (container_header false n) ≤ dec.src_len
      → Reads dec old (container_header false n) (map n)
  unfolding next_tagged next_fixed next_map
  map-Reads n few held fits = elim (Bool-cases (leb n 15)) [
    | inl e ↦
        let a : leb (128 + n) 191 ≡ true = ground arith in
        let b : leb (128 + n) 127 ≡ false = ground arith in
        let c : leb 224 (128 + n) ≡ false = ground arith in
        let d : leb 128 (128 + n) ≡ true = ground arith in
        let f : leb (128 + n) 143 ≡ true = ground arith in
        tag-Reads dec old small (container_header false n) (128 + n) (map n) (rw e refl) held fits
          (rw (a, b, c, d, f, and_map n (ground arith)) refl)
    | inr e ↦ elim (Bool-cases (leb n 65535)) [
      | inl f ↦
          Reads-word dec old small (container_header false n) 222 2 n (map n) (rw (e, f) refl) held
            fits
            λ h room.
              word_case dec small (dec.src_offset + 1) 2 n MsgType.map map h (ground arith) room
      | inr f ↦
          Reads-word dec old small (container_header false n) 223 4 n (map n) (rw (e, f) refl) held
            fits
            λ h room.
              word_case dec small (dec.src_offset + 1) 4 n MsgType.map map h (omega arith) room
    ]
  ]
