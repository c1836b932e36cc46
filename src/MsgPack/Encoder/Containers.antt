-- ===== src/MsgPack/Encoder/Containers.antt =====
-- The begin and end calls of the encoder of src/core/vl_msgpack_io.c write the header of a container.
use Prim.Native.Nat.{bit_or, bit_and}
use mathlib.Core.List.{append_assoc}
use veritable_lasagna.Base.{
  ℕ, suc, ◌+◌, ◌-◌, ◌/◌, ◌%◌, ◌^◌, ◌<◌, ◌≡◌, refl, ap, ap₂, ◌∙◌, Bool, true, false, List, [], ◌∷◌,
  ◌++◌, leb, if◌then◌else◌, arith, length, inl, inr, Bool-cases,
}
use veritable_lasagna.MsgPack.Bytes.{word_bytes, word_bytes-two, word_bytes-four, or_map, or_array}
use veritable_lasagna.MsgPack.Format.{container_header}
use veritable_lasagna.MsgPack.Encoder.{
  Frame, take, drop, overwrite, frame_elements, encode_frame, resolved,
}

take-behind : (bs xs : List ℕ) (k : ℕ) → take (length bs + k) (bs ++ xs) ≡ bs ++ take k xs
take-behind [] xs k = ap (λ z. take z xs) (omega arith)
take-behind (b ∷ bs) xs k =
    ap (λ z. take z (b ∷ (bs ++ xs))) (suc_sum (length bs) k)
    ∙ ap (λ z. b ∷ z) (take-behind bs xs k)
  where
    suc_sum : (m n : ℕ) → suc m + n ≡ suc (m + n)
    suc_sum m n = omega arith

drop-behind : (bs xs : List ℕ) (k : ℕ) → drop (length bs + k) (bs ++ xs) ≡ drop k xs
drop-behind [] xs k = ap (λ z. drop z xs) (omega arith)
drop-behind (b ∷ bs) xs k =
    ap (λ z. drop z (b ∷ (bs ++ xs))) (suc_sum (length bs) k) ∙ drop-behind bs xs k
  where
    suc_sum : (m n : ℕ) → suc m + n ≡ suc (m + n)
    suc_sum m n = omega arith

overwrite-behind :
    (bs xs src : List ℕ) (k : ℕ)
    → overwrite (bs ++ xs) (length bs + k) src ≡ bs ++ overwrite xs k src
overwrite-behind bs xs src k =
    ap₂ (λ y z. y ++ (src ++ z)) (take-behind bs xs k)
      (ap (λ z. drop z (bs ++ xs)) (omega arith) ∙ drop-behind bs xs (k + length src))
    ∙ append_assoc bs (take k xs) (src ++ drop (k + length src) xs)

-- A frame as it stands when its container ends: it began behind `bs`.
abbrev pub frame_at : List ℕ → Bool → ℕ → Frame
frame_at bs is_array total = record {
  is_array = is_array;
  start_offset = length bs;
  size_offset = length bs + 1;
  data_offset = length bs + 5;
  total_elements = total;
}

fixed_tag :
    (is_array : Bool) (n : ℕ)
    → n < 16
    → bit_or (if is_array then 0x90 else 0x80) (bit_and n 0xF)
      ≡ (if is_array then 144 + n else 128 + n)
fixed_tag true n h = or_array n h
fixed_tag false n h = or_map n h

module _ (bs : List ℕ) (r0 r1 r2 r3 r4 : ℕ) (cs : List ℕ) (is_array : Bool) (total : ℕ) where
  abbrev pub claimed : List ℕ
  claimed = bs ++ (r0 ∷ r1 ∷ r2 ∷ r3 ∷ r4 ∷ cs)

  overwrite_tag :
      (tag : ℕ) → overwrite claimed (length bs) (tag ∷ []) ≡ bs ++ (tag ∷ r1 ∷ r2 ∷ r3 ∷ r4 ∷ cs)
  overwrite_tag tag =
      ap (λ z. overwrite claimed z (tag ∷ [])) (plus_zero (length bs))
      ∙ overwrite-behind bs (r0 ∷ r1 ∷ r2 ∷ r3 ∷ r4 ∷ cs) (tag ∷ []) 0
    where
      plus_zero : (n : ℕ) → n ≡ n + 0
      plus_zero n = omega arith

  resolved_fixed :
      (tag : ℕ)
      → encode_frame (frame_at bs is_array total) ≡ (tag, 4)
      → resolved (frame_at bs is_array total) claimed ≡ bs ++ (tag ∷ cs)
  unfolding resolved
  resolved_fixed tag e =
      let moved = tag ∷ r1 ∷ r2 ∷ r3 ∷ r4 ∷ cs in
      let front : length bs + 5 - 4 ≡ length bs + 1 = omega arith in
      rw (e, overwrite_tag tag, front, take-behind bs moved 1, drop-behind bs moved 5)
        (append_assoc bs (tag ∷ []) cs)

  resolved_two :
      (tag : ℕ)
      → frame_elements (frame_at bs is_array total) < 2 ^ 16
      → encode_frame (frame_at bs is_array total) ≡ (tag, 2)
      → resolved (frame_at bs is_array total) claimed
        ≡ bs ++ ((tag ∷ word_bytes 2 (frame_elements (frame_at bs is_array total))) ++ cs)
  unfolding resolved
  resolved_two tag few e =
      let n = frame_elements (frame_at bs is_array total) in
      let small : n % 2 ^ 16 ≡ n = omega arith in
      let a = n / 256 % 256 in
      let b = n % 256 in
      let moved = tag ∷ a ∷ b ∷ r3 ∷ r4 ∷ cs in
      let front : length bs + 5 - 2 ≡ length bs + 3 = omega arith in
      let size = overwrite-behind bs (tag ∷ r1 ∷ r2 ∷ r3 ∷ r4 ∷ cs) (a ∷ b ∷ []) 1 in
      rw
        (
          e,
          overwrite_tag tag,
          small,
          word_bytes-two n,
          size,
          front,
          take-behind bs moved 3,
          drop-behind bs moved 5,
        )
        (append_assoc bs (tag ∷ a ∷ b ∷ []) cs)

  resolved_four :
      (tag : ℕ)
      → frame_elements (frame_at bs is_array total) < 2 ^ 32
      → encode_frame (frame_at bs is_array total) ≡ (tag, 0)
      → resolved (frame_at bs is_array total) claimed
        ≡ bs ++ ((tag ∷ word_bytes 4 (frame_elements (frame_at bs is_array total))) ++ cs)
  unfolding resolved
  resolved_four tag few e =
      let n = frame_elements (frame_at bs is_array total) in
      let small : n % 2 ^ 32 ≡ n = omega arith in
      let a = n / 256 / 256 / 256 % 256 in
      let b = n / 256 / 256 % 256 in
      let c = n / 256 % 256 in
      let d = n % 256 in
      let size = overwrite-behind bs (tag ∷ r1 ∷ r2 ∷ r3 ∷ r4 ∷ cs) (a ∷ b ∷ c ∷ d ∷ []) 1 in
      rw (e, overwrite_tag tag, small, word_bytes-four n) size

  pub resolved_lem :
      (n : ℕ)
      → frame_elements (frame_at bs is_array total) ≡ n
      → n < 2 ^ 32
      → resolved (frame_at bs is_array total) claimed ≡ bs ++ (container_header is_array n ++ cs)
  unfolding encode_frame
  resolved_lem n size few = elim (Bool-cases (leb n 15)) [
    | inl e ↦ rw e (
        resolved_fixed (if is_array then 144 + n else 128 + n)
          (rw (size, e) (ap (λ z. (z, 4)) (fixed_tag is_array n (ground arith)))))
    | inr e ↦ elim (Bool-cases (leb n 65535)) [
      | inl f ↦
          rw (e, f)
            (resolved_two (if is_array then 220 else 222) (ground arith) (rw (size, e, f) refl)
              ∙ ap (λ z. bs ++ (((if is_array then 220 else 222) ∷ word_bytes 2 z) ++ cs)) size)
      | inr f ↦
          rw (e, f)
            (resolved_four (if is_array then 221 else 223) (omega arith) (rw (size, e, f) refl)
              ∙ ap (λ z. bs ++ (((if is_array then 221 else 223) ∷ word_bytes 4 z) ++ cs)) size)
    ]
  ]
