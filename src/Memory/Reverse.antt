-- ===== src/Memory/Reverse.antt =====
-- vlMemReverseSubArraysStride of src/core/vl_memory.c.
use veritable_lasagna.Base.{
  ◌%◌, ◌^◌, ℕ, zero, suc, ◌+◌, ◌-◌, ◌*◌, ◌/◌, ◌≤◌, ◌<◌, ◌≡◌, ◌⊎◌, inl, inr, refl, ap, ◌∙◌, true,
  false, ◌&&◌, ltb, leb, ◌==◌, if◌then◌else◌, arith, Bool-cases, ==_iff,
}
use veritable_lasagna.Memory.{set}

-- The inner loop of vlMemReverseSubArraysStride, over the bytes of the memory.
pub reverse_steps : ℕ → (ℕ → ℕ) → ℕ → ℕ → ℕ → ℕ
unfolding set
reverse_steps zero memory first last = memory
reverse_steps (suc steps) memory first last =
    reverse_steps steps (set (set memory last (memory first)) first (memory last)) (first + 1)
      (last - 1)

-- vlMemReverseSubArraysStride from an address on. The number of steps is a word of 32 bits.
pub reverse_sub_arrays : ℕ → (ℕ → ℕ) → ℕ → ℕ → ℕ → ℕ → ℕ
unfolding reverse_steps
reverse_sub_arrays zero memory src stride size = memory
reverse_sub_arrays (suc n) memory src stride size =
    reverse_sub_arrays n (reverse_steps (size / 2 % 2 ^ 32) memory src (src + (size - 1)))
      (src + stride) stride size

-- The bytes of a range in the other direction, and all others.
abbrev mirrored : (ℕ → ℕ) → ℕ → ℕ → ℕ → ℕ
mirrored memory first last x =
    if leb first x && leb x last then memory (first + last - x) else memory x

swapped : (ℕ → ℕ) → ℕ → ℕ → ℕ → ℕ
unfolding set
swapped memory first last = set (set memory last (memory first)) first (memory last)

swapped_first : (memory : ℕ → ℕ) (first last : ℕ) → swapped memory first last first ≡ memory last
unfolding swapped set
swapped_first memory first last = rw ((==_iff first first).1 refl) refl

swapped_last :
    (memory : ℕ → ℕ) (first last x : ℕ)
    → (x == first) ≡ false
    → (x == last) ≡ true
    → swapped memory first last x ≡ memory first
unfolding swapped set
swapped_last memory first last x h k = rw (h, k) refl

swapped_other :
    (memory : ℕ → ℕ) (first last x : ℕ)
    → (x == first) ≡ false
    → (x == last) ≡ false
    → swapped memory first last x ≡ memory x
unfolding swapped set
swapped_other memory first last x h k = rw (h, k) refl

-- A swap and the mirrored bytes inside make the mirrored bytes.
mirrored_swap :
    (memory : ℕ → ℕ) (first last x : ℕ)
    → first < last
    → mirrored (swapped memory first last) (first + 1) (last - 1) x ≡ mirrored memory first last x
mirrored_swap memory first last x h = elim (Bool-cases (x == first)) [
  | inl at_first ↦
      let e = (==_iff x first).0 at_first in
      let outside : (leb (first + 1) x && leb x (last - 1)) ≡ false = ground arith in
      let inside : (leb first x && leb x last) ≡ true = ground arith in
      rw (outside, inside)
        (ap (swapped memory first last) e
          ∙ swapped_first memory first last
          ∙ ap memory (omega arith))
  | inr not_first ↦ elim (Bool-cases (x == last)) [
    | inl at_last ↦
        let e = (==_iff x last).0 at_last in
        let outside : (leb (first + 1) x && leb x (last - 1)) ≡ false = ground arith in
        let inside : (leb first x && leb x last) ≡ true = ground arith in
        rw (outside, inside)
          (swapped_last memory first last x not_first at_last ∙ ap memory (omega arith))
    | inr not_last ↦ elim (Bool-cases (leb first x && leb x last)) [
      | inl inside ↦
          let within : (leb (first + 1) x && leb x (last - 1)) ≡ true = ground arith in
          rw (within, inside)
            (swapped_other memory first last (first + 1 + (last - 1) - x) (ground arith)
                (ground arith)
              ∙ ap memory (ground arith))
      | inr outside ↦
          let without : (leb (first + 1) x && leb x (last - 1)) ≡ false = ground arith in
          rw (without, outside) (swapped_other memory first last x not_first not_last)
    ]
  ]
]

-- `steps` is half of the number of bytes.
reverse_steps-mirrored :
    (steps : ℕ) (memory : ℕ → ℕ) (first last size x : ℕ)
    → last + 1 ≡ first + size
    → (size ≡ 2 * steps) ⊎ (size ≡ 2 * steps + 1)
    → reverse_steps steps memory first last x ≡ mirrored memory first last x
unfolding reverse_steps swapped
reverse_steps-mirrored zero memory first last size x e h =
    elim (Bool-cases (leb first x && leb x last)) [
      | inl inside ↦ rw inside (ap memory (ground arith))
      | inr outside ↦ rw outside refl
    ]
reverse_steps-mirrored (suc steps) memory first last size x e h =
    let more : 2 ≤ size = elim h [ inl k ↦ omega arith | inr k ↦ omega arith ] in
    let inner : (size - 2 ≡ 2 * steps) ⊎ (size - 2 ≡ 2 * steps + 1) = elim h [
      | inl k ↦ inl (omega arith)
      | inr k ↦ inr (omega arith)
    ] in
    reverse_steps-mirrored steps (swapped memory first last) (first + 1) (last - 1) (size - 2) x
      (omega arith) inner
    ∙ mirrored_swap memory first last x (omega arith)

half : (n : ℕ) → (n ≡ 2 * (n / 2)) ⊎ (n ≡ 2 * (n / 2) + 1)
half n = elim (Bool-cases (n == 2 * (n / 2))) [
  | inl e ↦ inl ((==_iff n (2 * (n / 2))).0 e)
  | inr e ↦ inr (ground arith)
]

-- One element.
reversed_one :
    (memory : ℕ → ℕ) (src size x : ℕ)
    → 1 ≤ size
    → size < 2 ^ 33
    → reverse_steps (size / 2 % 2 ^ 32) memory src (src + (size - 1)) x
      ≡ mirrored memory src (src + (size - 1)) x
reversed_one memory src size x h w =
    let steps : size / 2 % 2 ^ 32 ≡ size / 2 = omega arith in
    rw steps (
      reverse_steps-mirrored (size / 2) memory src (src + (size - 1)) size x (omega arith)
        (half size))

reversed_before :
    (n : ℕ) (memory : ℕ → ℕ) (src stride size x : ℕ)
    → 1 ≤ size
    → size < 2 ^ 33
    → x < src
    → reverse_sub_arrays n memory src stride size x ≡ memory x
unfolding reverse_sub_arrays
reversed_before zero memory src stride size x h w k = refl
reversed_before (suc n) memory src stride size x h w k =
    let outside : (leb src x && leb x (src + (size - 1))) ≡ false = ground arith in
    reversed_before n (reverse_steps (size / 2 % 2 ^ 32) memory src (src + (size - 1)))
      (src + stride) stride size x h w (omega arith)
    ∙ reversed_one memory src size x h w
    ∙ rw outside refl

pub one_more : (k stride : ℕ) → suc k * stride ≡ stride + k * stride
one_more k stride = grind arith

-- Where a byte of an element, or of the gap behind it, comes from.
abbrev pub reversed_index : ℕ → ℕ → ℕ
reversed_index size i = if ltb i size then size - 1 - i else i

reversed_here :
    (memory : ℕ → ℕ) (src size i : ℕ)
    → 1 ≤ size
    → mirrored memory src (src + (size - 1)) (src + i) ≡ memory (src + reversed_index size i)
reversed_here memory src size i h = elim (Bool-cases (ltb i size)) [
  | inl less ↦
      let inside : (leb src (src + i) && leb (src + i) (src + (size - 1))) ≡ true = ground arith in
      rw (inside, less) (ap memory (ground arith))
  | inr more ↦
      let outside : (leb src (src + i) && leb (src + i) (src + (size - 1))) ≡ false =
        ground arith in
      rw (outside, more) refl
]

-- Where the elements are not empty and smaller than 2 ^ 33 bytes and the stride is at least their
-- size, `reverse_sub_arrays` turns the bytes of each element round, in its place, and keeps each
-- gap behind one.
pub reverse_sub_arrays_lem :
    (n : ℕ) (memory : ℕ → ℕ) (src stride size k i : ℕ)
    → 1 ≤ size
    → size < 2 ^ 33
    → size ≤ stride
    → k < n
    → i < stride
    → reverse_sub_arrays n memory src stride size (src + k * stride + i)
      ≡ memory (src + k * stride + reversed_index size i)
unfolding reverse_sub_arrays
reverse_sub_arrays_lem zero memory src stride size k i o w a b c = absurd (omega arith)
reverse_sub_arrays_lem (suc n) memory src stride size zero i o w a b c =
    ap (reverse_sub_arrays (suc n) memory src stride size) (omega arith)
    ∙ reversed_before n (reverse_steps (size / 2 % 2 ^ 32) memory src (src + (size - 1)))
        (src + stride) stride size (src + i) o w (omega arith)
    ∙ reversed_one memory src size (src + i) o w
    ∙ reversed_here memory src size i o
    ∙ ap memory (omega arith)
reverse_sub_arrays_lem (suc n) memory src stride size (suc k) i o w a b c =
    let e = one_more k stride in
    let once = reverse_steps (size / 2 % 2 ^ 32) memory src (src + (size - 1)) in
    let there : ℕ = src + stride + k * stride + reversed_index size i in
    let outside : (leb src there && leb there (src + (size - 1))) ≡ false = ground arith in
    ap (reverse_sub_arrays n once (src + stride) stride size) (omega (arith, e))
    ∙ reverse_sub_arrays_lem n once (src + stride) stride size k i o w a (omega arith) c
    ∙ reversed_one memory src size there o w
    ∙ rw outside (ap memory (omega (arith, e)))
