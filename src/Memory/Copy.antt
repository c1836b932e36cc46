-- ===== src/Memory/Copy.antt =====
-- vlMemCopyStride of src/core/vl_memory.c.
use veritable_lasagna.Base.{
  ℕ, zero, suc, ◌+◌, ◌*◌, ◌≤◌, ◌<◌, ◌≡◌, refl, ap, ◌∙◌, false, ◌&&◌, ◌==◌, if◌then◌else◌, arith,
}
use veritable_lasagna.Buffer.{copied}
use veritable_lasagna.Buffer.Write.{copied-inside, copied-outside}
use veritable_lasagna.Memory.Reverse.{one_more}

-- The loop of vlMemCopyStride, and vlMemCopyStride, between two memories.
pub copy_elements : ℕ → (ℕ → ℕ) → ℕ → ℕ → (ℕ → ℕ) → ℕ → ℕ → ℕ → ℕ → ℕ
copy_elements zero memory src src_stride dest to dst_stride size = dest
copy_elements (suc n) memory src src_stride dest to dst_stride size =
    copy_elements n memory (src + src_stride) src_stride
      (copied dest to size (λ i. memory (src + i))) (to + dst_stride) dst_stride size

pub copy_stride : ℕ → (ℕ → ℕ) → ℕ → ℕ → (ℕ → ℕ) → ℕ → ℕ → ℕ → ℕ → ℕ
unfolding copy_elements
copy_stride n memory src src_stride dest to dst_stride size =
    if (dst_stride == 0) && (src_stride == 0)
    then copied dest to (size * n) (λ i. memory (src + i))
    else copy_elements n memory src src_stride dest to dst_stride size

-- What is copied to elements that do not overlap.
copied_before :
    (n : ℕ) (memory : ℕ → ℕ) (src src_stride : ℕ) (dest : ℕ → ℕ) (to dst_stride size x : ℕ)
    → x < to
    → copy_elements n memory src src_stride dest to dst_stride size x ≡ dest x
unfolding copy_elements
copied_before zero memory src src_stride dest to dst_stride size x h = refl
copied_before (suc n) memory src src_stride dest to dst_stride size x h =
    copied_before n memory (src + src_stride) src_stride
      (copied dest to size (λ i. memory (src + i))) (to + dst_stride) dst_stride size x
      (omega arith)
    ∙ copied-outside dest to size x (λ i. memory (src + i)) (ground arith)

copy_elements_lem :
    (n : ℕ) (memory : ℕ → ℕ) (src src_stride : ℕ) (dest : ℕ → ℕ) (to dst_stride size k i : ℕ)
    → size ≤ dst_stride
    → k < n
    → i < size
    → copy_elements n memory src src_stride dest to dst_stride size (to + k * dst_stride + i)
      ≡ memory (src + k * src_stride + i)
unfolding copy_elements
copy_elements_lem zero memory src src_stride dest to dst_stride size k i a b c =
    absurd (omega arith)
copy_elements_lem (suc n) memory src src_stride dest to dst_stride size zero i a b c =
    let once = copied dest to size (λ j. memory (src + j)) in
    ap (copy_elements n memory (src + src_stride) src_stride once (to + dst_stride) dst_stride size)
      (omega arith)
    ∙ copied_before n memory (src + src_stride) src_stride once (to + dst_stride) dst_stride size
        (to + i) (omega arith)
    ∙ copied-inside dest to size i (λ j. memory (src + j)) c
    ∙ ap memory (omega arith)
copy_elements_lem (suc n) memory src src_stride dest to dst_stride size (suc k) i a b c =
    let once = copied dest to size (λ j. memory (src + j)) in
    ap (copy_elements n memory (src + src_stride) src_stride once (to + dst_stride) dst_stride size)
      (omega (arith, one_more k dst_stride))
    ∙ copy_elements_lem n memory (src + src_stride) src_stride once (to + dst_stride) dst_stride
        size k i a (omega arith) c
    ∙ ap memory (omega (arith, one_more k src_stride))

-- Where the stride of the destination is at least the size of an element, `copy_stride` makes each
-- byte of each element of the destination that of the source at the same place in the same
-- element.
pub copy_stride_lem :
    (n : ℕ) (memory : ℕ → ℕ) (src src_stride : ℕ) (dest : ℕ → ℕ) (to dst_stride size k i : ℕ)
    → size ≤ dst_stride
    → k < n
    → i < size
    → copy_stride n memory src src_stride dest to dst_stride size (to + k * dst_stride + i)
      ≡ memory (src + k * src_stride + i)
unfolding copy_stride
copy_stride_lem n memory src src_stride dest to dst_stride size k i a b c =
    let apart : ((dst_stride == 0) && (src_stride == 0)) ≡ false = ground arith in
    rw apart (copy_elements_lem n memory src src_stride dest to dst_stride size k i a b c)

-- Where both strides are 0, the elements are copied as one block.
pub copy_stride_packed :
    (n : ℕ) (memory : ℕ → ℕ) (src : ℕ) (dest : ℕ → ℕ) (to size i : ℕ)
    → i < size * n
    → copy_stride n memory src 0 dest to 0 size (to + i) ≡ memory (src + i)
unfolding copy_stride
copy_stride_packed n memory src dest to size i h =
    copied-inside dest to (size * n) i (λ j. memory (src + j)) h
