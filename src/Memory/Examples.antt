-- ===== src/Memory/Examples.antt =====
-- The calls of vl_memory.c on a few words and bytes.
use veritable_lasagna.Base.{ℕ, zero, suc, ◌+◌, ◌≡◌, some, arith, ltb}
use veritable_lasagna.Compare.{compare, compare-IsOrder, ltb-IsLess}
use veritable_lasagna.Memory.{sort}
use veritable_lasagna.Memory.Reverse.{reverse_sub_arrays, reverse_sub_arrays_lem}
use veritable_lasagna.Memory.Copy.{copy_stride, copy_stride_lem}
use veritable_lasagna.Memory.Sort.{Sorts, sort-Sorts}

abbrev words : ℕ → ℕ
words zero = 3
words (suc n) = n + 1

sort-Sorts_example :
    (g : ℕ → ℕ) × (sort (compare ltb) 3 words ≡ some g) × Sorts (compare ltb) 0 3 words g
sort-Sorts_example =
    sort-Sorts (compare ltb) (compare-IsOrder ltb ltb-IsLess).0 3 words (omega arith) (omega arith)

-- The last byte of the second word of four bytes at every eighth address.
reverse_sub_arrays_lem_example : reverse_sub_arrays 3 words 16 8 4 27 ≡ words 24
reverse_sub_arrays_lem_example =
    reverse_sub_arrays_lem 3 words 16 8 4 1 3 (omega arith) (omega arith) (omega arith)
      (omega arith) (omega arith)

-- The same byte, copied to words at every fourth address.
copy_stride_lem_example : copy_stride 3 words 16 8 (λ i. 0) 40 4 4 47 ≡ words 27
copy_stride_lem_example =
    copy_stride_lem 3 words 16 8 (λ i. 0) 40 4 4 1 3 (omega arith) (omega arith) (omega arith)
