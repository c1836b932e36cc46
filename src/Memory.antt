-- ===== src/Memory.antt =====
-- src/core/vl_memory.c: vlMemSort, over a buffer of elements; the children have the calls
-- with strides, over bytes.
pub mod Shuffle
pub mod Partition
pub mod Sort
pub mod Reverse
pub mod Copy
mod Examples
use Prim.Native.Nat.{Ordering}
use veritable_lasagna.Base.{
  ℕ, zero, suc, ◌+◌, ◌-◌, ◌*◌, ◌%◌, ◌^◌, Bool, true, false, ◌&&◌, Option, none, some, List, [], ◌∷◌,
  length, ltb, leb, ◌==◌, if◌then◌else◌,
}

-- A pair of indices on the temporary stack.
pub record Range : Type 0 where
  pub low : ℕ
  pub high : ℕ

-- The test `comparator(a, b) <= 0`
abbrev pub at_most : Ordering → Bool
at_most Ordering.lt = true
at_most Ordering.eq = true
at_most Ordering.gt = false

-- Whether a vl_int_t holds a number, of 32 bits. Where the code would have a larger one, `none` is
-- the result: the sum `p + 1` overflows, and the last index of too many elements becomes negative,
-- so that the pivot is read in front of the buffer.
abbrev pub is_int : ℕ → Bool
is_int n = ltb n (2 ^ 31)

-- Room for two more ints on a stack of `room` ints, and the push. A push behind the stack's memory
-- gives `none`.
pub push_range : ℕ → Range → Option (List Range) → Option (List Range)
push_range room r none = none
push_range room r (some ranges) =
    if leb (2 * length ranges + 2) room && (is_int r.low && is_int r.high)
    then some (r ∷ ranges)
    else none

pub push_if : ℕ → Bool → Range → Option (List Range) → Option (List Range)
unfolding push_range
push_if room wanted r ranges = if wanted then push_range room r ranges else ranges

-- The pushes of a round of vl_MemSortQuicksort. At `p` of 0 the test of the source is `-1 > low`,
-- which fails like `0 > low`.
pub push_both : ℕ → Range → ℕ → List Range → Option (List Range)
unfolding push_if
push_both room r p ranges =
    if is_int (p + 1)
    then push_if room (ltb (p + 1) r.high) (record { low = p + 1; high = r.high })
        (push_if room (ltb r.low (p - 1)) (record { low = r.low; high = p - 1 }) (some ranges))
    else none

module _ {V : Type 0} where
  pub set : (ℕ → V) → ℕ → V → ℕ → V
  set buffer i v x = if x == i then v else buffer x

  -- vl_MemSortSwap
  pub swap : (ℕ → V) → ℕ → ℕ → ℕ → V
  unfolding set
  swap buffer a b = set (set buffer a (buffer b)) b (buffer a)

  -- The loop of vl_MemSortPartition, `steps` rounds from `j` on. `next` is the source's `i + 1`:
  -- it is at most `j`, and `j` is at most `high`, which is an int.
  pub partition_loop : ℕ → (V → V → Ordering) → V → (ℕ → V) → ℕ → ℕ → ℕ × (ℕ → V)
  unfolding swap
  partition_loop zero cmp pivot buffer next j = (next, buffer)
  partition_loop (suc steps) cmp pivot buffer next j =
      let small = at_most (cmp (buffer j) pivot) in
      partition_loop steps cmp pivot (if small then swap buffer next j else buffer)
        (if small then next + 1 else next) (j + 1)

  -- vl_MemSortPartition, at two indices that are ints. `none` stands for others.
  pub partition_ints : (V → V → Ordering) → (ℕ → V) → ℕ → ℕ → ℕ × (ℕ → V)
  unfolding partition_loop swap
  partition_ints cmp buffer low high =
      let (p, split) = partition_loop (high - low) cmp (buffer high) buffer low low in
      (p, swap split p high)

  pub partition : (V → V → Ordering) → (ℕ → V) → ℕ → ℕ → Option (ℕ × (ℕ → V))
  unfolding partition_ints
  partition cmp buffer low high =
      if is_int low && is_int high then some (partition_ints cmp buffer low high) else none

  -- A round of vl_MemSortQuicksort behind its partition: the stack and the buffer.
  pub push_parts :
      ℕ → Range → List Range → (ℕ → V) → Option (ℕ × (ℕ → V)) → Option (List Range) × (ℕ → V)
  unfolding push_both
  push_parts room r ranges buffer none = (none, buffer)
  push_parts room r ranges buffer (some (p, split)) = (push_both room r p ranges, split)

  -- The loop of vl_MemSortQuicksort, on fuel.
  pub quicksort_loop : ℕ → (V → V → Ordering) → ℕ → Option (List Range) → (ℕ → V) → Option (ℕ → V)
  unfolding partition push_parts
  quicksort_loop fuel cmp room none buffer = none
  quicksort_loop zero cmp room (some ranges) buffer = none
  quicksort_loop (suc fuel) cmp room (some []) buffer = some buffer
  quicksort_loop (suc fuel) cmp room (some (r ∷ ranges)) buffer =
      let (stack, split) = push_parts room r ranges buffer (partition cmp buffer r.low r.high) in
      quicksort_loop fuel cmp room stack split

  -- vlMemSort, where its allocation succeeds: the stack has room for an int for each element. The
  -- number of elements is a word of 32 bits.
  pub sort : (V → V → Ordering) → ℕ → (ℕ → V) → Option (ℕ → V)
  unfolding quicksort_loop push_range
  sort cmp num_elements buffer =
      quicksort_loop num_elements cmp num_elements
        (push_range num_elements (record { low = 0; high = (num_elements + 2 ^ 32 - 1) % 2 ^ 32 })
          (some []))
        buffer
