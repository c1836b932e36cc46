-- ===== src/Arena/Free.antt =====
-- vlArenaMemFree of src/core/vl_arena.c gives the bytes of one block back, and keeps the others.
use veritable_lasagna.Base.{
  ℕ, ◌+◌, ◌-◌, ◌%◌, ◌^◌, ◌≤◌, ◌≡◌, inl, inr, refl, ap, ◌∙◌, false, List, ◌∷◌, ◌++◌, ◌==◌, arith,
  Bool-cases,
}
use veritable_lasagna.Stack.{word_at}
use veritable_lasagna.Arena.{Region, Arena, free, mem_size}
use veritable_lasagna.Arena.Cover.{cover, cover-release}
use veritable_lasagna.Arena.Positive.{release-IsPositive}
use veritable_lasagna.Arena.Tiled.{IsTiled, front-IsTiled}
use veritable_lasagna.Arena.Alloc.{block}

module _ (a : Arena) (live : List Region) (ptr size : ℕ) (is : IsTiled a (block ptr size ∷ live))
    (past_size : 8 ≤ ptr) where
  -- The block lies in the memory, and no free region begins in it.
  pub inside_memory : ptr + size ≤ a.capacity
  inside_memory = let enough = is.headed.1 in let last = is.once (ptr + size - 1) in ground arith

  pub no_free_there : cover (ptr - 8) a.free ≡ 0
  no_free_there = let first = is.once (ptr - 8) in ground arith

  pub at_size : (ptr + 2 ^ 64 - 8) % 2 ^ 64 ≡ ptr - 8
  at_size = omega (arith, inside_memory, is.narrow)

  -- The size of a block is the one that was asked for.
  pub mem_size_lem : mem_size a ptr ≡ size
  unfolding mem_size
  mem_size_lem =
      ap (λ p. (word_at a.bytes p + 2 ^ 64 - 8) % 2 ^ 64) at_size
      ∙ omega (arith, is.headed.0, inside_memory, is.narrow)

  free_front : IsTiled (free a ptr) live × ((free a ptr).bytes ≡ a.bytes)
  unfolding free
  free_front =
      let size_there : word_at a.bytes (ptr - 8) ≡ size + 8 = is.headed.0 in
      let not_empty : (size + 8 == 0) ≡ false = ground arith in
      rw (at_size, size_there, not_empty)
        (
          record {
            once = λ x. omega (
              arith,
              is.once x,
              cover-release x (block ptr size) a.free no_free_there is.positive,
            );
            positive = release-IsPositive (block ptr size) a.free (omega arith) is.positive;
            headed = is.headed.2;
            narrow = is.narrow;
          },
          refl,
        )

pub free-capacity : (a : Arena) (ptr : ℕ) → (free a ptr).capacity ≡ a.capacity
unfolding free
free-capacity a ptr = elim (Bool-cases (word_at a.bytes ((ptr + 2 ^ 64 - 8) % 2 ^ 64) == 0)) [
  | inl e ↦ rw e refl
  | inr e ↦ rw e refl
]

-- Where just one region, held or free, has each byte of the memory, the same is true after `free`
-- of any one of the held blocks, with the others held, and no byte is written.
pub free-IsTiled :
    (a : Arena) (before after : List Region) (ptr size : ℕ)
    → IsTiled a (before ++ (block ptr size ∷ after))
    → 8 ≤ ptr
    → IsTiled (free a ptr) (before ++ after) × ((free a ptr).bytes ≡ a.bytes)
free-IsTiled a before after ptr size is past_size =
    free_front a (before ++ after) ptr size (front-IsTiled a before (block ptr size) after is)
      past_size
