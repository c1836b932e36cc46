-- ===== src/Arena/Moved.antt =====
-- vlArenaMemRealloc of src/core/vl_arena.c, where the size stays the same, and where the block moves.
use veritable_lasagna.Base.{
  ℕ, ◌+◌, ◌-◌, ◌%◌, ◌^◌, ◌≤◌, ◌<◌, ◌≡◌, inl, inr, refl, ap, ◌∙◌, false, none, some, List, ◌∷◌, ◌==◌,
  arith, Bool-cases, ==_iff,
}
use veritable_lasagna.Buffer.{copied}
use veritable_lasagna.Buffer.Write.{copied-inside}
use veritable_lasagna.Stack.{word_at}
use veritable_lasagna.Arena.{Region, Arena, find_region, free, move, extend_or_move, realloc}
use veritable_lasagna.Arena.Tiled.{IsTiled}
use veritable_lasagna.Arena.Alloc.{block, alloc-Allocated}
use veritable_lasagna.Arena.Free.{inside_memory, at_size}
use veritable_lasagna.Arena.Realloc.{start}

free-bytes : (a : Arena) (ptr : ℕ) → (free a ptr).bytes ≡ a.bytes
unfolding free
free-bytes a ptr = elim (Bool-cases (word_at a.bytes ((ptr + 2 ^ 64 - 8) % 2 ^ 64) == 0)) [
  | inl e ↦ rw e refl
  | inr e ↦ rw e refl
]

module _ (more : ℕ → ℕ) (a : Arena) (live : List Region) (ptr old : ℕ)
    (is : IsTiled a (block ptr old ∷ live)) (past_size : 8 ≤ ptr) where
  pub realloc_same : realloc more a ptr old ≡ some (ptr - 8, a)
  unfolding realloc
  realloc_same =
      let there : word_at a.bytes (ptr - 8) ≡ old + 8 = is.headed.0 in
      let inside = inside_memory a live ptr old is past_size in
      let small : (old + 8) % 2 ^ 64 ≡ old + 8 = (let low = is.narrow in omega arith) in
      rw (at_size a live ptr old is past_size, small, there, (==_iff (old + 8) (old + 8)).1 refl)
        refl

  -- Where just one region, held or free, has each byte of the memory, a block is made larger, no
  -- free region begins behind it, and the memory and the new size with its two headers are below 2
  -- ^ 63, `realloc` ends, and the bytes that it held begin 8 bytes behind the pointer that is
  -- returned.
  pub realloc_moved :
      (size : ℕ)
      → old < size
      → find_region (ptr - 8 + (old + 8)) a.free ≡ none
      → a.capacity + (size + 8) + 8 < 2 ^ 63
      → (result : ℕ) × (b : Arena) × (realloc more a ptr size ≡ some (result, b))
        × ((i : ℕ) → i < old → b.bytes (result + 8 + i) ≡ a.bytes (ptr + i))
  unfolding extend_or_move move
  realloc_moved size larger nothing room =
      let p = ptr - 8 in
      let inside = inside_memory a live ptr old is past_size in
      let new =
        alloc-Allocated more a (block ptr old ∷ live) (size + 8) is (omega arith) (omega arith)
          room in
      let from = λ (i : ℕ). new.arena.bytes (p + i) in
      let c = record new.arena { bytes = copied new.arena.bytes new.ptr (old + 8) from } in
      (
        new.ptr,
        free c (p + 8),
        start more a live ptr old size is past_size (omega arith) (omega arith) false none
              (ground arith) (ground arith) nothing
            ∙ ap (move p (old + 8)) new.ends,
        λ i less.
            ap (λ f. f (new.ptr + 8 + i)) (free-bytes c (p + 8))
            ∙ ap (copied new.arena.bytes new.ptr (old + 8) from) (omega arith)
            ∙ copied-inside new.arena.bytes new.ptr (old + 8) (8 + i) from (omega arith)
            ∙ ap new.arena.bytes (omega arith)
            ∙ new.keeps (ptr + i) (ground arith),
      )
