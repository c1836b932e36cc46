-- ===== src/Arena/Alloc.antt =====
-- vlArenaMemAlloc of src/core/vl_arena.c hands out bytes that nobody holds.
use veritable_lasagna.Base.{
  ℕ, ◌+◌, ◌-◌, ◌%◌, ◌^◌, ◌≤◌, ◌<◌, ◌≡◌, inl, inr, ap, ◌∙◌, false, Option, none, some, List, ◌∷◌,
  ltb, ◌==◌, if◌then◌else◌, arith,
}
use veritable_lasagna.Buffer.{grow}
use veritable_lasagna.Buffer.Write.{grow-some}
use veritable_lasagna.Arena.{
  Region, Arena, set_size, enlarge, release, take_first, alloc_grown, alloc_more, alloc_in, alloc,
}
use veritable_lasagna.Arena.Cover.{at_byte, cover, Taken, take_first-Taken, cover-release}
use veritable_lasagna.Arena.Positive.{release-IsPositive}
use veritable_lasagna.Arena.Tiled.{region, IsTiled, IsHeaded, IsHeaded-agree, set_size-IsTiled}

-- A block of `size` bytes behind its size.
abbrev pub block : ℕ → ℕ → Region
block ptr size = region (ptr - 8) (size + 8)

-- What a client gets: the memory is tiled with a block more, whose bytes nobody held, and the bytes
-- of the other blocks are as they were.
pub record Allocated (a : Arena) (live : List Region) (size : ℕ) (out : Option (ℕ × Arena))
    : Type 0 where
  pub ptr : ℕ
  pub arena : Arena
  pub ends : out ≡ some (ptr, arena)
  pub past_size : 8 ≤ ptr
  pub tiled : IsTiled arena (block ptr size ∷ live)
  pub keeps : (x : ℕ) → 1 ≤ cover x live → arena.bytes x ≡ a.bytes x
  pub wider : a.capacity ≤ arena.capacity

back_to : (p : ℕ) → p + 8 - 8 ≡ p
back_to p = omega arith

module _ (more : ℕ → ℕ) (a : Arena) (live : List Region) (size : ℕ) (is : IsTiled a live)
    (some_bytes : 1 ≤ size) (some_memory : 1 ≤ a.capacity)
    (room : a.capacity + size + 8 < 2 ^ 63) where
  abbrev n : ℕ
  n = size + 8

  no_wrap : (size + 8) % 2 ^ 64 ≡ n
  no_wrap = omega arith

  not_empty : (size == 0) ≡ false
  not_empty = ground arith

  start : alloc more a size ≡ alloc_in more n a (take_first n a.free)
  unfolding alloc
  start = rw not_empty (ap (λ k. alloc_in more k a (take_first k a.free)) no_wrap)

  -- A free region is large enough.
  alloc_fits :
      (p : ℕ) (rest : List Region)
      → take_first n a.free ≡ some (p, rest)
      → Taken n a.free p rest
      → Allocated a live size (alloc more a size)
  unfolding alloc_in
  alloc_fits p rest e taken =
      let b = record a { free = rest } in
      let (tiled, keeps) =
        set_size-IsTiled b p n live (λ x. omega (arith, taken.covers x, is.once x)) taken.positive
          is.headed is.narrow (omega arith) (omega arith) in
      record {
        ptr = p + 8;
        arena = set_size p n b;
        ends = start ∙ ap (alloc_in more n a) e;
        past_size = omega arith;
        tiled = rw (back_to p) tiled;
        keeps = keeps;
        wider = unfold set_size in omega arith;
      }

  -- The memory grows.
  module _ (new_size : ℕ) (larger : n + a.capacity < new_size) (fits : new_size < 2 ^ 64) where
    abbrev left : Region
    left = region a.capacity (new_size - a.capacity - n)

    grown_once :
        (x : ℕ)
        → cover x (release left a.free)
            + (at_byte x (region (a.capacity + (new_size - a.capacity - n)) n) + cover x live)
          ≡ (if ltb x new_size then 1 else 0)
    grown_once x =
        let behind = is.once a.capacity in
        let apart : cover a.capacity a.free ≡ 0 = ground arith in
        let more_free = cover-release x left a.free apart is.positive in
        let old = is.once x in ground arith

    enlarged-IsHeaded : IsHeaded (enlarge more new_size a).bytes live
    unfolding enlarge
    enlarged-IsHeaded =
        IsHeaded-agree a.bytes (enlarge more new_size a).bytes live
          (λ x h. let old = is.once x in ground arith) is.headed

    enlarged_keeps : (x : ℕ) → 1 ≤ cover x live → (enlarge more new_size a).bytes x ≡ a.bytes x
    unfolding enlarge
    enlarged_keeps x h = let old = is.once x in ground arith

    alloc_grows :
        take_first n a.free ≡ none
        → grow 65 a.capacity ((n + a.capacity) % 2 ^ 64) ≡ some new_size
        → Allocated a live size (alloc more a size)
    unfolding alloc_in alloc_more alloc_grown enlarge
    alloc_grows none_fits e =
        let p = a.capacity + (new_size - a.capacity - n) in
        let b = record (enlarge more new_size a) { free = release left a.free } in
        let (tiled, keeps) =
          set_size-IsTiled b p n live grown_once
            (release-IsPositive left a.free (omega (arith, larger)) is.positive) enlarged-IsHeaded
            fits (omega arith) (omega arith) in
        record {
          ptr = p + 8;
          arena = set_size p n b;
          ends = start ∙ ap (alloc_in more n a) none_fits ∙ ap (alloc_more more n a) e;
          past_size = omega arith;
          tiled = rw (back_to p) tiled;
          keeps = λ x h. keeps x h ∙ enlarged_keeps x h;
          wider = unfold set_size in omega (arith, larger);
        }

  -- Where just one region, held or free, has each byte of the memory, the size and the memory are
  -- not 0, and the memory, the size and the 8 bytes of the header are together below 2 ^ 63,
  -- `alloc` ends, and gives a block of that size whose bytes were free or are new: just one region
  -- still has each byte, and the held blocks keep their bytes.
  pub alloc-Allocated : Allocated a live size (alloc more a size)
  alloc-Allocated = elim (take_first-Taken n a.free is.positive) [
    | inr (p, rest, e, taken) ↦ alloc_fits p rest e taken
    | inl none_fits ↦
        let sum : (n + a.capacity) % 2 ^ 64 ≡ n + a.capacity = omega arith in
        let narrow = is.narrow in
        let (new_size, e, larger, wider, fits) =
          grow-some 64 a.capacity ((n + a.capacity) % 2 ^ 64) (omega (arith, sum)) narrow
            (omega (arith, sum)) in
        alloc_grows new_size (omega (arith, sum)) fits none_fits e
  ]
