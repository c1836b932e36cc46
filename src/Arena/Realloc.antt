-- ===== src/Arena/Realloc.antt =====
-- vlArenaMemRealloc of src/core/vl_arena.c, where the block stays in its place.
use veritable_lasagna.Base.{
  ℕ, ◌+◌, ◌-◌, ◌%◌, ◌^◌, ◌≤◌, ◌<◌, ◌≡◌, ◌⊎◌, inl, inr, refl, sym, subst, ap, ◌∙◌, Bool, true, false,
  Option, some, List, [], ◌∷◌, ltb, leb, ◌==◌, if◌then◌else◌, arith, Bool-cases, ==_iff,
}
use veritable_lasagna.Stack.{word_at}
use veritable_lasagna.Arena.{
  Region, Arena, set_size, release, find_region, remove_region, insert_region, shrink, extend,
  extend_or_move, realloc,
}
use veritable_lasagna.Arena.Cover.{at_byte, cover, IsPositive, cover-release, cover-insert_region}
use veritable_lasagna.Arena.Positive.{release-IsPositive, insert_region-IsPositive}
use veritable_lasagna.Arena.Tiled.{region, IsTiled, set_size-IsTiled, set_word-outside}
use veritable_lasagna.Arena.Alloc.{block}
use veritable_lasagna.Arena.Free.{at_size}

-- What a client gets: a block of the new size at the same place, with its bytes as far as both sizes
-- reach, and the bytes of the other blocks as they were.
pub record Resized (a : Arena) (live : List Region) (ptr old size : ℕ) (out : Option (ℕ × Arena))
    : Type 0 where
  pub arena : Arena
  pub ends : out ≡ some (ptr, arena)
  pub tiled : IsTiled arena (block ptr size ∷ live)
  pub contents : (i : ℕ) → i < old → i < size → arena.bytes (ptr + i) ≡ a.bytes (ptr + i)
  pub keeps : (x : ℕ) → 1 ≤ cover x live → arena.bytes x ≡ a.bytes x

-- The region that is found, and the others.
pub record Found (o : ℕ) (qs : List Region) (r : Region) : Type 0 where
  pub at : r.offset ≡ o
  pub covers : (x : ℕ) → cover x (remove_region o qs) + at_byte x r ≡ cover x qs
  pub positive : IsPositive (remove_region o qs)

find_region-Found :
    (o : ℕ) (qs : List Region) (r : Region)
    → IsPositive qs
    → find_region o qs ≡ some r
    → Found o qs r
unfolding find_region remove_region
find_region-Found o [] r pos e = cc
find_region-Found o (q ∷ qs) r pos e = elim (Bool-cases (q.offset == o)) [
  | inl same ↦
      let step : find_region o (q ∷ qs) ≡ some q = rw same refl in
      let is_r : q ≡ r = cc (sym step ∙ e) in
      subst (λ z. Found o (q ∷ qs) z) is_r
        (record {
          at = (==_iff q.offset o).0 same;
          covers = λ x. rw same (omega arith);
          positive = rw same pos.1;
        })
  | inr other ↦
      let step : find_region o (q ∷ qs) ≡ find_region o qs = rw other refl in
      let found = find_region-Found o qs r pos.1 (sym step ∙ e) in
      record {
        at = found.at;
        covers = λ x. rw other (omega (arith, found.covers x));
        positive = rw other (pos.0, found.positive);
      }
]

module _ (more : ℕ → ℕ) (a : Arena) (live : List Region) (ptr old size : ℕ)
    (is : IsTiled a (block ptr old ∷ live)) (past_size : 8 ≤ ptr) (some_bytes : 1 ≤ size)
    (room : size + 8 < 2 ^ 64) where
  abbrev p : ℕ
  p = ptr - 8

  abbrev n : ℕ
  n = size + 8

  at : (ptr + 2 ^ 64 - 8) % 2 ^ 64 ≡ p
  at = at_size a live ptr old is past_size

  old_size : word_at a.bytes p ≡ old + 8
  old_size = is.headed.0

  -- The bytes of the block behind its size stay.
  contents_lem :
      (b : Arena)
      → b.bytes ≡ a.bytes
      → (i : ℕ) → (set_size p n b).bytes (ptr + i) ≡ a.bytes (ptr + i)
  unfolding set_size
  contents_lem b same i =
      set_word-outside b.bytes p 8 n (ptr + i) (omega arith) (ground arith)
      ∙ ap (λ f. f (ptr + i)) same

  -- A smaller size.
  shrinks : size < old → Resized a live ptr old size (some (p + 8, shrink a p n (old + 8)))
  unfolding shrink
  shrinks less =
      let tail = region (p + n) (old + 8 - n) in
      let here = is.once (p + n) in
      let apart : cover (p + n) a.free ≡ 0 = ground arith in
      let (tiled, keeps) =
        set_size-IsTiled (record a { free = release tail a.free }) p n live
          (λ x.
            (let o = is.once x in
              let c = cover-release x tail a.free apart is.positive in ground arith))
          (release-IsPositive tail a.free (omega arith) is.positive) is.headed.2 is.narrow
          (omega arith) room in
      record {
        arena = shrink a p n (old + 8);
        ends = ap (λ k. some (k, shrink a p n (old + 8))) (omega arith);
        tiled = tiled;
        contents = λ i h k. contents_lem (record a { free = release tail a.free }) refl i;
        keeps = keeps;
      }

  -- A larger size, and a free region behind the block that is large enough.
  module _ (r : Region) (behind : find_region (p + (old + 8)) a.free ≡ some r)
      (more_bytes : old < size) (large : n ≤ r.size + (old + 8)) where
    found : Found (p + (old + 8)) a.free r
    found = find_region-Found (p + (old + 8)) a.free r is.positive behind

    abbrev others : List Region
    others = remove_region (p + (old + 8)) a.free

    abbrev rest : Region
    rest = region (p + n) (old + 8 + r.size - n)

    -- All of the region, or a part of it, goes to the block.
    abbrev free_after : List Region
    free_after = if r.size + (old + 8) == n then others else insert_region rest others

    extended_once :
        (x : ℕ)
        → cover x free_after + (at_byte x (region p n) + cover x live)
          ≡ (if ltb x a.capacity then 1 else 0)
    extended_once x = elim (Bool-cases (r.size + (old + 8) == n)) [
      | inl all ↦
          rw all (let o = is.once x in let c = found.covers x in let f = found.at in ground arith)
      | inr part ↦
          let first = is.once (p + n) in
          let taken = found.covers (p + n) in
          let f = found.at in
          let apart : cover (p + n) others ≡ 0 = ground arith in
          rw part (
            let o = is.once x in
            let c = found.covers x in
            let i = cover-insert_region x rest others apart found.positive in ground arith)
    ]

    extended-IsPositive : IsPositive free_after
    extended-IsPositive = elim (Bool-cases (r.size + (old + 8) == n)) [
      | inl all ↦ rw all found.positive
      | inr part ↦ rw part (insert_region-IsPositive rest others (ground arith) found.positive)
    ]

    extends : Resized a live ptr old size (some (p + 8, extend a p n (old + 8) r))
    unfolding extend
    extends =
        let b = record a { free = free_after } in
        let (tiled, keeps) =
          set_size-IsTiled b p n live extended_once extended-IsPositive is.headed.2 is.narrow
            (omega arith) room in
        record {
          arena = set_size p n b;
          ends = ap (λ k. some (k, set_size p n b)) (omega arith);
          tiled = tiled;
          contents = λ i h k. contents_lem b refl i;
          keeps = keeps;
        }

  -- How the code chooses.
  pub start :
      (more_than : Bool) (found : Option Region)
      → (n == old + 8) ≡ false
      → ltb n (old + 8) ≡ more_than
      → find_region (p + (old + 8)) a.free ≡ found
      → realloc more a ptr size ≡ (
          if more_than
          then some (p + 8, shrink a p n (old + 8))
          else extend_or_move more a p n (old + 8) found)
  unfolding realloc
  start more_than found other less e =
      let no_wrap : (size + 8) % 2 ^ 64 ≡ n = omega arith in
      rw (at, no_wrap, old_size, other, less, e) refl

  -- Where just one region, held or free, has each byte of the memory, and the size of a held block
  -- is made smaller, but not 0, or larger where a large enough free region begins behind the
  -- block, and the new size with the 8 bytes of the header is below 2 ^ 64, `realloc` gives a
  -- block of the new size at the same place, which keeps its contents up to the smaller size, just
  -- one region still has each byte, and the other blocks keep their bytes.
  pub realloc-Resized :
      (size < old)
        ⊎ ((old < size)
            × ((r : Region) × (find_region (p + (old + 8)) a.free ≡ some r)
                × (n ≤ r.size + (old + 8))))
      → Resized a live ptr old size (realloc more a ptr size)
  unfolding extend_or_move
  realloc-Resized (inl less) =
      subst (Resized a live ptr old size)
        (sym (start true (find_region (p + (old + 8)) a.free) (ground arith) (ground arith) refl))
        (shrinks less)
  realloc-Resized (inr (less, (r, behind, large))) =
      let fits : leb n (r.size + (old + 8)) ≡ true = ground arith in
      subst (Resized a live ptr old size)
        (sym (start false (some r) (ground arith) (ground arith) behind ∙ rw fits refl))
        (extends r behind less large)
