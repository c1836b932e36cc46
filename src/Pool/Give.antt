-- ===== src/Pool/Give.antt =====
-- `return_idx`, `clear`, `write` and `init` of vl_pool.c against the indices that are held.
use veritable_lasagna.Base.{
  ℕ, zero, suc, ◌+◌, ◌^◌, ◌≤◌, ◌<◌, ◌≡◌, refl, Option, some, List, [], ◌∷◌, ◌==◌, if◌then◌else◌,
  arith, modify, length-modify, length-map, ap,
}
use veritable_lasagna.Pool.{
  Node, Pool, node_of, taken_at, block_at, bump, drop_one, emptied, fresh_node, init, take_at, take,
  sample, return_idx, write, clear,
}
use veritable_lasagna.Pool.Owns.{
  Ledger, Owns, taken_at-drop_one, block_at-modify, taken_at-emptied, block_at-emptied,
}

-- Giving back the index `x`.
module _ (ns : List Node) (live free : List ℕ) (x : ℕ) (o : Ledger ns free (x ∷ live)) where
  held_counted : 1 ≤ taken_at ns (node_of x)
  held_counted = ground (arith, o.taken (node_of x))

  dropped :
      (j : ℕ)
      → taken_at (modify ns (node_of x) drop_one) j + (if node_of x == j then 1 else 0)
        ≡ taken_at ns j
  dropped j =
      taken_at-drop_one ns (node_of x) j held_counted
        (omega (arith, o.fits (node_of x), o.narrow (node_of x)))

  dropped_blocks : (j : ℕ) → block_at (modify ns (node_of x) drop_one) j ≡ block_at ns j
  dropped_blocks j = block_at-modify ns (node_of x) j drop_one (λ m. refl)

  Ledger-drop : Ledger (modify ns (node_of x) drop_one) (x ∷ free) live
  Ledger-drop = record {
    unique = λ y. ground (arith, o.unique y);
    taken = λ i. ground (arith, dropped i, o.taken i);
    below = λ y h. ground (arith, dropped (node_of y), o.below y);
    fits = λ i. ground (arith, dropped i, dropped_blocks i, o.fits i);
    narrow = λ i. ground (arith, dropped_blocks i, o.narrow i);
    few = omega (arith, length-modify ns (node_of x) drop_one, o.few);
  }

-- A single empty node.
taken_at_single : (size j : ℕ) → taken_at (fresh_node size ∷ []) j ≡ 0
taken_at_single size zero = refl
taken_at_single size (suc j) = refl

block_at_single : (size j : ℕ) → block_at (fresh_node size ∷ []) j ≤ size
block_at_single size zero = omega arith
block_at_single size (suc j) = omega arith

pub Ledger-single : (size : ℕ) → size < 2 ^ 32 → Ledger (fresh_node size ∷ []) [] []
Ledger-single size h = record {
  unique = λ x. omega arith;
  taken = λ i. omega (arith, taken_at_single size i);
  below = λ x k. omega arith;
  fits = λ i. omega (arith, taken_at_single size i);
  narrow = λ i. omega (arith, block_at_single size i);
  few = omega arith;
}

modify-bump-drop_one :
    (ns : List Node) (i : ℕ)
    → 1 ≤ taken_at ns i
    → taken_at ns i < 2 ^ 32
    → modify (modify ns i drop_one) i bump ≡ ns
modify-bump-drop_one [] i h k = refl
modify-bump-drop_one (n ∷ ns) zero h k = ground arith
modify-bump-drop_one (n ∷ ns) (suc i) h k = ap (λ r. n ∷ r) (modify-bump-drop_one ns i h k)

module _ {A : Type 0} where
  -- Where a pool accounts for `x` and the other held indices, `return_idx` of `x` gives a pool
  -- that accounts for just the others, and changes no slot.
  pub return_idx-Owns :
      (p : Pool A) (live : List ℕ) (x : ℕ)
      → Owns p (x ∷ live)
      → Owns (return_idx p x) live × ((y : ℕ) → sample (return_idx p x) y ≡ sample p y)
  unfolding return_idx sample
  return_idx-Owns p live x o = (Ledger-drop p.lookup live p.free_stack x o, λ y. refl)

  -- Where a pool accounts for `x`, an index `x` that is given back is the next one handed out,
  -- whatever the allocator answers, and the pool is then as it was but for the capacity of the
  -- free stack.
  pub take-return_idx :
      (p : Pool A) (live : List ℕ) (x : ℕ) (block : Option (ℕ → A))
      → Owns p (x ∷ live)
      → take block (return_idx p x)
        ≡ (x, record p { free_capacity = (return_idx p x).free_capacity })
  unfolding return_idx take take_at
  take-return_idx p live x block o =
      let held = held_counted p.lookup live p.free_stack x o in
      rw (
        modify-bump-drop_one p.lookup (node_of x) held
          (omega (arith, o.fits (node_of x), o.narrow (node_of x))))

  -- After `clear` a pool that accounted for the held indices accounts for none.
  pub clear-Owns : (p : Pool A) (live : List ℕ) → Owns p live → Owns (clear p) []
  unfolding clear
  clear-Owns p live o = record {
    unique = λ x. omega arith;
    taken = λ i. omega (arith, taken_at-emptied p.lookup i);
    below = λ x h. omega arith;
    fits = λ i. omega (arith, taken_at-emptied p.lookup i);
    narrow = λ i. omega (arith, block_at-emptied p.lookup i, o.narrow i);
    few = omega (arith, length-map emptied p.lookup, o.few);
  }

  -- A new pool has handed out nothing.
  pub init-Owns : (block : ℕ → A) → (p : Pool A) × (init (some block) ≡ some p) × Owns p []
  unfolding init
  init-Owns block = (_, refl, Ledger-single 16 (omega arith))

  -- A write through the pointer of one index is read back there, and changes no other index.
  pub sample-write :
      (p : Pool A) (x y : ℕ) (v : A) → sample (write p x v) y ≡ (if x == y then v else sample p y)
  unfolding sample write
  sample-write p x y v = ground arith

  -- A write changes nothing that the pool accounts for.
  pub write-Owns :
      (p : Pool A) (live : List ℕ) (x : ℕ) (v : A) → Owns p live → Owns (write p x v) live
  unfolding write
  write-Owns p live x v o = o
