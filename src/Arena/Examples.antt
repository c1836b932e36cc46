-- ===== src/Arena/Examples.antt =====
-- The theorems on vl_arena.c at a small arena.
use veritable_lasagna.Base.{ℕ, ◌+◌, ◌≤◌, ◌<◌, ◌^◌, ◌≡◌, refl, some, none, [], ◌∷◌, inl, arith}
use veritable_lasagna.Base.{zero, suc}
use veritable_lasagna.Samples.{first, second, sample_pool, sample_nodes-Ledger, sample_pool-CanGrow}
use veritable_lasagna.Pool
use veritable_lasagna.Pool.{invalid_idx}
use veritable_lasagna.Set.{red, black, Slot, Set, node_at}
use veritable_lasagna.Set.Tree.{Tree, leaf, node, IsTree}
use veritable_lasagna.Set.Insertion.{leaf_slot, insert}
use veritable_lasagna.Set.Refinement.{IsOrderedSet}
use veritable_lasagna.Arena.FreeSet.{node_compare, Freed, insert-insert_region}
use veritable_lasagna.Stack.{set_word}
use veritable_lasagna.Arena.{
  Region, Arena, init, take_first, set_size, alloc_in, alloc, free, mem_size, find_region, realloc,
}
use veritable_lasagna.Arena.Cover.{at_byte, cover}
use veritable_lasagna.Arena.Tiled.{region, IsTiled}
use veritable_lasagna.Arena.Alloc.{block, Allocated, alloc-Allocated}
use veritable_lasagna.Arena.Free.{free-IsTiled}
use veritable_lasagna.Arena.Realloc.{Resized, realloc-Resized}
use veritable_lasagna.Arena.Moved.{realloc_moved}
use veritable_lasagna.Arena.Reserve.{reserve, Reserved, reserve_lem}
use veritable_lasagna.Arena.Runs.{Run, started, allocated, Run-IsTiled, Run-apart}

abbrev zeros : ℕ → ℕ
zeros i = 0

abbrev new : Arena
new = init zeros 100

-- A block of 8 bytes at the end of the memory.
abbrev held : Arena
held = record { capacity = 100; bytes = set_word zeros 84 16; free = region 0 84 ∷ [] }

new-alloc : alloc zeros new 8 ≡ some (92, held)
unfolding alloc alloc_in take_first set_size init
new-alloc = refl

new-capacity : new.capacity + 8 + 8 < 2 ^ 63
unfolding init
new-capacity = omega arith

held-Run : Run held (block 92 8 ∷ [])
held-Run =
    allocated zeros new held [] 92 8 (started zeros 100 (omega arith) (omega arith)) (omega arith)
      new-capacity new-alloc

held-IsTiled : IsTiled held (block 92 8 ∷ [])
held-IsTiled = (Run-IsTiled held (block 92 8 ∷ []) held-Run).0

Run-apart_example :
    (mem_size held 92 + 8 ≡ 16)
    × (100 ≤ 100)
    × ((x : ℕ) → 1 ≤ at_byte x (region 84 16) → cover x [] + cover x (region 0 84 ∷ []) ≡ 0)
Run-apart_example = Run-apart held [] (block 92 8) [] held-Run

alloc-Allocated_example : Allocated held (block 92 8 ∷ []) 30 (alloc zeros held 30)
alloc-Allocated_example =
    alloc-Allocated zeros held (block 92 8 ∷ []) 30 held-IsTiled (omega arith) (omega arith)
      (omega arith)

free-IsTiled_example : IsTiled (free held 92) [] × ((free held 92).bytes ≡ held.bytes)
free-IsTiled_example = free-IsTiled held [] [] 92 8 held-IsTiled (omega arith)

realloc-Resized_example : Resized held [] 92 8 4 (realloc zeros held 92 4)
realloc-Resized_example =
    realloc-Resized zeros held [] 92 8 4 held-IsTiled (omega arith) (omega arith) (omega arith)
      (inl (omega arith))

reserve_lem_example : Reserved held (block 92 8 ∷ []) 200 (reserve zeros held 200)
reserve_lem_example =
    reserve_lem zeros held (block 92 8 ∷ []) held-IsTiled 200 (omega arith) (omega arith)

none_behind : find_region 100 held.free ≡ none
unfolding find_region
none_behind = refl

realloc_moved_example :
    (result : ℕ) × (b : Arena) × (realloc zeros held 92 20 ≡ some (result, b))
    × ((i : ℕ) → i < 8 → b.bytes (result + 8 + i) ≡ held.bytes (92 + i))
realloc_moved_example =
    realloc_moved zeros held [] 92 8 held-IsTiled (omega arith) 20 (omega arith) none_behind
      (omega arith)

-- A set of two free regions.
abbrev slots : ℕ → ℕ → Slot Region
slots n zero = record {
  color = black;
  parent = invalid_idx;
  left = invalid_idx;
  right = second;
  value = region 0 16;
}
slots n (suc e) = leaf_slot red first (region 40 24)

abbrev pair : Set Region
pair = record { node_pool = sample_pool slots; root = first; total_elements = 2 }

abbrev pair_tree : Tree Region
pair_tree = node leaf first (region 0 16) (node leaf second (region 40 24) leaf)

pair-IsTree : IsTree pair pair_tree
unfolding node_at Pool.sample
pair-IsTree = record {
  owns = sample_nodes-Ledger;
  rep = (refl, refl, refl, refl, tt, (refl, refl, refl, refl, tt, tt));
  root = refl;
  counted = refl;
  few = omega arith;
}

pair-IsOrderedSet : IsOrderedSet node_compare pair pair_tree
unfolding node_compare node_at Pool.sample
pair-IsOrderedSet = record {
  is = pair-IsTree;
  sorted = ((refl, tt), (tt, tt));
  black_root = λ there. refl;
}

insert-insert_region_example :
    Freed pair pair_tree
      (region 16 8)
      (insert 3 (some (λ i. leaf_slot black 0 (region 0 0))) node_compare pair (region 16 8))
insert-insert_region_example =
    insert-insert_region pair pair_tree (region 16 8) (λ i. leaf_slot black 0 (region 0 0)) 3
      pair-IsOrderedSet (sample_pool-CanGrow slots) (omega arith) (omega arith)
