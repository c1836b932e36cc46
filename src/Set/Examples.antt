-- ===== src/Set/Examples.antt =====
-- The theorems on vl_set.c at a set of two numbers.
use Prim.Native.Nat.{Ordering}
use veritable_lasagna.Base.{
  ℕ, zero, suc, ◌≡◌, [], ◌∷◌, none, refl, inr, ◌==◌, ltb, if◌then◌else◌, some, arith,
}
use veritable_lasagna.Samples.{first, second, sample_pool, sample_nodes-Ledger, sample_pool-CanGrow}
use veritable_lasagna.Pool
use veritable_lasagna.Pool.{Pool, invalid_idx}
use veritable_lasagna.Set.{red, black, Slot, Set, node_at, find}
use veritable_lasagna.Set.Tree.{Tree, leaf, node, inorder, IsTree}
use veritable_lasagna.Set.Order.{IsOrder, Sorted}
use veritable_lasagna.Set.Insertion.{leaf_slot, insert}
use veritable_lasagna.Set.Refinement.{IsOrderedSet, Inserted, insert_lem}
use veritable_lasagna.Set.Search.{find_lem}
use veritable_lasagna.Set.Chain.{Chain}
use veritable_lasagna.Set.Fixup.{Fixed, fixup_lem}
use veritable_lasagna.Set.Visit.{visit}
use veritable_lasagna.Set.Filtered.{intersection_lem}
use veritable_lasagna.Set.Algebra.{adding, intersection}

abbrev compare : ℕ → ℕ → Ordering
compare a b = if ltb a b then Ordering.lt else if a == b then Ordering.eq else Ordering.gt

compare-IsOrder : IsOrder compare
compare-IsOrder = record {
  trans = λ a b c h k. ground arith;
  lt_eq = λ a b c h k. ground arith;
  flip_lt = λ a b h. ground arith;
  flip_gt = λ a b h. ground arith;
}

abbrev block : ℕ → Slot ℕ
block i = leaf_slot black 0 0

-- The element 5 at the root, with 7 to its right.
abbrev slots : ℕ → ℕ → Slot ℕ
slots n zero = record {
  color = black;
  parent = invalid_idx;
  left = invalid_idx;
  right = second;
  value = 5;
}
slots n (suc e) = leaf_slot red first 7

abbrev pair : Set ℕ
pair = record { node_pool = sample_pool slots; root = first; total_elements = 2 }

abbrev empty : Set ℕ
empty = record { node_pool = sample_pool slots; root = invalid_idx; total_elements = 0 }

abbrev pair_tree : Tree ℕ
pair_tree = node leaf first 5 (node leaf second 7 leaf)

pair-IsTree : IsTree pair pair_tree
unfolding node_at Pool.sample
pair-IsTree = record {
  owns = sample_nodes-Ledger;
  rep = (refl, refl, refl, refl, tt, (refl, refl, refl, refl, tt, tt));
  root = refl;
  counted = refl;
  few = omega arith;
}

pair-Sorted : Sorted compare (inorder pair_tree)
pair-Sorted = ((refl, tt), (tt, tt))

pair-IsOrderedSet : IsOrderedSet compare pair pair_tree
unfolding node_at Pool.sample
pair-IsOrderedSet = record { is = pair-IsTree; sorted = pair-Sorted; black_root = λ there. refl }

insert_lem_example :
    Inserted compare pair pair_tree 9
      (Pool.take (some block) pair.node_pool).0
      (insert 3 (some block) compare pair 9)
insert_lem_example =
    insert_lem compare compare-IsOrder pair pair_tree 9 block 3 pair-IsOrderedSet
      (sample_pool-CanGrow slots) (omega arith) (omega arith)

find_lem_example : find 3 compare pair 7 ≡ some second
find_lem_example =
    find_lem compare compare-IsOrder pair 7 3 pair_tree pair-IsTree ((refl, tt), (tt, tt))
      (omega arith)

second-Chain : Chain (node_at pair) 2 second
unfolding node_at Pool.sample
second-Chain = (omega arith, (omega arith, refl))

fixup_lem_example : Fixed 2 pair second pair_tree
fixup_lem_example =
    fixup_lem 2 2 pair pair_tree second pair-IsTree (omega arith) second-Chain (omega arith)
      (inr (pair-IsOrderedSet.black_root (omega arith)))

intersection_lem_example :
    intersection 3 none compare pair pair empty
    ≡ visit (adding 3 none compare) ((first, 5) ∷ (second, 7) ∷ []) empty
intersection_lem_example =
    intersection_lem compare 3 none compare-IsOrder pair pair empty pair_tree pair_tree pair-IsTree
      pair-IsTree pair-Sorted pair-Sorted (omega arith) (omega arith)
