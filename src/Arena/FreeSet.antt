-- ===== src/Arena/FreeSet.antt =====
-- The free set of src/core/vl_arena.c, as a set of vl_set.c with the comparator vl_ArenaNodeCompare.
use Prim.Native.Nat.{Ordering}
use veritable_lasagna.Base.{
  ℕ, ◌+◌, ◌^◌, ◌<◌, ◌≡◌, inl, inr, refl, ap, ◌∙◌, true, false, Option, some, List, [], ◌∷◌, ltb,
  ◌==◌, arith, Bool-cases, length,
}
use veritable_lasagna.Compare.{compare, compare-IsOrder, ltb-IsLess}
use veritable_lasagna.Pool.{take}
use veritable_lasagna.Pool.Take.{CanGrow}
use veritable_lasagna.Set.{Slot, Set}
use veritable_lasagna.Set.Tree.{Tree, ids, inorder}
use veritable_lasagna.Set.Order.{IsOrder, added, add}
use veritable_lasagna.Set.Insertion.{insert}
use veritable_lasagna.Set.Refinement.{IsOrderedSet, index_added, insert_lem}
use veritable_lasagna.Arena.{Region, insert_region}

-- vl_ArenaNodeCompare
unfoldable pub node_compare : Region → Region → Ordering
unfolding compare
node_compare a b = compare ltb a.offset b.offset

-- The regions of the entries.
abbrev pub regions : List (ℕ × Region) → List Region
regions [] = []
regions ((i, r) ∷ es) = r ∷ regions es

node_compare-IsOrder : IsOrder node_compare
unfolding node_compare
node_compare-IsOrder =
    let ord = (compare-IsOrder ltb ltb-IsLess).0 in
    record {
      trans = λ a b c h k. ord.trans a.offset b.offset c.offset h k;
      lt_eq = λ a b c h k. ord.lt_eq a.offset b.offset c.offset h k;
      flip_lt = λ a b h. ord.flip_lt a.offset b.offset h;
      flip_gt = λ a b h. ord.flip_gt a.offset b.offset h;
    }

-- The three outcomes of the comparator.
added_region :
    (q r : Region) (i j : ℕ) (es rest : List (ℕ × Region))
    → regions rest ≡ insert_region r (regions es)
    → regions (added node_compare (node_compare q r) (i, r) (j, q) es rest)
      ≡ insert_region r (q ∷ regions es)
unfolding node_compare compare insert_region
added_region q r i j es rest e = elim (Bool-cases (q.offset == r.offset)) [
  | inl same ↦
      let a : ltb r.offset q.offset ≡ false = ground arith in
      let b : ltb q.offset r.offset ≡ false = ground arith in rw (same, a, b) refl
  | inr other ↦ elim (Bool-cases (ltb r.offset q.offset)) [
    | inl less ↦ let b : ltb q.offset r.offset ≡ false = ground arith in rw (other, less, b) refl
    | inr more ↦
        let b : ltb q.offset r.offset ≡ true = ground arith in
        rw (other, more, b) (ap (λ qs. q ∷ qs) e)
  ]
]

add-regions :
    (i : ℕ) (r : Region) (es : List (ℕ × Region))
    → regions (add node_compare (i, r) es) ≡ insert_region r (regions es)
unfolding insert_region
add-regions i r [] = refl
add-regions i r ((j, q) ∷ es) =
    added_region q r i j es (add node_compare (i, r) es) (add-regions i r es)

-- What an insertion does to the regions that the set stands for.
pub record Freed (s : Set Region) (t : Tree Region) (r : Region) (out : Option (ℕ × Set Region))
    : Type 0 where
  pub idx : ℕ
  pub set : Set Region
  pub tree : Tree Region
  pub ends : out ≡ some (idx, set)
  pub is_set : IsOrderedSet node_compare set tree
  pub free : regions (inorder tree) ≡ insert_region r (regions (inorder t))

-- Where the nodes of the free set are a tree whose regions are in the order of their offsets and
-- whose root is black, the pool can grow and the allocation succeeds, the count does not wrap, and
-- the fuel is more than the number of nodes, the insertion of a region into the set ends, the set
-- is again such a tree, and its regions are those of `insert_region`.
pub insert-insert_region :
    (s : Set Region) (t : Tree Region) (r : Region) (block : ℕ → Slot Region) (fuel : ℕ)
    → IsOrderedSet node_compare s t
    → CanGrow s.node_pool
    → s.total_elements + 1 < 2 ^ 32
    → length (ids t) < fuel
    → Freed s t r (insert fuel (some block) node_compare s r)
insert-insert_region s t r block fuel is grow room enough =
    let new = (take (some block) s.node_pool).0 in
    let done = insert_lem node_compare node_compare-IsOrder s t r block fuel is grow room enough in
    record {
      idx = index_added node_compare r new (inorder t);
      set = done.set;
      tree = done.tree;
      ends = done.ends;
      is_set = done.is_set;
      free = ap regions done.entries ∙ add-regions new r (inorder t);
    }
