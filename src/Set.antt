-- ===== src/Set.antt =====
-- src/core/vl_set.c, include/core/vl/vl_set.h: an ordered set, a red-black tree over a pool.
pub mod Tree
pub mod Fields
pub mod Turning
pub mod Order
pub mod Sorted
pub mod Search
pub mod Walk
pub mod Visit
pub mod Filtered
pub mod Rotation
pub mod Insertion
pub mod Removal
pub mod Growth
pub mod Descent
pub mod Attach
pub mod Chain
pub mod Straighten
pub mod Fixup
pub mod Refinement
mod Examples
pub mod Algebra
use Prim.Native.Nat.{Ordering}
use veritable_lasagna.Base.{
  ℕ, zero, suc, ◌+◌, ◌-◌, ◌%◌, ◌^◌, Bool, true, false, ◌&&◌, Option, none, some, ◌==◌, leb,
  if◌then◌else◌,
}
use veritable_lasagna.Pool
use veritable_lasagna.Pool.{Pool, invalid_idx}

-- vl_rbtree_color
pub data Color : Type 0 where
  red black : Color

abbrev pub is_red : Color → Bool
is_red red = true
is_red black = false

-- A `vl_set_node`, with the element behind it.
pub record Slot (V : Type 0) : Type 0 where
  pub color : Color
  pub parent : ℕ
  pub left : ℕ
  pub right : ℕ
  pub value : V

-- vl_set, less the size of an element and the comparator, which the calls take.
pub record Set (V : Type 0) : Type 0 where
  pub node_pool : Pool (Slot V)
  pub root : ℕ
  pub total_elements : ℕ

-- The two halves of the code that mirror each other are written once, for a side.
pub data Side : Type 0 where
  to_left to_right : Side

abbrev pub other : Side → Side
other to_left = to_right
other to_right = to_left

-- The side on which the search goes on, from the sign of `comparator(node, elem)`.
abbrev pub side_of : Ordering → Side
side_of Ordering.gt = to_left
side_of Ordering.eq = to_right
side_of Ordering.lt = to_right

abbrev pub is_equal : Ordering → Bool
is_equal Ordering.eq = true
is_equal Ordering.lt = false
is_equal Ordering.gt = false

module _ {V : Type 0} where
  abbrev pub child : Side → Slot V → ℕ
  child to_left n = n.left
  child to_right n = n.right

  abbrev pub with_child : Side → ℕ → Slot V → Slot V
  with_child to_left i n = record n { left = i }
  with_child to_right i n = record n { right = i }

  -- vl_SetGetNodeAt, vlSetSample, and a store through the pointer.
  unfoldable pub node_at : Set V → ℕ → Slot V
  node_at s i = Pool.sample s.node_pool i

  pub sample : Set V → ℕ → V
  unfolding node_at
  sample s i = (node_at s i).value

  pub store : Set V → ℕ → Slot V → Set V
  store s i n = record s { node_pool = Pool.write s.node_pool i n }

  pub set_color : Set V → ℕ → Color → Set V
  unfolding store node_at
  set_color s i c = store s i (record (node_at s i) { color = c })

  pub set_parent : Set V → ℕ → ℕ → Set V
  unfolding store node_at
  set_parent s i p = store s i (record (node_at s i) { parent = p })

  pub set_child : Side → Set V → ℕ → ℕ → Set V
  unfolding store node_at
  set_child d s i c = store s i (with_child d c (node_at s i))

  -- `node->parent = p`, where there is a node.
  pub parent_if : Set V → ℕ → ℕ → Set V
  unfolding set_parent
  parent_if s i p = if i == invalid_idx then s else set_parent s i p

  -- The link to a node, from the root or from its parent `p`, is set to another one. The child of `p`
  -- on side `d` is tested first.
  pub relink : Side → Set V → ℕ → ℕ → ℕ → Set V
  unfolding set_child node_at
  relink d s p from to =
      if p == invalid_idx
      then record s { root = to }
      else if child d (node_at s p) == from
      then set_child d s p to
      else set_child (other d) s p to

  -- vl_SetTreeRotateLeft and vl_SetTreeRotateRight, behind their tests: `y` is the child that goes up.
  pub rotate_up : Side → Set V → ℕ → ℕ → Set V
  unfolding set_parent set_child parent_if relink node_at
  rotate_up d s x y =
      let b = child d (node_at s y) in
      let p = (node_at s x).parent in
      let s1 = parent_if (set_child (other d) s x b) b x in
      let s2 = relink d (set_parent s1 y p) p x y in set_parent (set_child d s2 y x) x y

  pub rotate : Side → Set V → ℕ → Set V
  unfolding rotate_up node_at
  rotate d s x =
      if x == invalid_idx
      then s
      else if child (other d) (node_at s x) == invalid_idx
      then s
      else rotate_up d s x (child (other d) (node_at s x))

  -- vlSetInit, on a pool that was initialised, and vlSetClear
  pub init : Pool (Slot V) → Set V
  init p = record { node_pool = p; root = invalid_idx; total_elements = 0 }

  pub clear : Set V → Set V
  clear s = record { node_pool = Pool.clear s.node_pool; root = invalid_idx; total_elements = 0 }

  -- The walk down one side: vlSetFront, vlSetBack and vl_SetMinSubtree. `none` means that the fuel of
  -- a loop ran out.
  pub walk : ℕ → Side → Set V → ℕ → Option ℕ
  unfolding node_at
  walk zero d s cur = none
  walk (suc fuel) d s cur =
      let rest = walk fuel d s (child d (node_at s cur)) in
      if child d (node_at s cur) == invalid_idx then some cur else rest

  pub front : ℕ → Set V → Option ℕ
  unfolding walk
  front fuel s = if s.root == invalid_idx then some invalid_idx else walk fuel to_left s s.root

  pub back : ℕ → Set V → Option ℕ
  unfolding walk
  back fuel s = if s.root == invalid_idx then some invalid_idx else walk fuel to_right s s.root

  -- The climb of vlSetNext and vlSetPrev, for as long as the iterator is the child on that side.
  pub climb : ℕ → Side → Set V → ℕ → ℕ → Option ℕ
  unfolding node_at
  climb zero d s iter parent = none
  climb (suc fuel) d s iter parent =
      let above = (node_at s parent).parent in
      let rest = climb fuel d s parent above in
      if child d (node_at s parent) == iter
      then if above == invalid_idx then some invalid_idx else rest
      else some parent

  -- vlSetNext is the step to the right, vlSetPrev the step to the left.
  pub step : ℕ → Side → Set V → ℕ → Option ℕ
  unfolding walk climb node_at
  step fuel d s iter =
      let n = node_at s iter in
      if iter == invalid_idx
      then some invalid_idx
      else if child d n == invalid_idx
      then if n.parent == invalid_idx
        then some invalid_idx
        else if child (other d) (node_at s n.parent) == iter
        then some n.parent
        else climb fuel d s iter n.parent
      else walk fuel (other d) s (child d n)

  pub next : ℕ → Set V → ℕ → Option ℕ
  unfolding step
  next fuel s iter = step fuel to_right s iter

  pub prev : ℕ → Set V → ℕ → Option ℕ
  unfolding step
  prev fuel s iter = step fuel to_left s iter

  -- vlSetFind
  pub find_from : ℕ → (V → V → Ordering) → Set V → V → ℕ → Option ℕ
  unfolding sample node_at
  find_from zero cmp s elem cur = none
  find_from (suc fuel) cmp s elem cur =
      let comp = cmp (sample s cur) elem in
      let rest = find_from fuel cmp s elem (child (side_of comp) (node_at s cur)) in
      if cur == invalid_idx then some invalid_idx else if is_equal comp then some cur else rest

  pub find : ℕ → (V → V → Ordering) → Set V → V → Option ℕ
  unfolding find_from
  find fuel cmp s elem = find_from fuel cmp s elem s.root
