-- ===== src/Set/Insertion.antt =====
-- vlSetInsert of src/core/vl_set.c.
use Prim.Native.Nat.{Ordering}
use veritable_lasagna.Base.{
  ℕ, zero, suc, ◌+◌, ◌%◌, ◌^◌, Bool, false, Option, none, some, ◌==◌, if◌then◌else◌,
}
use veritable_lasagna.Pool
use veritable_lasagna.Pool.{Pool, invalid_idx}
use veritable_lasagna.Set.{
  Color, red, black, is_red, Slot, Set, Side, to_left, to_right, other, child, node_at, sample,
  set_color, set_child, rotate, side_of, is_equal,
}

-- Where the descent ends: at an equal element, or at a node that has no child on the side of the search.
pub data Spot : Type 0 where
  present : ℕ → Spot
  absent : ℕ → Side → Spot

module _ {V : Type 0} where
  -- The loop of the descent, from a node of the tree. `none` means that the fuel ran out.
  unfoldable pub locate : ℕ → (V → V → Ordering) → Set V → V → ℕ → Option Spot
  locate zero cmp s elem cur = none
  locate (suc fuel) cmp s elem cur =
      let comp = cmp (sample s cur) elem in
      let next = child (side_of comp) (node_at s cur) in
      let rest = locate fuel cmp s elem next in
      if is_equal comp
      then some (present cur)
      else if next == invalid_idx
      then some (absent cur (side_of comp))
      else rest

  -- The new node, with the answer of `vlPoolTake`: the root, or a child of `cur`.
  abbrev pub leaf_slot : Color → ℕ → V → Slot V
  leaf_slot c parent elem = record {
    color = c;
    parent = parent;
    left = invalid_idx;
    right = invalid_idx;
    value = elem;
  }

  unfoldable pub add_root : Set V → V → ℕ × Pool (Slot V) → Set V
  add_root s elem (new, p) = record {
    node_pool = Pool.write p new (leaf_slot black invalid_idx elem);
    root = new;
    total_elements = (s.total_elements + 1) % 2 ^ 32;
  }

  unfoldable pub add_leaf : Set V → V → ℕ → Side → ℕ × Pool (Slot V) → Set V
  add_leaf s elem cur d (new, p) =
      set_child d
        (record {
          node_pool = Pool.write p new (leaf_slot red cur elem);
          root = s.root;
          total_elements = (s.total_elements + 1) % 2 ^ 32;
        })
        cur new

  -- An uncle that is there and red.
  unfoldable pub red_at : Set V → ℕ → Bool
  red_at s i = if i == invalid_idx then false else is_red (node_at s i).color

  -- The three colours of the case of a red uncle.
  unfoldable pub recolor : Set V → ℕ → ℕ → ℕ → Set V
  recolor s p uncle g = set_color (set_color (set_color s p black) uncle black) g red

  -- The end of the other case: the colours, and the turn of the grandparent.
  unfoldable pub turn : Side → Set V → ℕ → ℕ → Set V
  turn d s p g =
      let s' = set_color (set_color s p black) g red in rotate (other d) s' (node_at s' p).parent

  -- The case of a black uncle, with the node that the loop goes on with. An inner child is turned
  -- outwards first.
  unfoldable pub straighten : Side → Set V → ℕ → ℕ → ℕ → ℕ × Set V
  straighten d s x p g =
      if x == child (other d) (node_at s p)
      then (
        p,
        let s' = rotate d s p in
            let p' = (node_at s' p).parent in turn d s' p' (node_at s' p').parent,
      )
      else (x, turn d s p g)

  -- One round of the loop, with the parent on side `d` of the grandparent.
  unfoldable pub fix_round : Side → Set V → ℕ → ℕ → ℕ → ℕ × Set V
  fix_round d s x p g =
      let uncle = child (other d) (node_at s g) in
      if red_at s uncle then (g, recolor s p uncle g) else straighten d s x p g

  abbrev pub side_below : Set V → ℕ → ℕ → Side
  side_below s p g = if p == (node_at s g).left then to_left else to_right

  -- The loop of the fixup. `none` means that the fuel ran out, or that a null pointer is read.
  unfoldable pub fixup : ℕ → Set V → ℕ → Option (Set V)
  fixup zero s x = none
  fixup (suc fuel) s x =
      let p = (node_at s x).parent in
      let g = (node_at s p).parent in
      let (x', s') = fix_round (side_below s p g) s x p g in
      let rest = fixup fuel s' x' in
      if x == s.root
      then some s
      else if p == invalid_idx
      then none
      else if is_red (node_at s p).color
      then if g == invalid_idx then none else rest
      else some s

  unfoldable pub blackened : ℕ → Option (Set V) → Option (ℕ × Set V)
  blackened new none = none
  blackened new (some s) = some (new, set_color s s.root black)

  unfoldable pub insert_at : ℕ → Option (ℕ → Slot V) → Set V → V → Option Spot → Option (ℕ × Set V)
  insert_at fuel block s elem none = none
  insert_at fuel block s elem (some (present i)) = some (i, s)
  insert_at fuel block s elem (some (absent cur d)) =
      let taken = Pool.take block s.node_pool in
      blackened taken.0 (fixup fuel (add_leaf s elem cur d taken) taken.0)

  -- vlSetInsert. `block` is what the allocation of a block returns, if `vlPoolTake` needs one.
  unfoldable pub insert :
      ℕ → Option (ℕ → Slot V) → (V → V → Ordering) → Set V → V → Option (ℕ × Set V)
  insert fuel block cmp s elem =
      let taken = Pool.take block s.node_pool in
      if s.root == invalid_idx
      then some (taken.0, add_root s elem taken)
      else insert_at fuel block s elem (locate fuel cmp s elem s.root)
