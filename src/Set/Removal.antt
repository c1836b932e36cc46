-- ===== src/Set/Removal.antt =====
-- vlSetRemove of src/core/vl_set.c.
use Prim.Native.Nat.{Ordering}
use veritable_lasagna.Base.{
  ℕ, zero, suc, ◌+◌, ◌-◌, ◌%◌, ◌^◌, Bool, false, ◌||◌, Option, none, some, ◌==◌, if◌then◌else◌,
}
use veritable_lasagna.Pool
use veritable_lasagna.Pool.{Pool, invalid_idx}
use veritable_lasagna.Set.{
  Color, red, black, is_red, Set, Side, to_left, to_right, other, child, node_at, store, set_color,
  parent_if, relink, rotate, walk, find,
}

module _ {V : Type 0} where
  unfoldable pub is_red_at : Set V → ℕ → Bool
  is_red_at s i = if i == invalid_idx then false else is_red (node_at s i).color

  unfoldable pub color_if : Set V → ℕ → Color → Set V
  color_if s i c = if i == invalid_idx then s else set_color s i c

  -- The sibling of `x`, which is the child on side `d` of its parent.
  abbrev pub sibling : Side → Set V → ℕ → ℕ
  sibling d s x = child (other d) (node_at s (node_at s x).parent)

  -- A red sibling is turned up.
  unfoldable pub lift_sibling : Side → Set V → ℕ → Set V
  lift_sibling d s x =
      let p = (node_at s x).parent in
      let w = sibling d s x in
      if is_red_at s w
      then (let s' = set_color (set_color s w black) p red in rotate d s' (node_at s' x).parent)
      else s

  -- A sibling whose outer child is black is turned outwards.
  unfoldable pub turn_sibling : Side → Set V → ℕ → Set V
  turn_sibling d s x =
      let w = sibling d s x in
      if is_red_at s (child (other d) (node_at s w))
      then s
      else rotate (other d) (set_color (color_if s (child d (node_at s w)) black) w red) w

  -- The sibling takes the colour of the parent, and the parent is turned down.
  unfoldable pub settle : Side → Set V → ℕ → Set V
  settle d s x =
      let w = sibling d s x in
      let p = (node_at s x).parent in
      if w == invalid_idx
      then s
      else let s1 = set_color (set_color s w (node_at s p).color) p black in
        let s2 = color_if s1 (child (other d) (node_at s1 w)) black in
        rotate d s2 (node_at s2 x).parent

  -- One round of vl_SetRemoveFixup.
  unfoldable pub remove_round : Side → Set V → ℕ → ℕ × Set V
  remove_round d s x =
      let s1 = lift_sibling d s x in
      let w = sibling d s1 x in
      let n = node_at s1 w in
      let red_child = is_red_at s1 n.left || is_red_at s1 n.right in
      let s3 = settle d (turn_sibling d s1 x) x in
      if (if w == invalid_idx then false else red_child)
      then (s3.root, s3)
      else ((node_at s1 x).parent, color_if s1 w red)

  -- vl_SetRemoveFixup. `none` means that the fuel ran out.
  unfoldable pub remove_fixup : ℕ → Set V → ℕ → Option (Set V)
  remove_fixup zero s x = none
  remove_fixup (suc fuel) s x =
      let p = (node_at s x).parent in
      let (x', s') = remove_round (if x == (node_at s p).left then to_left else to_right) s x in
      let rest = remove_fixup fuel s' x' in
      if (x == s.root) || (x == invalid_idx)
      then some (color_if s x black)
      else if is_red (node_at s x).color
      then some (color_if s x black)
      else rest

  -- vl_SetTreeSuccessor
  unfoldable pub ascend : ℕ → Set V → ℕ → ℕ → Option ℕ
  ascend zero s x y = none
  ascend (suc fuel) s x y =
      let rest = ascend fuel s y (node_at s y).parent in
      if y == invalid_idx then some y else if (node_at s y).right == x then rest else some y

  unfoldable pub successor : ℕ → Set V → ℕ → Option ℕ
  successor fuel s x =
      if x == invalid_idx
      then some invalid_idx
      else if (node_at s x).right == invalid_idx
      then ascend fuel s x (node_at s x).parent
      else walk fuel to_left s (node_at s x).right

  -- `y` is cut out, and its only child takes its place.
  unfoldable pub splice : Set V → ℕ → ℕ → Set V
  splice s y x =
      let s1 = parent_if s x (node_at s y).parent in relink to_left s1 (node_at s1 y).parent y x

  -- `y` takes the place of `z`. The element is also copied to the slot of `z`, which is given back.
  unfoldable pub replace : Set V → ℕ → ℕ → Set V
  replace s z y =
      let n = node_at s z in
      let m = node_at s y in
      let s1 = store s z (record n { value = m.value }) in
      let s2 =
        store s1 y
          (record m { color = n.color; parent = n.parent; left = n.left; right = n.right }) in
      let s3 = relink to_left s2 n.parent z y in
      let s4 = parent_if s3 (node_at s3 z).left y in parent_if s4 (node_at s4 z).right y

  -- vlSetRemove behind its search for the node `y` that is cut out.
  unfoldable pub remove_node : ℕ → Set V → ℕ → ℕ → Option (Set V)
  remove_node fuel s z y =
      let n = node_at s y in
      let x = if n.left == invalid_idx then n.right else n.left in
      let s1 = splice s y x in
      let s2 = if y == z then s1 else replace s1 z y in
      let s3 = record s2 {
        node_pool = Pool.return_idx s2.node_pool z;
        total_elements = (s2.total_elements + 2 ^ 32 - 1) % 2 ^ 32;
      } in
      if is_red (node_at s2 y).color then some s3 else remove_fixup fuel s3 x

  unfoldable pub remove_found : ℕ → Set V → ℕ → Option ℕ → Option (Set V)
  remove_found fuel s z none = none
  remove_found fuel s z (some y) = if y == invalid_idx then some s else remove_node fuel s z y

  -- vlSetRemove
  unfoldable pub remove : ℕ → Set V → ℕ → Option (Set V)
  remove fuel s z =
      let n = node_at s z in
      let leaf = (n.left == invalid_idx) || (n.right == invalid_idx) in
      if (z == invalid_idx) || (s.root == invalid_idx) || (s.total_elements == 0)
      then some s
      else remove_found fuel s z (if leaf then some z else successor fuel s z)

  unfoldable pub remove_at : ℕ → Set V → Option ℕ → Option (Set V)
  remove_at fuel s none = none
  remove_at fuel s (some z) = remove fuel s z

  -- vlSetRemoveElem
  unfoldable pub remove_elem : ℕ → (V → V → Ordering) → Set V → V → Option (Set V)
  remove_elem fuel cmp s elem = remove_at fuel s (find fuel cmp s elem)
