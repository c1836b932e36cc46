-- ===== src/Set/Rotation/Relink.antt =====
-- The links after a turn of vl_set.c.
use veritable_lasagna.Base.{
  ℕ, ◌≤◌, ◌<◌, ◌≡◌, refl, ap, ◌∙◌, true, false, ◌==◌, arith, count, Distinct, ==_iff, ne_of_count,
}
use veritable_lasagna.Pool.{invalid_idx}
use veritable_lasagna.Set.{Slot, Set, Side, to_left, to_right, other, child, node_at, rotate_up}
use veritable_lasagna.Set.Tree.{Tree, leaf, node, top, ids, Rep, SameLinks, Rep-same}
use veritable_lasagna.Set.Fields.{
  parent_at, child_at, rotate_up-Kept, parent_at-rotate_up, child_at-rotate_up, other_at-rotate_up,
}
use veritable_lasagna.Set.Turning.{count-node, count_here, count_alone}

module _ {V : Type 0} where
  -- The parent of `x`, whose child on one side is `x`.
  relinked_left :
      (d : Side) (s : Set V) (x y i : ℕ)
      → i < invalid_idx
      → (x == i) ≡ false
      → (y == i) ≡ false
      → parent_at s x ≡ i
      → (node_at s i).left ≡ x
      → ((node_at s i).right == x) ≡ false
      → ((node_at (rotate_up d s x y) i).left ≡ y)
        × ((node_at (rotate_up d s x y) i).right ≡ (node_at s i).right)
  relinked_left to_left s x y i h nx ny np is not_x =
      let up : (parent_at s x == i) ≡ true = ground arith in
      let is_x : ((node_at s i).left == x) ≡ true = ground arith in
      (
        child_at-rotate_up to_left s x y i h ∙ rw (ny, up, is_x) refl,
        other_at-rotate_up to_left s x y i h ∙ rw (nx, up, is_x) refl,
      )
  relinked_left to_right s x y i h nx ny np is not_x =
      let up : (parent_at s x == i) ≡ true = ground arith in
      let is_x : ((node_at s i).left == x) ≡ true = ground arith in
      (
        other_at-rotate_up to_right s x y i h ∙ rw (nx, up, not_x) refl,
        child_at-rotate_up to_right s x y i h ∙ rw (ny, up, not_x) refl,
      )

  relinked_right :
      (d : Side) (s : Set V) (x y i : ℕ)
      → i < invalid_idx
      → (x == i) ≡ false
      → (y == i) ≡ false
      → parent_at s x ≡ i
      → (node_at s i).right ≡ x
      → ((node_at s i).left == x) ≡ false
      → ((node_at (rotate_up d s x y) i).right ≡ y)
        × ((node_at (rotate_up d s x y) i).left ≡ (node_at s i).left)
  relinked_right to_left s x y i h nx ny np is not_x =
      let up : (parent_at s x == i) ≡ true = ground arith in
      let is_x : ((node_at s i).right == x) ≡ true = ground arith in
      (
        other_at-rotate_up to_left s x y i h ∙ rw (nx, up, not_x) refl,
        child_at-rotate_up to_left s x y i h ∙ rw (ny, up, not_x) refl,
      )
  relinked_right to_right s x y i h nx ny np is not_x =
      let up : (parent_at s x == i) ≡ true = ground arith in
      let is_x : ((node_at s i).right == x) ≡ true = ground arith in
      (
        child_at-rotate_up to_right s x y i h ∙ rw (ny, up, is_x) refl,
        other_at-rotate_up to_right s x y i h ∙ rw (nx, up, is_x) refl,
      )

module _ {V : Type 0} where
  -- Either side.
  pub relinked :
      (e d : Side) (s : Set V) (x y i : ℕ)
      → i < invalid_idx
      → (x == i) ≡ false
      → (y == i) ≡ false
      → parent_at s x ≡ i
      → child_at e s i ≡ x
      → (child_at (other e) s i == x) ≡ false
      → (child_at e (rotate_up d s x y) i ≡ y)
        × (child_at (other e) (rotate_up d s x y) i ≡ child_at (other e) s i)
  relinked to_left = relinked_left
  relinked to_right = relinked_right

  pub same_children :
      (e : Side) (m n : Slot V)
      → SameLinks m n
      → (child e m ≡ child e n) × (child (other e) m ≡ child (other e) n)
  same_children to_left m n same = (same.left, same.right)
  same_children to_right m n same = (same.right, same.left)

module _ {V : Type 0} (d : Side) (s : Set V) (x y : ℕ) where
  abbrev pub after : Set V
  after = rotate_up d s x y

  abbrev pub inner : ℕ
  inner = child_at d s y

  abbrev pub above : ℕ
  above = parent_at s x

  Sides :
      (e : Side) (m n : Slot V)
      → m.parent ≡ n.parent
      → child e m ≡ child e n
      → child (other e) m ≡ child (other e) n
      → m.value ≡ n.value
      → SameLinks m n
  Sides to_left m n p c o v = record { parent = p; left = c; right = o; value = v }
  Sides to_right m n p c o v = record { parent = p; left = o; right = c; value = v }

  -- A node that is none of the four.
  pub away :
      (i : ℕ)
      → i < invalid_idx
      → (x == i) ≡ false
      → (y == i) ≡ false
      → (inner == i) ≡ false
      → (above == i) ≡ false
      → SameLinks (node_at after i) (node_at s i)
  away i h nx ny nb np =
      Sides d _ _ (parent_at-rotate_up d s x y i h ∙ rw (nx, ny, nb) refl)
        (child_at-rotate_up d s x y i h ∙ rw (ny, np) refl)
        (other_at-rotate_up d s x y i h ∙ rw (nx, np) refl) ((rotate_up-Kept d s x y).value i)

  -- A tree without the four nodes.
  pub away-Rep :
      (q : ℕ) (u : Tree V)
      → ((i : ℕ) → 1 ≤ count i (ids u) → i < invalid_idx)
      → count x (ids u) ≡ 0
      → count y (ids u) ≡ 0
      → count inner (ids u) ≡ 0
      → count above (ids u) ≡ 0
      → Rep (node_at s) q u
      → Rep (node_at after) q u
  away-Rep q u valid nx ny nb np rep =
      Rep-same (node_at s) (node_at after) q u
        (λ i h.
          away i (valid i h) (ne_of_count x i (ids u) nx h) (ne_of_count y i (ids u) ny h)
            (ne_of_count inner i (ids u) nb h) (ne_of_count above i (ids u) np h))
        rep

  both :
      (e : Side) (m n : Slot V)
      → child e m ≡ child e n
      → child (other e) m ≡ child (other e) n
      → (m.left ≡ n.left) × (m.right ≡ n.right)
  both to_left m n c o = (c, o)
  both to_right m n c o = (o, c)

  -- What is below a node that gets another parent.
  pub moved-Rep :
      (q : ℕ) (u : Tree V)
      → ((i : ℕ) → 1 ≤ count i (ids u) → i < invalid_idx)
      → Distinct (ids u)
      → count x (ids u) ≡ 0
      → count y (ids u) ≡ 0
      → inner ≡ top u
      → count above (ids u) ≡ 0
      → Rep (node_at s) q u
      → Rep (node_at after) x u
  moved-Rep q leaf valid dis nx ny nb np rep = tt
  moved-Rep q (node l i v r) valid dis nx ny nb np (hp, hl, hr, hv, repl, repr) =
      let here = count_here l i v r in
      let h = valid i here in
      let x_i = ne_of_count x i (ids (node l i v r)) nx here in
      let y_i = ne_of_count y i (ids (node l i v r)) ny here in
      let p_i = ne_of_count above i (ids (node l i v r)) np here in
      let b_i = (==_iff inner i).1 nb in
      let (alone_l, alone_r) = count_alone l i v r dis in
      let (left, right) =
        both d (node_at after i) (node_at s i) (child_at-rotate_up d s x y i h ∙ rw (y_i, p_i) refl)
          (other_at-rotate_up d s x y i h ∙ rw (x_i, p_i) refl) in
      (
        parent_at-rotate_up d s x y i h ∙ rw (x_i, y_i, b_i) refl,
        left ∙ hl,
        right ∙ hr,
        (rotate_up-Kept d s x y).value i ∙ hv,
        away-Rep i l (λ j k. valid j (omega (arith, count-node j l i v r)))
            (omega (arith, count-node x l i v r)) (omega (arith, count-node y l i v r))
            (ap (λ z. count z (ids l)) nb ∙ alone_l) (omega (arith, count-node above l i v r)) repl,
        away-Rep i r (λ j k. valid j (omega (arith, count-node j l i v r)))
            (omega (arith, count-node x l i v r)) (omega (arith, count-node y l i v r))
            (ap (λ z. count z (ids r)) nb ∙ alone_r) (omega (arith, count-node above l i v r)) repr,
      )
