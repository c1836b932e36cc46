-- ===== src/Set/Straighten.antt =====
-- The last round of the fixup of vlSetInsert: after its turns, the parent is black.
use veritable_lasagna.Base.{
  ℕ, ◌≤◌, ◌<◌, ◌≡◌, refl, sym, subst, ap, ◌∙◌, false, ◌==◌, if◌then◌else◌, arith, count, ==_iff,
}
use veritable_lasagna.Pool.{invalid_idx}
use veritable_lasagna.Set.{
  Color, red, black, Set, Side, to_left, to_right, other, node_at, rotate_up, rotate, set_color,
}
use veritable_lasagna.Set.Tree.{
  Tree, ids, IsTree, IsTree-Distinct, Turned, set_color-IsTree, node_at-set_color, valid_unequal,
}
use veritable_lasagna.Set.Fields.{
  parent_at, child_at, rotate_up-Kept, parent_at-rotate_up, child_at-rotate_up,
}
use veritable_lasagna.Set.Turning.{other-other, unequal_flip}
use veritable_lasagna.Set.Rotation.{rotate-Turned}
use veritable_lasagna.Set.Chain.{sides_apart}
use veritable_lasagna.Set.Insertion.{turn, straighten}

module _ {V : Type 0} where
  -- A turn where there is a child to go up.
  rotate_on :
      (d : Side) (s : Set V) (x y : ℕ)
      → x < invalid_idx
      → child_at (other d) s x ≡ y
      → y < invalid_idx
      → rotate d s x ≡ rotate_up d s x y
  unfolding rotate
  rotate_on d s x y x_in link y_in = rw (valid_unequal x x_in, link, valid_unequal y y_in) refl

  pub Turned-trans : (s1 s2 : Set V) (t : Tree V) (a : Turned s1 t) → Turned s2 a.tree → Turned s2 t
  Turned-trans s1 s2 t a b = record {
    tree = b.tree;
    is = b.is;
    same_ids = b.same_ids ∙ a.same_ids;
    same_entries = b.same_entries ∙ a.same_entries;
  }

  -- The links and the colours after a node is coloured.
  pub parent_at-set_color :
      (s : Set V) (x : ℕ) (c : Color) (i : ℕ) → parent_at (set_color s x c) i ≡ parent_at s i
  parent_at-set_color s x c i = ground (arith, node_at-set_color s x c i)

  pub child_at-set_color :
      (d : Side) (s : Set V) (x : ℕ) (c : Color) (i : ℕ)
      → child_at d (set_color s x c) i ≡ child_at d s i
  child_at-set_color to_left s x c i = ground (arith, node_at-set_color s x c i)
  child_at-set_color to_right s x c i = ground (arith, node_at-set_color s x c i)

  pub color-set_color :
      (s : Set V) (x : ℕ) (c : Color) (i : ℕ)
      → (node_at (set_color s x c) i).color ≡ (if x == i then c else (node_at s i).color)
  color-set_color s x c i = ground (arith, node_at-set_color s x c i)

  -- The node that the loop goes on with has a black parent.
  pub record Stops (r : ℕ × Set V) (t : Tree V) : Type 0 where
    pub turned : Turned r.1 t
    pub above : parent_at r.1 r.0 < invalid_idx
    pub black_above : (node_at r.1 (parent_at r.1 r.0)).color ≡ black

  module _ (d : Side) (s : Set V) (t : Tree V) (x p g : ℕ) (is : IsTree s t)
      (x_p : (p == x) ≡ false) (x_g : (g == x) ≡ false) (p_g : (g == p) ≡ false)
      (x_up : parent_at s x ≡ p) (p_up : parent_at s p ≡ g) (p_in : p < invalid_idx)
      (g_in : g < invalid_idx) (x_in : x < invalid_idx) (g_has : 1 ≤ count g (ids t))
      (down : child_at d s g ≡ p) (outer : (child_at (other d) s p == x) ≡ false) where
    abbrev s2 : Set V
    s2 = set_color (set_color s p black) g red

    is2 : IsTree s2 t
    is2 = set_color-IsTree (set_color s p black) g red t (set_color-IsTree s p black t is)

    parent_s2 : (i : ℕ) → parent_at s2 i ≡ parent_at s i
    parent_s2 i =
        parent_at-set_color (set_color s p black) g red i ∙ parent_at-set_color s p black i

    child_s2 : (e : Side) (i : ℕ) → child_at e s2 i ≡ child_at e s i
    child_s2 e i =
        child_at-set_color e (set_color s p black) g red i ∙ child_at-set_color e s p black i

    turn_on : turn d s p g ≡ rotate (other d) s2 g
    unfolding turn
    turn_on = ap (rotate (other d) s2) (parent_s2 p ∙ p_up)

    turn_up : rotate (other d) s2 g ≡ rotate_up (other d) s2 g p
    turn_up =
        rotate_on (other d) s2 g p g_in
          (ap (λ e. child_at e s2 g) (other-other d) ∙ child_s2 d g ∙ down) p_in

    parent_after : parent_at (rotate_up (other d) s2 g p) x ≡ p
    parent_after =
        parent_at-rotate_up (other d) s2 g p x x_in
        ∙ rw (x_g, x_p, child_s2 (other d) p, outer) (parent_s2 x ∙ x_up)

    color_after : (node_at (rotate_up (other d) s2 g p) p).color ≡ black
    color_after =
        (rotate_up-Kept (other d) s2 g p).color p
        ∙ color-set_color (set_color s p black) g red p
        ∙ rw (p_g, color-set_color s p black p, (==_iff p p).1 refl) refl

    pub turn-Stops : Stops (x, turn d s p g) t
    turn-Stops =
        let same = turn_on ∙ turn_up in
        let up : parent_at (turn d s p g) x ≡ p = ap (λ z. parent_at z x) same ∙ parent_after in
        record {
          turned = subst (λ z. Turned z t) (sym turn_on) (rotate-Turned (other d) s2 g t is2 g_has);
          above = subst (λ z. z < invalid_idx) (sym up) p_in;
          black_above =
              ap (λ z. (node_at (turn d s p g) z).color) up
              ∙ ap (λ z. (node_at z p).color) same
              ∙ color_after;
        }

    -- Both cases.
    straighten_outer : straighten d s x p g ≡ (x, turn d s p g)
    unfolding straighten
    straighten_outer = rw (unequal_flip (child_at (other d) s p) x outer) refl

    pub outer-Stops : Stops (straighten d s x p g) t
    outer-Stops = subst (λ r. Stops r t) (sym straighten_outer) turn-Stops

  module _ (d : Side) (s : Set V) (t : Tree V) (x p g : ℕ) (is : IsTree s t)
      (x_p : (p == x) ≡ false) (x_g : (g == x) ≡ false) (p_g : (g == p) ≡ false)
      (x_up : parent_at s x ≡ p) (p_up : parent_at s p ≡ g) (p_in : p < invalid_idx)
      (g_in : g < invalid_idx) (x_in : x < invalid_idx) (g_has : 1 ≤ count g (ids t))
      (p_has : 1 ≤ count p (ids t)) (x_has : 1 ≤ count x (ids t)) (down : child_at d s g ≡ p)
      (inner : child_at (other d) s p ≡ x) where
    abbrev s1 : Set V
    s1 = rotate d s p

    same_rotate : s1 ≡ rotate_up d s p x
    same_rotate = rotate_on d s p x p_in inner x_in

    first : Turned s1 t
    first = rotate-Turned d s p t is p_has

    has_first : (j : ℕ) → 1 ≤ count j (ids t) → 1 ≤ count j (ids first.tree)
    has_first j h = subst (λ z. 1 ≤ count j z) (sym first.same_ids) h

    up_p : parent_at s1 p ≡ x
    up_p =
        ap (λ z. parent_at z p) same_rotate
        ∙ parent_at-rotate_up d s p x p p_in
        ∙ rw ((==_iff p p).1 refl) refl

    up_x : parent_at s1 x ≡ g
    up_x =
        ap (λ z. parent_at z x) same_rotate
        ∙ parent_at-rotate_up d s p x x x_in
        ∙ rw (x_p, (==_iff x x).1 refl) p_up

    down_g : child_at d s1 g ≡ x
    down_g =
        ap (λ z. child_at d z g) same_rotate
        ∙ child_at-rotate_up d s p x g g_in
        ∙ rw
            (
              unequal_flip g x x_g,
              (==_iff (parent_at s p) g).1 p_up,
              (==_iff (child_at d s g) p).1 down,
            )
            refl

    down_x : child_at d s1 x ≡ p
    down_x =
        ap (λ z. child_at d z x) same_rotate
        ∙ child_at-rotate_up d s p x x x_in
        ∙ rw ((==_iff x x).1 refl) refl

    straighten_inner : straighten d s x p g ≡ (p, turn d s1 x g)
    unfolding straighten
    straighten_inner = rw ((==_iff x (child_at (other d) s p)).1 (sym inner), up_p, up_x) refl

    pub inner-Stops : Stops (straighten d s x p g) t
    inner-Stops =
        let beside =
          sides_apart (node_at s1) invalid_idx first.tree d x p first.is.rep
            (IsTree-Distinct s1 first.tree first.is) (has_first x x_has) down_x p_in in
        let last =
          turn-Stops d s1 first.tree p x g first.is (unequal_flip p x x_p) p_g x_g up_p up_x x_in
            g_in p_in (has_first g g_has) down_g beside in
        subst (λ r. Stops r t) (sym straighten_inner)
          (record {
            turned = Turned-trans s1 _ t first last.turned;
            above = last.above;
            black_above = last.black_above;
          })
