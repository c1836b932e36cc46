-- ===== src/Set/Fixup/Rounds.antt =====
-- The rounds of the fixup loop of vlSetInsert, and the case of a red uncle.
use veritable_lasagna.Base.{
  ℕ, zero, suc, ◌≤◌, ◌<◌, ◌≡◌, ◌≢◌, ◌⊎◌, inl, inr, refl, sym, ap, ◌∙◌, true, false, ◌==◌,
  if◌then◌else◌, some, arith, Bool-cases, ==_iff,
}
use veritable_lasagna.Pool.{invalid_idx}
use veritable_lasagna.Set.{Color, red, black, is_red, Set, other, node_at, set_color, store}
use veritable_lasagna.Set.Tree.{Tree, IsTree, Turned, set_color-IsTree, valid_unequal}
use veritable_lasagna.Set.Fields.{parent_at, child_at}
use veritable_lasagna.Set.Straighten.{parent_at-set_color, color-set_color}
use veritable_lasagna.Set.Insertion.{red_at, recolor, straighten, fix_round, side_below, fixup}

pub not_red : (c : Color) → is_red c ≡ false → c ≡ black
not_red black h = refl
not_red red h = cc

module _ {V : Type 0} where
  pub Turned-refl : (s : Set V) (t : Tree V) → IsTree s t → Turned s t
  Turned-refl s t is = record { tree = t; is = is; same_ids = refl; same_entries = refl }

  -- The parent is the child of the grandparent on the side that the loop picks.
  pub side_lem :
      (s : Set V) (p g : ℕ)
      → ((node_at s g).left ≡ p) ⊎ ((node_at s g).right ≡ p)
      → child_at (side_below s p g) s g ≡ p
  side_lem s p g links = elim (Bool-cases (p == (node_at s g).left)) [
    | inl e ↦ rw e (sym ((==_iff p (node_at s g).left).0 e))
    | inr e ↦ elim links [
      | inl a ↦ absurd (let same = (==_iff p (node_at s g).left).1 (sym a) in cc)
      | inr b ↦ rw e b
    ]
  ]

  -- The steps of the loop.
  pub fixup_root :
      (fuel : ℕ) (s : Set V) (x : ℕ) → (x == s.root) ≡ true → fixup (suc fuel) s x ≡ some s
  unfolding fixup
  fixup_root fuel s x e = rw e refl

  pub fixup_stop :
      (fuel : ℕ) (s : Set V) (x : ℕ)
      → 1 ≤ fuel
      → parent_at s x < invalid_idx
      → (node_at s (parent_at s x)).color ≡ black
      → fixup fuel s x ≡ some s
  unfolding fixup
  fixup_stop zero s x enough p_in is_black = absurd (omega arith)
  fixup_stop (suc fuel) s x enough p_in is_black = elim (Bool-cases (x == s.root)) [
    | inl e ↦ rw e refl
    | inr e ↦ rw (e, valid_unequal (parent_at s x) p_in, is_black) refl
  ]

  pub fixup_step :
      (fuel : ℕ) (s : Set V) (x p g : ℕ) (s' : Set V) (x' : ℕ)
      → (x == s.root) ≡ false
      → parent_at s x ≡ p
      → p < invalid_idx
      → is_red (node_at s p).color ≡ true
      → parent_at s p ≡ g
      → g < invalid_idx
      → fix_round (side_below s p g) s x p g ≡ (x', s')
      → fixup (suc fuel) s x ≡ fixup fuel s' x'
  unfolding fixup
  fixup_step fuel s x p g s' x' not_root up p_in p_red p_up g_in round =
      rw (not_root, up, valid_unequal p p_in, p_red, p_up, valid_unequal g g_in, round) refl

  pub round_red :
      (s : Set V) (x p g : ℕ)
      → red_at s (child_at (other (side_below s p g)) s g) ≡ true
      → fix_round (side_below s p g) s x p g
        ≡ (g, recolor s p (child_at (other (side_below s p g)) s g) g)
  unfolding fix_round
  round_red s x p g e = rw e refl

  pub round_black :
      (s : Set V) (x p g : ℕ)
      → red_at s (child_at (other (side_below s p g)) s g) ≡ false
      → fix_round (side_below s p g) s x p g ≡ straighten (side_below s p g) s x p g
  unfolding fix_round
  round_black s x p g e = rw e refl

  -- Away from the root, the root is black, and a red node is not the root.
  pub start_black :
      (s : Set V) (x : ℕ)
      → (x == s.root) ≡ false
      → (x ≡ s.root) ⊎ ((node_at s s.root).color ≡ black)
      → (node_at s s.root).color ≡ black
  start_black s x not_root (inl e) = absurd (let same = (==_iff x s.root).1 e in cc)
  start_black s x not_root (inr is_black) = is_black

  pub red_not_root :
      (s : Set V) (p : ℕ)
      → is_red (node_at s p).color ≡ true
      → (node_at s s.root).color ≡ black
      → p ≢ s.root
  red_not_root s p p_red is_black e =
      let same : is_red (node_at s p).color ≡ false =
        ap (λ z. is_red (node_at s z).color) e ∙ ap is_red is_black in
      cc

  -- The case of a red uncle.
  module _ (s : Set V) (t : Tree V) (p u g : ℕ) (is : IsTree s t) where
    pub recolor-IsTree : IsTree (recolor s p u g) t
    unfolding recolor
    recolor-IsTree =
        set_color-IsTree _ g red t (set_color-IsTree _ u black t (set_color-IsTree s p black t is))

    pub recolor-parent : (i : ℕ) → parent_at (recolor s p u g) i ≡ parent_at s i
    unfolding recolor
    recolor-parent i =
        parent_at-set_color _ g red i
        ∙ parent_at-set_color _ u black i
        ∙ parent_at-set_color s p black i

    pub recolor-color :
        (i : ℕ)
        → (node_at (recolor s p u g) i).color ≡ (
            if g == i
            then red
            else if u == i
            then black
            else if p == i
            then black
            else (node_at s i).color)
    unfolding recolor
    recolor-color i =
        color-set_color _ g red i
        ∙ rw (color-set_color (set_color s p black) u black i, color-set_color s p black i) refl

    pub recolor-root : (recolor s p u g).root ≡ s.root
    unfolding recolor set_color store
    recolor-root = refl

    -- The loop goes on with the grandparent, which is the root, or the root stays black.
    pub recolor_black :
        (node_at s s.root).color ≡ black
        → (g ≡ (recolor s p u g).root)
          ⊎ ((node_at (recolor s p u g) (recolor s p u g).root).color ≡ black)
    recolor_black is_black = elim (Bool-cases (g == s.root)) [
      | inl e ↦ inl ((==_iff g s.root).0 e ∙ sym recolor-root)
      | inr e ↦ inr (
          ap (λ z. (node_at (recolor s p u g) z).color) recolor-root
          ∙ recolor-color s.root
          ∙ rw e (elim (Bool-cases (u == s.root)) [
            | inl f ↦ rw f refl
            | inr f ↦ elim (Bool-cases (p == s.root)) [
              | inl k ↦ rw (f, k) refl
              | inr k ↦ rw (f, k) is_black
            ]
          ]))
    ]
