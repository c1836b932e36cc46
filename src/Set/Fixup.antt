-- ===== src/Set/Fixup.antt =====
-- The fixup loop of vlSetInsert reaches its end, reads no null pointer, and keeps the tree.
pub mod Rounds
use veritable_lasagna.Base.{
  ℕ, zero, suc, ◌≤◌, ◌<◌, ◌≡◌, ◌≢◌, ◌⊎◌, inl, inr, refl, sym, subst, ap, ◌∙◌, true, false, ◌==◌,
  if◌then◌else◌, some, arith, count, Bool-cases, ==_iff,
}
use veritable_lasagna.Pool.{invalid_idx}
use veritable_lasagna.Set.{Color, red, black, is_red, Set, Side, other, node_at, set_color, store}
use veritable_lasagna.Set.Tree.{
  Tree, ids, IsTree, IsTree-valid, Turned, set_color-IsTree, valid_unequal,
}
use veritable_lasagna.Set.Fields.{parent_at, child_at}
use veritable_lasagna.Set.Turning.{parent_found}
use veritable_lasagna.Set.Chain.{Chain, Chain-same, parent_apart, grand_apart, Chain-up}
use veritable_lasagna.Set.Straighten.{
  Stops, parent_at-set_color, color-set_color, outer-Stops, inner-Stops,
}
use veritable_lasagna.Set.Insertion.{red_at, recolor, straighten, fix_round, side_below, fixup}
use veritable_lasagna.Set.Fixup.Rounds.{
  not_red, Turned-refl, side_lem, fixup_root, fixup_stop, fixup_step, round_red, round_black,
  start_black, red_not_root, recolor-IsTree, recolor-parent, recolor-color, recolor-root,
  recolor_black,
}

module _ {V : Type 0} where
  module _ (s : Set V) (t : Tree V) (x p g m : ℕ) (is : IsTree s t) (x_has : 1 ≤ count x (ids t))
      (p_has : 1 ≤ count p (ids t)) (g_has : 1 ≤ count g (ids t)) (x_up : parent_at s x ≡ p)
      (p_up : parent_at s p ≡ g) (up : Chain (node_at s) (suc (suc m)) x)
      (links : ((node_at s g).left ≡ p) ⊎ ((node_at s g).right ≡ p))
      (links_p : ((node_at s p).left ≡ x) ⊎ ((node_at s p).right ≡ x)) where
    abbrev d : Side
    d = side_below s p g

    valid : (j : ℕ) → 1 ≤ count j (ids t) → j < invalid_idx
    valid j = IsTree-valid s t j is

    x_p : (p == x) ≡ false
    x_p = ap (λ z. z == x) (sym x_up) ∙ parent_apart (node_at s) (suc m) x up

    x_g : (g == x) ≡ false
    x_g = ap (λ z. z == x) (sym p_up ∙ ap (parent_at s) (sym x_up)) ∙ grand_apart (node_at s) m x up

    p_g : (g == p) ≡ false
    p_g =
        ap (λ z. z == p) (sym p_up)
        ∙ parent_apart (node_at s) m p (subst (Chain (node_at s) (suc m)) x_up up.1)

    -- The case of a black uncle.
    straighten_lem : Stops (straighten d s x p g) t
    straighten_lem =
        let down = side_lem s p g links in
        elim (Bool-cases (child_at (other d) s p == x)) [
          | inr e ↦
              outer-Stops d s t x p g is x_p x_g p_g x_up p_up (valid p p_has) (valid g g_has)
                (valid x x_has) g_has down e
          | inl e ↦
              inner-Stops d s t x p g is x_p x_g p_g x_up p_up (valid p p_has) (valid g g_has)
                (valid x x_has) g_has p_has x_has down ((==_iff (child_at (other d) s p) x).0 e)
        ]

  -- The tree after the loop.
  pub record Fixed (fuel : ℕ) (s : Set V) (x : ℕ) (t : Tree V) : Type 0 where
    pub set : Set V
    pub ends : fixup fuel s x ≡ some set
    pub turned : Turned set t

  -- From a node of a tree of nodes, `n` steps below the outside of the root, that is the root or
  -- where the root is black, the fixup loop ends after at most `n` rounds, none of which misses a
  -- parent or a grandparent, and the set is then a tree with the same nodes and elements in the
  -- same order.
  pub fixup_lem :
      (fuel n : ℕ) (s : Set V) (t : Tree V) (x : ℕ)
      → IsTree s t
      → 1 ≤ count x (ids t)
      → Chain (node_at s) n x
      → n ≤ fuel
      → (x ≡ s.root) ⊎ ((node_at s s.root).color ≡ black)
      → Fixed fuel s x t
  fixup_lem zero n s t x is has up enough start = absurd (
      let (m, e, rest) = Chain-up (node_at s) n x up (IsTree-valid s t x is has) in
      omega (arith, e))
  fixup_lem (suc fuel) n s t x is has up enough start = elim (Bool-cases (x == s.root)) [
    | inl e ↦ record { set = s; ends = fixup_root fuel s x e; turned = Turned-refl s t is }
    | inr not_root ↦ elim (parent_found (node_at s) invalid_idx t x is.rep has) [
      | inl (is_top, none_above) ↦
          absurd (let same = (==_iff x s.root).1 (is_top ∙ sym is.root) in cc)
      | inr (p_has, links_p) ↦
          let p = parent_at s x in
          let p_in = IsTree-valid s t p is p_has in
          let root_black = start_black s x not_root start in
          elim (Bool-cases (is_red (node_at s p).color)) [
            | inr is_black ↦ record {
              set = s;
              ends =
                  fixup_stop (suc fuel) s x (omega arith) p_in
                    (not_red (node_at s p).color is_black);
              turned = Turned-refl s t is;
            }
            | inl p_red ↦ elim (parent_found (node_at s) invalid_idx t p is.rep p_has) [
              | inl (is_top, none_above) ↦
                  absurd (red_not_root s p p_red root_black (is_top ∙ sym is.root))
              | inr (g_has, links) ↦
                  let g = parent_at s p in
                  let g_in = IsTree-valid s t g is g_has in
                  let d = side_below s p g in
                  let u = child_at (other d) s g in
                  let (m1, e1, up1) = Chain-up (node_at s) n x up (IsTree-valid s t x is has) in
                  let (m2, e2, up2) = Chain-up (node_at s) m1 p up1 p_in in
                  let step = fixup_step fuel s x p g in
                  elim (Bool-cases (red_at s u)) [
                    | inl u_red ↦
                        let rest =
                          fixup_lem fuel m2 (recolor s p u g) t g (recolor-IsTree s t p u g is)
                            g_has
                            (Chain-same (node_at s) (node_at (recolor s p u g)) m2 g
                              (recolor-parent s t p u g is) up2)
                            (omega (arith, e1, e2, enough))
                            (recolor_black s t p u g is root_black) in
                        record {
                          set = rest.set;
                          ends =
                              step (recolor s p u g) g not_root refl p_in p_red refl g_in
                                (round_red s x p g u_red)
                              ∙ rest.ends;
                          turned = rest.turned;
                        }
                    | inr u_black ↦
                        let r = straighten d s x p g in
                        let last =
                          straighten_lem s t x p g m2 is has p_has g_has refl refl
                            (IsTree-valid s t x is has, (p_in, up2)) links links_p in
                        record {
                          set = r.1;
                          ends =
                              step r.1 r.0 not_root refl p_in p_red refl g_in
                                (round_black s x p g u_black)
                              ∙ fixup_stop fuel r.1 r.0 (omega (arith, e1, e2, enough)) last.above
                                  last.black_above;
                          turned = last.turned;
                        }
                  ]
            ]
          ]
    ]
  ]
