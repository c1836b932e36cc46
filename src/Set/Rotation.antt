-- ===== src/Set/Rotation.antt =====
-- A turn of vl_set.c turns the tree at one node.
pub mod Relink
pub mod Top
pub mod Inside
use veritable_lasagna.Base.{
  ℕ, ◌+◌, ◌≤◌, ◌<◌, ◌≡◌, ◌⊎◌, inl, inr, refl, sym, subst, ap, ◌∙◌, Bool, true, false, ◌==◌,
  if◌then◌else◌, List, [], ◌∷◌, ◌++◌, arith, length, ◌^◌, count, count-append, Distinct, Bool-cases,
  leb, ==_iff, ne_of_count,
}
use veritable_lasagna.Pool.{Pool, invalid_idx}
use veritable_lasagna.Set.{
  Slot, Set, Side, to_left, to_right, other, child, node_at, rotate_up, rotate,
}
use veritable_lasagna.Set.Tree.{
  Tree, leaf, node, top, ids, inorder, Rep, SameLinks, Rep-same, IsTree, IsTree-valid,
  IsTree-Distinct, Turned, valid_unequal, not_invalid,
}
use veritable_lasagna.Pool.Owns.{Owns}
use veritable_lasagna.Set.Fields.{
  parent_at, child_at, Kept, rotate_up-Kept, parent_at-rotate_up, child_at-rotate_up,
  other_at-rotate_up, root-rotate_up,
}
use veritable_lasagna.Set.Turning.{
  top_turned, turned, ids-turned, inorder-turned, count-node, count_here, count_alone, joined,
  count-joined, Rep-joined, joined-Rep, top-joined, top_found, top_parent, unequal_flip,
  count_cases, turned_absent, member_cases, Found, child-Found, parent_found,
}
use veritable_lasagna.Set.Rotation.Relink.{
  relinked, same_children, after, inner, above, away, away-Rep, moved-Rep,
}
use veritable_lasagna.Set.Rotation.Top.{at_top}
use veritable_lasagna.Set.Rotation.Inside.{
  apart, other-Rep, parent_after, other_top, children_after,
}

module _ {V : Type 0} (d : Side) (s : Set V) (x y : ℕ) where
  -- The nodes of a whole tree.
  turned-Rep :
      (q : ℕ) (t : Tree V)
      → Rep (node_at s) q t
      → Distinct (ids t)
      → ((i : ℕ) → 1 ≤ count i (ids t) → i < invalid_idx)
      → count q (ids t) ≡ 0
      → 1 ≤ count x (ids t)
      → child_at (other d) s x ≡ y
      → y < invalid_idx
      → Rep (node_at (after d s x y)) q (turned d x t)
        × (top (turned d x t) ≡ (if x == top t then y else top t))
  turned-Rep q leaf rep dis valid out has link there = absurd (omega arith)
  turned-Rep q (node l i v r) (hp, hl, hr, hv, repl, repr) dis valid out has link there =
      let here = count_here l i v r in
      let c = λ (j : ℕ). count-node j l i v r in
      let i_in = valid i here in
      let (alone_l, alone_r) = count_alone l i v r dis in
      elim (member_cases x l i v r has) [
        | inl same ↦
            let is_x = (==_iff x i).1 same in
            rw is_x (
              subst
                (λ z.
                  Rep (node_at (rotate_up d s z y)) q (top_turned d (node l i v r))
                  × (top (top_turned d (node l i v r)) ≡ y))
                (sym same)
                (at_top d s i y q l v r (hp, hl, hr, hv, repl, repr) dis valid out
                  (subst (λ z. child_at (other d) s z ≡ y) same link) there))
        | inr (inl inside) ↦
            let part : (j : ℕ) → count j (ids l) + (if j == i then 1 else 0) + count j (ids r) ≤ 1 =
              λ j. omega (arith, c j, dis j) in
            let ok_u : (j : ℕ) → 1 ≤ count j (ids l) → j < invalid_idx =
              λ j h. valid j (omega (arith, c j)) in
            let ok_o : (j : ℕ) → 1 ≤ count j (ids r) → j < invalid_idx =
              λ j h. valid j (omega (arith, c j)) in
            let x_i =
              (apart d s x y to_left l i r q repl part ok_u ok_o i_in inside link there x
                inside).0 in
            let (a, b) =
              children_after d s x y to_left l i r q repl part ok_u ok_o i_in inside link there hl
                hr in
            let (ih, up) =
              turned-Rep i l repl (λ j. omega (arith, part j)) ok_u alone_l inside link there in
            rw x_i (
              (
                parent_after d s x y to_left l i r q repl part ok_u ok_o i_in inside link there
                    ∙ hp,
                a ∙ sym up,
                b
                    ∙ sym (
                        other_top d s x y to_left l i r q repl part ok_u ok_o i_in inside link
                          there),
                (rotate_up-Kept d s x y).value i ∙ hv,
                ih,
                other-Rep d s x y to_left l i r q repl part ok_u ok_o i_in inside link there repr,
              ),
              refl,
            )
        | inr (inr inside) ↦
            let part : (j : ℕ) → count j (ids r) + (if j == i then 1 else 0) + count j (ids l) ≤ 1 =
              λ j. omega (arith, c j, dis j) in
            let ok_u : (j : ℕ) → 1 ≤ count j (ids r) → j < invalid_idx =
              λ j h. valid j (omega (arith, c j)) in
            let ok_o : (j : ℕ) → 1 ≤ count j (ids l) → j < invalid_idx =
              λ j h. valid j (omega (arith, c j)) in
            let x_i =
              (apart d s x y to_right r i l q repr part ok_u ok_o i_in inside link there x
                inside).0 in
            let (a, b) =
              children_after d s x y to_right r i l q repr part ok_u ok_o i_in inside link there hr
                hl in
            let (ih, up) =
              turned-Rep i r repr (λ j. omega (arith, part j)) ok_u alone_r inside link there in
            rw x_i (
              (
                parent_after d s x y to_right r i l q repr part ok_u ok_o i_in inside link there
                    ∙ hp,
                b
                    ∙ sym (
                        other_top d s x y to_right r i l q repr part ok_u ok_o i_in inside link
                          there),
                a ∙ sym up,
                (rotate_up-Kept d s x y).value i ∙ hv,
                other-Rep d s x y to_right r i l q repr part ok_u ok_o i_in inside link there repl,
                ih,
              ),
              refl,
            )
      ]

  rotate_up-Turned :
      (t : Tree V)
      → IsTree s t
      → 1 ≤ count x (ids t)
      → child_at (other d) s x ≡ y
      → y < invalid_idx
      → Turned (rotate_up d s x y) t
  rotate_up-Turned t is has link there =
      let valid = λ (i : ℕ) (h : 1 ≤ count i (ids t)). IsTree-valid s t i is h in
      let out : count invalid_idx (ids t) ≡ 0 = elim (count_cases (count invalid_idx (ids t))) [
        | inl e ↦ e
        | inr e ↦ absurd (omega (arith, valid invalid_idx e))
      ] in
      let (rep, up) =
        turned-Rep invalid_idx t is.rep (IsTree-Distinct s t is) valid out has link there in
      let kept = rotate_up-Kept d s x y in
      let same = ids-turned d x t in
      let root : (if parent_at s x == invalid_idx then y else s.root)
          ≡ (if x == top t then y else top t) =
        elim (parent_found (node_at s) invalid_idx t x is.rep has) [
          | inl (is_top, none_above) ↦
              rw ((==_iff (parent_at s x) invalid_idx).1 none_above, (==_iff x (top t)).1 is_top)
                refl
          | inr (found, links) ↦
              let inside : (parent_at s x == invalid_idx) ≡ false =
                valid_unequal (parent_at s x) (valid (parent_at s x) found) in
              let not_top : (x == top t) ≡ false = elim (Bool-cases (x == top t)) [
                | inr e ↦ e
                | inl e ↦ absurd (
                    let no_parent =
                      top_parent (node_at s) invalid_idx t x is.rep has ((==_iff x (top t)).0 e) in
                    let low = valid (parent_at s x) found in omega arith)
              ] in
              rw (inside, not_top) is.root
        ] in
      record {
        tree = turned d x t;
        is = record {
          owns = subst (Owns (rotate_up d s x y).node_pool) (sym same) (kept.owns (ids t) is.owns);
          rep = rep;
          root = root-rotate_up d s x y ∙ root ∙ sym up;
          counted = kept.total ∙ is.counted ∙ ap length (sym same);
          few = subst (λ z. z < 2 ^ 32) (sym kept.total) is.few;
        };
        same_ids = same;
        same_entries = inorder-turned d x t;
      }

module _ {V : Type 0} (d : Side) (s : Set V) (x : ℕ) where
  -- A turn to either side, at a node of a set whose nodes are a tree, leaves a set whose nodes are
  -- a tree with the same nodes and the same elements in the same order.
  pub rotate-Turned : (t : Tree V) → IsTree s t → 1 ≤ count x (ids t) → Turned (rotate d s x) t
  unfolding rotate
  rotate-Turned t is has =
      let low : (x == invalid_idx) ≡ false = valid_unequal x (IsTree-valid s t x is has) in
      elim (Bool-cases (child (other d) (node_at s x) == invalid_idx)) [
        | inl e ↦ rw (low, e) (record { tree = t; is = is; same_ids = refl; same_entries = refl })
        | inr e ↦
            rw (low, e)
              (let y = child (other d) (node_at s x) in
                let there : y < invalid_idx =
                  elim (child-Found (node_at s) invalid_idx t (other d) x is.rep has) [
                    | inl none_there ↦ absurd (not_invalid y e none_there)
                    | inr found ↦ IsTree-valid s t y is found
                  ] in
                let turned_tree = rotate_up-Turned d s x y t is has refl there in
                record {
                  tree = turned_tree.tree;
                  is = turned_tree.is;
                  same_ids = turned_tree.same_ids;
                  same_entries = turned_tree.same_entries;
                })
      ]
