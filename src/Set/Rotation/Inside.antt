-- ===== src/Set/Rotation/Inside.antt =====
-- A turn of vl_set.c inside a subtree.
use veritable_lasagna.Base.{
  ℕ, ◌+◌, ◌≤◌, ◌<◌, ◌≡◌, inl, inr, refl, sym, subst, ap, ◌∙◌, false, ◌==◌, if◌then◌else◌, arith,
  count, Bool-cases, ==_iff, ne_of_count,
}
use veritable_lasagna.Pool.{invalid_idx}
use veritable_lasagna.Set.{Set, Side, other, node_at}
use veritable_lasagna.Set.Tree.{Tree, top, ids, Rep}
use veritable_lasagna.Set.Fields.{parent_at, child_at, parent_at-rotate_up}
use veritable_lasagna.Set.Turning.{
  turned, top_found, top_parent, unequal_flip, count_cases, turned_absent, child-Found,
  parent_found,
}
use veritable_lasagna.Set.Rotation.Relink.{
  relinked, same_children, after, inner, above, away, away-Rep,
}

module _ {V : Type 0} (d : Side) (s : Set V) (x y : ℕ) where
  -- The turn in a subtree `u`, next to a subtree `o`.
  module _ (e : Side) (u : Tree V) (i : ℕ) (o : Tree V) (q : ℕ) (rep : Rep (node_at s) i u)
      (dis : (j : ℕ) → count j (ids u) + (if j == i then 1 else 0) + count j (ids o) ≤ 1)
      (valid_u : (j : ℕ) → 1 ≤ count j (ids u) → j < invalid_idx)
      (valid_o : (j : ℕ) → 1 ≤ count j (ids o) → j < invalid_idx) (i_in : i < invalid_idx)
      (has : 1 ≤ count x (ids u)) (link : child_at (other d) s x ≡ y)
      (there : y < invalid_idx) where
    -- What is in `u` is not `i`, and not in `o`.
    pub apart : (j : ℕ) → 1 ≤ count j (ids u) → ((j == i) ≡ false) × (count j (ids o) ≡ 0)
    apart j h = let one = dis j in (ground arith, ground arith)

    y_there : 1 ≤ count y (ids u)
    y_there = elim (child-Found (node_at s) i u (other d) x rep has) [
      | inl none_there ↦ absurd (omega (arith, none_there, link))
      | inr found ↦ subst (λ z. 1 ≤ count z (ids u)) link found
    ]

    inner_apart : (((inner d s x y) == i) ≡ false) × (count (inner d s x y) (ids o) ≡ 0)
    inner_apart = elim (child-Found (node_at s) i u d y rep y_there) [
      | inl none_there ↦ (
        ap (λ z. z == i) none_there ∙ ground arith,
        elim (count_cases (count (inner d s x y) (ids o))) [
          | inl e ↦ e
          | inr e ↦ absurd (omega (arith, none_there, valid_o (inner d s x y) e))
        ],
      )
      | inr found ↦ apart (inner d s x y) found
    ]

    above_apart : count (above d s x y) (ids o) ≡ 0
    above_apart = elim (parent_found (node_at s) i u x rep has) [
      | inl (is_top, up) ↦
          ap (λ z. count z (ids o)) up
          ∙ (let one = dis i in let same = (==_iff i i).1 refl in ground arith)
      | inr (found, links) ↦ (apart (above d s x y) found).1
    ]

    pub other-Rep : Rep (node_at s) i o → Rep (node_at (after d s x y)) i (turned d x o)
    other-Rep repo =
        let gone = (apart x has).1 in
        rw (turned_absent d x o gone)
          (away-Rep d s x y i o valid_o gone (apart y y_there).1 inner_apart.1 above_apart repo)

    top_not_x : count x (ids o) ≡ 0 → (top o == x) ≡ false
    top_not_x gone = elim (top_found o) [
      | inl none_there ↦ ap (λ z. z == x) none_there ∙ (let low = valid_u x has in ground arith)
      | inr found ↦ unequal_flip x (top o) (ne_of_count x (top o) (ids o) gone found)
    ]

    top_inside : 1 ≤ count (above d s x y) (ids u) → (x == top u) ≡ false
    top_inside found = elim (Bool-cases (x == top u)) [
      | inr e ↦ e
      | inl e ↦
          let up = top_parent (node_at s) i u x rep has ((==_iff x (top u)).0 e) in
          let clash = (apart (above d s x y) found).0 in absurd (ground (arith, up))
    ]

    pub parent_after : parent_at (after d s x y) i ≡ parent_at s i
    parent_after =
        parent_at-rotate_up d s x y i i_in
        ∙ rw ((apart x has).0, (apart y y_there).0, inner_apart.0) refl

    pub other_top : top (turned d x o) ≡ top o
    other_top = ap top (turned_absent d x o (apart x has).1)

    pub children_after :
        child_at e s i ≡ top u
        → child_at (other e) s i ≡ top o
        → (child_at e (after d s x y) i ≡ (if x == top u then y else top u))
          × (child_at (other e) (after d s x y) i ≡ top o)
    children_after hu ho =
        let (x_i, x_o) = apart x has in
        let y_i = (apart y y_there).0 in
        elim (parent_found (node_at s) i u x rep has) [
          | inl (is_top, up) ↦
              let is_x = (==_iff x (top u)).1 is_top in
              let not_x : (child_at (other e) s i == x) ≡ false =
                ap (λ z. z == x) ho ∙ top_not_x x_o in
              let (a, b) = relinked e d s x y i i_in x_i y_i up (hu ∙ sym is_top) not_x in
              (a ∙ rw is_x refl, b ∙ ho)
          | inr (found, links) ↦
              let not_top = top_inside found in
              let same =
                away d s x y i i_in x_i y_i inner_apart.0 (apart (above d s x y) found).0 in
              let (a, b) = same_children e (node_at (after d s x y) i) (node_at s i) same in
              (a ∙ hu ∙ rw not_top refl, b ∙ ho)
        ]
