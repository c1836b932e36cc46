-- ===== src/Set/Rotation/Top.antt =====
-- A turn of vl_set.c at the top of a tree.
use veritable_lasagna.Base.{
  ℕ, ◌+◌, ◌≤◌, ◌<◌, ◌≡◌, inl, inr, refl, sym, subst, ap, ◌∙◌, false, ◌==◌, if◌then◌else◌, arith,
  count, Distinct, ==_iff,
}
use veritable_lasagna.Pool.{invalid_idx}
use veritable_lasagna.Set.{Set, Side, to_left, to_right, other, node_at, rotate_up}
use veritable_lasagna.Set.Tree.{Tree, leaf, node, top, ids, Rep}
use veritable_lasagna.Set.Fields.{
  child_at, rotate_up-Kept, parent_at-rotate_up, child_at-rotate_up, other_at-rotate_up,
}
use veritable_lasagna.Set.Turning.{
  top_turned, joined, count-joined, Rep-joined, joined-Rep, top-joined, top_found, count_cases,
}
use veritable_lasagna.Set.Rotation.Relink.{after, away-Rep, moved-Rep}

module _ {V : Type 0} (d : Side) (s : Set V) (x y : ℕ) where
  -- The turn at the top.
  module _ (q : ℕ) (a : Tree V) (v : V) (b : Tree V) (w : V) (c : Tree V)
      (rep : Rep (node_at s) q (joined d a x v (joined d b y w c)))
      (dis : Distinct (ids (joined d a x v (joined d b y w c))))
      (valid : (i : ℕ) → 1 ≤ count i (ids (joined d a x v (joined d b y w c))) → i < invalid_idx)
      (out : count q (ids (joined d a x v (joined d b y w c))) ≡ 0) where
    counts :
        (j : ℕ)
        → count j (ids (joined d a x v (joined d b y w c)))
          ≡ count j (ids a)
            + (if j == x then 1 else 0)
            + (count j (ids b) + (if j == y then 1 else 0) + count j (ids c))
    counts j = omega (arith, count-joined j d a x v (joined d b y w c), count-joined j d b y w c)

    top_distinct : (x == y) ≡ false
    top_distinct = let c = counts x in let one = dis x in ground arith

    x_out : (count x (ids a) ≡ 0) × (count x (ids b) ≡ 0) × (count x (ids c) ≡ 0)
    x_out = let c = counts x in let one = dis x in (ground arith, ground arith, ground arith)

    y_out : (count y (ids a) ≡ 0) × (count y (ids b) ≡ 0) × (count y (ids c) ≡ 0)
    y_out = let c = counts y in let one = dis y in (ground arith, ground arith, ground arith)

    q_out :
        (count q (ids a) ≡ 0)
        × (count q (ids b) ≡ 0)
        × (count q (ids c) ≡ 0)
        × ((q == x) ≡ false)
        × ((q == y) ≡ false)
    q_out =
        let c = counts q in (ground arith, ground arith, ground arith, ground arith, ground arith)

    top_out :
        (u : Tree V)
        → ((i : ℕ)
            → count i (ids u) + count i (ids b) ≤ count i (ids (joined d a x v (joined d b y w c))))
        → count (top b) (ids u) ≡ 0
    top_out u part = elim (count_cases (count (top b) (ids u))) [
      | inl e ↦ e
      | inr e ↦ elim (top_found b) [
        | inl none_there ↦
            absurd (omega (arith, none_there, valid (top b) (omega (arith, part (top b)))))
        | inr there ↦ absurd (omega (arith, dis (top b), part (top b)))
      ]
    ]

    turn-Rep : Rep (node_at (after d s x y)) q (joined d (joined d a x v b) y w c)
    turn-Rep =
        let (px, xa, xy, xv, repa, repu) =
          joined-Rep (node_at s) q d a x v (joined d b y w c) rep in
        let (py, yb, yc, yw, repb, repc) = joined-Rep (node_at s) x d b y w c repu in
        let x_in : x < invalid_idx = valid x (ground (arith, counts x)) in
        let y_in : y < invalid_idx = valid y (ground (arith, counts y)) in
        let (q_a, q_b, q_c, q_x, q_y) = q_out in
        let (x_a, x_b, x_c) = x_out in
        let (y_a, y_b, y_c) = y_out in
        let above_x = ap (λ z. z == x) px ∙ q_x in
        let above_y = ap (λ z. z == y) px ∙ q_y in
        let same_x = (==_iff x x).1 refl in
        let same_y = (==_iff y y).1 refl in
        let other_x : (y == x) ≡ false = let t = top_distinct in ground arith in
        let off = λ (u : Tree V) (h : count q (ids u) ≡ 0). ap (λ z. count z (ids u)) px ∙ h in
        let low =
          λ (u : Tree V) (h : count (top b) (ids u) ≡ 0). ap (λ z. count z (ids u)) yb ∙ h in
        let kept = rotate_up-Kept d s x y in
        Rep-joined (node_at (after d s x y)) q d (joined d a x v b) y w c
          (parent_at-rotate_up d s x y y y_in ∙ rw (top_distinct, same_y) px)
          (child_at-rotate_up d s x y y y_in ∙ rw same_y (sym (top-joined d a x v b)))
          (other_at-rotate_up d s x y y y_in ∙ rw (top_distinct, above_y) yc) (kept.value y ∙ yw)
          (Rep-joined (node_at (after d s x y)) y d a x v b
            (parent_at-rotate_up d s x y x x_in ∙ rw same_x refl)
            (child_at-rotate_up d s x y x x_in ∙ rw (other_x, above_x) xa)
            (other_at-rotate_up d s x y x x_in ∙ rw (same_x, above_x) yb) (kept.value x ∙ xv)
            (away-Rep d s x y x a (λ j k. valid j (omega (arith, counts j))) x_a y_a
              (low a (top_out a λ i. omega (arith, counts i))) (off a q_a) repa)
            (moved-Rep d s x y y b (λ j k. valid j (omega (arith, counts j)))
              (λ j. omega (arith, counts j, dis j)) x_b y_b yb (off b q_b) repb))
          (away-Rep d s x y y c (λ j k. valid j (omega (arith, counts j))) x_c y_c
            (low c (top_out c λ i. omega (arith, counts i))) (off c q_c) repc)

module _ {V : Type 0} where
  -- The turn at the top of a tree, whose other child is there.
  pub at_top :
      (d : Side) (s : Set V) (x y q : ℕ) (l : Tree V) (v : V) (r : Tree V)
      → Rep (node_at s) q (node l x v r)
      → Distinct (ids (node l x v r))
      → ((i : ℕ) → 1 ≤ count i (ids (node l x v r)) → i < invalid_idx)
      → count q (ids (node l x v r)) ≡ 0
      → child_at (other d) s x ≡ y
      → y < invalid_idx
      → Rep (node_at (rotate_up d s x y)) q (top_turned d (node l x v r))
        × (top (top_turned d (node l x v r)) ≡ y)
  at_top to_left s x y q l v leaf (hp, hl, hr, hv, repl, repr) dis valid out link there =
      absurd (omega (arith, hr, link))
  at_top to_left s x y q l v (node b z w c) rep dis valid out link there =
      let same = sym rep.2 ∙ link in
      (
        subst (λ k. Rep (node_at (rotate_up to_left s x k)) q (node (node l x v b) z w c)) same
            (turn-Rep to_left s x z q l v b w c rep dis valid out),
        same,
      )
  at_top to_right s x y q leaf v r (hp, hl, hr, hv, repl, repr) dis valid out link there =
      absurd (omega (arith, hl, link))
  at_top to_right s x y q (node c z w b) v r rep dis valid out link there =
      let same = sym rep.1 ∙ link in
      (
        subst (λ k. Rep (node_at (rotate_up to_right s x k)) q (node c z w (node b x v r))) same
            (turn-Rep to_right s x z q r v b w c rep dis valid out),
        same,
      )
