-- ===== src/Set/Turning.antt =====
-- Trees of vl_set.c that are turned at one node, and where the neighbours of a node are.
use mathlib.Core.List.{append_assoc}
use veritable_lasagna.Base.{
  ℕ, zero, suc, ◌+◌, ◌≤◌, ◌<◌, true, ◌≡◌, ◌⊎◌, inl, inr, refl, sym, subst, ap, ◌∙◌, false, ◌==◌,
  if◌then◌else◌, ◌∷◌, arith, count, count-append, Distinct, Bool-cases, leb,
}
use veritable_lasagna.Pool.{invalid_idx}
use veritable_lasagna.Set.{Slot, Side, to_left, to_right, other, child}
use veritable_lasagna.Set.Tree.{valid_unequal, Tree, leaf, node, top, ids, inorder, Rep}

-- A count is 0 or not.
pub count_cases : (n : ℕ) → (n ≡ 0) ⊎ (1 ≤ n)
count_cases zero = inl refl
count_cases (suc n) = inr (omega arith)

pub other-other : (d : Side) → other (other d) ≡ d
other-other to_left = refl
other-other to_right = refl

pub unequal_flip : (a b : ℕ) → (a == b) ≡ false → (b == a) ≡ false
unequal_flip a b h = ground arith

module _ {V : Type 0} where
  -- The turn of a tree at its top, and at the node `x`.
  abbrev pub top_turned : Side → Tree V → Tree V
  top_turned to_left (node a x v (node b y w c)) = node (node a x v b) y w c
  top_turned to_left (node a x v leaf) = node a x v leaf
  top_turned to_left leaf = leaf
  top_turned to_right (node (node c y w b) x v a) = node c y w (node b x v a)
  top_turned to_right (node leaf x v a) = node leaf x v a
  top_turned to_right leaf = leaf

  abbrev pub turned : Side → ℕ → Tree V → Tree V
  turned d x leaf = leaf
  turned d x (node l i v r) =
      if x == i then top_turned d (node l i v r) else node (turned d x l) i v (turned d x r)

  ids-top_turned : (d : Side) (t : Tree V) → ids (top_turned d t) ≡ ids t
  ids-top_turned to_left leaf = refl
  ids-top_turned to_left (node a x v leaf) = refl
  ids-top_turned to_left (node a x v (node b y w c)) = append_assoc (ids a) (x ∷ ids b) (y ∷ ids c)
  ids-top_turned to_right leaf = refl
  ids-top_turned to_right (node leaf x v a) = refl
  ids-top_turned to_right (node (node c y w b) x v a) =
      sym (append_assoc (ids c) (y ∷ ids b) (x ∷ ids a))

  inorder-top_turned : (d : Side) (t : Tree V) → inorder (top_turned d t) ≡ inorder t
  inorder-top_turned to_left leaf = refl
  inorder-top_turned to_left (node a x v leaf) = refl
  inorder-top_turned to_left (node a x v (node b y w c)) =
      append_assoc (inorder a) ((x, v) ∷ inorder b) ((y, w) ∷ inorder c)
  inorder-top_turned to_right leaf = refl
  inorder-top_turned to_right (node leaf x v a) = refl
  inorder-top_turned to_right (node (node c y w b) x v a) =
      sym (append_assoc (inorder c) ((y, w) ∷ inorder b) ((x, v) ∷ inorder a))

  pub ids-turned : (d : Side) (x : ℕ) (t : Tree V) → ids (turned d x t) ≡ ids t
  ids-turned d x leaf = refl
  ids-turned d x (node l i v r) = elim (Bool-cases (x == i)) [
    | inl e ↦ rw e (ids-top_turned d (node l i v r))
    | inr e ↦ rw (e, ids-turned d x l, ids-turned d x r) refl
  ]

  pub inorder-turned : (d : Side) (x : ℕ) (t : Tree V) → inorder (turned d x t) ≡ inorder t
  inorder-turned d x leaf = refl
  inorder-turned d x (node l i v r) = elim (Bool-cases (x == i)) [
    | inl e ↦ rw e (inorder-top_turned d (node l i v r))
    | inr e ↦ rw (e, inorder-turned d x l, inorder-turned d x r) refl
  ]

  pub count-node :
      (j : ℕ) (l : Tree V) (i : ℕ) (v : V) (r : Tree V)
      → count j (ids (node l i v r)) ≡ count j (ids l) + (if j == i then 1 else 0) + count j (ids r)
  count-node j l i v r = ground (arith, count-append j (ids l) (i ∷ ids r))

  pub turned_absent : (d : Side) (x : ℕ) (t : Tree V) → count x (ids t) ≡ 0 → turned d x t ≡ t
  turned_absent d x leaf h = refl
  turned_absent d x (node l i v r) h =
      let c = count-node x l i v r in
      let e : (x == i) ≡ false = ground arith in
      rw (e, turned_absent d x l (omega arith), turned_absent d x r (omega arith)) refl

  pub member_cases :
      (x : ℕ) (l : Tree V) (i : ℕ) (v : V) (r : Tree V)
      → 1 ≤ count x (ids (node l i v r))
      → (x ≡ i) ⊎ ((1 ≤ count x (ids l)) ⊎ (1 ≤ count x (ids r)))
  member_cases x l i v r h =
      let c = count-node x l i v r in
      elim (Bool-cases (x == i)) [
        | inl e ↦ inl (ground arith)
        | inr e ↦ elim (Bool-cases (leb 1 (count x (ids l)))) [
          | inl f ↦ inr (inl (ground arith))
          | inr f ↦ inr (inr (ground arith))
        ]
      ]

  pub top_found : (t : Tree V) → (top t ≡ invalid_idx) ⊎ (1 ≤ count (top t) (ids t))
  top_found leaf = inl refl
  top_found (node l i v r) = inr (ground (arith, count-node i l i v r))

  -- Where the neighbours of a node are.
  abbrev pub Found : ℕ → Tree V → Type 0
  Found x t = (x ≡ invalid_idx) ⊎ (1 ≤ count x (ids t))

  Found-left :
      (x : ℕ) (l : Tree V) (i : ℕ) (v : V) (r : Tree V) → Found x l → Found x (node l i v r)
  Found-left x l i v r (inl e) = inl e
  Found-left x l i v r (inr h) = inr (omega (arith, count-node x l i v r))

  Found-right :
      (x : ℕ) (l : Tree V) (i : ℕ) (v : V) (r : Tree V) → Found x r → Found x (node l i v r)
  Found-right x l i v r (inl e) = inl e
  Found-right x l i v r (inr h) = inr (omega (arith, count-node x l i v r))

  pub child-Found :
      (get : ℕ → Slot V) (q : ℕ) (t : Tree V) (e : Side) (x : ℕ)
      → Rep get q t
      → 1 ≤ count x (ids t)
      → Found (child e (get x)) t
  child-Found get q leaf e x h k = absurd (omega arith)
  child-Found get q (node l i v r) to_left x (hp, hl, hr, hv, repl, repr) k =
      elim (member_cases x l i v r k) [
        | inl same ↦
            subst (λ z. Found (get z).left (node l i v r)) (sym same)
              (subst (λ z. Found z (node l i v r)) (sym hl)
                (Found-left (top l) l i v r (top_found l)))
        | inr (inl inside) ↦
            Found-left (get x).left l i v r (child-Found get i l to_left x repl inside)
        | inr (inr inside) ↦
            Found-right (get x).left l i v r (child-Found get i r to_left x repr inside)
      ]
  child-Found get q (node l i v r) to_right x (hp, hl, hr, hv, repl, repr) k =
      elim (member_cases x l i v r k) [
        | inl same ↦
            subst (λ z. Found (get z).right (node l i v r)) (sym same)
              (subst (λ z. Found z (node l i v r)) (sym hr)
                (Found-right (top r) l i v r (top_found r)))
        | inr (inl inside) ↦
            Found-left (get x).right l i v r (child-Found get i l to_right x repl inside)
        | inr (inr inside) ↦
            Found-right (get x).right l i v r (child-Found get i r to_right x repr inside)
      ]

  -- The parent of the top is outside, and that of another node is inside and has it as a child.
  pub parent_found :
      (get : ℕ → Slot V) (q : ℕ) (t : Tree V) (x : ℕ)
      → Rep get q t
      → 1 ≤ count x (ids t)
      → ((x ≡ top t) × ((get x).parent ≡ q))
        ⊎ ((1 ≤ count (get x).parent (ids t))
            × (((get (get x).parent).left ≡ x) ⊎ ((get (get x).parent).right ≡ x)))
  parent_found get q leaf x h k = absurd (omega arith)
  parent_found get q (node l i v r) x (hp, hl, hr, hv, repl, repr) k =
      elim (member_cases x l i v r k) [
        | inl same ↦ inl (same, ap (λ z. (get z).parent) same ∙ hp)
        | inr (inl inside) ↦ elim (parent_found get i l x repl inside) [
          | inl (is_top, up) ↦ inr (
            subst (λ z. 1 ≤ count z (ids (node l i v r))) (sym up)
                (ground (arith, count-node i l i v r)),
            inl (subst (λ z. (get z).left ≡ x) (sym up) (hl ∙ sym is_top)),
          )
          | inr (there, link) ↦ inr (omega (arith, count-node (get x).parent l i v r), link)
        ]
        | inr (inr inside) ↦ elim (parent_found get i r x repr inside) [
          | inl (is_top, up) ↦ inr (
            subst (λ z. 1 ≤ count z (ids (node l i v r))) (sym up)
                (ground (arith, count-node i l i v r)),
            inr (subst (λ z. (get z).right ≡ x) (sym up) (hr ∙ sym is_top)),
          )
          | inr (there, link) ↦ inr (omega (arith, count-node (get x).parent l i v r), link)
        ]
      ]

  pub count_here : (l : Tree V) (i : ℕ) (v : V) (r : Tree V) → 1 ≤ count i (ids (node l i v r))
  count_here l i v r = ground (arith, count-node i l i v r)

  pub count_alone :
      (l : Tree V) (i : ℕ) (v : V) (r : Tree V)
      → Distinct (ids (node l i v r))
      → (count i (ids l) ≡ 0) × (count i (ids r) ≡ 0)
  count_alone l i v r dis =
      let c = count-node i l i v r in let one = dis i in (ground arith, ground arith)

  -- A node with the subtree `a` on one side and `b` on the other.
  abbrev pub joined : Side → Tree V → ℕ → V → Tree V → Tree V
  joined to_left a i v b = node a i v b
  joined to_right a i v b = node b i v a

  pub count-joined :
      (j : ℕ) (e : Side) (a : Tree V) (i : ℕ) (v : V) (b : Tree V)
      → count j (ids (joined e a i v b))
        ≡ count j (ids a) + (if j == i then 1 else 0) + count j (ids b)
  count-joined j to_left a i v b = count-node j a i v b
  count-joined j to_right a i v b = omega (arith, count-node j b i v a)

  pub Rep-joined :
      (get : ℕ → Slot V) (p : ℕ) (e : Side) (a : Tree V) (i : ℕ) (v : V) (b : Tree V)
      → (get i).parent ≡ p
      → child e (get i) ≡ top a
      → child (other e) (get i) ≡ top b
      → (get i).value ≡ v
      → Rep get i a
      → Rep get i b
      → Rep get p (joined e a i v b)
  Rep-joined get p to_left a i v b hp ha hb hv ra rb = (hp, ha, hb, hv, ra, rb)
  Rep-joined get p to_right a i v b hp ha hb hv ra rb = (hp, hb, ha, hv, rb, ra)

  pub joined-Rep :
      (get : ℕ → Slot V) (p : ℕ) (e : Side) (a : Tree V) (i : ℕ) (v : V) (b : Tree V)
      → Rep get p (joined e a i v b)
      → ((get i).parent ≡ p)
        × (child e (get i) ≡ top a)
        × (child (other e) (get i) ≡ top b)
        × ((get i).value ≡ v)
        × Rep get i a
        × Rep get i b
  joined-Rep get p to_left a i v b h = h
  joined-Rep get p to_right a i v b (hp, hb, ha, hv, rb, ra) = (hp, ha, hb, hv, ra, rb)

  pub top-joined : (e : Side) (a : Tree V) (i : ℕ) (v : V) (b : Tree V) → top (joined e a i v b) ≡ i
  top-joined to_left a i v b = refl
  top-joined to_right a i v b = refl

  pub top_parent :
      (get : ℕ → Slot V) (q : ℕ) (t : Tree V) (x : ℕ)
      → Rep get q t
      → 1 ≤ count x (ids t)
      → x ≡ top t
      → (get x).parent ≡ q
  top_parent get q leaf x rep h e = absurd (omega arith)
  top_parent get q (node l i v r) x (hp, hl, hr, hv, repl, repr) h e =
      ap (λ z. (get z).parent) e ∙ hp

  -- A tree with a top that is no index is empty.
  pub top_leaf :
      (t : Tree V)
      → ((j : ℕ) → 1 ≤ count j (ids t) → j < invalid_idx)
      → (top t == invalid_idx) ≡ true
      → t ≡ leaf
  top_leaf leaf valid h = refl
  top_leaf (node l i v r) valid h =
      absurd (let low = valid_unequal i (valid i (count_here l i v r)) in cc)
