-- ===== src/Set/Chain.antt =====
-- The way from a node of vl_set.c up to the root.
use veritable_lasagna.Base.{
  ℕ, zero, suc, ◌+◌, ◌≤◌, ◌<◌, ◌≡◌, inl, inr, refl, sym, subst, ap, ◌∙◌, false, ◌==◌, arith, count,
  length, Distinct, Bool-cases, ==_iff, ne_of_count,
}
use veritable_lasagna.Pool.{invalid_idx}
use veritable_lasagna.Set.{Slot, Set, Side, to_left, to_right, other, child, node_at}
use veritable_lasagna.Set.Tree.{
  Tree, leaf, node, top, ids, Rep, IsTree, IsTree-valid, valid_unequal,
}
use veritable_lasagna.Set.Turning.{count-node, count_here, member_cases, top_found, unequal_flip}
use veritable_lasagna.Set.Search.{length-node}

module _ {V : Type 0} where
  -- `n` steps up from `x` leave the tree, and no fewer.
  abbrev pub Chain : (ℕ → Slot V) → ℕ → ℕ → Type 0
  Chain get zero x = x ≡ invalid_idx
  Chain get (suc n) x = (x < invalid_idx) × Chain get n (get x).parent

  pub Chain-unique : (get : ℕ → Slot V) (n m x : ℕ) → Chain get n x → Chain get m x → n ≡ m
  Chain-unique get zero zero x a b = refl
  Chain-unique get zero (suc m) x a b = absurd (omega (arith, a, b.0))
  Chain-unique get (suc n) zero x a b = absurd (omega (arith, b, a.0))
  Chain-unique get (suc n) (suc m) x a b = ap suc (Chain-unique get n m (get x).parent a.1 b.1)

  pub Chain-same :
      (f g : ℕ → Slot V) (n x : ℕ)
      → ((j : ℕ) → (g j).parent ≡ (f j).parent)
      → Chain f n x
      → Chain g n x
  Chain-same f g zero x same h = h
  Chain-same f g (suc n) x same (h, rest) =
      (h, subst (Chain g n) (sym (same x)) (Chain-same f g n (f x).parent same rest))

  -- A node of a tree has a way up, no longer than the tree has nodes.
  pub Chain-found :
      (get : ℕ → Slot V) (q m : ℕ) (t : Tree V) (x : ℕ)
      → Rep get q t
      → ((j : ℕ) → 1 ≤ count j (ids t) → j < invalid_idx)
      → Chain get m q
      → 1 ≤ count x (ids t)
      → (n : ℕ) × Chain get n x × (n ≤ m + length (ids t))
  Chain-found get q m leaf x rep valid above has = absurd (omega arith)
  Chain-found get q m (node l i v r) x (hp, hl, hr, hv, repl, repr) valid above has =
      let size = length-node l i v r in
      let here : Chain get (suc m) i =
        (valid i (count_here l i v r), subst (Chain get m) (sym hp) above) in
      elim (member_cases x l i v r has) [
        | inl same ↦ (suc m, subst (Chain get (suc m)) (sym same) here, omega arith)
        | inr (inl inside) ↦
            let (n, up, few) =
              Chain-found get i (suc m) l x repl
                (λ j h. valid j (omega (arith, count-node j l i v r))) here inside in
            (n, up, omega arith)
        | inr (inr inside) ↦
            let (n, up, few) =
              Chain-found get i (suc m) r x repr
                (λ j h. valid j (omega (arith, count-node j l i v r))) here inside in
            (n, up, omega arith)
      ]

  pub tops_apart :
      (a b : Tree V) (x : ℕ)
      → ((j : ℕ) → count j (ids a) + count j (ids b) ≤ 1)
      → top a ≡ x
      → x < invalid_idx
      → (top b == x) ≡ false
  tops_apart a b x apart link there =
      let in_a : 1 ≤ count x (ids a) = elim (top_found a) [
        | inl none_there ↦ absurd (omega (arith, none_there, link))
        | inr found ↦ subst (λ z. 1 ≤ count z (ids a)) link found
      ] in
      elim (top_found b) [
        | inl none_there ↦
            ap (λ z. z == x) none_there ∙ unequal_flip x invalid_idx (valid_unequal x there)
        | inr found ↦
            unequal_flip x (top b) (ne_of_count x (top b) (ids b) (omega (arith, apart x)) found)
      ]

  -- The two children of a node are not the same node.
  sides_of :
      (get : ℕ → Slot V) (i : ℕ) (l r : Tree V) (d : Side) (x : ℕ)
      → (get i).left ≡ top l
      → (get i).right ≡ top r
      → ((j : ℕ) → count j (ids l) + count j (ids r) ≤ 1)
      → child d (get i) ≡ x
      → x < invalid_idx
      → (child (other d) (get i) == x) ≡ false
  sides_of get i l r to_left x hl hr apart link there =
      ap (λ z. z == x) hr ∙ tops_apart l r x apart (sym hl ∙ link) there
  sides_of get i l r to_right x hl hr apart link there =
      ap (λ z. z == x) hl ∙ tops_apart r l x (λ j. omega (arith, apart j)) (sym hr ∙ link) there

  pub sides_apart :
      (get : ℕ → Slot V) (q : ℕ) (t : Tree V) (d : Side) (p x : ℕ)
      → Rep get q t
      → Distinct (ids t)
      → 1 ≤ count p (ids t)
      → child d (get p) ≡ x
      → x < invalid_idx
      → (child (other d) (get p) == x) ≡ false
  sides_apart get q leaf d p x rep dis has link there = absurd (omega arith)
  sides_apart get q (node l i v r) d p x (hp, hl, hr, hv, repl, repr) dis has link there =
      let c = λ (j : ℕ). count-node j l i v r in
      elim (member_cases p l i v r has) [
        | inl same ↦
            subst (λ z. (child (other d) (get z) == x) ≡ false) (sym same)
              (sides_of get i l r d x hl hr (λ j. omega (arith, c j, dis j))
                (subst (λ z. child d (get z) ≡ x) same link) there)
        | inr (inl inside) ↦
            sides_apart get i l d p x repl (λ j. omega (arith, c j, dis j)) inside link there
        | inr (inr inside) ↦
            sides_apart get i r d p x repr (λ j. omega (arith, c j, dis j)) inside link there
      ]

  -- What is above a node of a set, whose parent is in the set.
  pub way_up :
      (s : Set V) (t : Tree V) (x : ℕ)
      → IsTree s t
      → 1 ≤ count x (ids t)
      → (n : ℕ) × Chain (node_at s) n x × (n ≤ length (ids t))
  way_up s t x is has =
      let (n, up, few) =
        Chain-found (node_at s) invalid_idx 0 t x is.rep (λ j. IsTree-valid s t j is) refl has in
      (n, up, omega arith)

  pub parent_apart :
      (get : ℕ → Slot V) (n x : ℕ) → Chain get (suc n) x → ((get x).parent == x) ≡ false
  parent_apart get n x (there, up) = elim (Bool-cases ((get x).parent == x)) [
    | inr e ↦ e
    | inl e ↦ absurd (
        let same = (==_iff (get x).parent x).0 e in
        omega (
          arith,
          Chain-unique get n (suc n) (get x).parent up
              (subst (Chain get (suc n)) (sym same) (there, up)),
        ))
  ]

  pub grand_apart :
      (get : ℕ → Slot V) (n x : ℕ)
      → Chain get (suc (suc n)) x
      → ((get (get x).parent).parent == x) ≡ false
  grand_apart get n x (there, (above, up)) =
      let g = (get (get x).parent).parent in
      elim (Bool-cases (g == x)) [
        | inr e ↦ e
        | inl e ↦ absurd (
            let same = (==_iff g x).0 e in
            omega (
              arith,
              Chain-unique get n (suc (suc n)) g up
                  (subst (Chain get (suc (suc n))) (sym same) (there, (above, up))),
            ))
      ]

  -- One step up.
  pub Chain-up :
      (get : ℕ → Slot V) (n x : ℕ)
      → Chain get n x
      → x < invalid_idx
      → (m : ℕ) × (n ≡ suc m) × Chain get m (get x).parent
  Chain-up get zero x h there = absurd (omega (arith, h))
  Chain-up get (suc m) x (h, up) there = (m, refl, up)
