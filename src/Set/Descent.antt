-- ===== src/Set/Descent.antt =====
-- The loop of vlSetInsert that descends from the root.
use Prim.Native.Nat.{Ordering}
use veritable_lasagna.Base.{
  ℕ, zero, suc, ◌≤◌, ◌<◌, ◌≡◌, ◌⊎◌, inl, inr, refl, ap, ◌∙◌, false, ◌==◌, some, ◌∷◌, ◌++◌, arith,
  count, length, Distinct, Bool-cases,
}
use veritable_lasagna.Pool.{invalid_idx}
use veritable_lasagna.Set.{Set, node_at, sample}
use veritable_lasagna.Set.Tree.{Tree, leaf, node, top, ids, inorder, Rep}
use veritable_lasagna.Set.Turning.{top_leaf, count-node, count_here}
use veritable_lasagna.Set.Order.{IsOrder, Sorted, lookup, add}
use veritable_lasagna.Set.Sorted.{
  Sorted-parts, lookup-node, add_above, add_below, add_known, Each_below, Each_at,
}
use veritable_lasagna.Set.Search.{length-node}
use veritable_lasagna.Set.Insertion.{present, locate}
use veritable_lasagna.Set.Growth.{Growth, locate_on}
use veritable_lasagna.Set.Growth.Node.{
  Growth-left, Growth-right, Growth-here_left, Growth-here_right,
}

module _ {V : Type 0} (cmp : V → V → Ordering) (ord : IsOrder cmp) (s : Set V) (e : V)
    (new : ℕ) where
  -- The descent ends at an equal element.
  pub record Met (fuel : ℕ) (t : Tree V) : Type 0 where
    pub index : ℕ
    pub at : locate fuel cmp s e (top t) ≡ some (present index)
    pub has : 1 ≤ count index (ids t)
    pub known : lookup cmp e (inorder t) ≡ index
    pub entries : add cmp (new, e) (inorder t) ≡ inorder t

  module _ (fuel q : ℕ) (l : Tree V) (i : ℕ) (v : V) (r : Tree V)
      (rep : Rep (node_at s) q (node l i v r)) (sorted : Sorted cmp (inorder (node l i v r))) where
    Met-here :
        cmp v e ≡ Ordering.eq
        → lookup cmp e (inorder (node l i v r)) ≡ i
        → Met (suc fuel) (node l i v r)
    unfolding sample locate
    Met-here same found =
        let p = Sorted-parts cmp ord (inorder l) i v (inorder r) sorted in
        record {
          index = i;
          at = rw (ap (λ z. cmp z e) rep.3 ∙ same) refl;
          has = count_here l i v r;
          known = found;
          entries =
              add_known cmp ord (new, e) (inorder l) (i, v) (inorder r)
                (Each_at cmp ord v e (inorder l) same p.below) same;
        }

    Met-left :
        cmp v e ≡ Ordering.gt
        → lookup cmp e (inorder (node l i v r)) ≡ lookup cmp e (inorder l)
        → (top l == invalid_idx) ≡ false
        → Met fuel l
        → Met (suc fuel) (node l i v r)
    Met-left more below in_tree m = record {
      index = m.index;
      at =
          locate_on cmp ord s e new fuel i Ordering.gt (top l) (ap (λ z. cmp z e) rep.3 ∙ more) refl
            rep.1 in_tree
          ∙ m.at;
      has = omega (arith, count-node m.index l i v r, m.has);
      known = below ∙ m.known;
      entries =
          add_below cmp ord (new, e) (inorder l) (i, v) (inorder r) more
          ∙ ap (λ z. z ++ ((i, v) ∷ inorder r)) m.entries;
    }

    Met-right :
        cmp v e ≡ Ordering.lt
        → lookup cmp e (inorder (node l i v r)) ≡ lookup cmp e (inorder r)
        → (top r == invalid_idx) ≡ false
        → Met fuel r
        → Met (suc fuel) (node l i v r)
    Met-right less below in_tree m =
        let p = Sorted-parts cmp ord (inorder l) i v (inorder r) sorted in
        record {
          index = m.index;
          at =
              locate_on cmp ord s e new fuel i Ordering.lt (top r) (ap (λ z. cmp z e) rep.3 ∙ less)
                refl rep.2 in_tree
              ∙ m.at;
          has = omega (arith, count-node m.index l i v r, m.has);
          known = below ∙ m.known;
          entries =
              add_above cmp ord (new, e) (inorder l) (i, v) (inorder r)
                (Each_below cmp ord v e (inorder l) less p.below) less
              ∙ ap (λ z. inorder l ++ ((i, v) ∷ z)) m.entries;
        }

  pub locate_lem :
      (fuel q : ℕ) (t : Tree V)
      → Rep (node_at s) q t
      → Distinct (ids t)
      → ((j : ℕ) → 1 ≤ count j (ids t) → j < invalid_idx)
      → count new (ids t) ≡ 0
      → new < invalid_idx
      → Sorted cmp (inorder t)
      → length (ids t) < fuel
      → (top t == invalid_idx) ≡ false
      → Growth cmp ord s e new fuel q t ⊎ Met fuel t
  locate_lem zero q t rep dis valid fresh new_in sorted enough in_tree = absurd (omega arith)
  locate_lem (suc fuel) q leaf rep dis valid fresh new_in sorted enough in_tree =
      absurd (ground arith)
  locate_lem (suc fuel) q (node l i v r) rep dis valid fresh new_in sorted enough in_tree =
      let p = Sorted-parts cmp ord (inorder l) i v (inorder r) sorted in
      let c = λ (j : ℕ). count-node j l i v r in
      let size = length-node l i v r in
      let valid_l : (j : ℕ) → 1 ≤ count j (ids l) → j < invalid_idx =
        λ j h. valid j (omega (arith, c j)) in
      let valid_r : (j : ℕ) → 1 ≤ count j (ids r) → j < invalid_idx =
        λ j h. valid j (omega (arith, c j)) in
      elim (lookup-node cmp ord e (inorder l) i v (inorder r) sorted) [
        | inl (less, below) ↦ elim (Bool-cases (top r == invalid_idx)) [
          | inl none_there ↦ inl (
              Growth-here_right cmp ord s e new fuel q l i v r rep dis fresh new_in sorted less
                below (top_leaf r valid_r none_there))
          | inr there ↦
              elim (locate_lem fuel i r rep.5 (λ j. omega (arith, c j, dis j)) valid_r
                (omega (arith, c new)) new_in p.sorted_above (omega arith) there) [
                  | inl g ↦ inl (
                      Growth-right cmp ord s e new fuel q l i v r rep dis fresh new_in sorted less
                        below there g)
                  | inr m ↦ inr (Met-right fuel q l i v r rep sorted less below there m)
                ]
        ]
        | inr (inl (same, found)) ↦ inr (Met-here fuel q l i v r rep sorted same found)
        | inr (inr (more, below)) ↦ elim (Bool-cases (top l == invalid_idx)) [
          | inl none_there ↦ inl (
              Growth-here_left cmp ord s e new fuel q l i v r rep dis fresh new_in sorted more below
                (top_leaf l valid_l none_there))
          | inr there ↦
              elim (locate_lem fuel i l rep.4 (λ j. omega (arith, c j, dis j)) valid_l
                (omega (arith, c new)) new_in p.sorted_below (omega arith) there) [
                  | inl g ↦ inl (
                      Growth-left cmp ord s e new fuel q l i v r rep dis fresh new_in sorted more
                        below there g)
                  | inr m ↦ inr (Met-left fuel q l i v r rep sorted more below there m)
                ]
        ]
      ]
