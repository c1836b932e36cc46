-- ===== src/Set/Search.antt =====
-- vlSetFind and the walks of vl_set.c.
use Prim.Native.Nat.{Ordering}
use veritable_lasagna.Base.{
  ℕ, zero, suc, ◌+◌, ◌≤◌, ◌<◌, ◌≡◌, inl, inr, refl, ap, ◌∙◌, some, ◌∷◌, arith, count, length,
  length-append,
}
use veritable_lasagna.Pool.{invalid_idx}
use veritable_lasagna.Set.{Set, node_at, sample, find_from, find}
use veritable_lasagna.Set.Tree.{
  Tree, leaf, node, top, ids, inorder, Rep, IsTree, IsTree-valid, valid_unequal,
}
use veritable_lasagna.Set.Turning.{count-node, count_here}
use veritable_lasagna.Set.Order.{IsOrder, Sorted, lookup}
use veritable_lasagna.Set.Sorted.{Sorted-parts, lookup-node}

pub length-node :
    {V : Type 0} (l : Tree V) (i : ℕ) (v : V) (r : Tree V)
    → length (ids (node l i v r)) ≡ length (ids l) + suc (length (ids r))
length-node l i v r = length-append (ids l) (i ∷ ids r)

module _ {V : Type 0} (cmp : V → V → Ordering) (ord : IsOrder cmp) (s : Set V) (e : V) where
  -- The search from the top of a subtree.
  find_from_lem :
      (fuel q : ℕ) (t : Tree V)
      → Rep (node_at s) q t
      → ((i : ℕ) → 1 ≤ count i (ids t) → i < invalid_idx)
      → Sorted cmp (inorder t)
      → length (ids t) < fuel
      → find_from fuel cmp s e (top t) ≡ some (lookup cmp e (inorder t))
  unfolding find_from sample
  find_from_lem zero q t rep valid sorted enough = absurd (omega arith)
  find_from_lem (suc fuel) q leaf rep valid sorted enough = refl
  find_from_lem (suc fuel) q (node l i v r) (hp, hl, hr, hv, repl, repr) valid sorted enough =
      let p = Sorted-parts cmp ord (inorder l) i v (inorder r) sorted in
      let size = length-node l i v r in
      let in_tree = valid_unequal i (valid i (count_here l i v r)) in
      elim (lookup-node cmp ord e (inorder l) i v (inorder r) sorted) [
        | inl (less, at) ↦
            rw (hv, less, in_tree, hr, at)
              (find_from_lem fuel i r repr (λ j h. valid j (omega (arith, count-node j l i v r)))
                p.sorted_above (omega arith))
        | inr (inl (same, at)) ↦ rw (hv, same, in_tree, at) refl
        | inr (inr (more, at)) ↦
            rw (hv, more, in_tree, hl, at)
              (find_from_lem fuel i l repl (λ j h. valid j (omega (arith, count-node j l i v r)))
                p.sorted_below (omega arith))
      ]

  -- Where the nodes of a set are a tree whose elements are in order, the comparator is an order,
  -- and the fuel is more than the number of nodes, `find` ends, and returns the index of the first
  -- entry that is equal to the element, or VL_SET_ITER_INVALID if there is none.
  pub find_lem :
      (fuel : ℕ) (t : Tree V)
      → IsTree s t
      → Sorted cmp (inorder t)
      → length (ids t) < fuel
      → find fuel cmp s e ≡ some (lookup cmp e (inorder t))
  unfolding find
  find_lem fuel t is sorted enough =
      ap (find_from fuel cmp s e) is.root
      ∙ (find_from_lem fuel invalid_idx t is.rep (λ i. IsTree-valid s t i is) sorted enough)
