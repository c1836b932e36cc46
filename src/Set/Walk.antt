-- ===== src/Set/Walk.antt =====
-- vlSetFront and vlSetNext of src/core/vl_set.c go through the nodes in the order of the tree.
pub mod Seen
pub mod Climb
use veritable_lasagna.Base.{
  ℕ, zero, suc, ◌+◌, ◌≤◌, ◌<◌, ◌≡◌, ◌⊎◌, inl, inr, refl, sym, subst, ap, ◌∙◌, true, false, ◌==◌,
  if◌then◌else◌, Option, some, List, [], ◌∷◌, ◌++◌, arith, count, count-append, length,
  length-append, Bool-cases, ==_iff, Distinct,
}
use veritable_lasagna.Pool.{invalid_idx}
use veritable_lasagna.Set.{
  Slot, Set, Side, to_left, to_right, other, child, node_at, walk, climb, step, next, prev, front,
  back,
}
use veritable_lasagna.Set.Tree.{
  Tree, leaf, node, top, ids, Rep, IsTree, IsTree-valid, IsTree-Distinct, valid_unequal,
  not_invalid,
}
use veritable_lasagna.Set.Fields.{parent_at, child_at}
use veritable_lasagna.Set.Turning.{
  other-other, count-node, count_here, parent_found, joined, joined-Rep, top-joined, count-joined,
  top_found, unequal_flip, top_leaf, count_cases,
}
use veritable_lasagna.Set.Chain.{sides_apart, tops_apart}
use veritable_lasagna.Set.Search.{length-node}
use veritable_lasagna.Set.Walk.Seen.{head_or, following, seen, seen-ids, walk_lem}
use veritable_lasagna.Set.Walk.Climb.{Steps, Steps-node, rise}

module _ {V : Type 0} where
  step_within :
      (d : Side) (s : Set V) (t : Tree V) (is : IsTree s t) (fuel q : ℕ) (u : Tree V) (x : ℕ)
      → Rep (node_at s) q u
      → ((j : ℕ) → 1 ≤ count j (ids u) → 1 ≤ count j (ids t))
      → Distinct (ids u)
      → 1 ≤ count x (ids u)
      → Steps d s t is fuel u q x
  step_within d s t is fuel q leaf x rep inside dis has = absurd (omega arith)
  step_within to_right s t is fuel q (node l i v r) x rep inside dis has =
      let c = λ (j : ℕ). count-node j l i v r in
      Steps-node to_right s t is fuel q l i v r x rep inside dis has
        (step_within to_right s t is fuel i l x rep.4 (λ j h. inside j (omega (arith, c j)))
          (λ j. omega (arith, c j, dis j)))
        (step_within to_right s t is fuel i r x rep.5 (λ j h. inside j (omega (arith, c j)))
          (λ j. omega (arith, c j, dis j)))
  step_within to_left s t is fuel q (node l i v r) x rep inside dis has =
      let c = λ (j : ℕ). count-node j l i v r in
      Steps-node to_left s t is fuel q r i v l x rep inside dis has
        (step_within to_left s t is fuel i r x rep.5 (λ j h. inside j (omega (arith, c j)))
          (λ j. omega (arith, c j, dis j)))
        (step_within to_left s t is fuel i l x rep.4 (λ j h. inside j (omega (arith, c j)))
          (λ j. omega (arith, c j, dis j)))

  pub step_lem :
      (d : Side) (s : Set V) (t : Tree V) (fuel x : ℕ)
      → IsTree s t
      → 1 ≤ count x (ids t)
      → length (ids t) ≤ fuel
      → step fuel d s x ≡ some (following x (seen d t) invalid_idx)
  step_lem d s t fuel x is has enough =
      step_within d s t is fuel invalid_idx t x is.rep (λ j h. h) (IsTree-Distinct s t is) has
        invalid_idx 0 (λ f h. refl) (omega arith)

  -- Where the nodes of a set are a tree, the fuel is at least the number of nodes, and the
  -- iterator is a node, `next` ends and returns the node that follows it in the order of the tree,
  -- or VL_SET_ITER_INVALID after the last one.
  pub next_lem :
      (s : Set V) (t : Tree V) (fuel x : ℕ)
      → IsTree s t
      → 1 ≤ count x (ids t)
      → length (ids t) ≤ fuel
      → next fuel s x ≡ some (following x (ids t) invalid_idx)
  unfolding next
  next_lem s t fuel x is has enough =
      step_lem to_right s t fuel x is has enough
      ∙ ap (λ js. some (following x js invalid_idx)) (seen-ids t)

  -- The first node to one side.
  walk_root :
      (d : Side) (s : Set V) (t : Tree V) (fuel : ℕ)
      → IsTree s t
      → length (ids t) ≤ fuel
      → (if s.root == invalid_idx then some invalid_idx else walk fuel (other d) s s.root)
        ≡ some (head_or (seen d t) invalid_idx)
  walk_root d s t fuel is enough = elim (Bool-cases (top t == invalid_idx)) [
    | inl e ↦
        ap (λ r. if r == invalid_idx then some invalid_idx else walk fuel (other d) s r) is.root
        ∙ rw e (
            ap (λ u. some (head_or (seen d u) invalid_idx))
              (sym (top_leaf t (λ j. IsTree-valid s t j is) e)))
    | inr e ↦
        ap (λ r. if r == invalid_idx then some invalid_idx else walk fuel (other d) s r) is.root
        ∙ rw e (
            walk_lem d s fuel invalid_idx t invalid_idx is.rep (λ j. IsTree-valid s t j is) e
              enough)
  ]

  pub front_lem :
      (s : Set V) (t : Tree V) (fuel : ℕ)
      → IsTree s t
      → length (ids t) ≤ fuel
      → front fuel s ≡ some (head_or (ids t) invalid_idx)
  unfolding front
  front_lem s t fuel is enough =
      walk_root to_right s t fuel is enough ∙ ap (λ js. some (head_or js invalid_idx)) (seen-ids t)
