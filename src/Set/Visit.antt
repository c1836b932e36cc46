-- ===== src/Set/Visit.antt =====
-- VL_SET_FOREACH of include/core/vl/vl_set.h, and the operations on two sets, go through the elements
-- in order.
use Prim.Native.Nat.{Ordering}
use mathlib.Core.List.{append_assoc}
use veritable_lasagna.Base.{
  ℕ, zero, suc, ◌+◌, ◌≤◌, ◌<◌, ◌≡◌, refl, sym, subst, ap, ◌∙◌, Option, none, some, List, [], ◌∷◌,
  ◌++◌, arith, count, count-append, length, ==_iff,
}
use veritable_lasagna.Pool.{invalid_idx}
use veritable_lasagna.Set.{Slot, Set, node_at, sample, next}
use veritable_lasagna.Set.Tree.{
  Tree, leaf, node, ids, inorder, Rep, IsTree, IsTree-valid, IsTree-Distinct, valid_unequal,
}
use veritable_lasagna.Set.Walk.{next_lem, front_lem}
use veritable_lasagna.Set.Walk.Seen.{head_or, following, following_right}
use veritable_lasagna.Set.Algebra.{each, each_from, for_each, then_each, adding, union}

pub same_body {ℓ} :
    {A : Type ℓ} (o : Option A) (f g : A → Option A)
    → ((a : A) → f a ≡ g a)
    → elim o [ none ↦ none | some d ↦ f d ] ≡ elim o [ none ↦ none | some d ↦ g d ]
same_body none f g same = refl
same_body (some a) f g same = same a

module _ {V : Type 0} where
  -- The loop body on each element of a list.
  abbrev pub visit : (V → Set V → Option (Set V)) → List (ℕ × V) → Set V → Option (Set V)
  visit add [] dest = some dest
  visit add ((i, v) ∷ es) dest = elim (add v dest) [ none ↦ none | some d ↦ visit add es d ]

  abbrev pub indices : List (ℕ × V) → List ℕ
  indices [] = []
  indices ((i, v) ∷ es) = i ∷ indices es

  indices-append : (xs ys : List (ℕ × V)) → indices (xs ++ ys) ≡ indices xs ++ indices ys
  indices-append [] ys = refl
  indices-append ((i, v) ∷ xs) ys = ap (λ js. i ∷ js) (indices-append xs ys)

  indices-inorder : (t : Tree V) → indices (inorder t) ≡ ids t
  indices-inorder leaf = refl
  indices-inorder (node l i v r) =
      indices-append (inorder l) ((i, v) ∷ inorder r)
      ∙ rw (indices-inorder l, indices-inorder r) refl

  length-indices : (es : List (ℕ × V)) → length (indices es) ≡ length es
  length-indices [] = refl
  length-indices ((i, v) ∷ es) = ap suc (length-indices es)

  -- The entries of a list are in the slots.
  abbrev Holds : (ℕ → Slot V) → List (ℕ × V) → Type 0
  Holds get [] = Unit {0}
  Holds get ((i, v) ∷ es) = ((get i).value ≡ v) × Holds get es

  append-Holds :
      (get : ℕ → Slot V) (xs ys : List (ℕ × V)) → Holds get xs → Holds get ys → Holds get (xs ++ ys)
  append-Holds get [] ys a b = b
  append-Holds get ((i, v) ∷ xs) ys (here, rest) b = (here, append-Holds get xs ys rest b)

  Rep-Holds : (get : ℕ → Slot V) (q : ℕ) (t : Tree V) → Rep get q t → Holds get (inorder t)
  Rep-Holds get q leaf rep = tt
  Rep-Holds get q (node l i v r) (hp, hl, hr, hv, repl, repr) =
      append-Holds get (inorder l) ((i, v) ∷ inorder r) (Rep-Holds get i l repl)
        (hv, Rep-Holds get i r repr)

  -- The loop from the middle of the list on.
  module _ (add : V → Set V → Option (Set V)) (s : Set V) (t : Tree V) (is : IsTree s t) (steps : ℕ)
      (enough_steps : length (ids t) ≤ steps) where
    next_entry :
        (before : List (ℕ × V)) (i : ℕ) (v : V) (es : List (ℕ × V))
        → inorder t ≡ before ++ ((i, v) ∷ es)
        → (1 ≤ count i (ids t)) × (next steps s i ≡ some (head_or (indices es) invalid_idx))
    next_entry before i v es split =
        let same : ids t ≡ indices before ++ (i ∷ indices es) =
          sym (indices-inorder t) ∙ ap indices split ∙ indices-append before ((i, v) ∷ es) in
        let c : count i (ids t) ≡ count i (indices before) + count i (i ∷ indices es) =
          ap (count i) same ∙ count-append i (indices before) (i ∷ indices es) in
        let one = IsTree-Distinct s t is i in
        let has : 1 ≤ count i (ids t) = ground arith in
        let gone : count i (indices before) ≡ 0 = ground arith in
        (
          has,
          next_lem s t steps i is has enough_steps
              ∙ ap some (
                  ap (λ js. following i js invalid_idx) same
                  ∙ following_right i (indices before) (i ∷ indices es) invalid_idx gone
                  ∙ rw ((==_iff i i).1 refl) refl),
        )

    each_lem :
        (fuel : ℕ) (before es : List (ℕ × V)) (dest : Set V)
        → inorder t ≡ before ++ es
        → Holds (node_at s) es
        → length es < fuel
        → each fuel steps add s (head_or (indices es) invalid_idx) invalid_idx dest
          ≡ visit add es dest
    unfolding each sample
    each_lem zero before es dest split holds enough = absurd (omega arith)
    each_lem (suc fuel) before [] dest split holds enough = refl
    each_lem (suc fuel) before ((i, v) ∷ es) dest split (here, holds) enough =
        let (has, after) = next_entry before i v es split in
        let in_tree = valid_unequal i (IsTree-valid s t i is has) in
        let rest = λ (d : Set V).
          each_lem fuel (before ++ ((i, v) ∷ [])) es d
            (split ∙ sym (append_assoc before ((i, v) ∷ []) es)) holds (omega (arith, enough)) in
        rw (in_tree, here)
          (same_body (add v dest) _ (visit add es) (λ d. rw (in_tree, after) (rest d)))

  pub for_each_lem :
      (fuel : ℕ) (block : Option (ℕ → Slot V)) (cmp : V → V → Ordering)
      (add : V → Set V → Option (Set V)) (s : Set V) (t : Tree V) (dest : Set V)
      → IsTree s t
      → length (ids t) < fuel
      → for_each fuel block cmp add s dest ≡ visit add (inorder t) dest
  unfolding for_each each_from
  for_each_lem fuel block cmp add s t dest is enough =
      let size = length-indices (inorder t) in
      let same = indices-inorder t in
      ap (λ o. each_from fuel add s o (some invalid_idx) dest)
        (front_lem s t fuel is (omega (arith, enough))
          ∙ ap (λ js. some (head_or js invalid_idx)) (sym same))
      ∙ each_lem add s t is fuel (omega (arith, enough)) fuel [] (inorder t) dest refl
          (Rep-Holds (node_at s) invalid_idx t is.rep)
          (subst (λ n. n < fuel) (sym (ap length same) ∙ size) enough)

  -- A union goes through the first set, then through the second one.
  module _ (fuel : ℕ) (block : Option (ℕ → Slot V)) (cmp : V → V → Ordering) (b : Set V)
      (u : Tree V) (is_b : IsTree b u) (enough_b : length (ids u) < fuel) where
    then_body :
        (o : Option (Set V)) (f g : Set V → Option (Set V))
        → ((d : Set V) → then_each fuel block cmp b (f d) ≡ g d)
        → then_each fuel block cmp b (elim o [ none ↦ none | some d ↦ f d ])
          ≡ elim o [ none ↦ none | some d ↦ g d ]
    unfolding then_each
    then_body none f g same = refl
    then_body (some d) f g same = same d

    then_visit :
        (es : List (ℕ × V)) (dest : Set V)
        → then_each fuel block cmp b (visit (adding fuel block cmp) es dest)
          ≡ visit (adding fuel block cmp) (es ++ inorder u) dest
    unfolding then_each
    then_visit [] dest = for_each_lem fuel block cmp (adding fuel block cmp) b u dest is_b enough_b
    then_visit ((i, v) ∷ es) dest =
        then_body (adding fuel block cmp v dest) _ _ (λ d. then_visit es d)

    -- Where the nodes of both sets are trees and the fuel is more than the number of nodes of
    -- each, the union inserts into the destination the elements of the first set in order, once
    -- each, and then those of the second one.
    pub union_lem :
        (a dest : Set V) (t : Tree V)
        → IsTree a t
        → length (ids t) < fuel
        → union fuel block cmp a b dest
          ≡ visit (adding fuel block cmp) (inorder t ++ inorder u) dest
    unfolding union
    union_lem a dest t is_a enough_a =
        ap (then_each fuel block cmp b)
          (for_each_lem fuel block cmp (adding fuel block cmp) a t dest is_a enough_a)
        ∙ then_visit (inorder t) dest
