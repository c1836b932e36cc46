-- ===== src/Set/Walk/Climb.antt =====
-- One step of vlSetNext or vlSetPrev, down or up the tree.
use veritable_lasagna.Base.{
  ℕ, zero, suc, ◌+◌, ◌≤◌, ◌<◌, ◌≡◌, inl, inr, refl, sym, subst, ap, ◌∙◌, true, false, ◌==◌,
  if◌then◌else◌, Option, some, ◌∷◌, arith, count, length, Bool-cases, ==_iff, Distinct,
}
use veritable_lasagna.Pool.{invalid_idx}
use veritable_lasagna.Set.{Set, Side, other, node_at, walk, climb, step}
use veritable_lasagna.Set.Tree.{
  Tree, leaf, node, top, ids, Rep, IsTree, IsTree-valid, IsTree-Distinct, valid_unequal,
  not_invalid,
}
use veritable_lasagna.Set.Fields.{parent_at, child_at}
use veritable_lasagna.Set.Turning.{
  other-other, count_here, parent_found, joined, joined-Rep, top-joined, count-joined, top_leaf,
  count_cases,
}
use veritable_lasagna.Set.Chain.{sides_apart, tops_apart}
use veritable_lasagna.Set.Walk.Seen.{
  head_or, following, following_left, following_right, seen, count-seen, seen-joined, length-joined,
  walk_lem,
}

module _ {V : Type 0} where
  -- The climb, with the test that the loop is entered.
  abbrev pub rise : ℕ → Side → Set V → ℕ → ℕ → Option ℕ
  rise fuel d s x p = if p == invalid_idx then some invalid_idx else climb fuel d s x p

  rise_past :
      (fuel : ℕ) (d : Side) (s : Set V) (x p q : ℕ)
      → p < invalid_idx
      → child_at d s p ≡ x
      → parent_at s p ≡ q
      → rise (suc fuel) d s x p ≡ rise fuel d s p q
  unfolding climb
  rise_past fuel d s x p q p_in link up =
      rw (valid_unequal p p_in, link, (==_iff x x).1 refl, up) refl

  rise_over :
      (fuel : ℕ) (d : Side) (s : Set V) (x p q m : ℕ) {z : ℕ}
      → p < invalid_idx
      → child_at d s p ≡ x
      → parent_at s p ≡ q
      → suc m ≤ fuel
      → ((f : ℕ) → m ≤ f → rise f d s p q ≡ some z)
      → rise fuel d s x p ≡ some z
  rise_over zero d s x p q m p_in link up enough above = absurd (omega arith)
  rise_over (suc fuel) d s x p q m p_in link up enough above =
      rise_past fuel d s x p q p_in link up ∙ above fuel (omega arith)

  rise_here :
      (fuel : ℕ) (d : Side) (s : Set V) (x p : ℕ)
      → 1 ≤ fuel
      → p < invalid_idx
      → (child_at d s p == x) ≡ false
      → rise fuel d s x p ≡ some p
  unfolding climb
  rise_here zero d s x p enough p_in apart = absurd (omega arith)
  rise_here (suc fuel) d s x p enough p_in apart = rw (valid_unequal p p_in, apart) refl

  top_valid :
      (u : Tree V) (x : ℕ)
      → ((j : ℕ) → 1 ≤ count j (ids u) → j < invalid_idx)
      → 1 ≤ count x (ids u)
      → top u < invalid_idx
  top_valid leaf x valid has = absurd (omega arith)
  top_valid (node l i v r) x valid has = valid i (count_here l i v r)

  -- A step from a node of a set.
  module _ (d : Side) (s : Set V) (t : Tree V) (is : IsTree s t) where
    step-walk :
        (fuel x : ℕ)
        → x < invalid_idx
        → (child_at d s x == invalid_idx) ≡ false
        → step fuel d s x ≡ walk fuel (other d) s (child_at d s x)
    unfolding step
    step-walk fuel x x_in e = rw (valid_unequal x x_in, e) refl

    -- The parent of a node has it on one side only.
    one_side :
        (x : ℕ)
        → 1 ≤ count x (ids t)
        → (parent_at s x == invalid_idx) ≡ false
        → child_at (other d) s (parent_at s x) ≡ x
        → (child_at d s (parent_at s x) == x) ≡ false
    one_side x has inside link = elim (parent_found (node_at s) invalid_idx t x is.rep has) [
      | inl (is_top, up) ↦ absurd (not_invalid (parent_at s x) inside up)
      | inr (found, links) ↦
          subst (λ e. (child_at e s (parent_at s x) == x) ≡ false) (other-other d)
            (sides_apart (node_at s) invalid_idx t (other d) (parent_at s x) x is.rep
              (IsTree-Distinct s t is) found link (IsTree-valid s t x is has))
    ]

    -- A node without a child on that side climbs.
    step-rise :
        (fuel x : ℕ)
        → 1 ≤ fuel
        → 1 ≤ count x (ids t)
        → child_at d s x ≡ invalid_idx
        → step fuel d s x ≡ rise fuel d s x (parent_at s x)
    unfolding step climb
    step-rise zero x start has none_there = absurd (omega arith)
    step-rise (suc fuel) x start has none_there =
        let x_in = IsTree-valid s t x is has in
        let p = parent_at s x in
        let in_tree = valid_unequal x x_in in
        elim (Bool-cases (p == invalid_idx)) [
          | inl e ↦ rw (in_tree, none_there, e) refl
          | inr e ↦ elim (Bool-cases (child_at (other d) s p == x)) [
            | inr f ↦ rw (in_tree, none_there, e, f) refl
            | inl f ↦
                rw
                  (
                    in_tree,
                    none_there,
                    e,
                    f,
                    one_side x has e ((==_iff (child_at (other d) s p) x).0 f),
                  )
                  refl
          ]
        ]

    -- The step in a subtree, from what the climb out of it finds.
    abbrev pub Steps : ℕ → Tree V → ℕ → ℕ → Type 0
    Steps fuel u q x =
        (z m : ℕ)
        → ((f : ℕ) → m ≤ f → rise f d s (top u) q ≡ some z)
        → m + length (ids u) ≤ fuel
        → step fuel d s x ≡ some (following x (seen d u) z)

    module _ (fuel q : ℕ) (a : Tree V) (i : ℕ) (v : V) (b : Tree V) (x : ℕ)
        (rep : Rep (node_at s) q (joined (other d) a i v b))
        (inside : (j : ℕ) → 1 ≤ count j (ids (joined (other d) a i v b)) → 1 ≤ count j (ids t))
        (dis : Distinct (ids (joined (other d) a i v b))) where
      counts :
          (j : ℕ)
          → count j (ids (joined (other d) a i v b))
            ≡ count j (ids a) + (if j == i then 1 else 0) + count j (ids b)
      counts j = count-joined j (other d) a i v b

      below : child_at d s i ≡ top b
      below =
          let (hp, ha, hb, hv, repa, repb) = joined-Rep (node_at s) q (other d) a i v b rep in
          subst (λ e. child_at e s i ≡ top b) (other-other d) hb

      valid_a : (j : ℕ) → 1 ≤ count j (ids a) → j < invalid_idx
      valid_a j h = IsTree-valid s t j is (inside j (omega (arith, counts j)))

      valid_b : (j : ℕ) → 1 ≤ count j (ids b) → j < invalid_idx
      valid_b j h = IsTree-valid s t j is (inside j (omega (arith, counts j)))

      i_in : i < invalid_idx
      i_in = IsTree-valid s t i is (inside i (ground (arith, counts i)))

      size : length (ids (joined (other d) a i v b)) ≡ length (ids a) + suc (length (ids b))
      size = length-joined (other d) a i v b

      Steps-near :
          1 ≤ count x (ids a) → Steps fuel a i x → Steps fuel (joined (other d) a i v b) q x
      Steps-near has ih z m above enough =
          let apart =
            tops_apart a b (top a) (λ j. omega (arith, counts j, dis j)) refl
              (top_valid a x valid_a has) in
          let seen_has : 1 ≤ count x (seen d a) = omega (arith, count-seen d x a) in
          ih i 1 (λ f h. rise_here f d s (top a) i h i_in (ap (λ w. w == top a) below ∙ apart))
            (omega (arith, size))
          ∙ ap some (
              sym (
                ap (λ js. following x js z) (seen-joined d a i v b)
                ∙ following_left x (seen d a) i (seen d b) z seen_has))

      above_i : parent_at s i ≡ q
      above_i = (joined-Rep (node_at s) q (other d) a i v b rep).0

      -- The nodes before `x` do not count.
      skipped :
          (z : ℕ)
          → count x (ids a) ≡ 0
          → following x (seen d (joined (other d) a i v b)) z ≡ following x (i ∷ seen d b) z
      skipped z gone =
          ap (λ js. following x js z) (seen-joined d a i v b)
          ∙ following_right x (seen d a) (i ∷ seen d b) z (count-seen d x a ∙ gone)

      Steps-far : 1 ≤ count x (ids b) → Steps fuel b i x → Steps fuel (joined (other d) a i v b) q x
      Steps-far has ih z m above enough =
          let one = dis x in
          let c = counts x in
          let x_i : (x == i) ≡ false = ground arith in
          let gone : count x (ids a) ≡ 0 = omega arith in
          ih z (suc m)
            (λ f h. rise_over f d s (top b) i q m i_in below above_i h (λ g k.
              subst (λ w. rise g d s w q ≡ some z) (top-joined (other d) a i v b) (above g k)))
            (omega (arith, size))
          ∙ ap some (sym (skipped z gone ∙ rw x_i refl))

      Steps-here : x ≡ i → 1 ≤ fuel → Steps fuel (joined (other d) a i v b) q x
      Steps-here same start z m above enough =
          let one = dis i in
          let c = counts i in
          let gone : count i (ids a) ≡ 0 = ground arith in
          let here : following x (seen d (joined (other d) a i v b)) z ≡ head_or (seen d b) z =
            skipped z (ap (λ w. count w (ids a)) same ∙ gone) ∙ rw ((==_iff x i).1 same) refl in
          let x_in = inside i (ground (arith, c)) in
          ap (step fuel d s) same ∙ elim (Bool-cases (top b == invalid_idx)) [
            | inl e ↦
                step-rise fuel i start x_in (below ∙ (==_iff (top b) invalid_idx).0 e)
                ∙ ap (rise fuel d s i) above_i
                ∙ subst (λ w. rise fuel d s w q ≡ some z) (top-joined (other d) a i v b)
                    (above fuel (omega arith))
                ∙ ap some (sym (here ∙ ap (λ u. head_or (seen d u) z) (top_leaf b valid_b e)))
            | inr e ↦
                step-walk fuel i i_in (ap (λ w. w == invalid_idx) below ∙ e)
                ∙ ap (walk fuel (other d) s) below
                ∙ walk_lem d s fuel i b z (joined-Rep (node_at s) q (other d) a i v b rep).5 valid_b
                    e (omega (arith, size))
                ∙ ap some (sym here)
          ]

      pub Steps-node :
          1 ≤ count x (ids (joined (other d) a i v b))
          → (1 ≤ count x (ids a) → Steps fuel a i x)
          → (1 ≤ count x (ids b) → Steps fuel b i x)
          → Steps fuel (joined (other d) a i v b) q x
      Steps-node has near far z m above enough = elim (count_cases (count x (ids a))) [
        | inr in_a ↦ Steps-near in_a (near in_a) z m above enough
        | inl out_a ↦ elim (count_cases (count x (ids b))) [
          | inr in_b ↦ Steps-far in_b (far in_b) z m above enough
          | inl out_b ↦
              let c = counts x in
              let same : (x == i) ≡ true = ground arith in
              Steps-here ((==_iff x i).0 same) (omega (arith, size, enough)) z m above enough
        ]
      ]
