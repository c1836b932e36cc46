-- ===== src/Set/Walk/Seen.antt =====
-- The order in which the walks of vl_set.c see the nodes, and the first one.
use veritable_lasagna.Base.{
  ℕ, zero, suc, ◌+◌, ◌≤◌, ◌<◌, ◌≡◌, inl, inr, refl, sym, ap, ◌∙◌, false, ◌==◌, if◌then◌else◌, some,
  List, [], ◌∷◌, ◌++◌, arith, count, count-append, length, Bool-cases,
}
use veritable_lasagna.Pool.{invalid_idx}
use veritable_lasagna.Set.{Set, Side, to_left, to_right, other, node_at, walk}
use veritable_lasagna.Set.Tree.{Tree, leaf, node, top, ids, Rep}
use veritable_lasagna.Set.Turning.{count-node, joined, joined-Rep, top_leaf}
use veritable_lasagna.Set.Search.{length-node}

-- The first index of a list, or `z`, and the one that follows the first `x`.
abbrev pub head_or : List ℕ → ℕ → ℕ
head_or [] z = z
head_or (j ∷ js) z = j

abbrev pub following : ℕ → List ℕ → ℕ → ℕ
following x [] z = z
following x (j ∷ js) z = if x == j then head_or js z else following x js z

pub head_or-append :
    (xs : List ℕ) (j : ℕ) (ys : List ℕ) (z : ℕ) → head_or (xs ++ (j ∷ ys)) z ≡ head_or xs j
head_or-append [] j ys z = refl
head_or-append (x ∷ xs) j ys z = refl

pub following_left :
    (x : ℕ) (xs : List ℕ) (j : ℕ) (ys : List ℕ) (z : ℕ)
    → 1 ≤ count x xs
    → following x (xs ++ (j ∷ ys)) z ≡ following x xs j
following_left x [] j ys z has = absurd (omega arith)
following_left x (i ∷ xs) j ys z has = elim (Bool-cases (x == i)) [
  | inl e ↦ rw e (head_or-append xs j ys z)
  | inr e ↦ rw e (following_left x xs j ys z (ground arith))
]

pub following_right :
    (x : ℕ) (xs ys : List ℕ) (z : ℕ) → count x xs ≡ 0 → following x (xs ++ ys) z ≡ following x ys z
following_right x [] ys z gone = refl
following_right x (i ∷ xs) ys z gone =
    let e : (x == i) ≡ false = ground arith in rw e (following_right x xs ys z (ground arith))

module _ {V : Type 0} where
  -- The indices of a tree, in the order of the steps to one side.
  abbrev pub seen : Side → Tree V → List ℕ
  seen d leaf = []
  seen to_right (node l i v r) = seen to_right l ++ (i ∷ seen to_right r)
  seen to_left (node l i v r) = seen to_left r ++ (i ∷ seen to_left l)

  pub seen-ids : (t : Tree V) → seen to_right t ≡ ids t
  seen-ids leaf = refl
  seen-ids (node l i v r) = rw (seen-ids l, seen-ids r) refl

  pub count-seen : (d : Side) (x : ℕ) (t : Tree V) → count x (seen d t) ≡ count x (ids t)
  count-seen d x leaf = refl
  count-seen to_right x (node l i v r) = ap (count x) (seen-ids (node l i v r))
  count-seen to_left x (node l i v r) =
      let a = count-seen to_left x l in
      let b = count-seen to_left x r in
      let c = count-append x (seen to_left r) (i ∷ seen to_left l) in
      let n = count-node x l i v r in ground arith

  pub seen-joined :
      (d : Side) (a : Tree V) (i : ℕ) (v : V) (b : Tree V)
      → seen d (joined (other d) a i v b) ≡ seen d a ++ (i ∷ seen d b)
  seen-joined to_left a i v b = refl
  seen-joined to_right a i v b = refl

  pub length-joined :
      (d : Side) (a : Tree V) (i : ℕ) (v : V) (b : Tree V)
      → length (ids (joined d a i v b)) ≡ length (ids a) + suc (length (ids b))
  length-joined to_left a i v b = length-node a i v b
  length-joined to_right a i v b = omega (arith, length-node b i v a)

  -- The walk down one side ends at the first index.
  walk_node :
      (d : Side) (s : Set V) (fuel q : ℕ) (a : Tree V) (i : ℕ) (v : V) (b : Tree V) (z : ℕ)
      → Rep (node_at s) q (joined (other d) a i v b)
      → ((j : ℕ) → 1 ≤ count j (ids a) → j < invalid_idx)
      → ((top a == invalid_idx) ≡ false
          → walk fuel (other d) s (top a) ≡ some (head_or (seen d a) i))
      → walk (suc fuel) (other d) s i ≡ some (head_or (seen d (joined (other d) a i v b)) z)
  unfolding walk
  walk_node d s fuel q a i v b z rep valid rest =
      let (hp, ha, hb, hv, repa, repb) = joined-Rep (node_at s) q (other d) a i v b rep in
      elim (Bool-cases (top a == invalid_idx)) [
        | inl e ↦
            rw (ha, e)
              (ap some (
                sym (
                  ap (λ js. head_or js z) (seen-joined d a i v b)
                  ∙ head_or-append (seen d a) i (seen d b) z
                  ∙ ap (λ u. head_or (seen d u) i) (top_leaf a valid e))))
        | inr e ↦
            rw (ha, e, seen-joined d a i v b, head_or-append (seen d a) i (seen d b) z) (rest e)
      ]

  pub walk_lem :
      (d : Side) (s : Set V) (fuel q : ℕ) (t : Tree V) (z : ℕ)
      → Rep (node_at s) q t
      → ((j : ℕ) → 1 ≤ count j (ids t) → j < invalid_idx)
      → (top t == invalid_idx) ≡ false
      → length (ids t) ≤ fuel
      → walk fuel (other d) s (top t) ≡ some (head_or (seen d t) z)
  walk_lem d s fuel q leaf z rep valid in_tree enough = absurd (ground arith)
  walk_lem d s zero q (node l i v r) z rep valid in_tree enough =
      absurd (omega (arith, length-node l i v r))
  walk_lem to_right s (suc fuel) q (node l i v r) z rep valid in_tree enough =
      let valid_l =
        λ (j : ℕ) (h : 1 ≤ count j (ids l)). valid j (omega (arith, count-node j l i v r)) in
      walk_node to_right s fuel q l i v r z rep valid_l
        (λ e. walk_lem to_right s fuel i l i rep.4 valid_l e (omega (arith, length-node l i v r)))
  walk_lem to_left s (suc fuel) q (node l i v r) z rep valid in_tree enough =
      let valid_r =
        λ (j : ℕ) (h : 1 ≤ count j (ids r)). valid j (omega (arith, count-node j l i v r)) in
      walk_node to_left s fuel q r i v l z rep valid_r
        (λ e. walk_lem to_left s fuel i r i rep.5 valid_r e (omega (arith, length-node l i v r)))
