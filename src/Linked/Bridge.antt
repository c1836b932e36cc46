-- ===== src/Linked/Bridge.antt =====
-- `bridge` takes a slot out from in between its neighbours.
use veritable_lasagna.Base.{
  ℕ, ◌+◌, ◌≡◌, ◌≢◌, refl, sym, ap, ap₂, ◌∙◌, List, [], ◌∷◌, ◌++◌, map, false, ◌==◌, if◌then◌else◌,
  arith, length, count, count-append, ◌≤◌, last_or, first_or, Links, Links-split, Links-append,
  Links-agree, subst, Links-before, Links-after, Distinct, map-agree, append-injective, length-map,
  count-last_or, Bool-cases, inl, inr, ==_iff,
}
use mathlib.Core.List.{map-append}
use veritable_lasagna.Pool
use veritable_lasagna.Pool.{Pool, invalid_idx}
use veritable_lasagna.Pool.Owns.{Owns, Ledger-range, Ledger-front}
use veritable_lasagna.Pool.Give.{return_idx-Owns}
use veritable_lasagna.Linked.{Slot, Ends, prev_at, next_at, value_at, set_next, bridge}
use veritable_lasagna.Linked.Fields.{
  IsLinked, set_prev-Owns, set_next-Owns, prev_at-set_prev, next_at-set_prev, value_at-set_prev,
  prev_at-set_next, next_at-set_next, value_at-set_next,
}

-- Links to or from a list that may be empty.
Links-front :
    (prev next prev' next' : ℕ → ℕ) (d : ℕ) (xs : List ℕ) (x r : ℕ)
    → Links prev next d xs x
    → Distinct xs
    → (1 ≤ count (last_or d xs) xs → next' (last_or d xs) ≡ r)
    → ((y : ℕ) → 1 ≤ count y xs → prev' y ≡ prev y)
    → ((y : ℕ) → 1 ≤ count y xs → y ≢ last_or d xs → next' y ≡ next y)
    → Links prev' next' d xs r
Links-front prev next prev' next' d [] x r l u e f g = tt
Links-front prev next prev' next' d (a ∷ as') x r l u e f g =
    Links-after prev next prev' next' d a as' x r l u (e (count-last_or a as'))
      (f (last_or a as') (count-last_or a as')) (λ y k n. (f y k, g y k n))

Links-back :
    (prev next prev' next' : ℕ → ℕ) (d : ℕ) (x l : ℕ) (ys : List ℕ)
    → Links prev next x ys d
    → Distinct ys
    → (1 ≤ count (first_or d ys) ys → prev' (first_or d ys) ≡ l)
    → ((y : ℕ) → 1 ≤ count y ys → next' y ≡ next y)
    → ((y : ℕ) → 1 ≤ count y ys → y ≢ first_or d ys → prev' y ≡ prev y)
    → Links prev' next' l ys d
Links-back prev next prev' next' d x l [] k u e f g = tt
Links-back prev next prev' next' d x l (a ∷ as') k u e f g =
    let here : 1 ≤ count a (a ∷ as') = ground arith in
    Links-before prev next prev' next' x l a as' d k u (e here) (f a here)
      (λ y h n. (g y h n, f y h))

-- An index of one of two lists with no common index is not at the end of the other.
first_apart :
    (d y : ℕ) (xs ys : List ℕ)
    → 1 ≤ count y xs
    → count y xs + count y ys ≤ 1
    → (y == d) ≡ false
    → (first_or d ys == y) ≡ false
first_apart d y xs [] k u n = ground arith
first_apart d y xs (z ∷ zs) k u n = ground arith

last_apart :
    (d y : ℕ) (xs ys : List ℕ)
    → 1 ≤ count y ys
    → count y xs + count y ys ≤ 1
    → (y == d) ≡ false
    → (last_or d xs == y) ≡ false
last_apart d y [] ys k u n = ground arith
last_apart d y (z ∷ zs) ys k u n =
    let b : 1 ≤ count (last_or z zs) (z ∷ zs) = count-last_or z zs in
    elim (Bool-cases (last_or z zs == y)) [
      | inr e ↦ e
      | inl e ↦
          let c : 1 ≤ count y (z ∷ zs) =
            subst (λ w. 1 ≤ count w (z ∷ zs)) ((==_iff (last_or z zs) y).0 e) b in
          absurd (omega arith)
    ]

module _ {V : Type 0} where
  -- The slots after `bridge`.
  module _ (p : Pool (Slot V)) (left right y : ℕ) where
    prev_at-bridge :
        prev_at (bridge p left right) y
        ≡ (if right == invalid_idx then prev_at p y else if right == y then left else prev_at p y)
    unfolding bridge
    prev_at-bridge = ground (
      arith,
      prev_at-set_prev p right left y,
      prev_at-set_next p left right y,
      prev_at-set_prev (set_next p left right) right left y,
    )

    next_at-bridge :
        next_at (bridge p left right) y
        ≡ (if left == invalid_idx then next_at p y else if left == y then right else next_at p y)
    unfolding bridge
    next_at-bridge = ground (
      arith,
      next_at-set_prev p right left y,
      next_at-set_next p left right y,
      next_at-set_prev (set_next p left right) right left y,
    )

    value_at-bridge : value_at (bridge p left right) y ≡ value_at p y
    unfolding bridge
    value_at-bridge = ground (
      arith,
      value_at-set_prev p right left y,
      value_at-set_next p left right y,
      value_at-set_prev (set_next p left right) right left y,
    )

  bridge-Owns :
      (p : Pool (Slot V)) (left right : ℕ) (live : List ℕ)
      → Owns p live
      → Owns (bridge p left right) live
  unfolding bridge
  bridge-Owns p left right live o = elim (Bool-cases (left == invalid_idx)) [
    | inl e ↦ elim (Bool-cases (right == invalid_idx)) [
      | inl f ↦ rw (e, f) o
      | inr f ↦ rw (e, f) (set_prev-Owns p live right left o)
    ]
    | inr e ↦ elim (Bool-cases (right == invalid_idx)) [
      | inl f ↦ rw (e, f) (set_next-Owns p live left right o)
      | inr f ↦
          rw (e, f)
            (set_prev-Owns (set_next p left right) live right left
              (set_next-Owns p live left right o))
    ]
  ]

  -- A chain with the slot `x` between `xs` and `ys`.
  module _ (e : Ends V) (xs : List ℕ) (x : ℕ) (ys : List ℕ) (o : Owns e.nodes (xs ++ (x ∷ ys)))
      (links : Links
        (prev_at e.nodes)
        (next_at e.nodes)
        invalid_idx
        (xs ++ (x ∷ ys))
        invalid_idx) where
    abbrev left : ℕ
    left = last_or invalid_idx xs

    abbrev right : ℕ
    right = first_or invalid_idx ys

    abbrev bridged : Pool (Slot V)
    bridged = bridge e.nodes left right

    sums : (y : ℕ) → count y (xs ++ (x ∷ ys)) ≡ count y xs + count y (x ∷ ys)
    sums y = count-append y xs (x ∷ ys)

    valid_of : (y : ℕ) → 1 ≤ count y xs + count y ys → (y == invalid_idx) ≡ false
    valid_of y k =
        let c = sums y in
        let r = (Ledger-range (xs ++ (x ∷ ys)) y o (omega arith)).2 in ground arith

    disjoint : (y : ℕ) → count y xs + count y ys ≤ 1
    disjoint y = omega (arith, sums y, o.unique y)

    prev_xs : (y : ℕ) → 1 ≤ count y xs → prev_at bridged y ≡ prev_at e.nodes y
    prev_xs y k =
        let n = first_apart invalid_idx y xs ys k (disjoint y) (valid_of y (omega arith)) in
        prev_at-bridge e.nodes left right y ∙ rw n (ground arith)

    next_ys : (y : ℕ) → 1 ≤ count y ys → next_at bridged y ≡ next_at e.nodes y
    next_ys y k =
        let n = last_apart invalid_idx y xs ys k (disjoint y) (valid_of y (omega arith)) in
        next_at-bridge e.nodes left right y ∙ rw n (ground arith)

    next_xs : (y : ℕ) → 1 ≤ count y xs → y ≢ left → next_at bridged y ≡ next_at e.nodes y
    next_xs y k n = next_at-bridge e.nodes left right y ∙ ground arith

    prev_ys : (y : ℕ) → 1 ≤ count y ys → y ≢ right → prev_at bridged y ≡ prev_at e.nodes y
    prev_ys y k n = prev_at-bridge e.nodes left right y ∙ ground arith

    next_left : 1 ≤ count left xs → next_at bridged left ≡ right
    next_left k =
        let v = valid_of left (omega arith) in
        next_at-bridge e.nodes left right left ∙ rw (v, (==_iff left left).1 refl)

    prev_right : 1 ≤ count right ys → prev_at bridged right ≡ left
    prev_right k =
        let v = valid_of right (omega arith) in
        prev_at-bridge e.nodes left right right ∙ rw (v, (==_iff right right).1 refl)

    Links-bridge : Links (prev_at bridged) (next_at bridged) invalid_idx (xs ++ ys) invalid_idx
    Links-bridge =
        let (front, back) =
          Links-split (prev_at e.nodes) (next_at e.nodes) invalid_idx xs (x ∷ ys) invalid_idx
            links in
        Links-append _ _ invalid_idx xs ys invalid_idx
          (Links-front (prev_at e.nodes) (next_at e.nodes) _ _ invalid_idx xs x right front
            (λ y. omega (arith, disjoint y)) next_left prev_xs next_xs)
          (Links-back (prev_at e.nodes) (next_at e.nodes) _ _ invalid_idx x left ys back.2
            (λ y. omega (arith, disjoint y)) prev_right next_ys prev_ys)

  -- The neighbours that the removed slot names.
  pub neighbours :
      (e : Ends V) (xs : List ℕ) (x : ℕ) (ys : List ℕ)
      → Links (prev_at e.nodes) (next_at e.nodes) invalid_idx (xs ++ (x ∷ ys)) invalid_idx
      → (prev_at e.nodes x ≡ last_or invalid_idx xs) × (next_at e.nodes x ≡ first_or invalid_idx ys)
  neighbours e xs x ys links =
      let (front, back) =
        Links-split (prev_at e.nodes) (next_at e.nodes) invalid_idx xs (x ∷ ys) invalid_idx links in
      (back.0, back.1)

  -- After `bridge` the slot can be given back, and the others are linked, with the same elements.
  pub bridge-IsLinked :
      (e : Ends V) (xs : List ℕ) (x : ℕ) (ys : List ℕ) (vs : List V) (w : V) (ws : List V)
      → IsLinked e (xs ++ (x ∷ ys)) (vs ++ (w ∷ ws))
      → length vs ≡ length xs
      → IsLinked
          (record {
            nodes =
                Pool.return_idx
                  (bridge e.nodes (last_or invalid_idx xs) (first_or invalid_idx ys))
                  x;
            head = first_or invalid_idx (xs ++ ys);
            tail = last_or invalid_idx (xs ++ ys);
          })
          (xs ++ ys)
          (vs ++ ws)
  bridge-IsLinked e xs x ys vs w ws is n =
      let l = last_or invalid_idx xs in
      let r = first_or invalid_idx ys in
      let b = bridge e.nodes l r in
      let held : Owns b (x ∷ (xs ++ ys)) =
        bridge-Owns e.nodes l r (x ∷ (xs ++ ys)) (Ledger-front xs x ys is.owns) in
      let (o, same) = return_idx-Owns b (xs ++ ys) x held in
      let (front, back) =
        append-injective (map (value_at e.nodes) xs) vs _ _
          (omega (arith, length-map (value_at e.nodes) xs, n))
          (sym (map-append (value_at e.nodes) xs (x ∷ ys)) ∙ is.holds) in
      record {
        owns = o;
        head = refl;
        tail = refl;
        links =
            Links-agree (prev_at b) (next_at b) _ _ invalid_idx (xs ++ ys) invalid_idx
              (Links-bridge e xs x ys is.owns is.links)
              (λ y k. (ap (λ t. t.prev) (same y), ap (λ t. t.next) (same y)));
        holds =
            map-agree _ (value_at e.nodes) (xs ++ ys)
              (λ y k. ap (λ t. t.value) (same y) ∙ value_at-bridge e.nodes l r y)
            ∙ map-append (value_at e.nodes) xs ys
            ∙ ap₂ ◌++◌ front (cc back);
      }
