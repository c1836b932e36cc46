-- ===== src/Linked/Between.antt =====
-- A new slot is linked in between two neighbours.
use veritable_lasagna.Base.{
  ℕ, ◌≡◌, refl, sym, ap, ap₂, ◌∙◌, List, ◌∷◌, ◌++◌, ◌==◌, if◌then◌else◌, arith, Links, map, count,
  ◌≤◌, Distinct, false, Links-append, Links-agree, ne_of_count, map-agree, ==_iff, Links-split,
  count-append, length, length-map, append-injective, first_or-append, last_or-append,
}
use mathlib.Core.List.{map-append}
use veritable_lasagna.Pool
use veritable_lasagna.Pool.{Pool, invalid_idx}
use veritable_lasagna.Pool.Owns.{Owns, Ledger-same, in_node-append}
use veritable_lasagna.Pool.Take.{Handed}
use veritable_lasagna.Pool.Give.{sample-write, write-Owns}
use veritable_lasagna.Linked.{Slot, Ends, prev_at, next_at, value_at, set_next, link_between}
use veritable_lasagna.Linked.Fields.{
  IsLinked, IsLinked-Distinct, sample-set_prev, sample-set_next, set_prev-Owns, set_next-Owns,
}

module _ {V : Type 0} where
  -- The slots after `link_between`, where `new` is none of the neighbours `l` and `r`.
  module _ (p : Pool (Slot V)) (l r new : ℕ) (v : V) (lr : (l == r) ≡ false)
      (ln : (l == new) ≡ false) (rn : (r == new) ≡ false) where
    abbrev slot : Slot V
    slot = record { prev = l; next = r; value = v }

    between-new : Pool.sample (link_between p l r new v) new ≡ slot
    unfolding link_between
    between-new =
        let w = Pool.write p new slot in
        sample-set_prev (set_next w l new) r new new
        ∙ rw rn (
            sample-set_next w l new new
            ∙ rw ln (sample-write p new new slot ∙ rw ((==_iff new new).1 refl)))

    -- Any slot but the new one: one link of each neighbour is changed.
    between_old :
        (y : ℕ)
        → (new == y) ≡ false
        → Pool.sample (link_between p l r new v) y ≡ (
            if r == y
            then record (Pool.sample p y) { prev = new }
            else if l == y
            then record (Pool.sample p y) { next = new }
            else Pool.sample p y)
    unfolding link_between
    between_old y n = ground (
      arith,
      sample-set_prev (set_next (Pool.write p new slot) l new) r new y,
      sample-set_next (Pool.write p new slot) l new y,
      sample-set_next (Pool.write p new slot) l new r,
      sample-write p new y slot,
      sample-write p new r slot,
      sample-write p new l slot,
    )

  -- A chain in which `l` is followed by `r`, and a slot that is linked in between the two.
  module _ (e p : Pool (Slot V)) (xs : List ℕ) (l r : ℕ) (zs : List ℕ) (new : ℕ) (v : V)
      (links : Links (prev_at e) (next_at e) invalid_idx (xs ++ (l ∷ r ∷ zs)) invalid_idx)
      (d : Distinct (xs ++ (l ∷ r ∷ zs))) (unheld : count new (xs ++ (l ∷ r ∷ zs)) ≡ 0)
      (keeps : (y : ℕ) → 1 ≤ count y (xs ++ (l ∷ r ∷ zs)) → Pool.sample p y ≡ Pool.sample e y) where
    lr : (l == r) ≡ false
    lr = ground (arith, d l, count-append l xs (l ∷ r ∷ zs))

    ln : (l == new) ≡ false
    ln = ground (arith, unheld, count-append new xs (l ∷ r ∷ zs))

    rn : (r == new) ≡ false
    rn = ground (arith, unheld, count-append new xs (l ∷ r ∷ zs))

    abbrev result : Pool (Slot V)
    result = link_between p l r new v

    -- The slots outside of the two neighbours are as before.
    outside :
        (y : ℕ)
        → 1 ≤ count y (xs ++ (l ∷ r ∷ zs))
        → (l == y) ≡ false
        → (r == y) ≡ false
        → Pool.sample result y ≡ Pool.sample e y
    outside y k a b =
        between_old p l r new v lr ln rn y (ne_of_count new y _ unheld k) ∙ rw (a, b) (keeps y k)

    in_xs : (y : ℕ) → 1 ≤ count y xs → Pool.sample result y ≡ Pool.sample e y
    in_xs y k =
        let c = count-append y xs (l ∷ r ∷ zs) in
        outside y (omega arith) (ground (arith, d y)) (ground (arith, d y))

    in_zs : (y : ℕ) → 1 ≤ count y zs → Pool.sample result y ≡ Pool.sample e y
    in_zs y k =
        let c = count-append y xs (l ∷ r ∷ zs) in
        outside y (ground arith) (ground (arith, d y)) (ground (arith, d y))

    at_l : Pool.sample result l ≡ record (Pool.sample e l) { next = new }
    at_l =
        let rl : (r == l) ≡ false = ground (arith, lr) in
        let nl : (new == l) ≡ false = ground (arith, ln) in
        between_old p l r new v lr ln rn l nl
        ∙ rw (rl, (==_iff l l).1 refl, keeps l (ground (arith, count-append l xs (l ∷ r ∷ zs))))

    at_r : Pool.sample result r ≡ record (Pool.sample e r) { prev = new }
    at_r =
        let nr : (new == r) ≡ false = ground (arith, rn) in
        between_old p l r new v lr ln rn r nr
        ∙ rw ((==_iff r r).1 refl, keeps r (ground (arith, count-append r xs (l ∷ r ∷ zs))))

    at_new : Pool.sample result new ≡ record { prev = l; next = r; value = v }
    at_new = between-new p l r new v lr ln rn

    pub Links-between :
        Links (prev_at result) (next_at result) invalid_idx (xs ++ (l ∷ new ∷ r ∷ zs)) invalid_idx
    Links-between =
        let (front, back) =
          Links-split (prev_at e) (next_at e) invalid_idx xs (l ∷ r ∷ zs) invalid_idx links in
        Links-append _ _ invalid_idx xs (l ∷ new ∷ r ∷ zs) invalid_idx
          (Links-agree (prev_at e) (next_at e) _ _ invalid_idx xs l front
            (λ y k. (ap (λ t. t.prev) (in_xs y k), ap (λ t. t.next) (in_xs y k))))
          (
            ap (λ t. t.prev) at_l ∙ back.0,
            ap (λ t. t.next) at_l,
            (
              ap (λ t. t.prev) at_new,
              ap (λ t. t.next) at_new,
              (
                ap (λ t. t.prev) at_r,
                ap (λ t. t.next) at_r ∙ back.2.1,
                Links-agree (prev_at e) (next_at e) _ _ r zs invalid_idx back.2.2
                    (λ y k. (ap (λ t. t.prev) (in_zs y k), ap (λ t. t.next) (in_zs y k))),
              ),
            ),
          )

    -- The elements: the new one stands behind that of `l`.
    pub values-between :
        (vs : List V) (w : V) (ws : List V)
        → length vs ≡ length xs
        → map (value_at e) (xs ++ (l ∷ r ∷ zs)) ≡ (vs ++ (w ∷ ws))
        → map (value_at result) (xs ++ (l ∷ new ∷ r ∷ zs)) ≡ (vs ++ (w ∷ v ∷ ws))
    values-between vs w ws n holds =
        let (front, back) =
          append-injective (map (value_at e) xs) vs _ _
            (omega (arith, length-map (value_at e) xs, n))
            (sym (map-append (value_at e) xs (l ∷ r ∷ zs)) ∙ holds) in
        let left = ap (λ t. t.value) at_l in
        let right = ap (λ t. t.value) at_r in
        let mid = ap (λ t. t.value) at_new in
        let rest =
          map-agree (value_at result) (value_at e) zs (λ y k. ap (λ t. t.value) (in_zs y k)) in
        map-append (value_at result) xs (l ∷ new ∷ r ∷ zs)
        ∙ ap₂ ◌++◌
            (map-agree (value_at result) (value_at e) xs (λ y k. ap (λ t. t.value) (in_xs y k))
              ∙ front)
            (cc (left, right, mid, rest, back))

  pub link_between-Owns :
      (p : Pool (Slot V)) (live : List ℕ) (l r new : ℕ) (v : V)
      → Owns p live
      → Owns (link_between p l r new v) live
  unfolding link_between
  link_between-Owns p live l r new v o =
      let s : Slot V = record { prev = l; next = r; value = v } in
      set_prev-Owns (set_next (Pool.write p new s) l new) live r new
        (set_next-Owns (Pool.write p new s) live l new (write-Owns p live new s o))

  -- The slot that was taken for `v` is linked in between `l` and `r`.
  pub between-IsLinked :
      (e : Ends V) (p : Pool (Slot V)) (xs : List ℕ) (l r : ℕ) (zs : List ℕ) (new : ℕ) (v : V)
      (vs : List V) (w : V) (ws : List V)
      → IsLinked e (xs ++ (l ∷ r ∷ zs)) (vs ++ (w ∷ ws))
      → length vs ≡ length xs
      → Handed e.nodes (xs ++ (l ∷ r ∷ zs)) new p
      → IsLinked
          (record { nodes = link_between p l r new v; head = e.head; tail = e.tail })
          (xs ++ (l ∷ new ∷ r ∷ zs))
          (vs ++ (w ∷ v ∷ ws))
  between-IsLinked e p xs l r zs new v vs w ws is n h =
      let ids = xs ++ (l ∷ r ∷ zs) in
      let d = IsLinked-Distinct ids _ is in
      record {
        owns =
            Ledger-same (new ∷ ids) (xs ++ (l ∷ new ∷ r ∷ zs))
              (λ y.
                omega (arith, count-append y xs (l ∷ r ∷ zs), count-append y xs (l ∷ new ∷ r ∷ zs)))
              (λ i.
                omega
                  (arith, in_node-append i xs (l ∷ r ∷ zs), in_node-append i xs (l ∷ new ∷ r ∷ zs)))
              (link_between-Owns p (new ∷ ids) l r new v h.owns);
        head =
            is.head
            ∙ first_or-append invalid_idx xs l (r ∷ zs)
            ∙ sym (first_or-append invalid_idx xs l (new ∷ r ∷ zs));
        tail =
            is.tail
            ∙ last_or-append invalid_idx xs (l ∷ r ∷ zs)
            ∙ sym (last_or-append invalid_idx xs (l ∷ new ∷ r ∷ zs));
        links = Links-between e.nodes p xs l r zs new v is.links d h.fresh h.keeps;
        holds =
            values-between e.nodes p xs l r zs new v is.links d h.fresh h.keeps vs w ws n is.holds;
      }
