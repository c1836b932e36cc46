-- ===== src/Linked/Pop.antt =====
-- `unlink_front` and `unlink_back` take off the first and the last element.
use veritable_lasagna.Base.{
  ℕ, ◌≡◌, refl, sym, ap, ◌∙◌, List, [], ◌∷◌, ◌++◌, ◌==◌, arith, last_or, map, Distinct, true, false,
  Links-before, Links-after, map-agree, last_or-snoc, ==_iff, Links-split, Distinct-tail,
  snoc-injective, count-append, first-ne-last,
}
use mathlib.Core.List.{map-append, append-nil}
use veritable_lasagna.Pool
use veritable_lasagna.Pool.{Pool, invalid_idx}
use veritable_lasagna.Pool.Owns.{Owns, Ledger-front}
use veritable_lasagna.Pool.Give.{return_idx-Owns}
use veritable_lasagna.Linked.{
  Slot, Ends, prev_at, next_at, value_at, set_prev, set_next, unlink_front, unlink_back,
}
use veritable_lasagna.Linked.Fields.{
  IsLinked, IsLinked-Distinct, value_at-set_prev, value_at-set_next, set_prev-Owns, set_next-Owns,
  prev_at-set_prev, next_at-set_prev, prev_at-set_next, next_at-set_next,
}

first_apart : (y : ℕ) (ys : List ℕ) (x : ℕ) → Distinct ((y ∷ ys) ++ (x ∷ [])) → (y == x) ≡ false
first_apart y ys x d = ground (arith, d y, count-append y ys (x ∷ []))

module _ {V : Type 0} where
  -- The fields of a slot after a link has been changed and the slot `out` been given back.
  module _ (p : Pool (Slot V)) (live : List ℕ) (at to out : ℕ) where
    module _ (o : Owns (set_prev p at to) (out ∷ live)) where
      pub front_gone :
          (y : ℕ)
          → Pool.sample (Pool.return_idx (set_prev p at to) out) y
            ≡ Pool.sample (set_prev p at to) y
      front_gone = (return_idx-Owns (set_prev p at to) live out o).1

    module _ (o : Owns (set_next p at to) (out ∷ live)) where
      pub back_gone :
          (y : ℕ)
          → Pool.sample (Pool.return_idx (set_next p at to) out) y
            ≡ Pool.sample (set_next p at to) y
      back_gone = (return_idx-Owns (set_next p at to) live out o).1

  pub unlink_front-IsLinked :
      (e : Ends V) (x : ℕ) (xs : List ℕ) (v : V) (vs : List V)
      → IsLinked e (x ∷ xs) (v ∷ vs)
      → (value_at e.nodes e.head ≡ v) × IsLinked (unlink_front e) xs vs
  unfolding unlink_front
  unlink_front-IsLinked e x [] v vs is =
      let (o, same) = return_idx-Owns e.nodes [] x is.owns in
      let f : (x == x) ≡ true = (==_iff x x).1 refl in
      rw (is.head, is.tail, f, unlink_front)
        (
          cc is.holds,
          record { owns = o; head = refl; tail = refl; links = tt; holds = cc is.holds },
        )
  unlink_front-IsLinked e x (y ∷ ys) v vs is =
      let d = IsLinked-Distinct (x ∷ y ∷ ys) (v ∷ vs) is in
      let more = first-ne-last x y ys d in
      let f : (x == last_or y ys) ≡ false = ground arith in
      let p = set_prev e.nodes y invalid_idx in
      let o = set_prev-Owns e.nodes (x ∷ y ∷ ys) y invalid_idx is.owns in
      let gone = front_gone e.nodes (y ∷ ys) y invalid_idx x o in
      rw (is.head, is.tail, f, unlink_front, is.links.1)
        (
          cc is.holds,
          record {
            owns = (return_idx-Owns p (y ∷ ys) x o).0;
            head = refl;
            tail = refl;
            links =
                Links-before (prev_at e.nodes) (next_at e.nodes) _ _ x invalid_idx y ys invalid_idx
                  is.links.2 (Distinct-tail x (y ∷ ys) d)
                  (ap (λ t. t.prev) (gone y)
                    ∙ prev_at-set_prev e.nodes y invalid_idx y
                    ∙ rw ((==_iff y y).1 refl))
                  (ap (λ t. t.next) (gone y) ∙ next_at-set_prev e.nodes y invalid_idx y)
                  (λ z k n.
                    let far : (y == z) ≡ false = ground arith in
                    (
                      ap (λ t. t.prev) (gone z) ∙ prev_at-set_prev e.nodes y invalid_idx z ∙ rw far,
                      ap (λ t. t.next) (gone z) ∙ next_at-set_prev e.nodes y invalid_idx z,
                    ));
            holds =
                map-agree _ _ (y ∷ ys)
                  (λ z k. ap (λ t. t.value) (gone z) ∙ value_at-set_prev e.nodes y invalid_idx z)
                ∙ cc is.holds;
          },
        )

  pub unlink_back-IsLinked :
      (e : Ends V) (xs : List ℕ) (x : ℕ) (vs : List V) (v : V)
      → IsLinked e (xs ++ (x ∷ [])) (vs ++ (v ∷ []))
      → (value_at e.nodes e.tail ≡ v) × IsLinked (unlink_back e) xs vs
  unfolding unlink_back
  unlink_back-IsLinked e [] x vs v is =
      let (o, same) = return_idx-Owns e.nodes [] x is.owns in
      let f : (x == x) ≡ true = (==_iff x x).1 refl in
      let (held, value) = snoc-injective [] vs (value_at e.nodes x) v is.holds in
      rw (is.head, is.tail, f, unlink_back)
        (value, record { owns = o; head = refl; tail = refl; links = tt; holds = held })
  unlink_back-IsLinked e (y ∷ ys) x vs v is =
      let ids = (y ∷ ys) ++ (x ∷ []) in
      let d = IsLinked-Distinct ids _ is in
      let (front, back) =
        Links-split (prev_at e.nodes) (next_at e.nodes) invalid_idx (y ∷ ys) (x ∷ []) invalid_idx
          is.links in
      let at_end : e.tail ≡ x = is.tail ∙ last_or-snoc invalid_idx (y ∷ ys) x in
      let last = last_or y ys in
      let o1 = Ledger-front (y ∷ ys) x [] is.owns in
      let o2 : Owns e.nodes (x ∷ y ∷ ys) = rw append-nil at o1 in
      let f : (y == x) ≡ false = first_apart y ys x d in
      let p = set_next e.nodes last invalid_idx in
      let o = set_next-Owns e.nodes (x ∷ y ∷ ys) last invalid_idx o2 in
      let gone = back_gone e.nodes (y ∷ ys) last invalid_idx x o in
      let split = sym (map-append (value_at e.nodes) (y ∷ ys) (x ∷ [])) ∙ is.holds in
      let (held, value) =
        snoc-injective (map (value_at e.nodes) (y ∷ ys)) vs (value_at e.nodes x) v split in
      rw (is.head, at_end, f, unlink_back, back.0)
        (
          value,
          record {
            owns = (return_idx-Owns p (y ∷ ys) x o).0;
            head = refl;
            tail = refl;
            links =
                Links-after (prev_at e.nodes) (next_at e.nodes) _ _ invalid_idx y ys x invalid_idx
                  front (λ z. omega (arith, d z, count-append z (y ∷ ys) (x ∷ [])))
                  (ap (λ t. t.next) (gone last)
                    ∙ next_at-set_next e.nodes last invalid_idx last
                    ∙ rw ((==_iff last last).1 refl))
                  (ap (λ t. t.prev) (gone last) ∙ prev_at-set_next e.nodes last invalid_idx last)
                  (λ z k n.
                    let far : (last == z) ≡ false = ground arith in
                    (
                      ap (λ t. t.prev) (gone z) ∙ prev_at-set_next e.nodes last invalid_idx z,
                      ap (λ t. t.next) (gone z)
                          ∙ next_at-set_next e.nodes last invalid_idx z
                          ∙ rw far,
                    ));
            holds =
                map-agree _ _ (y ∷ ys)
                  (λ z k. ap (λ t. t.value) (gone z) ∙ value_at-set_next e.nodes last invalid_idx z)
                ∙ held;
          },
        )
