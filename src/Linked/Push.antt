-- ===== src/Linked/Push.antt =====
-- `link_front` and `link_back` add an element at the front and at the back.
use veritable_lasagna.Base.{
  ℕ, ◌≡◌, ◌≢◌, refl, sym, ap, ap₂, ◌∙◌, List, [], ◌∷◌, ◌++◌, ◌==◌, arith, last_or, count, ◌≤◌, true,
  false, Links-before, Links-after, Links-append, ne_of_count, map-agree, count-last_or,
  last_or-snoc, ==_iff,
}
use mathlib.Core.List.{map-append}
use veritable_lasagna.Pool
use veritable_lasagna.Pool.{Pool, invalid_idx}
use veritable_lasagna.Pool.Owns.{Ledger-range, Ledger-snoc}
use veritable_lasagna.Pool.Take.{Handed}
use veritable_lasagna.Pool.Give.{sample-write, write-Owns}
use veritable_lasagna.Linked.{
  Slot, Ends, prev_at, next_at, value_at, set_prev, set_next, link_front, link_back,
}
use veritable_lasagna.Linked.Fields.{
  IsLinked, IsLinked-Distinct, sample-set_prev, sample-set_next, value_at-set_prev,
  value_at-set_next, set_prev-Owns, set_next-Owns,
}

module _ {V : Type 0} where
  -- A new slot outside of `ids` is written, and then one link of the slot `at`, which is in `ids`.
  module _ (p : Pool (Slot V)) (ids : List ℕ) (at new : ℕ) (s : Slot V) (unheld : count new ids ≡ 0)
      (held : 1 ≤ count at ids) where
    abbrev written : Pool (Slot V)
    written = Pool.write p new s

    written-same : (y : ℕ) → 1 ≤ count y ids → Pool.sample written y ≡ Pool.sample p y
    written-same y k = ground (arith, sample-write p new y s, ne_of_count new y ids unheld k)

    written-new : Pool.sample written new ≡ s
    written-new = ground (arith, sample-write p new new s)

    apart : (at == new) ≡ false
    apart = ground (arith, ne_of_count new at ids unheld held)

    front-new : Pool.sample (set_prev written at new) new ≡ s
    front-new = sample-set_prev written at new new ∙ rw (apart, written-new)

    front-at : Pool.sample (set_prev written at new) at ≡ record (Pool.sample p at) { prev = new }
    front-at = sample-set_prev written at new at ∙ rw ((==_iff at at).1 refl, written-same at held)

    front-same :
        (y : ℕ)
        → 1 ≤ count y ids
        → y ≢ at
        → Pool.sample (set_prev written at new) y ≡ Pool.sample p y
    front-same y k n =
        let e : (at == y) ≡ false = ground arith in
        sample-set_prev written at new y ∙ rw (e, written-same y k)

    front-value : (y : ℕ) → 1 ≤ count y ids → value_at (set_prev written at new) y ≡ value_at p y
    front-value y k = value_at-set_prev written at new y ∙ ap (λ t. t.value) (written-same y k)

    back-new : Pool.sample (set_next written at new) new ≡ s
    back-new = sample-set_next written at new new ∙ rw (apart, written-new)

    back-at : Pool.sample (set_next written at new) at ≡ record (Pool.sample p at) { next = new }
    back-at = sample-set_next written at new at ∙ rw ((==_iff at at).1 refl, written-same at held)

    back-same :
        (y : ℕ)
        → 1 ≤ count y ids
        → y ≢ at
        → Pool.sample (set_next written at new) y ≡ Pool.sample p y
    back-same y k n =
        let e : (at == y) ≡ false = ground arith in
        sample-set_next written at new y ∙ rw (e, written-same y k)

    back-value : (y : ℕ) → 1 ≤ count y ids → value_at (set_next written at new) y ≡ value_at p y
    back-value y k = value_at-set_next written at new y ∙ ap (λ t. t.value) (written-same y k)

  push_front-nil :
      (e : Ends V) (vs : List V) (v : V) (new : ℕ) (p : Pool (Slot V))
      → IsLinked e [] vs
      → Handed e.nodes [] new p
      → IsLinked (link_front e v (new, p)) (new ∷ []) (v ∷ vs)
  unfolding link_front
  push_front-nil e vs v new p is h =
      let s : Slot V = record { prev = invalid_idx; next = invalid_idx; value = v } in
      let got = sample-write p new new s in
      let f : (e.head == invalid_idx) ≡ true = ground (arith, is.head) in
      let g : (e.tail == invalid_idx) ≡ true = ground (arith, is.tail) in
      rw (f, g, is.head, link_front)
        (record {
          owns = write-Owns p (new ∷ []) new s h.owns;
          head = refl;
          tail = refl;
          links = ground (arith, got);
          holds = ground (arith, got, is.holds);
        })

  push_front-cons :
      (e : Ends V) (x : ℕ) (xs : List ℕ) (vs : List V) (v : V) (new : ℕ) (p : Pool (Slot V))
      → IsLinked e (x ∷ xs) vs
      → Handed e.nodes (x ∷ xs) new p
      → IsLinked (link_front e v (new, p)) (new ∷ x ∷ xs) (v ∷ vs)
  unfolding link_front
  push_front-cons e x xs vs v new p is h =
      let valid = (Ledger-range (x ∷ xs) x is.owns (ground arith)).2 in
      let held = count-last_or x xs in
      let last_valid = (Ledger-range (x ∷ xs) (last_or x xs) is.owns (omega arith)).2 in
      let f : (x == invalid_idx) ≡ false = ground arith in
      let g : (last_or x xs == invalid_idx) ≡ false = ground arith in
      let s : Slot V = record { prev = invalid_idx; next = x; value = v } in
      let u = h.fresh in
      let first : 1 ≤ count x (x ∷ xs) = ground arith in
      rw (is.head, is.tail, f, g, link_front)
        (record {
          owns = set_prev-Owns (Pool.write p new s) _ x new (write-Owns p _ new s h.owns);
          head = refl;
          tail = refl;
          links = (
            ap (λ t. t.prev) (front-new p (x ∷ xs) x new s u first),
            ap (λ t. t.next) (front-new p (x ∷ xs) x new s u first),
            Links-before (prev_at e.nodes) (next_at e.nodes) _ _ invalid_idx new x xs invalid_idx
                is.links (IsLinked-Distinct (x ∷ xs) vs is)
                (ap (λ t. t.prev) (front-at p (x ∷ xs) x new s u first))
                (ap (λ t. t.next) (front-at p (x ∷ xs) x new s u first)
                  ∙ ap (λ t. t.next) (h.keeps x first))
                (λ y k n.
                  let same = front-same p (x ∷ xs) x new s u first y k n ∙ h.keeps y k in
                  (ap (λ t. t.prev) same, ap (λ t. t.next) same)),
          );
          holds =
              ap₂ (λ a r. a ∷ r) (ap (λ t. t.value) (front-new p (x ∷ xs) x new s u first))
                (map-agree _ _ (x ∷ xs) (λ y k.
                    front-value p (x ∷ xs) x new s u first y k ∙ ap (λ t. t.value) (h.keeps y k))
                  ∙ is.holds);
        })

  push_back-nil :
      (e : Ends V) (vs : List V) (v : V) (new : ℕ) (p : Pool (Slot V))
      → IsLinked e [] vs
      → Handed e.nodes [] new p
      → IsLinked (link_back e v (new, p)) (new ∷ []) (vs ++ (v ∷ []))
  unfolding link_back
  push_back-nil e vs v new p is h =
      let s : Slot V = record { prev = invalid_idx; next = invalid_idx; value = v } in
      let got = sample-write p new new s in
      let f : (e.head == invalid_idx) ≡ true = ground (arith, is.head) in
      let g : (e.tail == invalid_idx) ≡ true = ground (arith, is.tail) in
      rw (f, g, is.tail, ← is.holds, link_back)
        (record {
          owns = write-Owns p (new ∷ []) new s h.owns;
          head = refl;
          tail = refl;
          links = ground (arith, got);
          holds = ground (arith, got);
        })

  push_back-cons :
      (e : Ends V) (x : ℕ) (xs : List ℕ) (vs : List V) (v : V) (new : ℕ) (p : Pool (Slot V))
      → IsLinked e (x ∷ xs) vs
      → Handed e.nodes (x ∷ xs) new p
      → IsLinked (link_back e v (new, p)) ((x ∷ xs) ++ (new ∷ [])) (vs ++ (v ∷ []))
  unfolding link_back
  push_back-cons e x xs vs v new p is h =
      let valid = (Ledger-range (x ∷ xs) x is.owns (ground arith)).2 in
      let last = last_or x xs in
      let held = count-last_or x xs in
      let last_valid = (Ledger-range (x ∷ xs) last is.owns (omega arith)).2 in
      let f : (x == invalid_idx) ≡ false = ground arith in
      let g : (last_or x xs == invalid_idx) ≡ false = ground arith in
      let s : Slot V = record { prev = last; next = invalid_idx; value = v } in
      let u = h.fresh in
      rw (is.head, is.tail, f, g, link_back)
        (record {
          owns =
              Ledger-snoc (x ∷ xs) new
                (set_next-Owns (Pool.write p new s) _ last new (write-Owns p _ new s h.owns));
          head = refl;
          tail = sym (last_or-snoc x xs new);
          links =
              Links-append _ _ invalid_idx (x ∷ xs) (new ∷ []) invalid_idx
                (Links-after (prev_at e.nodes) (next_at e.nodes) _ _ invalid_idx x xs invalid_idx
                  new is.links (IsLinked-Distinct (x ∷ xs) vs is)
                  (ap (λ t. t.next) (back-at p (x ∷ xs) last new s u held))
                  (ap (λ t. t.prev) (back-at p (x ∷ xs) last new s u held)
                    ∙ ap (λ t. t.prev) (h.keeps last held))
                  (λ y k n.
                    let same = back-same p (x ∷ xs) last new s u held y k n ∙ h.keeps y k in
                    (ap (λ t. t.prev) same, ap (λ t. t.next) same)))
                (
                  ap (λ t. t.prev) (back-new p (x ∷ xs) last new s u held),
                  ap (λ t. t.next) (back-new p (x ∷ xs) last new s u held),
                  tt,
                );
          holds =
              map-append (value_at (set_next (Pool.write p new s) last new)) (x ∷ xs) (new ∷ [])
              ∙ ap₂ ◌++◌
                  (map-agree _ _ (x ∷ xs) (λ y k.
                      back-value p (x ∷ xs) last new s u held y k ∙ ap (λ t. t.value) (h.keeps y k))
                    ∙ is.holds)
                  (ap (λ t. t.value ∷ []) (back-new p (x ∷ xs) last new s u held));
        })

  -- `link_front` puts the element in front of the others, in the slot that was taken for it.
  pub link_front-IsLinked :
      (e : Ends V) (ids : List ℕ) (vs : List V) (v : V) (new : ℕ) (p : Pool (Slot V))
      → IsLinked e ids vs
      → Handed e.nodes ids new p
      → IsLinked (link_front e v (new, p)) (new ∷ ids) (v ∷ vs)
  link_front-IsLinked e [] vs v new p is h = push_front-nil e vs v new p is h
  link_front-IsLinked e (x ∷ xs) vs v new p is h = push_front-cons e x xs vs v new p is h

  -- `link_back` puts it behind them.
  pub link_back-IsLinked :
      (e : Ends V) (ids : List ℕ) (vs : List V) (v : V) (new : ℕ) (p : Pool (Slot V))
      → IsLinked e ids vs
      → Handed e.nodes ids new p
      → IsLinked (link_back e v (new, p)) (ids ++ (new ∷ [])) (vs ++ (v ∷ []))
  link_back-IsLinked e [] vs v new p is h = push_back-nil e vs v new p is h
  link_back-IsLinked e (x ∷ xs) vs v new p is h = push_back-cons e x xs vs v new p is h
