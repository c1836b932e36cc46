-- ===== src/Queue/Fifo.antt =====
-- The queue of vl_queue.c refines a first-in first-out list.
use veritable_lasagna.Base.{
  ℕ, ◌≤◌, ◌≡◌, ◌≢◌, refl, sym, ◌∙◌, ap, ap₂, true, false, none, some, List, [], ◌∷◌, ◌++◌, map,
  ◌==◌, if◌then◌else◌, arith, count, first_or, last_or, Chain, Chain-snoc, Chain-agree, map-agree,
  last_or-snoc, count-last_or, first-ne-last, ne_of_count,
}
use mathlib.Core.List.{map-append}
use veritable_lasagna.Pool
use veritable_lasagna.Pool.{Pool, invalid_idx}
use veritable_lasagna.Pool.Owns.{Owns, Ledger-snoc, Ledger-range}
use veritable_lasagna.Pool.Take.{Handed, CanGrow, take-Handed}
use veritable_lasagna.Pool.Give.{return_idx-Owns, sample-write, write-Owns, clear-Owns}
use veritable_lasagna.Queue.{Slot, Queue, clear, set_header, push_taken, push_back, pop_front}

module _ {V : Type 0} where
  abbrev pub header_at : Pool (Slot V) → ℕ → ℕ
  header_at p x = (Pool.sample p x).header

  abbrev pub value_at : Pool (Slot V) → ℕ → V
  value_at p x = (Pool.sample p x).value

  -- The queue holds the elements `vs`, from the front to the back, in the slots `ids`: these are
  -- all that it has taken from its pool, `head` and `tail` are the first and the last of them, and
  -- the header of each leads to the next. The header of the last one is not looked at.
  pub record IsQueue (q : Queue V) (ids : List ℕ) (vs : List V) : Type 0 where
    pub owns : Owns q.nodes ids
    pub head : q.head ≡ first_or invalid_idx ids
    pub tail : q.tail ≡ last_or invalid_idx ids
    pub chain : Chain (header_at q.nodes) ids
    pub holds : map (value_at q.nodes) ids ≡ vs

  sample-set_header :
      (p : Pool (Slot V)) (x next y : ℕ)
      → Pool.sample (set_header p x next) y
        ≡ (if x == y then record (Pool.sample p x) { header = next } else Pool.sample p y)
  unfolding set_header
  sample-set_header p x next y = sample-write p x y (record (Pool.sample p x) { header = next })

  header_at-set_header :
      (p : Pool (Slot V)) (x next y : ℕ)
      → header_at (set_header p x next) y ≡ (if x == y then next else header_at p y)
  header_at-set_header p x next y = ground (arith, sample-set_header p x next y)

  value_at-set_header :
      (p : Pool (Slot V)) (x next y : ℕ) → value_at (set_header p x next) y ≡ value_at p y
  value_at-set_header p x next y = ground (arith, sample-set_header p x next y)

  -- The two writes of `push_back` on a queue that is not empty, with `new` outside of `ids`.
  module _ (p : Pool (Slot V)) (ids : List ℕ) (last new : ℕ) (v : V) (unheld : count new ids ≡ 0)
      (held : 1 ≤ count last ids) where
    abbrev linked : Pool (Slot V)
    linked = set_header (Pool.write p new (record { header = new; value = v })) last new

    linked-header-last : header_at linked last ≡ new
    linked-header-last = ground (
      arith,
      header_at-set_header (Pool.write p new (record { header = new; value = v })) last new last,
    )

    linked-header : (y : ℕ) → 1 ≤ count y ids → y ≢ last → header_at linked y ≡ header_at p y
    linked-header y k n = ground (
      arith,
      header_at-set_header (Pool.write p new (record { header = new; value = v })) last new y,
      sample-write p new y (record { header = new; value = v }),
      ne_of_count new y ids unheld k,
    )

    linked-value : (y : ℕ) → 1 ≤ count y ids → value_at linked y ≡ value_at p y
    linked-value y k = ground (
      arith,
      value_at-set_header (Pool.write p new (record { header = new; value = v })) last new y,
      sample-write p new y (record { header = new; value = v }),
      ne_of_count new y ids unheld k,
    )

    linked-value-new : value_at linked new ≡ v
    linked-value-new = ground (
      arith,
      value_at-set_header (Pool.write p new (record { header = new; value = v })) last new new,
      sample-write p new new (record { header = new; value = v }),
    )

  pushed-nil :
      (q : Queue V) (v : V) (new : ℕ) (p : Pool (Slot V))
      → IsQueue q [] []
      → Handed q.nodes [] new p
      → IsQueue (push_taken q v (new, p)) (new ∷ []) (v ∷ [])
  unfolding push_taken
  pushed-nil q v new p is h =
      let e : (q.head == invalid_idx) ≡ true = ground (arith, is.head) in
      let f : (q.tail == invalid_idx) ≡ true = ground (arith, is.tail) in
      let got = sample-write p new new (record { header = new; value = v }) in
      rw (e, f, push_taken)
        (record {
          owns = write-Owns p (new ∷ []) new (record { header = new; value = v }) h.owns;
          head = refl;
          tail = refl;
          chain = tt;
          holds = ground (arith, got);
        })

  pushed-cons :
      (q : Queue V) (x : ℕ) (xs : List ℕ) (vs : List V) (v : V) (new : ℕ) (p : Pool (Slot V))
      → IsQueue q (x ∷ xs) vs
      → Handed q.nodes (x ∷ xs) new p
      → IsQueue (push_taken q v (new, p)) ((x ∷ xs) ++ (new ∷ [])) (vs ++ (v ∷ []))
  unfolding push_taken set_header
  pushed-cons q x xs vs v new p is h =
      let last = last_or x xs in
      let first_valid = (Ledger-range (x ∷ xs) x is.owns (ground arith)).2 in
      let held = count-last_or x xs in
      let last_valid = (Ledger-range (x ∷ xs) last is.owns (omega arith)).2 in
      let e : (q.head == invalid_idx) ≡ false = ground (arith, is.head) in
      let f : (q.tail == invalid_idx) ≡ false = ground (arith, is.tail) in
      rw (e, f, is.tail, push_taken)
        (record {
          owns = Ledger-snoc (x ∷ xs) new (
              write-Owns (Pool.write p new (record { header = new; value = v })) _ last _
                (write-Owns p _ new _ h.owns));
          head = is.head;
          tail = sym (last_or-snoc x xs new);
          chain =
              Chain-snoc (header_at q.nodes) _ x xs new is.chain
                (λ y. omega (arith, is.owns.unique y))
                (λ y k n.
                  linked-header p (x ∷ xs) last new v h.fresh held y k n
                  ∙ ap (λ s. s.header) (h.keeps y k))
                (linked-header-last p (x ∷ xs) last new v h.fresh held);
          holds =
              map-append (value_at (linked p (x ∷ xs) last new v h.fresh held)) (x ∷ xs) (new ∷ [])
              ∙ ap₂ ◌++◌
                  (map-agree _ _ (x ∷ xs) (λ y k.
                      linked-value p (x ∷ xs) last new v h.fresh held y k
                      ∙ ap (λ s. s.value) (h.keeps y k))
                    ∙ is.holds)
                  (ap (λ w. w ∷ []) (linked-value-new p (x ∷ xs) last new v h.fresh held));
        })

  pushed-IsQueue :
      (q : Queue V) (ids : List ℕ) (vs : List V) (v : V) (new : ℕ) (p : Pool (Slot V))
      → IsQueue q ids vs
      → Handed q.nodes ids new p
      → IsQueue (push_taken q v (new, p)) (ids ++ (new ∷ [])) (vs ++ (v ∷ []))
  pushed-IsQueue q [] [] v new p is h = pushed-nil q v new p is h
  pushed-IsQueue q [] (w ∷ vs) v new p is h = absurd (cc is.holds)
  pushed-IsQueue q (x ∷ xs) vs v new p is h = pushed-cons q x xs vs v new p is h

  -- On a queue that holds `vs`, where a block can be added and its allocation succeeds,
  -- `push_back` gives a queue that holds `vs` and then the element, in a slot that no other
  -- element has.
  pub push_back-IsQueue :
      (q : Queue V) (ids : List ℕ) (vs : List V) (v : V) (block : ℕ → Slot V)
      → IsQueue q ids vs
      → CanGrow q.nodes
      → (new : ℕ) × (count new ids ≡ 0)
        × IsQueue (push_back (some block) q v) (ids ++ (new ∷ [])) (vs ++ (v ∷ []))
  unfolding push_back
  push_back-IsQueue q ids vs v block is g =
      let h = take-Handed q.nodes ids block is.owns g in
      (_, h.fresh, pushed-IsQueue q ids vs v _ _ is h)

  -- On an empty queue `pop_front` reports that and changes nothing.
  pub pop_front_empty : (q : Queue V) (vs : List V) → IsQueue q [] vs → pop_front q ≡ (none, q)
  unfolding pop_front
  pop_front_empty q vs is = ground (arith, is.head)

  -- On a queue whose first element is `v`, `pop_front` copies out `v` and leaves a queue of the
  -- elements behind it.
  pub pop_front-IsQueue :
      (q : Queue V) (x : ℕ) (xs : List ℕ) (v : V) (vs : List V)
      → IsQueue q (x ∷ xs) (v ∷ vs)
      → ((pop_front q).0 ≡ some v) × IsQueue (pop_front q).1 xs vs
  unfolding pop_front
  pop_front-IsQueue q x [] v vs is =
      let (o, same) = return_idx-Owns q.nodes [] x is.owns in
      let valid = (Ledger-range (x ∷ []) x is.owns (ground arith)).2 in
      let e : (x == invalid_idx) ≡ false = ground arith in
      let f : (x == x) ≡ true = ground arith in
      rw (is.head, is.tail, e, f)
        (
          ap some (cc is.holds),
          record { owns = o; head = refl; tail = refl; chain = tt; holds = cc is.holds },
        )
  pop_front-IsQueue q x (y ∷ ys) v vs is =
      let (o, same) = return_idx-Owns q.nodes (y ∷ ys) x is.owns in
      let valid = (Ledger-range (x ∷ y ∷ ys) x is.owns (ground arith)).2 in
      let more = first-ne-last x y ys (λ z. omega (arith, is.owns.unique z)) in
      let e : (x == invalid_idx) ≡ false = ground arith in
      let f : (x == last_or y ys) ≡ false = ground arith in
      rw (is.head, is.tail, e, f)
        (
          ap some (cc is.holds),
          record {
            owns = o;
            head = is.chain.0;
            tail = refl;
            chain =
                Chain-agree (header_at q.nodes) (header_at (Pool.return_idx q.nodes x)) (y ∷ ys)
                  is.chain.1 (λ z k. ap (λ s. s.header) (same z));
            holds =
                map-agree (value_at (Pool.return_idx q.nodes x)) (value_at q.nodes) (y ∷ ys)
                  (λ z k. ap (λ s. s.value) (same z))
                ∙ cc is.holds;
          },
        )

  -- After `clear` a queue holds nothing and its pool has handed out nothing.
  pub clear-IsQueue :
      (q : Queue V) (ids : List ℕ) (vs : List V) → IsQueue q ids vs → IsQueue (clear q) [] []
  unfolding clear
  clear-IsQueue q ids vs is = record {
    owns = clear-Owns q.nodes ids is.owns;
    head = refl;
    tail = refl;
    chain = tt;
    holds = refl;
  }
