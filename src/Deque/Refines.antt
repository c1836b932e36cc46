-- ===== src/Deque/Refines.antt =====
-- The deque of vl_deque.c refines a list that grows and shrinks at both ends.
use veritable_lasagna.Base.{
  ℕ, ◌%◌, ◌^◌, ◌≡◌, refl, ap, ◌∙◌, List, [], ◌∷◌, ◌++◌, none, some, false, ◌==◌, arith, length,
  length-append, count, ◌≤◌, count-append, last_or-snoc,
}
use veritable_lasagna.Pool.{Pool, invalid_idx}
use veritable_lasagna.Pool.Owns.{Owns, Ledger-range}
use veritable_lasagna.Pool.Take.{CanGrow, take-Handed}
use veritable_lasagna.Pool.Give.{clear-Owns}
use veritable_lasagna.Linked.{Slot}
use veritable_lasagna.Linked.Fields.{IsLinked}
use veritable_lasagna.Linked.Push.{link_front-IsLinked, link_back-IsLinked}
use veritable_lasagna.Linked.Pop.{unlink_front-IsLinked, unlink_back-IsLinked}
use veritable_lasagna.Deque.{Deque, init, clear, push_front, push_back, pop_front, pop_back}

module _ {V : Type 0} where
  -- The deque holds the elements `vs` in the slots `ids`, linked in both directions, and
  -- `totalElements` is their number, on 32 bits.
  pub record IsDeque (d : Deque V) (ids : List ℕ) (vs : List V) : Type 0 where
    pub linked : IsLinked d.ends ids vs
    pub total : d.total_elements ≡ length vs % 2 ^ 32

  -- A new deque over a pool that has handed out nothing is empty.
  pub init-IsDeque : (p : Pool (Slot V)) → Owns p [] → IsDeque (init p) [] []
  unfolding init
  init-IsDeque p o = record {
    linked = record { owns = o; head = refl; tail = refl; links = tt; holds = refl };
    total = refl;
  }

  -- After `clear` a deque holds nothing, its count is 0, and its pool has handed out nothing.
  pub clear-IsDeque :
      (d : Deque V) (ids : List ℕ) (vs : List V) → IsDeque d ids vs → IsDeque (clear d) [] []
  unfolding clear
  clear-IsDeque d ids vs is = record {
    linked = record {
      owns = clear-Owns d.ends.nodes ids is.linked.owns;
      head = refl;
      tail = refl;
      links = tt;
      holds = refl;
    };
    total = refl;
  }

  -- On a deque that holds `vs`, where a block can be added and its allocation succeeds,
  -- `push_front` gives a deque that holds the element and then `vs`.
  pub push_front-IsDeque :
      (d : Deque V) (ids : List ℕ) (vs : List V) (v : V) (block : ℕ → Slot V)
      → IsDeque d ids vs
      → CanGrow d.ends.nodes
      → (new : ℕ) × IsDeque (push_front (some block) d v) (new ∷ ids) (v ∷ vs)
  unfolding push_front
  push_front-IsDeque d ids vs v block is g =
      let h = take-Handed d.ends.nodes ids block is.linked.owns g in
      (
        _,
        record {
          linked = link_front-IsLinked d.ends ids vs v _ _ is.linked h;
          total = omega (arith, is.total);
        },
      )

  -- On a deque that holds `vs`, where a block can be added and its allocation succeeds,
  -- `push_back` gives a deque that holds `vs` and then the element.
  pub push_back-IsDeque :
      (d : Deque V) (ids : List ℕ) (vs : List V) (v : V) (block : ℕ → Slot V)
      → IsDeque d ids vs
      → CanGrow d.ends.nodes
      → (new : ℕ) × IsDeque (push_back (some block) d v) (ids ++ (new ∷ [])) (vs ++ (v ∷ []))
  unfolding push_back
  push_back-IsDeque d ids vs v block is g =
      let h = take-Handed d.ends.nodes ids block is.linked.owns g in
      (
        _,
        record {
          linked = link_back-IsLinked d.ends ids vs v _ _ is.linked h;
          total = omega (arith, is.total, length-append vs (v ∷ []));
        },
      )

  -- On an empty deque both pops report that and change nothing.
  pop_empty :
      (d : Deque V) (vs : List V)
      → IsDeque d [] vs
      → (pop_front d ≡ (none, d)) × (pop_back d ≡ (none, d))
  unfolding pop_front pop_back
  pop_empty d vs is = (ground (arith, is.linked.head), ground (arith, is.linked.tail))

  -- On a deque whose first element is `v`, `pop_front` copies out `v` and leaves a deque of the
  -- elements behind it.
  pub pop_front-IsDeque :
      (d : Deque V) (x : ℕ) (xs : List ℕ) (v : V) (vs : List V)
      → IsDeque d (x ∷ xs) (v ∷ vs)
      → ((pop_front d).0 ≡ some v) × IsDeque (pop_front d).1 xs vs
  unfolding pop_front
  pop_front-IsDeque d x xs v vs is =
      let (value, rest) = unlink_front-IsLinked d.ends x xs v vs is.linked in
      let valid = (Ledger-range (x ∷ xs) x is.linked.owns (ground arith)).2 in
      let f : (d.ends.head == invalid_idx) ≡ false = ground (arith, is.linked.head) in
      rw f (ap some value, record { linked = rest; total = omega (arith, is.total) })

  -- On a deque whose last element is `v`, `pop_back` copies out `v` and leaves a deque of the
  -- elements before it.
  pub pop_back-IsDeque :
      (d : Deque V) (xs : List ℕ) (x : ℕ) (vs : List V) (v : V)
      → IsDeque d (xs ++ (x ∷ [])) (vs ++ (v ∷ []))
      → ((pop_back d).0 ≡ some v) × IsDeque (pop_back d).1 xs vs
  unfolding pop_back
  pop_back-IsDeque d xs x vs v is =
      let (value, rest) = unlink_back-IsLinked d.ends xs x vs v is.linked in
      let held : 1 ≤ count x (xs ++ (x ∷ [])) = ground (arith, count-append x xs (x ∷ [])) in
      let valid = (Ledger-range (xs ++ (x ∷ [])) x is.linked.owns (omega arith)).2 in
      let at_end = is.linked.tail ∙ last_or-snoc invalid_idx xs x in
      let f : (d.ends.tail == invalid_idx) ≡ false = ground (arith, at_end) in
      rw f (
        ap some value,
        record { linked = rest; total = omega (arith, is.total, length-append vs (v ∷ [])) },
      )
