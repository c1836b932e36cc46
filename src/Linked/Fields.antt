-- ===== src/Linked/Fields.antt =====
-- The invariant of the doubly linked slots, and the fields of the slots after a write.
use veritable_lasagna.Base.{
  ℕ, ◌≡◌, List, ◌==◌, if◌then◌else◌, arith, first_or, last_or, Links, map, Distinct,
}
use veritable_lasagna.Pool
use veritable_lasagna.Pool.{Pool, invalid_idx}
use veritable_lasagna.Pool.Owns.{Owns}
use veritable_lasagna.Pool.Give.{sample-write, write-Owns}
use veritable_lasagna.Linked.{Slot, Ends, prev_at, next_at, value_at, set_prev, set_next}

module _ {V : Type 0} where
  -- The slots `ids` hold the elements `vs`, from the front to the back: they are all that is taken
  -- from the pool, `head` and `tail` are the first and the last of them, and they are linked in
  -- both directions, with VL_POOL_INVALID_IDX at the two ends.
  pub record IsLinked (e : Ends V) (ids : List ℕ) (vs : List V) : Type 0 where
    pub owns : Owns e.nodes ids
    pub head : e.head ≡ first_or invalid_idx ids
    pub tail : e.tail ≡ last_or invalid_idx ids
    pub links : Links (prev_at e.nodes) (next_at e.nodes) invalid_idx ids invalid_idx
    pub holds : map (value_at e.nodes) ids ≡ vs

  pub IsLinked-Distinct :
      {e : Ends V} (ids : List ℕ) (vs : List V) → IsLinked e ids vs → Distinct ids
  IsLinked-Distinct ids vs is x = omega (arith, is.owns.unique x)

  pub sample-set_prev :
      (p : Pool (Slot V)) (x to y : ℕ)
      → Pool.sample (set_prev p x to) y
        ≡ (if x == y then record (Pool.sample p x) { prev = to } else Pool.sample p y)
  unfolding set_prev
  sample-set_prev p x to y = sample-write p x y (record (Pool.sample p x) { prev = to })

  pub sample-set_next :
      (p : Pool (Slot V)) (x to y : ℕ)
      → Pool.sample (set_next p x to) y
        ≡ (if x == y then record (Pool.sample p x) { next = to } else Pool.sample p y)
  unfolding set_next
  sample-set_next p x to y = sample-write p x y (record (Pool.sample p x) { next = to })

  module _ (p : Pool (Slot V)) (x to y : ℕ) where
    pub prev_at-set_prev : prev_at (set_prev p x to) y ≡ (if x == y then to else prev_at p y)
    prev_at-set_prev = ground (arith, sample-set_prev p x to y)

    pub next_at-set_prev : next_at (set_prev p x to) y ≡ next_at p y
    next_at-set_prev = ground (arith, sample-set_prev p x to y)

    pub value_at-set_prev : value_at (set_prev p x to) y ≡ value_at p y
    value_at-set_prev = ground (arith, sample-set_prev p x to y)

    pub prev_at-set_next : prev_at (set_next p x to) y ≡ prev_at p y
    prev_at-set_next = ground (arith, sample-set_next p x to y)

    pub next_at-set_next : next_at (set_next p x to) y ≡ (if x == y then to else next_at p y)
    next_at-set_next = ground (arith, sample-set_next p x to y)

    pub value_at-set_next : value_at (set_next p x to) y ≡ value_at p y
    value_at-set_next = ground (arith, sample-set_next p x to y)

  pub set_prev-Owns :
      (p : Pool (Slot V)) (live : List ℕ) (x to : ℕ) → Owns p live → Owns (set_prev p x to) live
  unfolding set_prev
  set_prev-Owns p live x to = write-Owns p live x (record (Pool.sample p x) { prev = to })

  pub set_next-Owns :
      (p : Pool (Slot V)) (live : List ℕ) (x to : ℕ) → Owns p live → Owns (set_next p x to) live
  unfolding set_next
  set_next-Owns p live x to = write-Owns p live x (record (Pool.sample p x) { next = to })
