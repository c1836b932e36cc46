-- ===== src/Queue/Runs.antt =====
-- Sequences of calls on the queue of vl_queue.c.
use veritable_lasagna.Base.{ℕ, ◌≡◌, refl, sym, subst, ap, Option, none, some, List, [], ◌∷◌, ◌++◌}
use veritable_lasagna.Pool.{Pool}
use veritable_lasagna.Pool.Owns.{Owns}
use veritable_lasagna.Pool.Take.{CanGrow}
use veritable_lasagna.Queue.{Slot, Queue, init, clear, push_back, pop_front}
use veritable_lasagna.Queue.Fifo.{
  IsQueue, push_back-IsQueue, pop_front-IsQueue, pop_front_empty, clear-IsQueue,
}

-- The queue states that calls can reach, with the elements that were pushed and not yet popped, the
-- oldest first.
pub data Reach {V : Type 0} : Queue V → List V → Type 0 where
  start : (p : Pool (Slot V)) → Owns p [] → Reach (init p) []
  pushed :
      (q : Queue V) (vs : List V) (block : ℕ → Slot V) (v : V)
      → Reach q vs
      → CanGrow q.nodes
      → Reach (push_back (some block) q v) (vs ++ (v ∷ []))
  popped : (q : Queue V) (v : V) (vs : List V) → Reach q (v ∷ vs) → Reach (pop_front q).1 vs
  popped_empty : (q : Queue V) → Reach q [] → Reach (pop_front q).1 []
  cleared : (q : Queue V) (vs : List V) → Reach q vs → Reach (clear q) []

module _ {V : Type 0} where
  -- What a pop of these elements copies out.
  abbrev pub oldest : List V → Option V
  oldest [] = none
  oldest (v ∷ vs) = some v

  empty_ids : (q : Queue V) (ids : List ℕ) → IsQueue q ids [] → IsQueue q [] []
  empty_ids q [] is = is
  empty_ids q (x ∷ xs) is = absurd (cc is.holds)

  cons_ids :
      (q : Queue V) (ids : List ℕ) (v : V) (vs : List V)
      → IsQueue q ids (v ∷ vs)
      → ((pop_front q).0 ≡ some v) × ((rest : List ℕ) × IsQueue (pop_front q).1 rest vs)
  cons_ids q [] v vs is = absurd (cc is.holds)
  cons_ids q (x ∷ xs) v vs is = let (e, rest) = pop_front-IsQueue q x xs v vs is in (e, (xs, rest))

  pub Reach-IsQueue : (q : Queue V) (vs : List V) → Reach q vs → (ids : List ℕ) × IsQueue q ids vs
  Reach-IsQueue q vs (start p o) =
      ([], unfold init in record { owns = o; head = refl; tail = refl; chain = tt; holds = refl })
  Reach-IsQueue q vs (pushed q' vs' block v r g) =
      let (ids, is) = Reach-IsQueue q' vs' r in
      let (new, fresh, is') = push_back-IsQueue q' ids vs' v block is g in (_, is')
  Reach-IsQueue q vs (popped q' v vs' r) =
      let (ids, is) = Reach-IsQueue q' (v ∷ vs') r in (cons_ids q' ids v vs' is).1
  Reach-IsQueue q vs (popped_empty q' r) =
      let (ids, is) = Reach-IsQueue q' [] r in
      let is' = empty_ids q' ids is in
      ([], subst (λ z. IsQueue z.1 [] []) (sym (pop_front_empty q' [] is')) is')
  Reach-IsQueue q vs (cleared q' vs' r) =
      let (ids, is) = Reach-IsQueue q' vs' r in ([], clear-IsQueue q' ids vs' is)

  -- In every queue state that is reached from an empty queue by successful pushes, pops and
  -- clears, `pop_front` copies out the oldest of the elements that were pushed and are not yet
  -- popped, and reports an empty queue where there is none.
  pub Reach-pop_front : (q : Queue V) (vs : List V) → Reach q vs → (pop_front q).0 ≡ oldest vs
  Reach-pop_front q [] r =
      let (ids, is) = Reach-IsQueue q [] r in
      ap (λ z. z.0) (pop_front_empty q [] (empty_ids q ids is))
  Reach-pop_front q (v ∷ vs) r =
      let (ids, is) = Reach-IsQueue q (v ∷ vs) r in (cons_ids q ids v vs is).0
