-- ===== src/Queue/Examples.antt =====
-- The theorems on vl_queue.c at a queue with the elements 7 and 9.
use veritable_lasagna.Base.{ℕ, arith, ◌≡◌, refl, some, List, [], ◌∷◌, ◌==◌, if◌then◌else◌}
use veritable_lasagna.Samples.{first, second, sample_pool, sample_nodes-Ledger}
use veritable_lasagna.Pool
use veritable_lasagna.Pool.{Pool, fresh_node, invalid_idx}
use veritable_lasagna.Queue.{Slot, Queue, init, push_back, pop_front, clear}
use veritable_lasagna.Pool.Give.{Ledger-single}
use veritable_lasagna.Queue.Runs.{Reach, start, pushed, Reach-pop_front}
use veritable_lasagna.Queue.Fifo.{IsQueue, clear-IsQueue}

abbrev slots : ℕ → ℕ → Slot ℕ
slots n e =
    if e == 0 then record { header = second; value = 7 } else record { header = first; value = 9 }

abbrev block : ℕ → Slot ℕ
block e = record { header = 0; value = 0 }

abbrev ids : List ℕ
ids = first ∷ second ∷ []

abbrev queue : Queue ℕ
queue = record { nodes = sample_pool slots; head = first; tail = second }

abbrev empty_queue : Queue ℕ
empty_queue = clear queue

queue-IsQueue : IsQueue queue ids (7 ∷ 9 ∷ [])
unfolding Pool.sample
queue-IsQueue = record {
  owns = sample_nodes-Ledger;
  head = refl;
  tail = refl;
  chain = (refl, tt);
  holds = refl;
}

empty_queue-IsQueue : IsQueue empty_queue [] []
empty_queue-IsQueue = clear-IsQueue queue ids (7 ∷ 9 ∷ []) queue-IsQueue

abbrev fresh_pool : Pool (Slot ℕ)
fresh_pool = record (sample_pool slots) { lookup = fresh_node 16 ∷ [] }

abbrev reached : Queue ℕ
reached = push_back (some block) (init fresh_pool) 7

reached-Reach : Reach reached (7 ∷ [])
reached-Reach =
    pushed (init fresh_pool) [] block 7 (start fresh_pool (Ledger-single 16 (omega arith)))
      (unfold init in record { block = omega arith; room = omega arith })

Reach-pop_front_example : (pop_front reached).0 ≡ some 7
Reach-pop_front_example = Reach-pop_front reached (7 ∷ []) reached-Reach
