-- ===== src/Queue.antt =====
-- src/core/vl_queue.c: a singly linked queue over a pool.
pub mod Fifo
pub mod Runs
mod Examples
use veritable_lasagna.Base.{
  ℕ, Bool, true, false, Option, none, some, List, [], ◌∷◌, ◌==◌, if◌then◌else◌,
}
use veritable_lasagna.Pool
use veritable_lasagna.Pool.{Pool, invalid_idx}

-- What a slot of the pool holds: the header, which is the index of the next element, and behind it
-- the element.
pub record Slot (V : Type 0) : Type 0 where
  pub header : ℕ
  pub value : V

-- `elementSize` is left out: an element is a value. `totalElements` is left out too: no function
-- of vl_queue.c writes it.
pub record Queue (V : Type 0) : Type 0 where
  pub nodes : Pool (Slot V)
  pub head : ℕ
  pub tail : ℕ

module _ {V : Type 0} where
  -- vlQueueInit, on a pool that was initialised.
  pub init : Pool (Slot V) → Queue V
  init p = record { nodes = p; head = invalid_idx; tail = invalid_idx }

  -- vlQueueClear
  pub clear : Queue V → Queue V
  clear q = record { nodes = Pool.clear q.nodes; head = invalid_idx; tail = invalid_idx }

  -- `*((vl_queue_header*)vlPoolSample(&queue->nodes, idx)) = next`
  pub set_header : Pool (Slot V) → ℕ → ℕ → Pool (Slot V)
  set_header p idx next = Pool.write p idx (record (Pool.sample p idx) { header = next })

  -- vlQueuePushBack behind `vlPoolTake`, which returned `new` and left the pool `p`.
  pub push_taken : Queue V → V → ℕ × Pool (Slot V) → Queue V
  unfolding set_header
  push_taken q element (new, p) =
      let written = Pool.write p new (record { header = new; value = element }) in
      record {
        nodes = if q.tail == invalid_idx then written else set_header written q.tail new;
        head = if q.head == invalid_idx then new else q.head;
        tail = new;
      }

  -- vlQueuePushBack. `block` is what the allocation of a block returns, if `vlPoolTake` needs one.
  pub push_back : Option (ℕ → Slot V) → Queue V → V → Queue V
  unfolding push_taken
  push_back block q element = push_taken q element (Pool.take block q.nodes)

  -- vlQueuePopFront. The result is the element that is copied out, `none` for the result 0.
  pub pop_front : Queue V → Option V × Queue V
  pop_front q =
      let target = q.head in
      let slot = Pool.sample q.nodes target in
      let last = q.head == q.tail in
      if q.head == invalid_idx then (none, q) else (
        some slot.value,
        record {
          nodes = Pool.return_idx q.nodes target;
          head = if last then invalid_idx else slot.header;
          tail = if last then invalid_idx else q.tail;
        },
      )

  -- vlQueueReserve
  pub reserve : (ℕ → Option (ℕ → Slot V)) → Queue V → ℕ → Option (Queue V)
  reserve blocks q n = elim (Pool.reserve blocks q.nodes n) [
    | none ↦ none
    | some p ↦ some (record q { nodes = p })
  ]

  -- vlQueueClone into an existing queue.
  pub clone : Queue V → Queue V → Option (Queue V)
  clone src dest = elim (Pool.clone src.nodes dest.nodes) [
    | none ↦ none
    | some p ↦ some (record { nodes = p; head = src.head; tail = src.tail })
  ]
