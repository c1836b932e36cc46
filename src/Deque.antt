-- ===== src/Deque.antt =====
-- src/core/vl_deque.c: a double-ended queue over a pool.
pub mod Refines
mod Examples
use veritable_lasagna.Base.{
  ℕ, ◌+◌, ◌-◌, ◌%◌, ◌^◌, true, false, Option, none, some, ◌==◌, if◌then◌else◌,
}
use veritable_lasagna.Pool
use veritable_lasagna.Pool.{Pool, invalid_idx}
use veritable_lasagna.Linked.{
  Slot, Ends, value_at, link_front, link_back, unlink_front, unlink_back,
}

-- A `vl_deque` less `elementSize`: an element is a value. `totalElements` has 32 bits.
pub record Deque (V : Type 0) : Type 0 where
  pub ends : Ends V
  pub total_elements : ℕ

abbrev pub plus_one : ℕ → ℕ
plus_one n = (n + 1) % 2 ^ 32

abbrev pub minus_one : ℕ → ℕ
minus_one n = (n + 2 ^ 32 - 1) % 2 ^ 32

module _ {V : Type 0} where
  -- vlDequeInit, on a pool that was initialised.
  pub init : Pool (Slot V) → Deque V
  init p = record {
    ends = record { nodes = p; head = invalid_idx; tail = invalid_idx };
    total_elements = 0;
  }

  -- vlDequeClear
  pub clear : Deque V → Deque V
  clear d = record {
    ends = record { nodes = Pool.clear d.ends.nodes; head = invalid_idx; tail = invalid_idx };
    total_elements = 0;
  }

  -- vlDequePushFront and vlDequePushBack. `block` is what the allocation of a block returns, if
  -- `vlPoolTake` needs one; the functions do not test for VL_POOL_INVALID_IDX.
  pub push_front : Option (ℕ → Slot V) → Deque V → V → Deque V
  push_front block d val = record {
    ends = link_front d.ends val (Pool.take block d.ends.nodes);
    total_elements = plus_one d.total_elements;
  }

  pub push_back : Option (ℕ → Slot V) → Deque V → V → Deque V
  push_back block d val = record {
    ends = link_back d.ends val (Pool.take block d.ends.nodes);
    total_elements = plus_one d.total_elements;
  }

  -- vlDequePopFront and vlDequePopBack with a non-null `val`. The result is the element that is
  -- copied out, `none` for the result 0.
  pub pop_front : Deque V → Option V × Deque V
  pop_front d = if d.ends.head == invalid_idx then (none, d) else (
    some (value_at d.ends.nodes d.ends.head),
    record { ends = unlink_front d.ends; total_elements = minus_one d.total_elements },
  )

  pub pop_back : Deque V → Option V × Deque V
  pop_back d = if d.ends.tail == invalid_idx then (none, d) else (
    some (value_at d.ends.nodes d.ends.tail),
    record { ends = unlink_back d.ends; total_elements = minus_one d.total_elements },
  )

  -- vlDequeReserve
  pub reserve : (ℕ → Option (ℕ → Slot V)) → Deque V → ℕ → Option (Deque V)
  reserve blocks d n = elim (Pool.reserve blocks d.ends.nodes n) [
    | none ↦ none
    | some p ↦ some (record d { ends = record (d.ends) { nodes = p } })
  ]

  -- vlDequeClone into an existing deque.
  pub clone : Deque V → Deque V → Option (Deque V)
  clone src dest = elim (Pool.clone src.ends.nodes dest.ends.nodes) [
    | none ↦ none
    | some p ↦ some (record {
      ends = record { nodes = p; head = src.ends.head; tail = src.ends.tail };
      total_elements = src.total_elements;
    })
  ]
