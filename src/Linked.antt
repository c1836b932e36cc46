-- ===== src/Linked.antt =====
-- What src/core/vl_deque.c and src/core/vl_linked_list.c share: doubly linked slots of a pool, with
-- the indices of the first and the last of them.
pub mod Fields
pub mod Push
pub mod Pop
pub mod Between
pub mod Bridge
use veritable_lasagna.Base.{ℕ, true, false, Option, none, some, ◌==◌, if◌then◌else◌}
use veritable_lasagna.Pool
use veritable_lasagna.Pool.{Pool, invalid_idx}

-- `vl_deque_node` and `vl_linked_list_node`, with the element behind them.
pub record Slot (V : Type 0) : Type 0 where
  pub prev : ℕ
  pub next : ℕ
  pub value : V

-- The fields of `vl_deque` and `vl_linked_list` that the links concern.
pub record Ends (V : Type 0) : Type 0 where
  pub nodes : Pool (Slot V)
  pub head : ℕ
  pub tail : ℕ

module _ {V : Type 0} where
  abbrev pub prev_at : Pool (Slot V) → ℕ → ℕ
  prev_at p x = (Pool.sample p x).prev

  abbrev pub next_at : Pool (Slot V) → ℕ → ℕ
  next_at p x = (Pool.sample p x).next

  abbrev pub value_at : Pool (Slot V) → ℕ → V
  value_at p x = (Pool.sample p x).value

  -- `node->prev = to` and `node->next = to` through the pointer to the slot.
  pub set_prev : Pool (Slot V) → ℕ → ℕ → Pool (Slot V)
  set_prev p x to = Pool.write p x (record (Pool.sample p x) { prev = to })

  pub set_next : Pool (Slot V) → ℕ → ℕ → Pool (Slot V)
  set_next p x to = Pool.write p x (record (Pool.sample p x) { next = to })

  -- The links of `vlListPushFront` and `vlDequePushFront`: `vlPoolTake` returned `new` and left `p`.
  pub link_front : Ends V → V → ℕ × Pool (Slot V) → Ends V
  link_front e v (new, p) =
      let p1 = Pool.write p new (record { prev = invalid_idx; next = e.head; value = v }) in
      record {
        nodes = if e.head == invalid_idx then p1 else set_prev p1 e.head new;
        head = new;
        tail = if e.tail == invalid_idx then new else e.tail;
      }

  -- The links of `vlListPushBack` and `vlDequePushBack`.
  pub link_back : Ends V → V → ℕ × Pool (Slot V) → Ends V
  link_back e v (new, p) =
      let p1 = Pool.write p new (record { prev = e.tail; next = invalid_idx; value = v }) in
      record {
        nodes = if e.tail == invalid_idx then p1 else set_next p1 e.tail new;
        head = if e.head == invalid_idx then new else e.head;
        tail = new;
      }

  -- The links of `vlListPopFront` and `vlDequePopFront` behind their test for an empty list.
  pub unlink_front : Ends V → Ends V
  unlink_front e =
      let right = next_at e.nodes e.head in
      if e.head == e.tail
      then record { nodes = Pool.return_idx e.nodes e.head; head = invalid_idx; tail = invalid_idx }
      else record {
        nodes = Pool.return_idx (set_prev e.nodes right invalid_idx) e.head;
        head = right;
        tail = e.tail;
      }

  -- The links of `vlListPopBack` and `vlDequePopBack` behind their test for an empty list.
  pub unlink_back : Ends V → Ends V
  unlink_back e =
      let left = prev_at e.nodes e.tail in
      if e.head == e.tail
      then record { nodes = Pool.return_idx e.nodes e.tail; head = invalid_idx; tail = invalid_idx }
      else record {
        nodes = Pool.return_idx (set_next e.nodes left invalid_idx) e.tail;
        head = e.head;
        tail = left;
      }

  -- The writes of vlListInsertAfter and vlListInsertBefore between the slots `left` and `right`,
  -- once `vlPoolTake` returned `new` and left `p`.
  pub link_between : Pool (Slot V) → ℕ → ℕ → ℕ → V → Pool (Slot V)
  link_between p left right new elem =
      let p1 = Pool.write p new (record { prev = left; next = right; value = elem }) in
      set_prev (set_next p1 left new) right new

  -- The writes of vlListRemove to the neighbours of a slot.
  pub bridge : Pool (Slot V) → ℕ → ℕ → Pool (Slot V)
  bridge p left right =
      let p1 = if left == invalid_idx then p else set_next p left right in
      if right == invalid_idx then p1 else set_prev p1 right left
