-- ===== src/LinkedList.antt =====
-- src/core/vl_linked_list.c: a doubly linked list over a pool, with iterators (slot indices).
pub mod Insert
pub mod Remove
pub mod Find
mod Examples
use veritable_lasagna.Base.{
  ℕ, zero, suc, ◌+◌, ◌-◌, ◌%◌, ◌^◌, Bool, true, false, ◌&&◌, Option, none, some, ◌==◌,
  if◌then◌else◌,
}
use veritable_lasagna.Pool
use veritable_lasagna.Pool.{Pool, invalid_idx}
use veritable_lasagna.Linked.{
  Slot, Ends, prev_at, next_at, value_at, set_prev, set_next, link_front, link_back, unlink_front,
  unlink_back, link_between, bridge,
}

-- A `vl_linked_list` less `elementSize`: an element is a value. `length` has 32 bits.
pub record LinkedList (V : Type 0) : Type 0 where
  pub ends : Ends V
  pub length : ℕ

abbrev pub plus_one : ℕ → ℕ
plus_one n = (n + 1) % 2 ^ 32

abbrev pub minus_one : ℕ → ℕ
minus_one n = (n + 2 ^ 32 - 1) % 2 ^ 32

module _ {V : Type 0} where
  -- vlListInit, on a pool that was initialised.
  pub init : Pool (Slot V) → LinkedList V
  init p = record {
    ends = record { nodes = p; head = invalid_idx; tail = invalid_idx };
    length = 0;
  }

  -- vlListPushFront and vlListPushBack, with the iterator that they return. `block` is what the
  -- allocation of a block returns, if `vlPoolTake` needs one; VL_POOL_INVALID_IDX is not tested for.
  pub push_front : Option (ℕ → Slot V) → LinkedList V → V → ℕ × LinkedList V
  push_front block l elem =
      let taken = Pool.take block l.ends.nodes in
      (taken.0, record { ends = link_front l.ends elem taken; length = plus_one l.length })

  pub push_back : Option (ℕ → Slot V) → LinkedList V → V → ℕ × LinkedList V
  push_back block l elem =
      let taken = Pool.take block l.ends.nodes in
      (taken.0, record { ends = link_back l.ends elem taken; length = plus_one l.length })

  -- vlListPopFront and vlListPopBack. The branch for a single element leaves the length as it is.
  pub pop_front : LinkedList V → LinkedList V
  pop_front l = if l.ends.head == invalid_idx then l else record {
    ends = unlink_front l.ends;
    length = if l.ends.head == l.ends.tail then l.length else minus_one l.length;
  }

  pub pop_back : LinkedList V → LinkedList V
  pop_back l = if l.ends.tail == invalid_idx then l else record {
    ends = unlink_back l.ends;
    length = if l.ends.head == l.ends.tail then l.length else minus_one l.length;
  }

  -- vlListInsertAfter
  pub insert_after : Option (ℕ → Slot V) → LinkedList V → ℕ → V → ℕ × LinkedList V
  unfolding push_back
  insert_after block l target elem =
      let right = next_at l.ends.nodes target in
      let (new, p) = Pool.take block l.ends.nodes in
      if right == invalid_idx then push_back block l elem else (
        new,
        record {
          ends = record {
            nodes = link_between p target right new elem;
            head = l.ends.head;
            tail = l.ends.tail;
          };
          length = plus_one l.length;
        },
      )

  -- vlListInsertBefore
  pub insert_before : Option (ℕ → Slot V) → LinkedList V → ℕ → V → ℕ × LinkedList V
  unfolding push_front
  insert_before block l target elem =
      let left = prev_at l.ends.nodes target in
      let (new, p) = Pool.take block l.ends.nodes in
      if left == invalid_idx then push_front block l elem else (
        new,
        record {
          ends = record {
            nodes = link_between p left target new elem;
            head = l.ends.head;
            tail = l.ends.tail;
          };
          length = plus_one l.length;
        },
      )

  -- vlListRemove. It leaves the length as it is.
  pub remove : LinkedList V → ℕ → LinkedList V
  remove l iter =
      let left = prev_at l.ends.nodes iter in
      let right = next_at l.ends.nodes iter in
      let alone = (left == invalid_idx) && (right == invalid_idx) in
      let head' = if left == invalid_idx then right else l.ends.head in
      let tail' = if right == invalid_idx then left else l.ends.tail in
      record {
        ends = record {
          nodes = Pool.return_idx (bridge l.ends.nodes left right) iter;
          head = if alone then invalid_idx else head';
          tail = if alone then invalid_idx else tail';
        };
        length = l.length;
      }

  -- vlListNext, vlListPrev, vlListSample
  pub next : LinkedList V → ℕ → ℕ
  next l iter = next_at l.ends.nodes iter

  pub prev : LinkedList V → ℕ → ℕ
  prev l iter = prev_at l.ends.nodes iter

  pub sample : LinkedList V → ℕ → V
  sample l iter = value_at l.ends.nodes iter

  -- vlListFind: the walk from `head` along `next`. `eq` stands for the comparison of the bytes of
  -- two elements. `none` means that the fuel ran out.
  pub find_from : ℕ → (V → V → Bool) → LinkedList V → ℕ → V → Option ℕ
  unfolding next sample
  find_from zero eq l iter element = none
  find_from (suc fuel) eq l iter element =
      let rest = find_from fuel eq l (next l iter) element in
      if iter == invalid_idx
      then some invalid_idx
      else if eq (sample l iter) element
      then some iter
      else rest

  pub find : ℕ → (V → V → Bool) → LinkedList V → V → Option ℕ
  unfolding find_from
  find fuel eq l element = find_from fuel eq l l.ends.head element

  -- vlListClone into an existing list.
  pub clone : LinkedList V → LinkedList V → Option (LinkedList V)
  clone src dest = elim (Pool.clone src.ends.nodes dest.ends.nodes) [
    | none ↦ none
    | some p ↦ some (record {
      ends = record { nodes = p; head = src.ends.head; tail = src.ends.tail };
      length = src.length;
    })
  ]
