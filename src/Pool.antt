-- ===== src/Pool.antt =====
-- src/core/vl_pool.c, include/core/vl/vl_pool.h: the fixed-size element pool.
pub mod Owns
pub mod Take
pub mod Reserve
pub mod Tables
pub mod Give
mod Examples
use veritable_lasagna.Base.{
  ℕ, zero, suc, ◌+◌, ◌-◌, ◌*◌, ◌/◌, ◌%◌, ◌^◌, Bool, true, false, Option, none, some, List, [], ◌∷◌,
  ◌++◌, ltb, leb, ◌==◌, if◌then◌else◌, length, modify, map, ◌&&◌,
}

-- A `vl_pool_node` less its pointers: `elements` is `Pool.slots`, and `nextLookup` of the node with
-- ordinal i + 1 is the node with ordinal i.
pub record Node : Type 0 where
  pub total_taken : ℕ
  pub block_size : ℕ

-- `lookup` is the used part of `lookupTable`, so `lookupTotal` is its length and `lookupHead` its
-- last node. `table_size` is the number of entries that the memory of `lookupTable` has room for.
-- `free_stack` is the used part of the free stack, its top first.
-- `slots i e` is what element `e` of the block of node `i` holds.
pub record Pool (A : Type 0) : Type 0 where
  pub growth_increment : ℕ
  pub lookup : List Node
  pub lookup_capacity : ℕ
  pub table_size : ℕ
  pub free_capacity : ℕ
  pub free_stack : List ℕ
  pub slots : ℕ → ℕ → A

-- VL_POOL_INVALID_IDX
abbrev pub invalid_idx : ℕ
invalid_idx = 2 ^ 64 - 1

-- The union `vl_pool_ordinal` on a little-endian system: the node in the low half of the index.
abbrev pub node_of : ℕ → ℕ
node_of idx = idx % 2 ^ 32

abbrev pub elem_of : ℕ → ℕ
elem_of idx = idx / 2 ^ 32

abbrev pub ordinal : ℕ → ℕ → ℕ
ordinal n e = n % 2 ^ 32 + e % 2 ^ 32 * 2 ^ 32

abbrev pub taken_at : List Node → ℕ → ℕ
taken_at [] i = 0
taken_at (n ∷ ns) zero = n.total_taken
taken_at (n ∷ ns) (suc i) = taken_at ns i

abbrev pub block_at : List Node → ℕ → ℕ
block_at [] i = 0
block_at (n ∷ ns) zero = n.block_size
block_at (n ∷ ns) (suc i) = block_at ns i

-- `node->totalTaken++` and `node->totalTaken--`, on 32 bits.
abbrev pub bump : Node → Node
bump n = record n { total_taken = (n.total_taken + 1) % 2 ^ 32 }

abbrev pub drop_one : Node → Node
drop_one n = record n { total_taken = (n.total_taken + 2 ^ 32 - 1) % 2 ^ 32 }

abbrev pub emptied : Node → Node
emptied n = record n { total_taken = 0 }

abbrev pub fresh_node : ℕ → Node
fresh_node size = record { total_taken = 0; block_size = size }

-- What `vlPoolReserve` counts as available, on 32 bits.
abbrev pub available : List Node → ℕ
available [] = 0
available (n ∷ ns) = (n.block_size + 2 ^ 32 - n.total_taken + available ns) % 2 ^ 32

-- The chain of nodes from `lookupHead` on: the first one that is not expended, newest first.
pub find_open : List Node → ℕ → Option ℕ
find_open ns zero = none
find_open ns (suc k) =
    let older = find_open ns k in if ltb (taken_at ns k) (block_at ns k) then some k else older

module _ {A : Type 0} where
  abbrev pub set_block : (ℕ → ℕ → A) → ℕ → (ℕ → A) → ℕ → ℕ → A
  set_block slots n block i = if i == n then block else slots i

  -- vl_PoolNodeNew behind its null test. The lookup table is reallocated when it is full.
  pub node_added : (ℕ → A) → Pool A → Pool A
  node_added block p =
      let total = length p.lookup in
      let full = leb p.lookup_capacity total in
      let doubled = p.lookup_capacity * 2 % 2 ^ 32 in
      record p {
        growth_increment = p.growth_increment * 2 % 2 ^ 64;
        lookup = p.lookup ++ (fresh_node (p.growth_increment % 2 ^ 32) ∷ []);
        lookup_capacity = if full then doubled else p.lookup_capacity;
        table_size = if full then doubled else p.table_size;
        slots = set_block p.slots total block;
      }

  -- vl_PoolNodeNew. `block` is what the allocation of the block returned, `none` for NULL.
  pub node_new : Option (ℕ → A) → Pool A → Option (Pool A)
  unfolding node_added
  node_new none p = none
  node_new (some block) p = some (node_added block p)

  -- vlPoolInitAligned, where the allocations of the tables succeed.
  pub init : Option (ℕ → A) → Option (Pool A)
  init none = none
  init (some block) = some (record {
    growth_increment = 16;
    lookup = fresh_node 16 ∷ [];
    lookup_capacity = 16;
    table_size = 16;
    free_capacity = 16;
    free_stack = [];
    slots = λ i. block;
  })

  -- `lookupTable[n]->totalTaken++`
  pub take_at : ℕ → Pool A → Pool A
  take_at n p = record p { lookup = modify p.lookup n bump }

  -- vlPoolTake in its three parts: the free stack, the chain of nodes, and a new node.
  pub take_new : Option (Pool A) → Pool A → ℕ × Pool A
  take_new none p = (invalid_idx, p)
  take_new (some q) p = (ordinal (length p.lookup) 0, take_at (length p.lookup) q)

  pub take_open : Option (ℕ → A) → Pool A → Option ℕ → ℕ × Pool A
  take_open block p (some n) = (ordinal n (taken_at p.lookup n), take_at n p)
  take_open block p none = take_new (node_new block p) p

  pub take_from : Option (ℕ → A) → Pool A → List ℕ → ℕ × Pool A
  take_from block p (idx ∷ rest) = (idx, take_at (node_of idx) (record p { free_stack = rest }))
  take_from block p [] = take_open block p (find_open p.lookup (length p.lookup))

  pub take : Option (ℕ → A) → Pool A → ℕ × Pool A
  unfolding take_from take_open take_new take_at node_new find_open
  take block p = take_from block p p.free_stack

  -- vlPoolReturn
  pub return_idx : Pool A → ℕ → Pool A
  return_idx p idx =
      let full = leb p.free_capacity (length p.free_stack) in
      record p {
        lookup = modify p.lookup (node_of idx) drop_one;
        free_capacity = if full then p.free_capacity * 2 % 2 ^ 32 else p.free_capacity;
        free_stack = idx ∷ p.free_stack;
      }

  -- vlPoolSample: reading the slot, and writing through the pointer.
  unfoldable pub sample : Pool A → ℕ → A
  sample p idx = p.slots (node_of idx) (elem_of idx)

  pub write : Pool A → ℕ → A → Pool A
  write p idx v = record p {
    slots = λ n e. if (n == node_of idx) && (e == elem_of idx) then v else p.slots n e;
  }

  -- vlPoolClear
  pub clear : Pool A → Pool A
  clear p = record p { lookup = map emptied p.lookup; free_stack = [] }

  -- vlPoolReset: the loop frees every node but the one with ordinal 0, at the end of the chain.
  -- `none` is the read through a null `lookupHead`.
  pub reset_from : Pool A → List Node → Option (Pool A)
  reset_from p [] = none
  reset_from p (n ∷ ns) =
      some (record p { growth_increment = n.block_size; lookup = emptied n ∷ []; free_stack = [] })

  pub reset : Pool A → Option (Pool A)
  unfolding reset_from
  reset p = reset_from p p.lookup

  -- The loop of vlPoolReserve. `blocks k` is what the allocation of round `k` returns; `none` is the
  -- use of a null node, or the end of the fuel.
  pub reserve_loop : ℕ → (ℕ → Option (ℕ → A)) → ℕ → ℕ → ℕ → Pool A → Option (Pool A)
  unfolding node_new
  reserve_loop zero blocks k avail n p = none
  reserve_loop (suc fuel) blocks k avail n p = elim (ltb avail n) [
    | false ↦ some p
    | true ↦ elim (node_new (blocks k) p) [
      | none ↦ none
      | some q ↦
          reserve_loop fuel blocks (k + 1) ((avail + p.growth_increment % 2 ^ 32) % 2 ^ 32) n q
    ]
  ]

  -- vlPoolReserve. Every block has an element at least, so `n + 1` rounds are enough.
  pub reserve : (ℕ → Option (ℕ → A)) → Pool A → ℕ → Option (Pool A)
  unfolding reserve_loop
  reserve blocks p n =
      if n == 0 then some p else reserve_loop (n + 1) blocks 0 (available p.lookup) n p

  -- vlPoolClone behind its first test, where the allocations succeed: the fields that are copied, the
  -- lookup table that is reallocated where its recorded capacity is less than that of `src`, and
  -- the free stack.
  pub clone_fields : Pool A → Pool A → Pool A
  clone_fields src dest = record dest {
    growth_increment = src.growth_increment;
    lookup_capacity = src.lookup_capacity;
  }

  pub clone_grown : Pool A → Pool A → Pool A
  clone_grown src dest =
      if ltb dest.lookup_capacity src.lookup_capacity
      then record dest { lookup_capacity = src.lookup_capacity; table_size = src.lookup_capacity }
      else dest

  pub clone_stack : Pool A → Pool A → Pool A
  clone_stack src dest = record dest {
    free_capacity =
        if ltb dest.free_capacity src.free_capacity then src.free_capacity else dest.free_capacity;
    free_stack = src.free_stack;
  }

  -- The loop over the nodes of `src`, from ordinal `i` on: node and block go to the entry of `dest`
  -- with their ordinal. `none` is an entry behind the table of `dest`, or the read through a null
  -- `lookupHead` of `src`.
  pub clone_nodes : Pool A → List Node → ℕ → Pool A → Option (Pool A)
  clone_nodes src [] i dest = some dest
  clone_nodes src (n ∷ ns) i dest =
      let rest = clone_nodes src ns (i + 1) (record dest {
        lookup = dest.lookup ++ (n ∷ []);
        slots = set_block dest.slots i (src.slots i);
      }) in
      if ltb i dest.table_size then rest else none

  pub clone_into : Pool A → Pool A → Option (Pool A)
  unfolding clone_fields clone_grown clone_stack clone_nodes
  clone_into src dest =
      let d = clone_stack src (clone_grown src (clone_fields src dest)) in
      if length src.lookup == 0
      then none
      else clone_nodes src src.lookup 0 (record d { lookup = [] })

  -- vlPoolClone into an existing pool.
  pub clone : Pool A → Pool A → Option (Pool A)
  unfolding reset clone_into
  clone src dest = elim (reset dest) [ none ↦ none | some d ↦ clone_into src d ]

  -- vlPoolClone with a null `dest`.
  pub clone_new : Option (ℕ → A) → Pool A → Option (Pool A)
  unfolding init clone_into
  clone_new block src = elim (init block) [ none ↦ none | some d ↦ clone_into src d ]

  -- vlPoolFree
  pub free : Pool A → Pool A
  free p = record p {
    growth_increment = 0;
    lookup = [];
    lookup_capacity = 0;
    table_size = 0;
    free_stack = [];
  }
