-- ===== src/Pool/Owns.antt =====
-- When a pool of vl_pool.c has handed out just the indices of a list.
use veritable_lasagna.Base.{
  ℕ, zero, suc, ◌+◌, ◌^◌, ◌≤◌, ◌<◌, ◌≡◌, refl, List, [], ◌∷◌, ◌++◌, ◌==◌, if◌then◌else◌, arith,
  length, count, count-append, length-append, modify, map, Bool-cases, ltb, ltb→lt, ltb→ge, inl,
  inr,
}
use veritable_lasagna.Pool.{
  Node, Pool, node_of, elem_of, taken_at, block_at, bump, drop_one, emptied, fresh_node,
  invalid_idx,
}

-- How many of the indices lie in the block of node `i`.
abbrev pub in_node : ℕ → List ℕ → ℕ
in_node i [] = 0
in_node i (x ∷ xs) = (if node_of x == i then 1 else 0) + in_node i xs

pub in_node-append : (i : ℕ) (xs ys : List ℕ) → in_node i (xs ++ ys) ≡ in_node i xs + in_node i ys
in_node-append i [] ys = omega arith
in_node-append i (x ∷ xs) ys = omega (arith, in_node-append i xs ys)

pub count-le-in_node : (x : ℕ) (xs : List ℕ) → count x xs ≤ in_node (node_of x) xs
count-le-in_node x [] = omega arith
count-le-in_node x (y ∷ xs) = ground (arith, count-le-in_node x xs)

-- The invariant that ties the nodes and the free stack of a pool to the indices that its clients
-- hold, in any order: no index is held twice, or held and free; each node counts the indices held in
-- its block; what is held or free lies below the mark up to which the block has been used; and the
-- marks lie in the blocks.
pub record Ledger (ns : List Node) (free live : List ℕ) : Type 0 where
  pub unique : (x : ℕ) → count x live + count x free ≤ 1
  pub taken : (i : ℕ) → in_node i live ≡ taken_at ns i
  pub below :
      (x : ℕ)
      → 1 ≤ count x live + count x free
      → elem_of x < taken_at ns (node_of x) + in_node (node_of x) free
  pub fits : (i : ℕ) → taken_at ns i + in_node i free ≤ block_at ns i
  pub narrow : (i : ℕ) → block_at ns i < 2 ^ 32
  pub few : length ns < 2 ^ 32

abbrev pub Owns : {A : Type 0} → Pool A → List ℕ → Type 0
Owns p live = Ledger p.lookup p.free_stack live

-- The fields of a node after a change to one node, and after a node is added.
pub block_at-modify :
    (ns : List Node) (i j : ℕ) (f : Node → Node)
    → ((n : Node) → (f n).block_size ≡ n.block_size)
    → block_at (modify ns i f) j ≡ block_at ns j
block_at-modify [] i j f h = refl
block_at-modify (n ∷ ns) zero zero f h = h n
block_at-modify (n ∷ ns) zero (suc j) f h = refl
block_at-modify (n ∷ ns) (suc i) zero f h = refl
block_at-modify (n ∷ ns) (suc i) (suc j) f h = block_at-modify ns i j f h

pub taken_at-bump :
    (ns : List Node) (i j : ℕ)
    → i < length ns
    → taken_at ns i + 1 < 2 ^ 32
    → taken_at (modify ns i bump) j ≡ taken_at ns j + (if i == j then 1 else 0)
taken_at-bump [] i j h k = elim h [ ]
taken_at-bump (n ∷ ns) zero zero h k = ground arith
taken_at-bump (n ∷ ns) zero (suc j) h k = ground arith
taken_at-bump (n ∷ ns) (suc i) zero h k = ground arith
taken_at-bump (n ∷ ns) (suc i) (suc j) h k = ground (arith, taken_at-bump ns i j)

pub taken_at-drop_one :
    (ns : List Node) (i j : ℕ)
    → 1 ≤ taken_at ns i
    → taken_at ns i < 2 ^ 32
    → taken_at (modify ns i drop_one) j + (if i == j then 1 else 0) ≡ taken_at ns j
taken_at-drop_one [] i j h k = elim h [ ]
taken_at-drop_one (n ∷ ns) zero zero h k = ground arith
taken_at-drop_one (n ∷ ns) zero (suc j) h k = ground arith
taken_at-drop_one (n ∷ ns) (suc i) zero h k = ground arith
taken_at-drop_one (n ∷ ns) (suc i) (suc j) h k = ground (arith, taken_at-drop_one ns i j)

pub taken_at-append :
    (ns : List Node) (size j : ℕ) → taken_at (ns ++ (fresh_node size ∷ [])) j ≡ taken_at ns j
taken_at-append [] size zero = refl
taken_at-append [] size (suc j) = refl
taken_at-append (n ∷ ns) size zero = refl
taken_at-append (n ∷ ns) size (suc j) = taken_at-append ns size j

pub block_at-append :
    (ns : List Node) (size j : ℕ)
    → block_at (ns ++ (fresh_node size ∷ [])) j
      ≡ block_at ns j + (if length ns == j then size else 0)
block_at-append [] size zero = ground arith
block_at-append [] size (suc j) = ground arith
block_at-append (n ∷ ns) size zero = ground arith
block_at-append (n ∷ ns) size (suc j) = ground (arith, block_at-append ns size j)

pub block_at_none : (ns : List Node) (j : ℕ) → length ns ≤ j → block_at ns j ≡ 0
block_at_none [] j h = refl
block_at_none (n ∷ ns) zero h = elim h [ ]
block_at_none (n ∷ ns) (suc j) h = block_at_none ns j (omega arith)

pub taken_at-emptied : (ns : List Node) (j : ℕ) → taken_at (map emptied ns) j ≡ 0
taken_at-emptied [] j = refl
taken_at-emptied (n ∷ ns) zero = refl
taken_at-emptied (n ∷ ns) (suc j) = taken_at-emptied ns j

pub block_at-emptied : (ns : List Node) (j : ℕ) → block_at (map emptied ns) j ≡ block_at ns j
block_at-emptied [] j = refl
block_at-emptied (n ∷ ns) zero = refl
block_at-emptied (n ∷ ns) (suc j) = block_at-emptied ns j

module _ {ns : List Node} {free : List ℕ} where
  -- The invariant sees only how often each index occurs.
  pub Ledger-same :
      (live live' : List ℕ)
      → ((x : ℕ) → count x live ≡ count x live')
      → ((i : ℕ) → in_node i live ≡ in_node i live')
      → Ledger ns free live
      → Ledger ns free live'
  Ledger-same live live' c s o = record {
    unique = λ x. omega (arith, c x, o.unique x);
    taken = λ i. omega (arith, s i, o.taken i);
    below = λ x h. o.below x (omega (arith, c x));
    fits = o.fits;
    narrow = o.narrow;
    few = o.few;
  }

  -- So it does not see their order.
  pub Ledger-middle :
      (xs : List ℕ) (x : ℕ) (ys : List ℕ)
      → Ledger ns free (x ∷ (xs ++ ys))
      → Ledger ns free (xs ++ (x ∷ ys))
  Ledger-middle xs x ys =
      Ledger-same _ _ (λ y. omega (arith, count-append y xs ys, count-append y xs (x ∷ ys)))
        (λ i. omega (arith, in_node-append i xs ys, in_node-append i xs (x ∷ ys)))

  pub Ledger-front :
      (xs : List ℕ) (x : ℕ) (ys : List ℕ)
      → Ledger ns free (xs ++ (x ∷ ys))
      → Ledger ns free (x ∷ (xs ++ ys))
  Ledger-front xs x ys =
      Ledger-same _ _ (λ y. omega (arith, count-append y xs ys, count-append y xs (x ∷ ys)))
        (λ i. omega (arith, in_node-append i xs ys, in_node-append i xs (x ∷ ys)))

  pub Ledger-snoc :
      (xs : List ℕ) (x : ℕ) → Ledger ns free (x ∷ xs) → Ledger ns free (xs ++ (x ∷ []))
  Ledger-snoc xs x =
      Ledger-same _ _ (λ y. omega (arith, count-append y xs (x ∷ [])))
        (λ i. omega (arith, in_node-append i xs (x ∷ [])))

  -- An index that is held lies in the block of an existing node, and is not VL_POOL_INVALID_IDX.
  pub Ledger-range :
      (live : List ℕ) (x : ℕ)
      → Ledger ns free live
      → 1 ≤ count x live + count x free
      → (node_of x < length ns) × (elem_of x < block_at ns (node_of x)) × (x < invalid_idx)
  Ledger-range live x o h =
      let b = o.below x h in
      let f = o.fits (node_of x) in
      let n = o.narrow (node_of x) in
      elim (Bool-cases (ltb (node_of x) (length ns))) [
        | inl e ↦ (ltb→lt _ _ e, omega arith, omega arith)
        | inr e ↦ absurd (omega (arith, block_at_none ns (node_of x) (ltb→ge _ _ e)))
      ]

-- A new, empty block leaves the ledger as it is.
pub Ledger-new :
    (ns : List Node) (live free : List ℕ) (size : ℕ)
    → Ledger ns free live
    → size < 2 ^ 32
    → length ns + 1 < 2 ^ 32
    → Ledger (ns ++ (fresh_node size ∷ [])) free live
Ledger-new ns live free size o h r = record {
  unique = o.unique;
  taken = λ i. omega (arith, o.taken i, taken_at-append ns size i);
  below = λ x k. omega (arith, o.below x k, taken_at-append ns size (node_of x));
  fits = λ i. ground (arith, o.fits i, taken_at-append ns size i, block_at-append ns size i);
  narrow = λ i. ground (arith, o.narrow i, block_at-append ns size i, block_at_none ns i);
  few = omega (arith, length-append ns (fresh_node size ∷ []));
}
