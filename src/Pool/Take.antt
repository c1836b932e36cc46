-- ===== src/Pool/Take.antt =====
-- `take` of vl_pool.c hands out an index that no client holds, and spares what the clients wrote.
use veritable_lasagna.Base.{
  ℕ, zero, suc, ◌+◌, ◌%◌, ◌^◌, ◌≤◌, ◌<◌, ◌≡◌, refl, ◌⊎◌, inl, inr, Option, none, some, List, [],
  ◌∷◌, ◌++◌, ◌==◌, if◌then◌else◌, arith, length, count, modify, Bool-cases, ltb, ltb→lt, ltb→ge,
  length-modify, length-append, sym, subst,
}
use veritable_lasagna.Pool.{
  Node, Pool, node_of, elem_of, ordinal, taken_at, block_at, bump, fresh_node, invalid_idx,
  find_open, node_new, node_added, take_at, take_new, take_open, take_from, take, sample,
}
use veritable_lasagna.Pool.Owns.{
  Ledger, Owns, taken_at-bump, block_at-modify, taken_at-append, block_at-append, block_at_none,
  Ledger-range, Ledger-new,
}

-- The node that the chain walk finds exists and has room.
find_open-some :
    (ns : List Node) (k n : ℕ) → find_open ns k ≡ some n → (n < k) × (taken_at ns n < block_at ns n)
unfolding find_open
find_open-some ns zero n e = cc
find_open-some ns (suc k) n e = ground (arith, find_open-some ns k n)

ordinal_parts :
    (n e : ℕ) → n < 2 ^ 32 → e < 2 ^ 32 → (node_of (ordinal n e) ≡ n) × (elem_of (ordinal n e) ≡ e)
ordinal_parts n e h k = (omega arith, omega arith)

-- With an empty free stack, the first unused index of a node with room is held by nobody, and may be
-- handed out once the node has counted it.
module _ (ns : List Node) (live : List ℕ) (n x : ℕ) (o : Ledger ns [] live) (here : node_of x ≡ n)
    (next : elem_of x ≡ taken_at ns n) (exists : n < length ns)
    (room : taken_at ns n < block_at ns n) where
  unused : count x live ≡ 0
  unused = elim (Bool-cases (ltb 0 (count x live))) [
    | inl e ↦ absurd (let b = o.below x (omega (arith, ltb→lt _ _ e)) in ground (arith, here))
    | inr e ↦ omega (arith, ltb→ge _ _ e)
  ]

  bumped : (j : ℕ) → taken_at (modify ns n bump) j ≡ taken_at ns j + (if n == j then 1 else 0)
  bumped j = taken_at-bump ns n j exists (omega (arith, o.narrow n))

  same_blocks : (j : ℕ) → block_at (modify ns n bump) j ≡ block_at ns j
  same_blocks j = block_at-modify ns n j bump (λ m. refl)

  Ledger-bump : Ledger (modify ns n bump) [] (x ∷ live)
  Ledger-bump = record {
    unique = λ y. ground (arith, unused, o.unique y);
    taken = λ i. ground (arith, here, bumped i, o.taken i);
    below = λ y h. ground (arith, here, next, bumped (node_of y), o.below y);
    fits = λ i. ground (arith, bumped i, same_blocks i, o.fits i);
    narrow = λ i. ground (arith, same_blocks i, o.narrow i);
    few = omega (arith, length-modify ns n bump, o.few);
  }

-- The top of the free stack is held by nobody, and may be handed out once its node has counted it.
module _ (ns : List Node) (live rest : List ℕ) (x : ℕ) (o : Ledger ns (x ∷ rest) live) where
  free_unused : count x live ≡ 0
  free_unused = ground (arith, o.unique x)

  free_exists : node_of x < length ns
  free_exists = (Ledger-range live x o (ground arith)).0

  free_bumped :
      (j : ℕ)
      → taken_at (modify ns (node_of x) bump) j ≡ taken_at ns j + (if node_of x == j then 1 else 0)
  free_bumped j =
      taken_at-bump ns (node_of x) j free_exists
        (ground (arith, o.fits (node_of x), o.narrow (node_of x)))

  free_blocks : (j : ℕ) → block_at (modify ns (node_of x) bump) j ≡ block_at ns j
  free_blocks j = block_at-modify ns (node_of x) j bump (λ m. refl)

  Ledger-reuse : Ledger (modify ns (node_of x) bump) rest (x ∷ live)
  Ledger-reuse = record {
    unique = λ y. ground (arith, o.unique y);
    taken = λ i. ground (arith, free_bumped i, o.taken i);
    below = λ y h. ground (arith, free_bumped (node_of y), o.below y);
    fits = λ i. ground (arith, free_bumped i, free_blocks i, o.fits i);
    narrow = λ i. ground (arith, free_blocks i, o.narrow i);
    few = omega (arith, length-modify ns (node_of x) bump, o.few);
  }

-- The two facts above at the index that `take` builds.
hand :
    (ns : List Node) (live : List ℕ) (n : ℕ)
    → Ledger ns [] live
    → n < length ns
    → taken_at ns n < block_at ns n
    → (count (ordinal n (taken_at ns n)) live ≡ 0)
      × Ledger (modify ns n bump) [] (ordinal n (taken_at ns n) ∷ live)
      × (ordinal n (taken_at ns n) < invalid_idx)
hand ns live n o h r =
    let w = o.narrow n in
    let (here, next) = ordinal_parts n (taken_at ns n) (omega (arith, o.few)) (omega arith) in
    (unused ns live n _ o here next h r, Ledger-bump ns live n _ o here next h r, omega arith)

taken_at_new :
    (ns : List Node) (live : List ℕ) (size : ℕ)
    → Ledger ns [] live
    → taken_at (ns ++ (fresh_node size ∷ [])) (length ns) ≡ 0
taken_at_new ns live size o =
    omega
      (arith, taken_at-append ns size (length ns), o.fits (length ns), block_at_none ns (length ns))

module _ {A : Type 0} where
  -- What `take` promises to a client that holds `live`: an index that was not held and that is not
  -- VL_POOL_INVALID_IDX is held from now on, and the slots of the others keep what they hold.
  pub record Handed (p : Pool A) (live : List ℕ) (x : ℕ) (q : Pool A) : Type 0 where
    pub fresh : count x live ≡ 0
    pub owns : Owns q (x ∷ live)
    pub valid : x < invalid_idx
    pub keeps : (y : ℕ) → 1 ≤ count y live → sample q y ≡ sample p y

  -- The next block has an element, and the lookup table an ordinal for it.
  pub record CanGrow (p : Pool A) : Type 0 where
    pub block : 1 ≤ p.growth_increment % 2 ^ 32
    pub room : length p.lookup + 1 < 2 ^ 32

  Handed-open :
      (p : Pool A) (live : List ℕ) (n : ℕ)
      → Ledger p.lookup [] live
      → p.free_stack ≡ []
      → n < length p.lookup
      → taken_at p.lookup n < block_at p.lookup n
      → Handed p live (ordinal n (taken_at p.lookup n)) (take_at n p)
  unfolding take_at sample
  Handed-open p live n o e h r =
      let (unheld, held, valid) = hand p.lookup live n o h r in
      record {
        fresh = unheld;
        owns =
            subst (λ f. Ledger (modify p.lookup n bump) f (ordinal n (taken_at p.lookup n) ∷ live))
              (sym e) held;
        valid = valid;
        keeps = λ y k. refl;
      }

  Handed-new :
      (p : Pool A) (live : List ℕ) (block : ℕ → A)
      → Ledger p.lookup [] live
      → p.free_stack ≡ []
      → CanGrow p
      → Handed p live
          (take_new (node_new (some block) p) p).0
          (take_new (node_new (some block) p) p).1
  unfolding take_new node_new node_added sample take_at
  Handed-new p live block o e g =
      let size = p.growth_increment % 2 ^ 32 in
      let n = length p.lookup in
      let ns = p.lookup ++ (fresh_node size ∷ []) in
      let o' = Ledger-new p.lookup live [] size o (omega arith) g.room in
      let z = taken_at_new p.lookup live size o in
      let full = block_at-append p.lookup size n in
      let (unheld, held, valid) =
        hand ns live n o' (omega (arith, length-append p.lookup (fresh_node size ∷ [])))
          (ground (arith, block_at_none p.lookup n)) in
      record {
        fresh = rw z at unheld;
        owns = subst (λ f. Ledger (modify ns n bump) f (ordinal n 0 ∷ live)) (sym e) (rw z at held);
        valid = rw z at valid;
        keeps = λ y k. ground (arith, Ledger-range live y o);
      }

  Handed-chain :
      (p : Pool A) (live : List ℕ) (block : ℕ → A) (found : Option ℕ)
      → Ledger p.lookup [] live
      → p.free_stack ≡ []
      → CanGrow p
      → find_open p.lookup (length p.lookup) ≡ found
      → Handed p live (take_open (some block) p found).0 (take_open (some block) p found).1
  unfolding take_open
  Handed-chain p live block none o e g f = Handed-new p live block o e g
  Handed-chain p live block (some n) o e g f =
      let (exists, room) = find_open-some p.lookup (length p.lookup) n f in
      Handed-open p live n o e exists room

  Handed-from :
      (p : Pool A) (live : List ℕ) (block : ℕ → A) (free : List ℕ)
      → Ledger p.lookup free live
      → p.free_stack ≡ free
      → CanGrow p
      → Handed p live (take_from (some block) p free).0 (take_from (some block) p free).1
  unfolding take_from take_at sample
  Handed-from p live block [] o e g = Handed-chain p live block _ o e g refl
  Handed-from p live block (x ∷ rest) o e g = record {
    fresh = free_unused p.lookup live rest x o;
    owns = Ledger-reuse p.lookup live rest x o;
    valid = (Ledger-range live x o (ground arith)).2;
    keeps = λ y k. refl;
  }

  pub take-Handed :
      (p : Pool A) (live : List ℕ) (block : ℕ → A)
      → Owns p live
      → CanGrow p
      → Handed p live (take (some block) p).0 (take (some block) p).1
  unfolding take
  take-Handed p live block o g = Handed-from p live block p.free_stack o refl g

  -- Where a pool accounts for the held indices and the allocation fails, `take` either hands out
  -- an index as when it succeeds, or returns VL_POOL_INVALID_IDX and leaves the pool as it is.
  pub take_null :
      (p : Pool A) (live : List ℕ)
      → Owns p live
      → Handed p live (take none p).0 (take none p).1 ⊎ (take none p ≡ (invalid_idx, p))
  unfolding take sample
  take_null p live o = null_from p.free_stack o refl
    where
      null_chain :
          (found : Option ℕ)
          → Ledger p.lookup [] live
          → p.free_stack ≡ []
          → find_open p.lookup (length p.lookup) ≡ found
          → Handed p live (take_open none p found).0 (take_open none p found).1
            ⊎ (take_open none p found ≡ (invalid_idx, p))
      null_chain none o e f = inr refl
      null_chain (some n) o e f =
          let (exists, room) = find_open-some p.lookup (length p.lookup) n f in
          inl (Handed-open p live n o e exists room)

      null_from :
          (free : List ℕ)
          → Ledger p.lookup free live
          → p.free_stack ≡ free
          → Handed p live (take_from none p free).0 (take_from none p free).1
            ⊎ (take_from none p free ≡ (invalid_idx, p))
      null_from [] o e = null_chain _ o e refl
      null_from (x ∷ rest) o e = inl (record {
        fresh = free_unused p.lookup live rest x o;
        owns = Ledger-reuse p.lookup live rest x o;
        valid = (Ledger-range live x o (ground arith)).2;
        keeps = λ y k. refl;
      })
