-- ===== src/Pool/Tables.antt =====
-- The lookup table of vl_pool.c: `take` writes inside its memory, and what `clone` does with it.
use mathlib.Core.List.{append_assoc, append-nil}
use veritable_lasagna.Base.{
  ◌++◌, sym, subst, ap, ◌∙◌, inl, inr, Bool-cases, ==_iff, ◌==◌, ◌+◌, false, ℕ, ◌%◌, ◌^◌, ◌≤◌, ◌<◌,
  ◌≡◌, refl, Option, none, some, List, [], ◌∷◌, arith, length, count, ltb, length-modify,
  length-append, true,
}
use veritable_lasagna.Pool.{
  Node, Pool, node_of, elem_of, bump, fresh_node, take_at, take_from, take_open, take_new, take,
  sample, reset_from, reset, clone_fields, clone_grown, clone_stack, clone_nodes, clone_into, clone,
  set_block, node_new, node_added, find_open,
}
use veritable_lasagna.Pool.Owns.{Ledger, Owns, Ledger-range}

module _ {A : Type 0} where
  -- The entries in use lie inside the memory of the lookup table, whose size is recorded.
  pub record TableFits (p : Pool A) : Type 0 where
    pub used : length p.lookup ≤ p.lookup_capacity
    pub recorded : p.lookup_capacity ≡ p.table_size
    pub pos : 1 ≤ p.lookup_capacity

  node_added-TableFits :
      (p : Pool A) (block : ℕ → A)
      → TableFits p
      → p.lookup_capacity < 2 ^ 31
      → TableFits (node_added block p)
  unfolding node_added
  node_added-TableFits p block t h =
      ground (arith, length-append p.lookup (fresh_node (p.growth_increment % 2 ^ 32) ∷ []))

  take_at-TableFits : (p : Pool A) (n : ℕ) → TableFits p → TableFits (take_at n p)
  unfolding take_at
  take_at-TableFits p n t = record {
    used = omega (arith, length-modify p.lookup n bump, t.used);
    recorded = t.recorded;
    pos = t.pos;
  }

  take_open-TableFits :
      (p : Pool A) (block : Option (ℕ → A)) (found : Option ℕ)
      → TableFits p
      → p.lookup_capacity < 2 ^ 31
      → TableFits (take_open block p found).1
  unfolding take_open take_new
  take_open-TableFits p block (some n) t h = take_at-TableFits p n t
  take_open-TableFits p none none t h = unfold node_new in t
  take_open-TableFits p (some block) none t h =
      unfold node_new in
      take_at-TableFits (node_added block p) (length p.lookup) (node_added-TableFits p block t h)

  -- Where the used entries of the lookup table lie inside its memory and its capacity is below 2 ^
  -- 31, they still do after `take`, whatever the allocator answers.
  pub take-TableFits :
      (p : Pool A) (block : Option (ℕ → A))
      → TableFits p
      → p.lookup_capacity < 2 ^ 31
      → TableFits (take block p).1
  unfolding take
  take-TableFits p block t h = from p.free_stack
    where
      from : (free : List ℕ) → TableFits (take_from block p free).1
      from [] = take_open-TableFits p block (find_open p.lookup (length p.lookup)) t h
      from (x ∷ rest) =
          unfold take_from in
          take_at-TableFits (record p { free_stack = rest }) (node_of x)
            (record { used = t.used; recorded = t.recorded; pos = t.pos })

  reset_from-some :
      (p : Pool A) (ns : List Node)
      → 1 ≤ length ns
      → (d : Pool A) × (reset_from p ns ≡ some d) × (d.table_size ≡ p.table_size)
  unfolding reset_from
  reset_from-some p [] h = elim h [ ]
  reset_from-some p (n ∷ ns) h = (_, refl, refl)

  -- The nodes from ordinal `i` on find room in the table, and bring their blocks along.
  record Copied (src : Pool A) (ns : List Node) (i : ℕ) (d q : Pool A) : Type 0 where
    pub nodes : q.lookup ≡ d.lookup ++ ns
    pub stack : q.free_stack ≡ d.free_stack
    pub old : (k : ℕ) → k < i → q.slots k ≡ d.slots k
    pub new : (k : ℕ) → i ≤ k → k < i + length ns → q.slots k ≡ src.slots k

  clone_nodes-some :
      (src : Pool A) (ns : List Node) (i : ℕ) (d : Pool A)
      → i + length ns ≤ d.table_size
      → (q : Pool A) × (clone_nodes src ns i d ≡ some q) × Copied src ns i d q
  unfolding clone_nodes
  clone_nodes-some src [] i d h = (
    d,
    refl,
    record {
      nodes = sym (append-nil d.lookup);
      stack = refl;
      old = λ k a. refl;
      new = λ k a b. absurd (omega arith);
    },
  )
  clone_nodes-some src (n ∷ ns) i d h =
      let next = record d {
        lookup = d.lookup ++ (n ∷ []);
        slots = set_block d.slots i (src.slots i);
      } in
      let (q, e, rest) = clone_nodes-some src ns (i + 1) next (omega arith) in
      let inside : ltb i d.table_size ≡ true = ground arith in
      (
        q,
        rw inside e,
        record {
          nodes = rest.nodes ∙ append_assoc d.lookup (n ∷ []) ns;
          stack = rest.stack;
          old = λ k a.
              let other : (k == i) ≡ false = ground arith in
              rest.old k (omega arith) ∙ rw other refl;
          new = λ k a b. elim (Bool-cases (k == i)) [
            | inl here ↦
                rest.old k (let e = (==_iff k i).0 here in omega arith)
                ∙ rw here (ap src.slots (sym ((==_iff k i).0 here)))
            | inr later ↦ rest.new k (ground arith) (omega arith)
          ];
        },
      )

  clone_nodes-none :
      (src : Pool A) (ns : List Node) (i : ℕ) (d : Pool A)
      → i ≤ d.table_size
      → d.table_size < i + length ns
      → clone_nodes src ns i d ≡ none
  unfolding clone_nodes
  clone_nodes-none src [] i d a h = absurd (omega arith)
  clone_nodes-none src (n ∷ ns) i d a h = elim (Bool-cases (ltb i d.table_size)) [
    | inr behind ↦ rw behind refl
    | inl inside ↦ rw inside (
        clone_nodes-none src ns (i + 1)
          (record d { lookup = d.lookup ++ (n ∷ []); slots = set_block d.slots i (src.slots i) })
          (ground arith) (omega arith))
  ]

  -- The pool that the loop starts from. Its table has the size that it had.
  ready : Pool A → Pool A → Pool A
  unfolding clone_fields clone_grown clone_stack
  ready src d = record (clone_stack src (clone_grown src (clone_fields src d))) { lookup = [] }

  not_grown :
      (src d : Pool A)
      → ((ready src d).table_size ≡ d.table_size)
        × ((ready src d).free_stack ≡ src.free_stack)
        × ((ready src d).lookup ≡ [])
  unfolding ready clone_fields clone_grown clone_stack
  not_grown src d =
      let never : ltb src.lookup_capacity src.lookup_capacity ≡ false = ground arith in
      (rw never refl, refl, refl)

  clone_into_at :
      (src d : Pool A)
      → 1 ≤ length src.lookup
      → clone_into src d ≡ clone_nodes src src.lookup 0 (ready src d)
  unfolding clone_into ready
  clone_into_at src d h =
      let some_nodes : (length src.lookup == 0) ≡ false = ground arith in rw some_nodes refl

  -- What a clone is: a pool that has handed out the same indices, with the same contents.
  pub record Cloned (src : Pool A) (live : List ℕ) (out : Option (Pool A)) : Type 0 where
    pub pool : Pool A
    pub ends : out ≡ some pool
    pub owns : Owns pool live
    pub contents : (y : ℕ) → 1 ≤ count y live → sample pool y ≡ sample src y

  clone_into-Cloned :
      (src d : Pool A) (live : List ℕ)
      → Owns src live
      → 1 ≤ length src.lookup
      → length src.lookup ≤ d.table_size
      → Cloned src live (clone_into src d)
  unfolding sample
  clone_into-Cloned src d live o s h =
      let (same_size, same_stack, no_nodes) = not_grown src d in
      let (q, e, copied) =
        clone_nodes-some src src.lookup 0 (ready src d) (omega (arith, same_size)) in
      let nodes : q.lookup ≡ src.lookup = copied.nodes ∙ ap (λ ns. ns ++ src.lookup) no_nodes in
      record {
        pool = q;
        ends = clone_into_at src d s ∙ e;
        owns =
            subst (λ ns. Ledger ns q.free_stack live) (sym nodes)
              (subst (λ f. Ledger src.lookup f live) (sym (copied.stack ∙ same_stack)) o);
        contents = λ y k.
            ap (λ f. f (elem_of y))
              (copied.new (node_of y) (omega arith) (ground (arith, Ledger-range live y o)));
      }

  clone_into_overflow :
      (src d : Pool A) → d.table_size < length src.lookup → clone_into src d ≡ none
  clone_into_overflow src d h =
      let (same_size, same_stack, no_nodes) = not_grown src d in
      clone_into_at src d (omega arith)
      ∙ clone_nodes-none src src.lookup 0 (ready src d) (omega arith) (omega (arith, same_size))

  -- Where a pool accounts for the held indices and both pools have a node, `clone` gives a pool
  -- that accounts for the same indices with the same contents if the table of `dest` has an entry
  -- for each node of `src`, and otherwise writes behind that table, whatever the capacities of the
  -- two tables are.
  pub clone_lem :
      (src dest : Pool A) (live : List ℕ)
      → Owns src live
      → 1 ≤ length src.lookup
      → 1 ≤ length dest.lookup
      → (length src.lookup ≤ dest.table_size → Cloned src live (clone src dest))
        × (dest.table_size < length src.lookup → clone src dest ≡ none)
  unfolding clone reset
  clone_lem src dest live o s d =
      let (r, e, room) = reset_from-some dest dest.lookup d in
      (
        λ h. rw (e, clone) (clone_into-Cloned src r live o s (omega arith)),
        λ h. rw (e, clone) (clone_into_overflow src r (omega arith)),
      )
