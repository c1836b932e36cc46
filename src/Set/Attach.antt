-- ===== src/Set/Attach.antt =====
-- The new leaf of vlSetInsert, with the slot that the pool hands out.
use Prim.Native.Nat.{Ordering}
use veritable_lasagna.Base.{
  ℕ, ◌+◌, ◌%◌, ◌^◌, ◌≤◌, ◌<◌, ◌≡◌, refl, sym, subst, ap, ◌∙◌, false, ◌==◌, if◌then◌else◌, List, [],
  ◌∷◌, ◌++◌, arith, count, length, length-append, ==_iff, ne_of_count, Bool-cases, inl, inr,
}
use veritable_lasagna.Pool
use veritable_lasagna.Pool.{Pool, invalid_idx}
use veritable_lasagna.Pool.Owns.{Owns, Ledger-middle}
use veritable_lasagna.Pool.Give.{sample-write, write-Owns}
use veritable_lasagna.Pool.Take.{Handed}
use veritable_lasagna.Set.{
  red, black, Slot, Set, Side, to_left, to_right, with_child, node_at, set_child, store,
}
use veritable_lasagna.Set.Tree.{Tree, leaf, node, ids, SameLinks, IsTree, node_at-set_child}
use veritable_lasagna.Set.Turning.{unequal_flip}
use veritable_lasagna.Set.Order.{IsOrder}
use veritable_lasagna.Set.Insertion.{leaf_slot, add_leaf, add_root}
use veritable_lasagna.Set.Growth.{Placed, Growth}

-- The count of the elements does not wrap.
grow_count :
    (n new : ℕ) (xs ys : List ℕ)
    → n ≡ length (xs ++ ys)
    → n + 1 < 2 ^ 32
    → (n + 1) % 2 ^ 32 ≡ length (xs ++ (new ∷ ys))
grow_count n new xs ys h room = omega (arith, length-append xs ys, length-append xs (new ∷ ys))

module _ {V : Type 0} where
  SameLinks-refl : (m n : Slot V) → m ≡ n → SameLinks m n
  SameLinks-refl m n e = record {
    parent = ap (λ z. z.parent) e;
    left = ap (λ z. z.left) e;
    right = ap (λ z. z.right) e;
    value = ap (λ z. z.value) e;
  }

  with_child-color : (d : Side) (c : ℕ) (n : Slot V) → (with_child d c n).color ≡ n.color
  with_child-color to_left c n = refl
  with_child-color to_right c n = refl

  module _ (s : Set V) (e : V) (cur : ℕ) (d : Side) (new : ℕ) (q : Pool (Slot V)) (live : List ℕ)
      (h : Handed s.node_pool live new q) (has : 1 ≤ count cur live) where
    -- The slots before the child is set.
    added_at :
        (j : ℕ)
        → Pool.sample (Pool.write q new (leaf_slot red cur e)) j
          ≡ (if new == j then leaf_slot red cur e else Pool.sample q j)
    added_at j = sample-write q new j _

    new_cur : (new == cur) ≡ false
    new_cur = ne_of_count new cur live h.fresh has

    add_leaf-node_at :
        (j : ℕ)
        → node_at (add_leaf s e cur d (new, q)) j ≡ (
            if cur == j
            then with_child d new (Pool.sample q cur)
            else if new == j
            then leaf_slot red cur e
            else Pool.sample q j)
    unfolding add_leaf node_at
    add_leaf-node_at j =
        node_at-set_child d _ cur new j ∙ rw (added_at cur, new_cur, added_at j) refl

    pub add_leaf-color :
        (j : ℕ)
        → 1 ≤ count j live
        → (node_at (add_leaf s e cur d (new, q)) j).color ≡ (node_at s j).color
    unfolding node_at
    add_leaf-color j k = elim (Bool-cases (cur == j)) [
      | inl f ↦
          ap (λ z. z.color) (add_leaf-node_at j)
          ∙ rw f (with_child-color d new (Pool.sample q cur))
          ∙ ap (λ z. z.color) (h.keeps cur has)
          ∙ ap (λ z. (node_at s z).color) ((==_iff cur j).0 f)
      | inr f ↦
          ap (λ z. z.color) (add_leaf-node_at j)
          ∙ rw (f, ne_of_count new j live h.fresh k) refl
          ∙ ap (λ z. z.color) (h.keeps j k)
    ]

    add_leaf-Placed :
        (cmp : V → V → Ordering) (ord : IsOrder cmp)
        → Placed cmp ord s e new (node_at (add_leaf s e cur d (new, q))) live cur d
    unfolding node_at
    add_leaf-Placed cmp ord = record {
      leaf_links =
          SameLinks-refl _ _ (
            add_leaf-node_at new ∙ rw (unequal_flip new cur new_cur, (==_iff new new).1 refl) refl);
      cur_links =
          SameLinks-refl _ _
            (add_leaf-node_at cur ∙ rw ((==_iff cur cur).1 refl, h.keeps cur has) refl);
      rest_links = λ j k off_cur off_new.
          SameLinks-refl _ _ (add_leaf-node_at j ∙ rw (off_cur, off_new, h.keeps j k) refl);
    }

  -- The set with the new leaf is the tree that has grown.
  pub add_leaf-IsTree :
      (cmp : V → V → Ordering) (ord : IsOrder cmp) (s : Set V) (e : V) (new : ℕ) (q : Pool (Slot V))
      (fuel : ℕ) (t : Tree V) (g : Growth cmp ord s e new fuel invalid_idx t)
      → IsTree s t
      → Handed s.node_pool (ids t) new q
      → s.total_elements + 1 < 2 ^ 32
      → IsTree (add_leaf s e g.cur g.d (new, q)) g.tree
  unfolding add_leaf store set_child
  add_leaf-IsTree cmp ord s e new q fuel t g is h room = record {
    owns = write-Owns _ (ids g.tree) g.cur _ (
        write-Owns q (ids g.tree) new _ (
          subst (Owns q) (sym g.new_ids)
            (Ledger-middle g.before new g.after (subst (λ z. Owns q (new ∷ z)) g.old_ids h.owns))));
    rep = g.grown _ (add_leaf-Placed s e g.cur g.d new q (ids t) h g.has cmp ord);
    root = is.root ∙ sym g.same_top;
    counted =
        grow_count s.total_elements new g.before g.after (is.counted ∙ ap length g.old_ids) room
        ∙ sym (ap length g.new_ids);
    few = omega (arith, room);
  }

  add_root-node_at :
      (s : Set V) (e : V) (new : ℕ) (q : Pool (Slot V))
      → node_at (add_root s e (new, q)) new ≡ leaf_slot black invalid_idx e
  unfolding add_root node_at
  add_root-node_at s e new q = sample-write q new new _ ∙ rw ((==_iff new new).1 refl) refl

  pub add_root-color :
      (s : Set V) (e : V) (new : ℕ) (q : Pool (Slot V))
      → (node_at (add_root s e (new, q)) new).color ≡ black
  add_root-color s e new q = ap (λ z. z.color) (add_root-node_at s e new q)

  -- The first leaf of an empty set.
  pub add_root-IsTree :
      (s : Set V) (e : V) (new : ℕ) (q : Pool (Slot V))
      → IsTree s leaf
      → Handed s.node_pool [] new q
      → IsTree (add_root s e (new, q)) (node leaf new e leaf)
  unfolding add_root node_at
  add_root-IsTree s e new q is h =
      let n = SameLinks-refl _ _ (add_root-node_at s e new q) in
      record {
        owns = write-Owns q (new ∷ []) new _ h.owns;
        rep = (n.parent, n.left, n.right, n.value, tt, tt);
        root = refl;
        counted = omega (arith, is.counted);
        few = omega arith;
      }
