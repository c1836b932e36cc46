-- ===== src/Set/Refinement.antt =====
-- A set of vl_set.c stands for a sorted list, and vlSetInsert adds to it.
use Prim.Native.Nat.{Ordering}
use veritable_lasagna.Base.{
  ℕ, ◌+◌, ◌^◌, ◌≤◌, ◌<◌, ◌≡◌, inl, inr, refl, sym, subst, ap, ◌∙◌, true, false, ◌==◌, if◌then◌else◌,
  Option, some, List, [], ◌∷◌, ◌++◌, arith, count, count-append, length, length-append, Bool-cases,
  ==_iff,
}
use veritable_lasagna.Pool
use veritable_lasagna.Pool.{Pool, invalid_idx}
use veritable_lasagna.Pool.Owns.{Owns}
use veritable_lasagna.Pool.Take.{Handed, CanGrow, take-Handed}
use veritable_lasagna.Set.{black, Slot, Set, init, node_at, set_color, store}
use veritable_lasagna.Set.Tree.{
  Tree, leaf, node, top, ids, inorder, IsTree, IsTree-valid, IsTree-Distinct, set_color-IsTree,
  valid_unequal, not_invalid,
}
use veritable_lasagna.Set.Turning.{top_leaf, top_found}
use veritable_lasagna.Set.Order.{IsOrder, Sorted, lookup, add}
use veritable_lasagna.Set.Sorted.{Sorted-add}
use veritable_lasagna.Set.Chain.{way_up}
use veritable_lasagna.Set.Straighten.{color-set_color}
use veritable_lasagna.Set.Fixup.{fixup_lem}
use veritable_lasagna.Set.Insertion.{locate, add_root, add_leaf, blackened, insert_at, insert}
use veritable_lasagna.Set.Growth.{Growth}
use veritable_lasagna.Set.Descent.{Met, locate_lem}
use veritable_lasagna.Set.Attach.{add_leaf-IsTree, add_root-IsTree, add_leaf-color, add_root-color}

count_middle : (x : ℕ) (xs ys : List ℕ) → 1 ≤ count x (xs ++ (x ∷ ys))
count_middle x xs ys = ground (arith, count-append x xs (x ∷ ys))

module _ {V : Type 0} (cmp : V → V → Ordering) where
  -- The nodes are a tree, its elements are in order, and the root is black.
  pub record IsOrderedSet (s : Set V) (t : Tree V) : Type 0 where
    pub is : IsTree s t
    pub sorted : Sorted cmp (inorder t)
    pub black_root : 1 ≤ count (top t) (ids t) → (node_at s (top t)).color ≡ black

  -- The index of `e` after it is added, where `new` is the one of a new node.
  abbrev pub index_added : V → ℕ → List (ℕ × V) → ℕ
  index_added e new es = if lookup cmp e es == invalid_idx then new else lookup cmp e es

  -- What an insertion does to the list that the set stands for.
  pub record Inserted (s : Set V) (t : Tree V) (e : V) (new : ℕ) (out : Option (ℕ × Set V))
      : Type 0 where
    pub set : Set V
    pub tree : Tree V
    pub ends : out ≡ some (index_added e new (inorder t), set)
    pub is_set : IsOrderedSet set tree
    pub entries : inorder tree ≡ add cmp (new, e) (inorder t)

  module _ (ord : IsOrder cmp) (s : Set V) (t : Tree V) (e : V) (block : ℕ → Slot V) (fuel : ℕ)
      (is : IsOrderedSet s t) (grow : CanGrow s.node_pool) (room : s.total_elements + 1 < 2 ^ 32)
      (enough : length (ids t) < fuel) where
    abbrev new : ℕ
    new = (Pool.take (some block) s.node_pool).0

    abbrev q : Pool (Slot V)
    q = (Pool.take (some block) s.node_pool).1

    handed : Handed s.node_pool (ids t) new q
    handed = take-Handed s.node_pool (ids t) block is.is.owns grow

    -- An equal element is there.
    insert-Met :
        Met cmp ord s e new fuel t
        → Inserted s t e new (insert_at fuel (some block) s e (locate fuel cmp s e (top t)))
    unfolding insert_at
    insert-Met m = record {
      set = s;
      tree = t;
      ends =
          ap (insert_at fuel (some block) s e) m.at
          ∙ rw (m.known, valid_unequal m.index (IsTree-valid s t m.index is.is m.has)) refl;
      is_set = is;
      entries = sym m.entries;
    }

    -- The element is new.
    insert_grown :
        (top t == invalid_idx) ≡ false
        → Growth cmp ord s e new fuel invalid_idx t
        → Inserted s t e new (insert_at fuel (some block) s e (locate fuel cmp s e (top t)))
    unfolding insert_at blackened add_leaf store
    insert_grown in_tree g =
        let s1 = add_leaf s e g.cur g.d (new, q) in
        let is1 = add_leaf-IsTree cmp ord s e new q fuel t g is.is handed room in
        let has : 1 ≤ count new (ids g.tree) =
          subst (λ z. 1 ≤ count new z) (sym g.new_ids) (count_middle new g.before g.after) in
        let size = ap length g.new_ids ∙ length-append g.before (new ∷ g.after) in
        let old_size = ap length g.old_ids ∙ length-append g.before g.after in
        let (n, up, few) = way_up s1 g.tree new is1 has in
        let root_in : 1 ≤ count (top t) (ids t) = elim (top_found t) [
          | inl none_there ↦ absurd (not_invalid (top t) in_tree none_there)
          | inr found ↦ found
        ] in
        let root : (node_at s1 s1.root).color ≡ black =
          ap (λ z. (node_at s1 z).color) (is1.root ∙ g.same_top)
          ∙ add_leaf-color s e g.cur g.d new q (ids t) handed g.has (top t) root_in
          ∙ is.black_root root_in in
        let fixed =
          fixup_lem fuel n s1 g.tree new is1 has up (omega (arith, few, size, old_size, enough))
            (inr root) in
        let s2 = fixed.set in
        record {
          set = set_color s2 s2.root black;
          tree = fixed.turned.tree;
          ends =
              ap (insert_at fuel (some block) s e) g.at
              ∙ ap (blackened new) fixed.ends
              ∙ rw g.missing refl;
          is_set = record {
            is = set_color-IsTree s2 s2.root black fixed.turned.tree fixed.turned.is;
            sorted =
                subst (Sorted cmp) (sym (fixed.turned.same_entries ∙ g.entries))
                  (Sorted-add cmp ord (new, e) (inorder t) is.sorted);
            black_root = λ there.
                color-set_color s2 s2.root black (top fixed.turned.tree)
                ∙ rw ((==_iff s2.root (top fixed.turned.tree)).1 fixed.turned.is.root) refl;
          };
          entries = fixed.turned.same_entries ∙ g.entries;
        }

    -- The set is empty.
    insert_empty :
        (s.root == invalid_idx) ≡ true
        → t ≡ leaf
        → Inserted s t e new (insert fuel (some block) cmp s e)
    unfolding insert
    insert_empty at_root empty = record {
      set = add_root s e (new, q);
      tree = node leaf new e leaf;
      ends = rw (at_root, empty) refl;
      is_set = record {
        is =
            add_root-IsTree s e new q (subst (IsTree s) empty is.is)
              (subst (λ z. Handed s.node_pool (ids z) new q) empty handed);
        sorted = (tt, tt);
        black_root = λ there. add_root-color s e new q;
      };
      entries = rw empty refl;
    }

    insert_below :
        (s.root == invalid_idx) ≡ false
        → insert fuel (some block) cmp s e
          ≡ insert_at fuel (some block) s e (locate fuel cmp s e (top t))
    unfolding insert
    insert_below at_root =
        rw at_root (ap (λ z. insert_at fuel (some block) s e (locate fuel cmp s e z)) is.is.root)

    -- Where the nodes of a set are a tree whose elements are in order and whose root is black, the
    -- comparator is an order, the pool can grow and the allocation succeeds, the count of the
    -- elements does not wrap, and the fuel is more than the number of nodes, `insert` ends, and no
    -- round of its loop misses a parent or a grandparent. It returns the index of the equal
    -- element, or a new one if there is none. The set is again such a tree, and its entries are
    -- the old ones with the new entry added in order, unless an equal one is there.
    pub insert_lem : Inserted s t e new (insert fuel (some block) cmp s e)
    insert_lem = elim (Bool-cases (s.root == invalid_idx)) [
      | inl none_there ↦ insert_empty none_there (
          top_leaf t (λ j. IsTree-valid s t j is.is)
            (ap (λ z. z == invalid_idx) (sym is.is.root) ∙ none_there))
      | inr there ↦
          let in_tree = ap (λ z. z == invalid_idx) (sym is.is.root) ∙ there in
          subst (Inserted s t e new) (sym (insert_below there))
            (elim (locate_lem cmp ord s e new fuel invalid_idx t is.is.rep
              (IsTree-Distinct s t is.is) (λ j. IsTree-valid s t j is.is) handed.fresh handed.valid
              is.sorted enough in_tree) [ inl g ↦ insert_grown in_tree g | inr m ↦ insert-Met m ])
    ]

  -- An initialised set is empty.
  pub init-IsOrderedSet : (p : Pool (Slot V)) → Owns p [] → IsOrderedSet (init p) leaf
  unfolding init node_at
  init-IsOrderedSet p owns = record {
    is = record { owns = owns; rep = tt; root = refl; counted = refl; few = omega arith };
    sorted = tt;
    black_root = λ there. absurd (omega arith);
  }
