-- ===== src/Set/Growth.antt =====
-- The descent of vlSetInsert, and the tree with the new leaf.
pub mod Node
use Prim.Native.Nat.{Ordering}
use mathlib.Core.List.{append_assoc}
use veritable_lasagna.Base.{
  ℕ, suc, ◌≤◌, ◌<◌, ◌≡◌, refl, sym, ap, ◌∙◌, false, ◌==◌, some, List, [], ◌∷◌, ◌++◌, arith, count,
  Distinct, ne_of_count,
}
use veritable_lasagna.Pool.{invalid_idx}
use veritable_lasagna.Set.{
  red, Slot, Set, Side, to_left, to_right, with_child, node_at, sample, side_of, is_equal,
}
use veritable_lasagna.Set.Tree.{Tree, leaf, node, top, ids, inorder, Rep, SameLinks, Rep-same}
use veritable_lasagna.Set.Fields.{child_at}
use veritable_lasagna.Set.Turning.{count-node, count_here, count_alone}
use veritable_lasagna.Set.Order.{IsOrder, Sorted, lookup, add}
use veritable_lasagna.Set.Sorted.{Sorted-parts, add_above, add_below, Each_below}
use veritable_lasagna.Set.Insertion.{absent, locate, leaf_slot}

module _ {V : Type 0} (cmp : V → V → Ordering) (ord : IsOrder cmp) (s : Set V) (e : V)
    (new : ℕ) where
  -- The slots after the new leaf is linked to `cur`.
  pub record Placed (get : ℕ → Slot V) (live : List ℕ) (cur : ℕ) (d : Side) : Type 0 where
    pub leaf_links : SameLinks (get new) (leaf_slot red cur e)
    pub cur_links : SameLinks (get cur) (with_child d new (node_at s cur))
    pub rest_links :
        (j : ℕ)
        → 1 ≤ count j live
        → (cur == j) ≡ false
        → (new == j) ≡ false
        → SameLinks (get j) (node_at s j)

  -- The descent ends at a node without a child, and there the tree grows.
  pub record Growth (fuel q : ℕ) (t : Tree V) : Type 0 where
    pub cur : ℕ
    pub d : Side
    pub tree : Tree V
    pub at : locate fuel cmp s e (top t) ≡ some (absent cur d)
    pub has : 1 ≤ count cur (ids t)
    pub before : List ℕ
    pub after : List ℕ
    pub old_ids : ids t ≡ before ++ after
    pub new_ids : ids tree ≡ before ++ (new ∷ after)
    pub entries : inorder tree ≡ add cmp (new, e) (inorder t)
    pub missing : lookup cmp e (inorder t) ≡ invalid_idx
    pub same_top : top tree ≡ top t
    pub grown : (get : ℕ → Slot V) → Placed get (ids t) cur d → Rep get q tree

  pub Placed-part :
      (get : ℕ → Slot V) (live part : List ℕ) (cur : ℕ) (d : Side)
      → ((j : ℕ) → 1 ≤ count j part → 1 ≤ count j live)
      → Placed get live cur d
      → Placed get part cur d
  Placed-part get live part cur d inside placed = record {
    leaf_links = placed.leaf_links;
    cur_links = placed.cur_links;
    rest_links = λ j h. placed.rest_links j (inside j h);
  }

  -- A subtree that does not have `cur` stays as it is.
  pub Rep-spared :
      (get : ℕ → Slot V) (live : List ℕ) (cur : ℕ) (d : Side) (q : ℕ) (t : Tree V)
      → Placed get live cur d
      → ((j : ℕ) → 1 ≤ count j (ids t) → 1 ≤ count j live)
      → count cur (ids t) ≡ 0
      → count new (ids t) ≡ 0
      → Rep (node_at s) q t
      → Rep get q t
  Rep-spared get live cur d q t placed inside no_cur no_new = Rep-same (node_at s) get q t (λ j h.
      placed.rest_links j (inside j h) (ne_of_count cur j (ids t) no_cur h)
        (ne_of_count new j (ids t) no_new h))

  -- The step of the descent at a node.
  pub locate_on :
      (fuel i : ℕ) (o : Ordering) (next : ℕ)
      → cmp (node_at s i).value e ≡ o
      → is_equal o ≡ false
      → child_at (side_of o) s i ≡ next
      → (next == invalid_idx) ≡ false
      → locate (suc fuel) cmp s e i ≡ locate fuel cmp s e next
  unfolding sample locate
  locate_on fuel i o next less none_equal is_next in_tree =
      rw (less, none_equal, is_next, in_tree) refl

  pub locate_end :
      (fuel i : ℕ) (o : Ordering)
      → cmp (node_at s i).value e ≡ o
      → is_equal o ≡ false
      → child_at (side_of o) s i ≡ invalid_idx
      → locate (suc fuel) cmp s e i ≡ some (absent i (side_of o))
  unfolding sample locate
  locate_end fuel i o less none_equal is_end = rw (less, none_equal, is_end) refl
