-- ===== src/Set/Tree.antt =====
-- The tree that the nodes of vl_set.c make, and the writes to their fields.
use veritable_lasagna.Base.{
  ℕ, ◌≤◌, ◌<◌, ◌≡◌, refl, ◌∙◌, false, ◌==◌, if◌then◌else◌, List, [], ◌∷◌, ◌++◌, arith, count,
  count-append, Distinct, length, ◌^◌,
}
use veritable_lasagna.Pool.{invalid_idx}
use veritable_lasagna.Pool.Owns.{Owns, Ledger-range}
use veritable_lasagna.Pool.Give.{sample-write, write-Owns}
use veritable_lasagna.Set.{
  Color, Slot, Set, Side, with_child, node_at, store, set_color, set_parent, set_child,
}

-- The shape of a tree, with the index and the element of each node.
pub data Tree (V : Type 0) : Type 0 where
  leaf : Tree V
  node : Tree V → ℕ → V → Tree V → Tree V

module _ {V : Type 0} where
  abbrev pub top : Tree V → ℕ
  top leaf = invalid_idx
  top (node l i v r) = i

  abbrev pub ids : Tree V → List ℕ
  ids leaf = []
  ids (node l i v r) = ids l ++ (i ∷ ids r)

  -- The entries, in the order of the tree.
  abbrev pub inorder : Tree V → List (ℕ × V)
  inorder leaf = []
  inorder (node l i v r) = inorder l ++ ((i, v) ∷ inorder r)

  -- The slots hold the tree, whose top has the parent `p`. The colours do not count.
  abbrev pub Rep : (ℕ → Slot V) → ℕ → Tree V → Type 0
  Rep get p leaf = Unit {0}
  Rep get p (node l i v r) =
      ((get i).parent ≡ p)
      × ((get i).left ≡ top l)
      × ((get i).right ≡ top r)
      × ((get i).value ≡ v)
      × Rep get i l
      × Rep get i r

  -- The links and the element of a slot.
  pub record SameLinks (m n : Slot V) : Type 0 where
    pub parent : m.parent ≡ n.parent
    pub left : m.left ≡ n.left
    pub right : m.right ≡ n.right
    pub value : m.value ≡ n.value

  pub Rep-same :
      (f g : ℕ → Slot V) (p : ℕ) (t : Tree V)
      → ((i : ℕ) → 1 ≤ count i (ids t) → SameLinks (g i) (f i))
      → Rep f p t
      → Rep g p t
  Rep-same f g p leaf same h = h
  Rep-same f g p (node l i v r) same (hp, hl, hr, hv, repl, repr) =
      let here = same i (ground (arith, count-append i (ids l) (i ∷ ids r))) in
      (
        here.parent ∙ hp,
        here.left ∙ hl,
        here.right ∙ hr,
        here.value ∙ hv,
        Rep-same f g i l (λ j h. same j (ground (arith, count-append j (ids l) (i ∷ ids r)))) repl,
        Rep-same f g i r (λ j h. same j (ground (arith, count-append j (ids l) (i ∷ ids r)))) repr,
      )

  -- The nodes of a set are a tree, and they are all that is taken from the pool.
  pub record IsTree (s : Set V) (t : Tree V) : Type 0 where
    pub owns : Owns s.node_pool (ids t)
    pub rep : Rep (node_at s) invalid_idx t
    pub root : s.root ≡ top t
    pub counted : s.total_elements ≡ length (ids t)
    pub few : s.total_elements < 2 ^ 32

  -- A store, and the fields behind the four kinds of it.
  pub node_at-store :
      (s : Set V) (x y : ℕ) (n : Slot V)
      → node_at (store s x n) y ≡ (if x == y then n else node_at s y)
  unfolding node_at store
  node_at-store s x y n = sample-write s.node_pool x y n

  pub node_at-set_color :
      (s : Set V) (x : ℕ) (c : Color) (y : ℕ)
      → node_at (set_color s x c) y
        ≡ (if x == y then record (node_at s x) { color = c } else node_at s y)
  unfolding set_color
  node_at-set_color s x c y = node_at-store s x y _

  pub node_at-set_parent :
      (s : Set V) (x p y : ℕ)
      → node_at (set_parent s x p) y
        ≡ (if x == y then record (node_at s x) { parent = p } else node_at s y)
  unfolding set_parent
  node_at-set_parent s x p y = node_at-store s x y _

  pub node_at-set_child :
      (d : Side) (s : Set V) (x c y : ℕ)
      → node_at (set_child d s x c) y
        ≡ (if x == y then with_child d c (node_at s x) else node_at s y)
  unfolding set_child
  node_at-set_child d s x c y = node_at-store s x y _

  -- What a store leaves as it is.
  pub store-Owns :
      (s : Set V) (x : ℕ) (n : Slot V) (live : List ℕ)
      → Owns s.node_pool live
      → Owns (store s x n).node_pool live
  unfolding store
  store-Owns s x n live = write-Owns s.node_pool live x n

  pub store-root : (s : Set V) (x : ℕ) (n : Slot V) → (store s x n).root ≡ s.root
  unfolding store
  store-root s x n = refl

  pub set_color-IsTree :
      (s : Set V) (x : ℕ) (c : Color) (t : Tree V) → IsTree s t → IsTree (set_color s x c) t
  unfolding set_color store
  set_color-IsTree s x c t is = record {
    owns = write-Owns s.node_pool (ids t) x _ is.owns;
    rep =
        Rep-same (node_at s) (node_at (set_color s x c)) invalid_idx t
          (λ i h. record {
            parent = ground (arith, node_at-set_color s x c i);
            left = ground (arith, node_at-set_color s x c i);
            right = ground (arith, node_at-set_color s x c i);
            value = ground (arith, node_at-set_color s x c i);
          })
          is.rep;
    root = is.root;
    counted = is.counted;
    few = is.few;
  }

  -- The indices of the nodes are valid and distinct.
  pub IsTree-valid :
      (s : Set V) (t : Tree V) (i : ℕ) → IsTree s t → 1 ≤ count i (ids t) → i < invalid_idx
  IsTree-valid s t i is h = (Ledger-range (ids t) i is.owns (omega arith)).2

  pub IsTree-Distinct : (s : Set V) (t : Tree V) → IsTree s t → Distinct (ids t)
  IsTree-Distinct s t is i = omega (arith, is.owns.unique i)

  -- What a change of shape keeps: the set is a tree with the same nodes and elements, in the same order.
  pub record Turned (s' : Set V) (t : Tree V) : Type 0 where
    pub tree : Tree V
    pub is : IsTree s' tree
    pub same_ids : ids tree ≡ ids t
    pub same_entries : inorder tree ≡ inorder t

-- A valid index is not the one that stands for no node.
pub valid_unequal : (n : ℕ) → n < invalid_idx → (n == invalid_idx) ≡ false
valid_unequal n h = ground arith

pub not_invalid : (n : ℕ) → (n == invalid_idx) ≡ false → ¬ (n ≡ invalid_idx)
not_invalid n h e = ground arith
