-- ===== src/Set/Fields.antt =====
-- The fields of the nodes of vl_set.c after a turn.
use veritable_lasagna.Base.{
  ℕ, ◌<◌, ◌≡◌, refl, ◌∙◌, Bool, true, false, ◌==◌, if◌then◌else◌, List, arith,
}
use veritable_lasagna.Pool.{invalid_idx}
use veritable_lasagna.Pool.Owns.{Owns}
use veritable_lasagna.Pool.Give.{write-Owns}
use veritable_lasagna.Set.{
  Set, Side, to_left, to_right, other, child, node_at, store, set_parent, set_child, parent_if,
  relink, rotate_up,
}
use veritable_lasagna.Set.Tree.{node_at-set_parent, node_at-set_child}

module _ {V : Type 0} where
  abbrev pub parent_at : Set V → ℕ → ℕ
  parent_at s i = (node_at s i).parent

  abbrev pub child_at : Side → Set V → ℕ → ℕ
  child_at d s i = child d (node_at s i)

  parent_at-set_child :
      (d : Side) (s : Set V) (x c i : ℕ) → parent_at (set_child d s x c) i ≡ parent_at s i
  parent_at-set_child to_left s x c i = ground (arith, node_at-set_child to_left s x c i)
  parent_at-set_child to_right s x c i = ground (arith, node_at-set_child to_right s x c i)

  parent_at-set_parent :
      (s : Set V) (x p i : ℕ)
      → parent_at (set_parent s x p) i ≡ (if x == i then p else parent_at s i)
  parent_at-set_parent s x p i = ground (arith, node_at-set_parent s x p i)

  child_at-set_parent :
      (d : Side) (s : Set V) (x p i : ℕ) → child_at d (set_parent s x p) i ≡ child_at d s i
  child_at-set_parent to_left s x p i = ground (arith, node_at-set_parent s x p i)
  child_at-set_parent to_right s x p i = ground (arith, node_at-set_parent s x p i)

  child_at-set_child :
      (d : Side) (s : Set V) (x c i : ℕ)
      → child_at d (set_child d s x c) i ≡ (if x == i then c else child_at d s i)
  child_at-set_child to_left s x c i = ground (arith, node_at-set_child to_left s x c i)
  child_at-set_child to_right s x c i = ground (arith, node_at-set_child to_right s x c i)

  child_at-set_other :
      (d : Side) (s : Set V) (x c i : ℕ) → child_at d (set_child (other d) s x c) i ≡ child_at d s i
  child_at-set_other to_left s x c i = ground (arith, node_at-set_child to_right s x c i)
  child_at-set_other to_right s x c i = ground (arith, node_at-set_child to_left s x c i)

  other_at-set_child :
      (d : Side) (s : Set V) (x c i : ℕ)
      → child_at (other d) (set_child d s x c) i ≡ child_at (other d) s i
  other_at-set_child to_left s x c i = ground (arith, node_at-set_child to_left s x c i)
  other_at-set_child to_right s x c i = ground (arith, node_at-set_child to_right s x c i)

  parent_at-parent_if :
      (s : Set V) (x p i : ℕ)
      → i < invalid_idx
      → parent_at (parent_if s x p) i ≡ (if x == i then p else parent_at s i)
  unfolding parent_if
  parent_at-parent_if s x p i h = ground (arith, parent_at-set_parent s x p i)

  child_at-parent_if :
      (d : Side) (s : Set V) (x p i : ℕ) → child_at d (parent_if s x p) i ≡ child_at d s i
  unfolding parent_if
  child_at-parent_if d s x p i = ground (arith, child_at-set_parent d s x p i)

  parent_at-relink :
      (d : Side) (s : Set V) (p a b i : ℕ) → parent_at (relink d s p a b) i ≡ parent_at s i
  unfolding relink node_at
  parent_at-relink d s p a b i =
      ground (arith, parent_at-set_child d s p b i, parent_at-set_child (other d) s p b i)

  -- The link on each side of a node that is not `p`, and of `p`.
  child_at-relink :
      (d : Side) (s : Set V) (p a b i : ℕ)
      → i < invalid_idx
      → child_at d (relink d s p a b) i
        ≡ (if p == i then if child_at d s i == a then b else child_at d s i else child_at d s i)
  unfolding relink node_at
  child_at-relink d s p a b i h =
      ground (arith, child_at-set_child d s p b i, child_at-set_other d s p b i)

  other_at-relink :
      (d : Side) (s : Set V) (p a b i : ℕ)
      → i < invalid_idx
      → child_at (other d) (relink d s p a b) i ≡ (
          if p == i
          then if child_at d s i == a then child_at (other d) s i else b
          else child_at (other d) s i)
  unfolding relink node_at
  other_at-relink d s p a b i h =
      ground (arith, other_at-set_child d s p b i, child_at-set_child (other d) s p b i)

  -- The elements and the colours stay.
  pub record Kept (s s' : Set V) : Type 0 where
    pub value : (i : ℕ) → (node_at s' i).value ≡ (node_at s i).value
    pub color : (i : ℕ) → (node_at s' i).color ≡ (node_at s i).color
    pub owns : (live : List ℕ) → Owns s.node_pool live → Owns s'.node_pool live
    pub total : s'.total_elements ≡ s.total_elements

  Kept-refl : (s : Set V) → Kept s s
  Kept-refl s = record { value = λ i. refl; color = λ i. refl; owns = λ live o. o; total = refl }

  Kept-trans : (s s' s'' : Set V) → Kept s s' → Kept s' s'' → Kept s s''
  Kept-trans s s' s'' k k' = record {
    value = λ i. k'.value i ∙ k.value i;
    color = λ i. k'.color i ∙ k.color i;
    owns = λ live o. k'.owns live (k.owns live o);
    total = k'.total ∙ k.total;
  }

  set_parent-Kept : (s : Set V) (x p : ℕ) → Kept s (set_parent s x p)
  unfolding set_parent store
  set_parent-Kept s x p = record {
    value = λ i. ground (arith, node_at-set_parent s x p i);
    color = λ i. ground (arith, node_at-set_parent s x p i);
    owns = λ live. write-Owns s.node_pool live x _;
    total = refl;
  }

  set_child-Kept : (d : Side) (s : Set V) (x c : ℕ) → Kept s (set_child d s x c)
  unfolding set_child store
  set_child-Kept to_left s x c = record {
    value = λ i. ground (arith, node_at-set_child to_left s x c i);
    color = λ i. ground (arith, node_at-set_child to_left s x c i);
    owns = λ live. write-Owns s.node_pool live x _;
    total = refl;
  }
  set_child-Kept to_right s x c = record {
    value = λ i. ground (arith, node_at-set_child to_right s x c i);
    color = λ i. ground (arith, node_at-set_child to_right s x c i);
    owns = λ live. write-Owns s.node_pool live x _;
    total = refl;
  }

  either-Kept :
      (s : Set V) (c : Bool) (a b : Set V) → Kept s a → Kept s b → Kept s (if c then a else b)
  either-Kept s true a b k k' = k
  either-Kept s false a b k k' = k'

  parent_if-Kept : (s : Set V) (x p : ℕ) → Kept s (parent_if s x p)
  unfolding parent_if
  parent_if-Kept s x p = either-Kept s (x == invalid_idx) s _ (Kept-refl s) (set_parent-Kept s x p)

  root-Kept : (s : Set V) (r : ℕ) → Kept s (record s { root = r })
  unfolding node_at
  root-Kept s r = record { value = λ i. refl; color = λ i. refl; owns = λ live o. o; total = refl }

  relink-Kept : (d : Side) (s : Set V) (p a b : ℕ) → Kept s (relink d s p a b)
  unfolding relink
  relink-Kept d s p a b = either-Kept s (p == invalid_idx) _ _ (root-Kept s b) (
      either-Kept s (child d (node_at s p) == a) _ _ (set_child-Kept d s p b)
        (set_child-Kept (other d) s p b))

  -- The turn of `x`, where `y` goes up.
  module _ (d : Side) (s : Set V) (x y : ℕ) where
    abbrev b : ℕ
    b = child_at d s y

    abbrev p : ℕ
    p = parent_at s x

    abbrev s1 : Set V
    s1 = parent_if (set_child (other d) s x b) b x

    abbrev s2 : Set V
    s2 = relink d (set_parent s1 y p) p x y

    pub rotate_up-Kept : Kept s (rotate_up d s x y)
    unfolding rotate_up
    rotate_up-Kept =
        let k1 = Kept-trans s _ s1 (set_child-Kept (other d) s x b) (parent_if-Kept _ b x) in
        let k2 = Kept-trans s s1 _ k1 (set_parent-Kept s1 y p) in
        let k3 = Kept-trans s _ s2 k2 (relink-Kept d (set_parent s1 y p) p x y) in
        let k4 = Kept-trans s s2 _ k3 (set_child-Kept d s2 y x) in
        Kept-trans s _ (rotate_up d s x y) k4 (set_parent-Kept (set_child d s2 y x) x y)

    pub parent_at-rotate_up :
        (i : ℕ)
        → i < invalid_idx
        → parent_at (rotate_up d s x y) i
          ≡ (if x == i then y else if y == i then p else if b == i then x else parent_at s i)
    unfolding rotate_up
    parent_at-rotate_up i h =
        parent_at-set_parent (set_child d s2 y x) x y i
        ∙ rw
            (
              parent_at-set_child d s2 y x i,
              parent_at-relink d (set_parent s1 y p) p x y i,
              parent_at-set_parent s1 y p i,
              parent_at-parent_if (set_child (other d) s x b) b x i h,
              parent_at-set_child (other d) s x b i,
            )
            refl

    pub child_at-rotate_up :
        (i : ℕ)
        → i < invalid_idx
        → child_at d (rotate_up d s x y) i ≡ (
            if y == i
            then x
            else if p == i
            then if child_at d s i == x then y else child_at d s i
            else child_at d s i)
    unfolding rotate_up
    child_at-rotate_up i h =
        child_at-set_parent d (set_child d s2 y x) x y i
        ∙ child_at-set_child d s2 y x i
        ∙ rw
            (
              child_at-relink d (set_parent s1 y p) p x y i h,
              child_at-set_parent d s1 y p i,
              child_at-parent_if d (set_child (other d) s x b) b x i,
              child_at-set_other d s x b i,
            )
            refl

    pub other_at-rotate_up :
        (i : ℕ)
        → i < invalid_idx
        → child_at (other d) (rotate_up d s x y) i ≡ (
            let o = if x == i then b else child_at (other d) s i in
            if p == i then if child_at d s i == x then o else y else o)
    unfolding rotate_up
    other_at-rotate_up i h =
        child_at-set_parent (other d) (set_child d s2 y x) x y i
        ∙ other_at-set_child d s2 y x i
        ∙ other_at-relink d (set_parent s1 y p) p x y i h
        ∙ rw
            (
              child_at-set_parent d s1 y p i,
              child_at-parent_if d (set_child (other d) s x b) b x i,
              child_at-set_other d s x b i,
              child_at-set_parent (other d) s1 y p i,
              child_at-parent_if (other d) (set_child (other d) s x b) b x i,
              child_at-set_child (other d) s x b i,
            )
            refl

    pub root-rotate_up : (rotate_up d s x y).root ≡ (if p == invalid_idx then y else s.root)
    unfolding rotate_up set_parent set_child store relink parent_if
    root-rotate_up = ground arith
