-- ===== src/Set/Order.antt =====
-- What the comparator of vl_set.c promises, and the sorted lists that a set stands for.
use Prim.Native.Nat.{Ordering}
use veritable_lasagna.Base.{ℕ, ◌≡◌, refl, false, if◌then◌else◌, List, [], ◌∷◌, ◌++◌}
use veritable_lasagna.Pool.{invalid_idx}
use veritable_lasagna.Set.{is_equal}

-- `cmp a b` is the sign of the comparator: a total order, whose equal elements are not told apart.
pub record IsOrder {V : Type 0} (cmp : V → V → Ordering) : Type 0 where
  pub trans : (a b c : V) → cmp a b ≡ Ordering.lt → cmp b c ≡ Ordering.lt → cmp a c ≡ Ordering.lt
  pub lt_eq : (a b c : V) → cmp a b ≡ Ordering.lt → cmp b c ≡ Ordering.eq → cmp a c ≡ Ordering.lt
  pub flip_lt : (a b : V) → cmp a b ≡ Ordering.lt → cmp b a ≡ Ordering.gt
  pub flip_gt : (a b : V) → cmp a b ≡ Ordering.gt → cmp b a ≡ Ordering.lt

module _ {V : Type 0} (cmp : V → V → Ordering) where
  -- Every entry of a list compares with `e` this way.
  abbrev pub Each : Ordering → V → List (ℕ × V) → Type 0
  Each o e [] = Unit {0}
  Each o e ((i, v) ∷ es) = (cmp v e ≡ o) × Each o e es

  abbrev pub Sorted : List (ℕ × V) → Type 0
  Sorted [] = Unit {0}
  Sorted ((i, v) ∷ es) = Each Ordering.gt v es × Sorted es

  -- The index of the first entry that is equal to `e`, and VL_SET_ITER_INVALID if there is none.
  abbrev pub lookup : V → List (ℕ × V) → ℕ
  lookup e [] = invalid_idx
  lookup e ((i, v) ∷ es) = if is_equal (cmp v e) then i else lookup e es

  -- The new entry goes before the first one that is greater, and is dropped if there is an equal one.
  abbrev pub added : Ordering → ℕ × V → ℕ × V → List (ℕ × V) → List (ℕ × V) → List (ℕ × V)
  added Ordering.gt new old es rest = new ∷ (old ∷ es)
  added Ordering.eq new old es rest = old ∷ es
  added Ordering.lt new old es rest = old ∷ rest

  abbrev pub add : ℕ × V → List (ℕ × V) → List (ℕ × V)
  add new [] = new ∷ []
  add new (old ∷ es) = added (cmp old.1 new.1) new old es (add new es)

  -- Lists that are put together.
  pub Each-append :
      (o : Ordering) (e : V) (xs ys : List (ℕ × V))
      → Each o e (xs ++ ys)
      → Each o e xs × Each o e ys
  Each-append o e [] ys h = (tt, h)
  Each-append o e ((i, v) ∷ xs) ys (here, rest) =
      let (a, b) = Each-append o e xs ys rest in ((here, a), b)

  pub append-Each :
      (o : Ordering) (e : V) (xs ys : List (ℕ × V))
      → Each o e xs
      → Each o e ys
      → Each o e (xs ++ ys)
  append-Each o e [] ys a b = b
  append-Each o e ((i, v) ∷ xs) ys (here, rest) b = (here, append-Each o e xs ys rest b)

  pub lookup_left :
      (o : Ordering) (e : V) (xs ys : List (ℕ × V))
      → is_equal o ≡ false
      → Each o e xs
      → lookup e (xs ++ ys) ≡ lookup e ys
  lookup_left o e [] ys none_equal h = refl
  lookup_left o e ((i, v) ∷ xs) ys none_equal (here, rest) =
      rw (here, none_equal) (lookup_left o e xs ys none_equal rest)

  pub lookup_right :
      (o : Ordering) (e : V) (xs ys : List (ℕ × V))
      → is_equal o ≡ false
      → Each o e ys
      → lookup e (xs ++ ys) ≡ lookup e xs
  lookup_right o e [] [] none_equal h = refl
  lookup_right o e [] ((i, v) ∷ ys) none_equal (here, rest) =
      rw (here, none_equal) (lookup_right o e [] ys none_equal rest)
  lookup_right o e ((i, v) ∷ xs) ys none_equal h = rw (lookup_right o e xs ys none_equal h) refl
