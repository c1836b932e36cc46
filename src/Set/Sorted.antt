-- ===== src/Set/Sorted.antt =====
-- The sorted list of a tree, at one of its nodes.
use Prim.Native.Nat.{Ordering}
use veritable_lasagna.Base.{ℕ, ◌≡◌, ◌⊎◌, inl, inr, refl, ◌∙◌, List, [], ◌∷◌, ◌++◌}
use veritable_lasagna.Set.Order.{
  IsOrder, Each, Sorted, lookup, add, Each-append, lookup_left, lookup_right,
}

pub Ordering-cases : (o : Ordering) → (o ≡ Ordering.lt) ⊎ ((o ≡ Ordering.eq) ⊎ (o ≡ Ordering.gt))
Ordering-cases Ordering.lt = inl refl
Ordering-cases Ordering.eq = inr (inl refl)
Ordering-cases Ordering.gt = inr (inr refl)

module _ {V : Type 0} (cmp : V → V → Ordering) (ord : IsOrder cmp) where
  -- What is below or above `v`, is so for an element on the other side of it.
  pub Each_below :
      (v e : V) (es : List (ℕ × V))
      → cmp v e ≡ Ordering.lt
      → Each cmp Ordering.lt v es
      → Each cmp Ordering.lt e es
  Each_below v e [] h all = tt
  Each_below v e ((i, w) ∷ es) h (here, rest) = (ord.trans w v e here h, Each_below v e es h rest)

  pub Each_at :
      (v e : V) (es : List (ℕ × V))
      → cmp v e ≡ Ordering.eq
      → Each cmp Ordering.lt v es
      → Each cmp Ordering.lt e es
  Each_at v e [] h all = tt
  Each_at v e ((i, w) ∷ es) h (here, rest) = (ord.lt_eq w v e here h, Each_at v e es h rest)

  pub Each_above :
      (v e : V) (es : List (ℕ × V))
      → cmp v e ≡ Ordering.gt
      → Each cmp Ordering.gt v es
      → Each cmp Ordering.gt e es
  Each_above v e [] h all = tt
  Each_above v e ((i, w) ∷ es) h (here, rest) = (
    ord.flip_lt e w (ord.trans e v w (ord.flip_gt v e h) (ord.flip_gt w v here)),
    Each_above v e es h rest,
  )

  -- The parts of a sorted list.
  pub record Parted (v : V) (xs ys : List (ℕ × V)) : Type 0 where
    pub below : Each cmp Ordering.lt v xs
    pub above : Each cmp Ordering.gt v ys
    pub sorted_below : Sorted cmp xs
    pub sorted_above : Sorted cmp ys

  pub Sorted-parts :
      (xs : List (ℕ × V)) (i : ℕ) (v : V) (ys : List (ℕ × V))
      → Sorted cmp (xs ++ ((i, v) ∷ ys))
      → Parted v xs ys
  Sorted-parts [] i v ys (here, rest) = record {
    below = tt;
    above = here;
    sorted_below = tt;
    sorted_above = rest;
  }
  Sorted-parts ((j, w) ∷ xs) i v ys (here, rest) =
      let p = Sorted-parts xs i v ys rest in
      let (low, high) = Each-append cmp Ordering.gt w xs ((i, v) ∷ ys) here in
      record {
        below = (ord.flip_gt v w high.0, p.below);
        above = p.above;
        sorted_below = (low, p.sorted_below);
        sorted_above = p.sorted_above;
      }

  -- The search in a sorted list, at a node of the tree.
  pub lookup-node :
      (e : V) (xs : List (ℕ × V)) (i : ℕ) (v : V) (ys : List (ℕ × V))
      → Sorted cmp (xs ++ ((i, v) ∷ ys))
      → ((cmp v e ≡ Ordering.lt) × (lookup cmp e (xs ++ ((i, v) ∷ ys)) ≡ lookup cmp e ys))
        ⊎ (((cmp v e ≡ Ordering.eq) × (lookup cmp e (xs ++ ((i, v) ∷ ys)) ≡ i))
            ⊎ ((cmp v e ≡ Ordering.gt) × (lookup cmp e (xs ++ ((i, v) ∷ ys)) ≡ lookup cmp e xs)))
  lookup-node e xs i v ys sorted =
      let p = Sorted-parts xs i v ys sorted in
      elim (Ordering-cases (cmp v e)) [
        | inl less ↦ inl (
          less,
          lookup_left cmp Ordering.lt e xs ((i, v) ∷ ys) refl (Each_below v e xs less p.below)
              ∙ rw less refl,
        )
        | inr (inl same) ↦ inr (
            inl (
              same,
              lookup_left cmp Ordering.lt e xs ((i, v) ∷ ys) refl (Each_at v e xs same p.below)
                  ∙ rw same refl,
            ))
        | inr (inr more) ↦ inr (
            inr (
              more,
              lookup_right cmp Ordering.gt e xs ((i, v) ∷ ys) refl
                  (more, Each_above v e ys more p.above),
            ))
      ]

  -- The new entry at a node of the tree.
  pub add_above :
      (new : ℕ × V) (xs : List (ℕ × V)) (old : ℕ × V) (ys : List (ℕ × V))
      → Each cmp Ordering.lt new.1 xs
      → cmp old.1 new.1 ≡ Ordering.lt
      → add cmp new (xs ++ (old ∷ ys)) ≡ xs ++ (old ∷ add cmp new ys)
  add_above new [] old ys all h = rw h refl
  add_above new ((i, v) ∷ xs) old ys (here, rest) h = rw (here, add_above new xs old ys rest h) refl

  pub add_below :
      (new : ℕ × V) (xs : List (ℕ × V)) (old : ℕ × V) (ys : List (ℕ × V))
      → cmp old.1 new.1 ≡ Ordering.gt
      → add cmp new (xs ++ (old ∷ ys)) ≡ add cmp new xs ++ (old ∷ ys)
  add_below new [] old ys h = rw h refl
  add_below new ((i, v) ∷ xs) old ys h = elim (Ordering-cases (cmp v new.1)) [
    | inl less ↦ rw (less, add_below new xs old ys h) refl
    | inr (inl same) ↦ rw same refl
    | inr (inr more) ↦ rw more refl
  ]

  pub add_known :
      (new : ℕ × V) (xs : List (ℕ × V)) (old : ℕ × V) (ys : List (ℕ × V))
      → Each cmp Ordering.lt new.1 xs
      → cmp old.1 new.1 ≡ Ordering.eq
      → add cmp new (xs ++ (old ∷ ys)) ≡ xs ++ (old ∷ ys)
  add_known new [] old ys all h = rw h refl
  add_known new ((i, v) ∷ xs) old ys (here, rest) h = rw (here, add_known new xs old ys rest h) refl

  -- The list stays sorted.
  Each-add :
      (v : V) (new : ℕ × V) (es : List (ℕ × V))
      → cmp new.1 v ≡ Ordering.gt
      → Each cmp Ordering.gt v es
      → Each cmp Ordering.gt v (add cmp new es)
  Each-add v new [] h all = (h, tt)
  Each-add v new ((i, w) ∷ es) h (here, rest) = elim (Ordering-cases (cmp w new.1)) [
    | inl less ↦ rw less (here, Each-add v new es h rest)
    | inr (inl same) ↦ rw same (here, rest)
    | inr (inr more) ↦ rw more (h, (here, rest))
  ]

  pub Sorted-add : (new : ℕ × V) (es : List (ℕ × V)) → Sorted cmp es → Sorted cmp (add cmp new es)
  Sorted-add new [] h = (tt, tt)
  Sorted-add new ((i, w) ∷ es) (all, rest) = elim (Ordering-cases (cmp w new.1)) [
    | inl less ↦ rw less (Each-add w new es (ord.flip_lt w new.1 less) all, Sorted-add new es rest)
    | inr (inl same) ↦ rw same (all, rest)
    | inr (inr more) ↦ rw more ((more, Each_above w new.1 es more all), (all, rest))
  ]
