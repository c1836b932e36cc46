-- ===== src/Memory/Partition.antt =====
-- What vl_MemSortPartition of vl_memory.c makes of a range.
use Prim.Native.Nat.{Ordering}
use veritable_lasagna.Base.{
  ℕ, zero, suc, ◌+◌, ◌-◌, ◌≤◌, ◌<◌, ◌≡◌, inl, inr, refl, subst, ap, ap₂, ◌∙◌, true, false, ◌==◌,
  arith, Bool-cases, ==_iff,
}
use veritable_lasagna.Set.Order.{IsOrder}
use veritable_lasagna.Memory.{at_most, swap, partition_loop, partition_ints}
use veritable_lasagna.Memory.Shuffle.{
  Shuffled, Shuffled-refl, Shuffled-trans, Shuffled-widen, swap-Shuffled, swap_left, swap_right,
  swap_other,
}

module _ {V : Type 0} (cmp : V → V → Ordering) where
  -- Whether the comparator has the first element before the second one, or as equal to it.
  abbrev pub Le : V → V → Type 0
  Le a b = at_most (cmp a b) ≡ true

  not_gt : (o : Ordering) → (at_most o ≡ false) → o ≡ Ordering.gt
  not_gt Ordering.lt e = absurd (cc e)
  not_gt Ordering.eq e = absurd (cc e)
  not_gt Ordering.gt e = refl

  module _ (is : IsOrder cmp) where
    pub Le_total : (a b : V) → at_most (cmp a b) ≡ false → Le b a
    Le_total a b e = ap at_most (is.flip_gt a b (not_gt (cmp a b) e))

    -- What is before a bound is not behind it.
    behind_lt :
        (a b c : V) (o : Ordering)
        → cmp a b ≡ o
        → at_most o ≡ true
        → cmp c a ≡ Ordering.lt
        → cmp c b ≡ Ordering.lt
    behind_lt a b c Ordering.lt e h k = is.trans c a b k e
    behind_lt a b c Ordering.eq e h k = is.lt_eq c a b k e
    behind_lt a b c Ordering.gt e h k = absurd (cc h)

    pub Le_trans : (a b c : V) → Le a b → Le b c → Le a c
    Le_trans a b c h k = elim (Bool-cases (at_most (cmp a c))) [
      | inl e ↦ e
      | inr e ↦
          let before = behind_lt a b c (cmp a b) refl h (is.flip_gt a c (not_gt (cmp a c) e)) in
          absurd (cc (k, ap at_most (is.flip_lt c b before)))
    ]

  -- The range is parted at `p`: up to there the elements are at most the pivot, and behind it not.
  pub record Parted (pivot : V) (low p high : ℕ) (g : ℕ → V) : Type 0 where
    pub small : (x : ℕ) → low ≤ x → x < p → Le (g x) pivot
    pub large : (x : ℕ) → p ≤ x → x < high → at_most (cmp (g x) pivot) ≡ false

  -- A round of the loop.
  module _ (pivot : V) (low next j : ℕ) (f : ℕ → V) (first : low ≤ next) (second : next ≤ j)
      (so_far : Parted pivot low next j f) where
    round_small :
        at_most (cmp (f j) pivot) ≡ true → Parted pivot low (next + 1) (j + 1) (swap f next j)
    round_small e = record {
      small = λ x a b. elim (Bool-cases (x == next)) [
        | inl here ↦
            ap (λ v. at_most (cmp v pivot))
              (ap (swap f next j) ((==_iff x next).0 here) ∙ swap_left f next j)
            ∙ e
        | inr other ↦
            ap (λ v. at_most (cmp v pivot)) (swap_other f next j x other (ground arith))
            ∙ so_far.small x a (ground arith)
      ];
      large = λ x a b. elim (Bool-cases (x == j)) [
        | inl here ↦
            ap (λ v. at_most (cmp v pivot))
              (ap (swap f next j) ((==_iff x j).0 here) ∙ swap_right f next j)
            ∙ so_far.large next (omega arith) (let e = (==_iff x j).0 here in omega arith)
        | inr other ↦
            ap (λ v. at_most (cmp v pivot)) (swap_other f next j x (ground arith) other)
            ∙ so_far.large x (omega arith) (ground arith)
      ];
    }

    round_large : at_most (cmp (f j) pivot) ≡ false → Parted pivot low next (j + 1) f
    round_large e = record {
      small = so_far.small;
      large = λ x a b. elim (Bool-cases (x == j)) [
        | inl here ↦ ap (λ k. at_most (cmp (f k) pivot)) ((==_iff x j).0 here) ∙ e
        | inr other ↦ so_far.large x a (ground arith)
      ];
    }

  pub partition_loop-Parted :
      (steps : ℕ) (pivot : V) (low next j high : ℕ) (f : ℕ → V)
      → low ≤ next
      → next ≤ j
      → j + steps ≡ high
      → Parted pivot low next j f
      → let (p, g) = partition_loop steps cmp pivot f next j in
        (next ≤ p) × (p ≤ high) × Shuffled low high f g × Parted pivot low p high g
  unfolding partition_loop
  partition_loop-Parted zero pivot low next j high f a b e so_far = (
    omega arith,
    omega arith,
    Shuffled-refl low high f,
    subst (λ k. Parted pivot low next k f) (omega arith) so_far,
  )
  partition_loop-Parted (suc steps) pivot low next j high f a b e so_far =
      elim (Bool-cases (at_most (cmp (f j) pivot))) [
        | inl small ↦
            let (c, d, s, parted) =
              partition_loop-Parted steps pivot low (next + 1) (j + 1) high (swap f next j)
                (omega arith) (omega arith) (omega arith)
                (round_small pivot low next j f a b so_far small) in
            rw (small, partition_loop)
              (
                omega arith,
                d,
                Shuffled-trans low high f (swap f next j)
                    (partition_loop steps cmp pivot (swap f next j) (next + 1) (j + 1)).1
                    (swap-Shuffled low high next j f a (omega arith) (omega arith) (omega arith)) s,
                parted,
              )
        | inr large ↦
            rw (large, partition_loop)
              (partition_loop-Parted steps pivot low next (j + 1) high f a (omega arith)
                (omega arith) (round_large pivot low next j f a b so_far large))
      ]

  -- The pivot stands at `p`, with the elements that are at most it before, and the others behind.
  pub record Split (low p high : ℕ) (f g : ℕ → V) : Type 0 where
    pub above : low ≤ p
    pub below : p ≤ high
    pub shuffled : Shuffled low (high + 1) f g
    pub small : (x : ℕ) → low ≤ x → x < p → Le (g x) (g p)
    pub large : (x : ℕ) → p < x → x ≤ high → at_most (cmp (g x) (g p)) ≡ false

  -- The last swap.
  Parted-Split :
      (low p high : ℕ) (f g : ℕ → V)
      → low ≤ p
      → p ≤ high
      → Shuffled low high f g
      → Parted (f high) low p high g
      → Split low p high f (swap g p high)
  Parted-Split low p high f g a b s parted =
      let pivot : swap g p high p ≡ f high =
        swap_left g p high ∙ s.outside high (inr (omega arith)) in
      record {
        above = a;
        below = b;
        shuffled =
            Shuffled-trans low (high + 1) f g (swap g p high)
              (Shuffled-widen low low high (high + 1) f g (omega arith) (omega arith) s)
              (swap-Shuffled low (high + 1) p high g a (omega arith) (omega arith) (omega arith));
        small = λ x c d.
            ap₂ (λ v w. at_most (cmp v w)) (swap_other g p high x (ground arith) (ground arith))
              pivot
            ∙ parted.small x c d;
        large = λ x c d. elim (Bool-cases (x == high)) [
          | inl here ↦
              ap₂ (λ v w. at_most (cmp v w))
                (ap (swap g p high) ((==_iff x high).0 here) ∙ swap_right g p high) pivot
              ∙ parted.large p (omega arith) (let e = (==_iff x high).0 here in omega arith)
          | inr other ↦
              ap₂ (λ v w. at_most (cmp v w)) (swap_other g p high x (ground arith) other) pivot
              ∙ parted.large x (omega arith) (ground arith)
        ];
      }

  pub partition_ints-Split :
      (low high : ℕ) (f : ℕ → V)
      → low ≤ high
      → let (p, g) = partition_ints cmp f low high in Split low p high f g
  unfolding partition_ints
  partition_ints-Split low high f h =
      let (p, g) = partition_loop (high - low) cmp (f high) f low low in
      let (a, b, s, parted) =
        partition_loop-Parted (high - low) (f high) low low low high f (omega arith) (omega arith)
          (omega arith)
          (record {
            small = λ x c d. absurd (omega arith);
            large = λ x c d. absurd (omega arith);
          }) in
      Parted-Split low p high f g a b s parted
