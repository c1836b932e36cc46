-- ===== src/Memory/Sort.antt =====
-- vlMemSort of vl_memory.c sorts, within its stack and its fuel.
use Prim.Native.Nat.{Ordering}
use veritable_lasagna.Base.{
  ℕ, zero, suc, ◌+◌, ◌-◌, ◌*◌, ◌^◌, ◌%◌, ◌&&◌, ◌≤◌, ◌<◌, ◌≡◌, inl, inr, refl, subst, ap, ap₂, ◌∙◌,
  true, false, none, some, List, [], ◌∷◌, length, ltb, leb, ◌==◌, if◌then◌else◌, arith, Bool-cases,
  ==_iff,
}
use veritable_lasagna.Set.Order.{IsOrder}
use veritable_lasagna.Memory.{
  Range, is_int, at_most, push_range, push_if, push_both, partition_ints, partition, push_parts,
  quicksort_loop, sort,
}
use veritable_lasagna.Memory.Shuffle.{Shuffled, Shuffled-refl, Shuffled-trans, Shuffled-widen}
use veritable_lasagna.Memory.Partition.{Le, Le_total, Le_trans, Split, partition_ints-Split}

-- The elements from `low` to before `end`, as a pair of indices.
abbrev range : ℕ → ℕ → Range
range low end = record { low = low; high = end - 1 }

-- The stack with a range that is pushed if it has two elements.
abbrev stacked : ℕ → ℕ → List Range → List Range
stacked low end ranges = if ltb low (end - 1) then range low end ∷ ranges else ranges

push_if-stacked :
    (room low end : ℕ) (ranges : List Range)
    → 2 * length ranges + (end - low) ≤ room
    → end ≤ 2 ^ 31
    → push_if room (ltb low (end - 1)) (range low end) (some ranges) ≡ some (stacked low end ranges)
unfolding push_if push_range
push_if-stacked room low end ranges h ints = elim (Bool-cases (ltb low (end - 1))) [
  | inl wanted ↦
      let fits : (leb (2 * length ranges + 2) room && (is_int low && is_int (end - 1))) ≡ true =
        ground arith in
      rw (wanted, fits) refl
  | inr small ↦ rw small refl
]

length-stacked :
    (low end : ℕ) (ranges : List Range)
    → 2 * length (stacked low end ranges) ≤ 2 * length ranges + (end - low)
length-stacked low end ranges = elim (Bool-cases (ltb low (end - 1))) [
  | inl wanted ↦ rw wanted (ground arith)
  | inr small ↦ rw small (omega arith)
]

module _ {V : Type 0} (cmp : V → V → Ordering) where
  -- The range has its old elements, in the order of the comparator, and the others stay.
  pub record Sorts (low end : ℕ) (f g : ℕ → V) : Type 0 where
    pub shuffled : Shuffled low end f g
    pub ordered : (x y : ℕ) → low ≤ x → x < y → y < end → Le cmp (g x) (g y)

  -- The rounds on a stack leave the ranges below, after one round at most for each element but one.
  record Done (room low end : ℕ) (stack ranges : List Range) (f : ℕ → V) : Type 0 where
    result : ℕ → V
    rounds : ℕ
    few : rounds ≤ end - 1 - low
    runs :
        (fuel : ℕ)
        → quicksort_loop (rounds + fuel) cmp room (some stack) f
          ≡ quicksort_loop fuel cmp room (some ranges) result
    sorts : Sorts low end f result

  -- The three parts of a range.
  module _ (is : IsOrder cmp) (low p end : ℕ) (f0 f1 f2 f3 : ℕ → V)
      (split : Split cmp low p (end - 1) f0 f1) (right : Sorts (p + 1) end f1 f2)
      (left : Sorts low p f2 f3) (some_elements : low < end) where
    pivot_stays : f3 p ≡ f1 p
    pivot_stays =
        left.shuffled.outside p (inr (omega arith)) ∙ right.shuffled.outside p (inl (omega arith))

    before_pivot : (x : ℕ) → low ≤ x → x < p → Le cmp (f3 x) (f3 p)
    before_pivot x a b =
        let (y, c, d, e) = left.shuffled.inside x a b in
        ap₂ (λ v w. at_most (cmp v w)) (e ∙ right.shuffled.outside y (inl (omega arith)))
          pivot_stays
        ∙ split.small y c d

    behind_pivot : (x : ℕ) → p < x → x < end → Le cmp (f3 p) (f3 x)
    behind_pivot x a b =
        let (y, c, d, e) = right.shuffled.inside x (omega arith) b in
        Le_total cmp is (f3 x) (f3 p) (
          ap₂ (λ v w. at_most (cmp v w)) (left.shuffled.outside x (inr (omega arith)) ∙ e)
            pivot_stays
          ∙ split.large y (omega arith) (omega arith))

    stays_behind : (x : ℕ) → p < x → f3 x ≡ f2 x
    stays_behind x a = left.shuffled.outside x (inr (omega arith))

    parts-ordered : (x y : ℕ) → low ≤ x → x < y → y < end → Le cmp (f3 x) (f3 y)
    parts-ordered x y a b c = elim (Bool-cases (ltb y p)) [
      | inl before ↦ left.ordered x y a b (ground arith)
      | inr not_before ↦ elim (Bool-cases (ltb x p)) [
        | inl first ↦ elim (Bool-cases (y == p)) [
          | inl last ↦
              ap (λ k. at_most (cmp (f3 x) (f3 k))) ((==_iff y p).0 last)
              ∙ before_pivot x a (ground arith)
          | inr behind ↦
              Le_trans cmp is (f3 x) (f3 p) (f3 y) (before_pivot x a (ground arith))
                (behind_pivot y (ground arith) c)
        ]
        | inr not_first ↦ elim (Bool-cases (x == p)) [
          | inl first ↦
              ap (λ k. at_most (cmp (f3 k) (f3 y))) ((==_iff x p).0 first)
              ∙ behind_pivot y (let e = (==_iff x p).0 first in omega arith) c
          | inr behind ↦
              ap₂ (λ v w. at_most (cmp v w)) (stays_behind x (ground arith))
                (stays_behind y (ground arith))
              ∙ right.ordered x y (ground arith) b c
        ]
      ]
    ]

    parts-Sorts : Sorts low end f0 f3
    parts-Sorts = record {
      shuffled =
          Shuffled-trans low end f0 f1 f3
            (subst (λ k. Shuffled low k f0 f1) (omega arith) split.shuffled)
            (Shuffled-trans low end f1 f2 f3
              (Shuffled-widen low (p + 1) end end f1 f2 (omega (arith, split.above)) (omega arith)
                right.shuffled)
              (Shuffled-widen low low p end f2 f3 (omega arith) (omega (arith, split.below))
                left.shuffled));
      ordered = parts-ordered;
    }

  -- A range of less than two elements is not pushed, and has its order.
  small-Sorts : (low end : ℕ) (f : ℕ → V) → end ≤ low + 1 → Sorts low end f f
  small-Sorts low end f h = record {
    shuffled = Shuffled-refl low end f;
    ordered = λ x y a b c. absurd (omega arith);
  }

  stacked-Done :
      (room low end : ℕ) (ranges : List Range) (f : ℕ → V)
      → (low + 1 < end → Done room low end (range low end ∷ ranges) ranges f)
      → Done room low end (stacked low end ranges) ranges f
  stacked-Done room low end ranges f pushed = elim (Bool-cases (ltb low (end - 1))) [
    | inl wanted ↦ rw wanted (pushed (ground arith))
    | inr small ↦ rw small (record {
      result = f;
      rounds = 0;
      few = omega arith;
      runs = λ fuel. ap (λ k. quicksort_loop k cmp room (some ranges) f) (omega arith);
      sorts = small-Sorts low end f (ground arith);
    })
  ]

  module _ (is : IsOrder cmp) (room : ℕ) where
    -- A round and those on the two ranges that it pushes.
    round-Done :
        (low end : ℕ) (ranges : List Range) (f : ℕ → V)
        → low + 1 < end
        → 2 * length ranges + (end - low) ≤ room
        → end < 2 ^ 31
        → (let (p, split) = partition_ints cmp f low (end - 1) in
            (right : Done room
              (p + 1)
              end
              (stacked (p + 1) end (stacked low p ranges))
              (stacked low p ranges)
              split)
            → Done room low p (stacked low p ranges) ranges right.result
            → Done room low end (range low end ∷ ranges) ranges f)
    unfolding quicksort_loop push_parts push_both partition
    round-Done low end ranges f h k ints right left =
        let (p, split) = partition_ints cmp f low (end - 1) in
        let parted = partition_ints-Split cmp low (end - 1) f (omega arith) in
        let above = parted.above in
        let below = parted.below in
        let one = push_if-stacked room low p ranges (omega arith) (omega arith) in
        let both =
          push_if-stacked room (p + 1) end (stacked low p ranges)
            (omega (arith, length-stacked low p ranges)) (omega arith) in
        let int : is_int (p + 1) ≡ true = ground arith in
        let pushed : push_both room (range low end) p ranges
            ≡ some (stacked (p + 1) end (stacked low p ranges)) =
          rw int (ap (push_if room (ltb (p + 1) (end - 1)) (range (p + 1) end)) one ∙ both) in
        let two_ints : (is_int low && is_int (end - 1)) ≡ true = ground arith in
        let round : push_parts room (range low end) ranges f (partition cmp f low (end - 1))
            ≡ (push_both room (range low end) p ranges, split) =
          rw two_ints refl in
        record {
          result = left.result;
          rounds = suc (right.rounds + left.rounds);
          few = omega (arith, right.few, left.few);
          runs = λ fuel.
              let sum : suc (right.rounds + left.rounds) + fuel
                  ≡ suc (right.rounds + (left.rounds + fuel)) =
                omega arith in
              ap (λ n. quicksort_loop n cmp room (some (range low end ∷ ranges)) f) sum
              ∙ ap (λ z. quicksort_loop (right.rounds + (left.rounds + fuel)) cmp room z.0 z.1)
                  round
              ∙ ap (λ s. quicksort_loop (right.rounds + (left.rounds + fuel)) cmp room s split)
                  pushed
              ∙ right.runs (left.rounds + fuel)
              ∙ left.runs fuel;
          sorts =
              parts-Sorts is low p end f split right.result left.result parted right.sorts
                left.sorts (omega arith);
        }

    range-Done :
        (size low end : ℕ) (ranges : List Range) (f : ℕ → V)
        → end - low ≤ size
        → low + 1 < end
        → 2 * length ranges + (end - low) ≤ room
        → end < 2 ^ 31
        → Done room low end (range low end ∷ ranges) ranges f
    range-Done zero low end ranges f a h k ints = absurd (omega arith)
    range-Done (suc size) low end ranges f a h k ints =
        let (p, split) = partition_ints cmp f low (end - 1) in
        let parted = partition_ints-Split cmp low (end - 1) f (omega arith) in
        let above = parted.above in
        let below = parted.below in
        let right = stacked-Done room (p + 1) end (stacked low p ranges) split (λ g.
          range-Done size (p + 1) end (stacked low p ranges) split (omega arith) g
            (omega (arith, length-stacked low p ranges)) ints) in
        let left = stacked-Done room low p ranges right.result (λ g.
          range-Done size low p ranges right.result (omega arith) g (omega arith) (omega arith)) in
        round-Done low end ranges f h k ints right left

  -- For a comparator that is an order, at least two elements and fewer than 2 ^ 31, `sort` ends
  -- within its fuel, without a push behind its stack and without an index that an int does not
  -- hold, and the elements of the buffer are the old ones in another order, in which an element is
  -- never greater than a later one.
  pub sort-Sorts :
      IsOrder cmp
      → (n : ℕ) (f : ℕ → V) → 2 ≤ n
      → n < 2 ^ 31
      → (g : ℕ → V) × (sort cmp n f ≡ some g) × Sorts 0 n f g
  unfolding sort push_range quicksort_loop
  sort-Sorts is n f h ints =
      let done = range-Done is n n 0 n [] f (omega arith) (omega arith) (omega arith) ints in
      let last : (n + 2 ^ 32 - 1) % 2 ^ 32 ≡ n - 1 = omega arith in
      let fits : (leb (2 * length {A = Range} [] + 2) n && (is_int 0 && is_int (n - 1))) ≡ true =
        ground arith in
      let few = done.few in
      let sum : n ≡ done.rounds + suc (n - 1 - done.rounds) = omega arith in
      (
        done.result,
        rw (last, fits)
            (ap (λ k. quicksort_loop k cmp n (some (range 0 n ∷ [])) f) sum
              ∙ done.runs (suc (n - 1 - done.rounds))),
        done.sorts,
      )

  -- The stack has no room for the first two ints.
  pub sort_overflow : (n : ℕ) (f : ℕ → V) → n < 2 → sort cmp n f ≡ none
  unfolding sort push_range quicksort_loop
  sort_overflow n f h =
      let small : leb (2 * length {A = Range} [] + 2) n ≡ false = ground arith in rw small refl
