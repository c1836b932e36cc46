-- ===== src/Memory/Shuffle.antt =====
-- What swaps of vl_memory.c inside a range of a buffer do to it.
use veritable_lasagna.Base.{
  ℕ, zero, suc, ◌+◌, ◌≤◌, ◌<◌, ◌≡◌, ◌⊎◌, inl, inr, refl, ap, ◌∙◌, false, ltb, ◌==◌, arith,
  Bool-cases, ==_iff,
}
use veritable_lasagna.Memory.{set, swap}

module _ {V : Type 0} where
  -- The sum of a measure over the first elements.
  abbrev pub sum : (V → ℕ) → ℕ → (ℕ → V) → ℕ
  sum m zero f = 0
  sum m (suc n) f = m (f n) + sum m n f

  -- The elements of the range are the old ones in another order, and the others stay: every element
  -- stands for an old one of the range, and every measure of the elements has the same sum.
  pub record Shuffled (low high : ℕ) (f g : ℕ → V) : Type 0 where
    pub inside : (x : ℕ) → low ≤ x → x < high → (y : ℕ) × (low ≤ y) × (y < high) × (g x ≡ f y)
    pub outside : (x : ℕ) → (x < low) ⊎ (high ≤ x) → g x ≡ f x
    pub sums : (m : V → ℕ) (n : ℕ) → high ≤ n → sum m n g ≡ sum m n f

  pub Shuffled-refl : (low high : ℕ) (f : ℕ → V) → Shuffled low high f f
  Shuffled-refl low high f = record {
    inside = λ x a b. (x, a, b, refl);
    outside = λ x h. refl;
    sums = λ m n h. refl;
  }

  pub Shuffled-trans :
      (low high : ℕ) (f g h : ℕ → V)
      → Shuffled low high f g
      → Shuffled low high g h
      → Shuffled low high f h
  Shuffled-trans low high f g h s t = record {
    inside = λ x a b.
        (let (y, c, d, e) = t.inside x a b in
          let (z, i, j, k) = s.inside y c d in (z, i, j, e ∙ k));
    outside = λ x a. t.outside x a ∙ s.outside x a;
    sums = λ m n a. t.sums m n a ∙ s.sums m n a;
  }

  sum_above : (m : V → ℕ) (n i : ℕ) (v : V) (f : ℕ → V) → n ≤ i → sum m n (set f i v) ≡ sum m n f
  unfolding set
  sum_above m zero i v f h = refl
  sum_above m (suc n) i v f h =
      let other : (n == i) ≡ false = ground arith in
      rw other (ap (λ k. m (f n) + k) (sum_above m n i v f (omega arith)))

  sum-set :
      (m : V → ℕ) (n i : ℕ) (v : V) (f : ℕ → V)
      → i < n
      → sum m n (set f i v) + m (f i) ≡ sum m n f + m v
  unfolding set
  sum-set m zero i v f h = omega arith
  sum-set m (suc n) i v f h = elim (Bool-cases (n == i)) [
    | inl same ↦
        let e = (==_iff n i).0 same in
        rw same (omega (arith, sum_above m n i v f (omega arith), ap (λ k. m (f k)) e))
    | inr other ↦ rw other (omega (arith, sum-set m n i v f (ground arith)))
  ]

  set-same : (f : ℕ → V) (i : ℕ) (v : V) → set f i v i ≡ v
  unfolding set
  set-same f i v = rw ((==_iff i i).1 refl) refl

  set-other : (f : ℕ → V) (i : ℕ) (v : V) (x : ℕ) → (x == i) ≡ false → set f i v x ≡ f x
  unfolding set
  set-other f i v x h = rw h refl

  -- Each element after a swap.
  pub swap_left : (f : ℕ → V) (a b : ℕ) → swap f a b a ≡ f b
  unfolding swap
  swap_left f a b = elim (Bool-cases (a == b)) [
    | inl same ↦
        ap (set (set f a (f b)) b (f a)) ((==_iff a b).0 same)
        ∙ set-same (set f a (f b)) b (f a)
        ∙ ap f ((==_iff a b).0 same)
    | inr other ↦ set-other (set f a (f b)) b (f a) a other ∙ set-same f a (f b)
  ]

  pub swap_right : (f : ℕ → V) (a b : ℕ) → swap f a b b ≡ f a
  unfolding swap
  swap_right f a b = set-same (set f a (f b)) b (f a)

  pub swap_other :
      (f : ℕ → V) (a b x : ℕ) → (x == a) ≡ false → (x == b) ≡ false → swap f a b x ≡ f x
  unfolding swap
  swap_other f a b x h k = set-other (set f a (f b)) b (f a) x k ∙ set-other f a (f b) x h

  sum-swap : (m : V → ℕ) (n a b : ℕ) (f : ℕ → V) → a < n → b < n → sum m n (swap f a b) ≡ sum m n f
  unfolding swap
  sum-swap m n a b f h k =
      let first = sum-set m n a (f b) f h in
      let second = sum-set m n b (f a) (set f a (f b)) k in
      elim (Bool-cases (b == a)) [
        | inl same ↦
            let e = ap m (ap (set f a (f b)) ((==_iff b a).0 same) ∙ set-same f a (f b)) in
            let e' = ap (λ i. m (f i)) ((==_iff b a).0 same) in omega (arith, first, second, e, e')
        | inr other ↦ omega (arith, first, second, ap m (set-other f a (f b) b other))
      ]

  pub swap-Shuffled :
      (low high a b : ℕ) (f : ℕ → V)
      → low ≤ a
      → a < high
      → low ≤ b
      → b < high
      → Shuffled low high f (swap f a b)
  swap-Shuffled low high a b f h i j k = record {
    inside = λ x c d. elim (Bool-cases (x == a)) [
      | inl at_a ↦ (b, j, k, ap (swap f a b) ((==_iff x a).0 at_a) ∙ swap_left f a b)
      | inr not_a ↦ elim (Bool-cases (x == b)) [
        | inl at_b ↦ (a, h, i, ap (swap f a b) ((==_iff x b).0 at_b) ∙ swap_right f a b)
        | inr not_b ↦ (x, c, d, swap_other f a b x not_a not_b)
      ]
    ];
    outside = λ x o. swap_other f a b x (ground arith) (ground arith);
    sums = λ m n o. sum-swap m n a b f (omega arith) (omega arith);
  }

  -- A shuffle of a part is one of the whole.
  pub Shuffled-widen :
      (low low' high' high : ℕ) (f g : ℕ → V)
      → low ≤ low'
      → high' ≤ high
      → Shuffled low' high' f g
      → Shuffled low high f g
  Shuffled-widen low low' high' high f g a b s = record {
    inside = λ x c d. elim (Bool-cases (ltb x low')) [
      | inl before ↦ (x, c, d, s.outside x (inl (ground arith)))
      | inr since ↦ elim (Bool-cases (ltb x high')) [
        | inl within ↦
            let (y, i, j, e) = s.inside x (ground arith) (ground arith) in
            (y, omega arith, omega arith, e)
        | inr behind ↦ (x, c, d, s.outside x (inr (ground arith)))
      ]
    ];
    outside = λ x o. s.outside x (elim o [ inl h ↦ inl (omega arith) | inr h ↦ inr (omega arith) ]);
    sums = λ m n h. s.sums m n (omega arith);
  }
