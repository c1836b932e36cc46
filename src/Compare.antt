-- ===== src/Compare.antt =====
-- src/core/vl_compare.c: the comparators of VL_COMPARE_FUNC.
use Prim.Native.Nat.{Ordering}
use veritable_lasagna.MsgPack.Bytes.{ℤ, pos, negsuc, signed}
use veritable_lasagna.Base.{
  ℕ, ltb, arith, ◌≡◌, refl, sym, ap₂, ◌∙◌, inl, inr, Bool, true, false, Bool-cases,
}
use veritable_lasagna.Set.Order.{IsOrder}

-- The sign of the difference of two truth values
abbrev pub difference : Bool → Bool → Ordering
difference true false = Ordering.gt
difference false true = Ordering.lt
difference true true = Ordering.eq
difference false false = Ordering.eq

-- A comparator and its reverse, for a type with a test `<`.
module _ {V : Type 0} (less : V → V → Bool) where
  unfoldable pub compare : V → V → Ordering
  compare a b = difference (less b a) (less a b)

  unfoldable pub compare_reverse : V → V → Ordering
  compare_reverse a b = difference (less a b) (less b a)

  -- What the tests of C on integers promise.
  pub record IsLess : Type 0 where
    pub trans : (a b c : V) → less a b ≡ true → less b c ≡ true → less a c ≡ true
    pub asym : (a b : V) → less a b ≡ true → less b a ≡ false
    pub weak : (a b c : V) → less a b ≡ false → less b c ≡ false → less a c ≡ false

lt_tests : (x y : Bool) → difference x y ≡ Ordering.lt → (x ≡ false) × (y ≡ true)
lt_tests true false e = absurd (cc e)
lt_tests false true e = (refl, refl)
lt_tests true true e = absurd (cc e)
lt_tests false false e = absurd (cc e)

gt_tests : (x y : Bool) → difference x y ≡ Ordering.gt → (x ≡ true) × (y ≡ false)
gt_tests true false e = (refl, refl)
gt_tests false true e = absurd (cc e)
gt_tests true true e = absurd (cc e)
gt_tests false false e = absurd (cc e)

module _ {V : Type 0} (less : V → V → Bool) (is : IsLess less) where
  -- Of equal elements neither is less.
  eq_tests :
      (a b : V)
      → difference (less b a) (less a b) ≡ Ordering.eq
      → (less a b ≡ false) × (less b a ≡ false)
  eq_tests a b e = elim (Bool-cases (less a b)) [
    | inl h ↦ absurd (let k = is.asym a b h in cc (sym (ap₂ difference k h) ∙ e))
    | inr h ↦ elim (Bool-cases (less b a)) [
      | inl k ↦ absurd (cc (sym (ap₂ difference k h) ∙ e))
      | inr k ↦ (h, k)
    ]
  ]

  forward-IsOrder : IsOrder (compare less)
  unfolding compare
  forward-IsOrder = record {
    trans = λ a b c h k.
        let less_ac =
          is.trans a b c (lt_tests (less b a) (less a b) h).1
            (lt_tests (less c b) (less b c) k).1 in
        ap₂ difference (is.asym a c less_ac) less_ac;
    lt_eq = λ a b c h k. elim (Bool-cases (less a c)) [
      | inl less_ac ↦ ap₂ difference (is.asym a c less_ac) less_ac
      | inr e ↦
          absurd (cc ((lt_tests (less b a) (less a b) h).1, is.weak a c b e (eq_tests b c k).1))
    ];
    flip_lt = λ a b h. let (x, y) = lt_tests (less b a) (less a b) h in ap₂ difference y x;
    flip_gt = λ a b h. let (x, y) = gt_tests (less b a) (less a b) h in ap₂ difference y x;
  }

-- The other way round.
flipped-IsLess : {V : Type 0} (less : V → V → Bool) → IsLess less → IsLess (λ a b. less b a)
flipped-IsLess less is = record {
  trans = λ a b c h k. is.trans c b a k h;
  asym = λ a b h. is.asym b a h;
  weak = λ a b c h k. is.weak c b a k h;
}

module _ {V : Type 0} (less : V → V → Bool) (is : IsLess less) where
  -- For a test that is transitive, asymmetric and whose negation is transitive, the comparator and
  -- its reverse are orders, as the sets and the sort take them.
  pub compare-IsOrder : IsOrder (compare less) × IsOrder (compare_reverse less)
  unfolding compare compare_reverse
  compare-IsOrder =
      (forward-IsOrder less is, forward-IsOrder (λ a b. less b a) (flipped-IsLess less is))

-- The test `<` on words, and on words as signed integers.
unfoldable pub less_int : ℤ → ℤ → Bool
less_int (pos m) (pos n) = ltb m n
less_int (pos m) (negsuc n) = false
less_int (negsuc m) (pos n) = true
less_int (negsuc m) (negsuc n) = ltb n m

abbrev pub less_signed : ℕ → ℕ → ℕ → Bool
less_signed w a b = less_int (signed w a) (signed w b)

pub ltb-IsLess : IsLess ltb
ltb-IsLess = record {
  trans = λ a b c h k. ground arith;
  asym = λ a b h. ground arith;
  weak = λ a b c h k. ground arith;
}

less_int_trans : (a b c : ℤ) → less_int a b ≡ true → less_int b c ≡ true → less_int a c ≡ true
unfolding less_int
less_int_trans (pos a) (pos b) (pos c) h k = ground arith
less_int_trans (pos a) (pos b) (negsuc c) h k = absurd (cc k)
less_int_trans (pos a) (negsuc b) c h k = absurd (cc h)
less_int_trans (negsuc a) (pos b) (pos c) h k = refl
less_int_trans (negsuc a) (pos b) (negsuc c) h k = absurd (cc k)
less_int_trans (negsuc a) (negsuc b) (pos c) h k = refl
less_int_trans (negsuc a) (negsuc b) (negsuc c) h k = ground arith

less_int_asym : (a b : ℤ) → less_int a b ≡ true → less_int b a ≡ false
unfolding less_int
less_int_asym (pos a) (pos b) h = ground arith
less_int_asym (pos a) (negsuc b) h = absurd (cc h)
less_int_asym (negsuc a) (pos b) h = refl
less_int_asym (negsuc a) (negsuc b) h = ground arith

less_int_weak : (a b c : ℤ) → less_int a b ≡ false → less_int b c ≡ false → less_int a c ≡ false
unfolding less_int
less_int_weak (pos a) (pos b) (pos c) h k = ground arith
less_int_weak (pos a) (pos b) (negsuc c) h k = refl
less_int_weak (pos a) (negsuc b) (pos c) h k = absurd (cc k)
less_int_weak (pos a) (negsuc b) (negsuc c) h k = refl
less_int_weak (negsuc a) (pos b) c h k = absurd (cc h)
less_int_weak (negsuc a) (negsuc b) (pos c) h k = absurd (cc k)
less_int_weak (negsuc a) (negsuc b) (negsuc c) h k = ground arith

pub less_signed-IsLess : (w : ℕ) → IsLess (less_signed w)
less_signed-IsLess w = record {
  trans = λ a b c h k. less_int_trans (signed w a) (signed w b) (signed w c) h k;
  asym = λ a b h. less_int_asym (signed w a) (signed w b) h;
  weak = λ a b c h k. less_int_weak (signed w a) (signed w b) (signed w c) h k;
}
