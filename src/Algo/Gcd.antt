-- ===== src/Algo/Gcd.antt =====
-- `gcd` of vl_algo.c computes the greatest common divisor of every two 64-bit words.
use veritable_lasagna.Base.{
  ℕ, zero, suc, ◌+◌, ◌-◌, ◌*◌, ◌/◌, ◌%◌, ◌^◌, ◌≤◌, ◌<◌, ◌≡◌, ◌⊎◌, inl, inr, refl, subst, sym, arith,
  ◌∙◌, true, false, ◌==◌, ◌&&◌, ltb, Bool-cases, ltb→lt, ltb→ge,
}
use native.Mathlib.Nat.{mul_assoc}
use native.Mathlib.Omega.{pow_step}
use veritable_lasagna.Algo.{strip_twos, gcd_loop, gcd_shift, gcd}
use veritable_lasagna.Algo.Divides.{
  Divides, IsGcd, divides-add, divides-sub, divides-double, divides_half, divides_odd,
  greatest-double,
}

-- The loop on a number that is not 0 ends at an odd number, which is not larger.
strip_twos_odd :
    (fuel n : ℕ)
    → 0 < n
    → n ≤ fuel
    → (strip_twos fuel n % 2 ≡ 1) × (strip_twos fuel n ≤ n) × (0 < strip_twos fuel n)
unfolding strip_twos
strip_twos_odd zero n pos h = absurd (omega arith)
strip_twos_odd (suc fuel) n pos h = ground (arith, strip_twos_odd fuel (n / 2))

trichotomy : (a b : ℕ) → (a < b) ⊎ ((a ≡ b) ⊎ (b < a))
trichotomy a b = elim (Bool-cases (ltb a b)) [
  | inl lt ↦ inl (ltb→lt a b lt)
  | inr ge ↦ elim (Bool-cases (ltb b a)) [
    | inl gt ↦ inr (inr (ltb→lt b a gt))
    | inr le ↦ let p = ltb→ge a b ge in let q = ltb→ge b a le in inr (inl (omega arith))
  ]
]

strip_twos_of_odd : (a : ℕ) → (a % 2 == 0) ≡ false → strip_twos a a ≡ a
unfolding strip_twos
strip_twos_of_odd zero e = refl
strip_twos_of_odd (suc a) e = ground arith

pub mod-small : (m : ℕ) → m < 2 ^ 64 → m % 2 ^ 64 ≡ m
mod-small m h = omega arith

mul_mono : (m n k : ℕ) → m ≤ n → m * k ≤ n * k
mul_mono m n zero h = omega arith
mul_mono m n (suc k) h = omega (arith, mul_mono m n k h)

eq_of : (m n : ℕ) → (m == n) ≡ true → m ≡ n
eq_of m n e = ground arith

mul-one : (m : ℕ) → m * 1 ≡ m
mul-one m = omega arith

suc_plus : (k : ℕ) → suc k ≡ k + 1
suc_plus k = omega arith

power_step : (k : ℕ) → 2 ^ (k + 1) ≡ 2 * 2 ^ k
power_step k = subst (λ z. 2 ^ z ≡ 2 * 2 ^ k) (suc_plus k) (pow_step 2 k)

IsGcd-self : (a : ℕ) → IsGcd a a a
IsGcd-self a = record { left = (1, omega arith); right = (1, omega arith); greatest = λ d p q. p }

IsGcd-zero : (a : ℕ) → IsGcd a a 0
IsGcd-zero a = record { left = (1, omega arith); right = (0, omega arith); greatest = λ d p q. p }

IsGcd-comm : (g a b : ℕ) → IsGcd g a b → IsGcd g b a
IsGcd-comm g a b i = record { left = i.right; right = i.left; greatest = λ d p q. i.greatest d q p }

-- Halving the one of two numbers that is even, where the other is odd.
IsGcd-half : (g a b : ℕ) → a % 2 ≡ 1 → b % 2 ≡ 0 → IsGcd g a (b / 2) → IsGcd g a b
IsGcd-half g a b odd even i = record {
  left = i.left;
  right = let (k, e) = divides-double g (b / 2) i.right in (k, omega arith);
  greatest = λ d p q. i.greatest d p (divides_half d b (divides_odd d a odd p) even q);
}

-- Subtracting the smaller from the larger.
IsGcd-sub : (g a b : ℕ) → a ≤ b → IsGcd g a (b - a) → IsGcd g a b
IsGcd-sub g a b h i = record {
  left = i.left;
  right = let (k, e) = divides-add g (b - a) a i.right i.left in (k, omega arith);
  greatest = λ d p q. i.greatest d p (divides-sub d b a q p);
}

-- Halving two even numbers.
IsGcd-double : (g a b : ℕ) → a % 2 ≡ 0 → b % 2 ≡ 0 → IsGcd g (a / 2) (b / 2) → IsGcd (g * 2) a b
IsGcd-double g a b ea eb i = record {
  left = let (k, e) = i.left in (k, omega (arith, mul_assoc k g 2));
  right = let (k, e) = i.right in (k, omega (arith, mul_assoc k g 2));
  greatest = greatest-double g a b ea eb i.greatest;
}

strip_twos-IsGcd : (fuel g a b : ℕ) → a % 2 ≡ 1 → IsGcd g a (strip_twos fuel b) → IsGcd g a b
unfolding strip_twos
strip_twos-IsGcd zero g a b odd i = i
strip_twos-IsGcd (suc fuel) g a b odd i = elim (Bool-cases (b % 2 == 0)) [
  | inl e ↦
      IsGcd-half g a b odd (ground arith)
        (strip_twos-IsGcd fuel g a (b / 2) odd (rw (e, strip_twos) at i))
  | inr e ↦ rw (e, strip_twos) at i
]

-- One round of the loop, in the three cases of its comparison.
gcd_loop_less :
    (fuel a b : ℕ)
    → strip_twos b b < a
    → gcd_loop (suc fuel) a b ≡ gcd_loop fuel (strip_twos b b) (a - strip_twos b b)
unfolding gcd_loop
gcd_loop_less fuel a b h = ground (arith, strip_twos)

gcd_loop_equal : (fuel a b : ℕ) → strip_twos b b ≡ a → gcd_loop (suc fuel) a b ≡ a
unfolding gcd_loop
gcd_loop_equal fuel a b h = ground (arith, strip_twos)

gcd_loop_more :
    (fuel a b : ℕ)
    → a < strip_twos b b
    → gcd_loop (suc fuel) a b ≡ gcd_loop fuel a (strip_twos b b - a)
unfolding gcd_loop
gcd_loop_more fuel a b h = ground (arith, strip_twos)

-- The loop returns the greatest common divisor, if `a` is odd, `b` is not 0, and the fuel is more
-- than their sum.
gcd_loop-IsGcd : (fuel a b : ℕ) → a % 2 ≡ 1 → 0 < b → a + b < fuel → IsGcd (gcd_loop fuel a b) a b
gcd_loop-IsGcd zero a b odd pos h = absurd (omega arith)
gcd_loop-IsGcd (suc fuel) a b odd pos h =
    let (odd1, le1, pos1) = strip_twos_odd b b pos (omega arith) in
    let b1 = strip_twos b b in
    strip_twos-IsGcd b (gcd_loop (suc fuel) a b) a b odd (elim (trichotomy a b1) [
      | inl lt ↦ rw (gcd_loop_more fuel a b lt) (
          IsGcd-sub (gcd_loop fuel a (b1 - a)) a b1 (omega arith)
            (gcd_loop-IsGcd fuel a (b1 - a) odd (omega arith) (omega arith)))
      | inr (inl e) ↦
          rw (gcd_loop_equal fuel a b (sym e)) (subst (λ z. IsGcd a a z) e (IsGcd-self a))
      | inr (inr gt) ↦ rw (gcd_loop_less fuel a b gt) (
          IsGcd-comm (gcd_loop fuel b1 (a - b1)) b1 a (
            IsGcd-sub (gcd_loop fuel b1 (a - b1)) b1 a (omega arith)
              (gcd_loop-IsGcd fuel b1 (a - b1) odd1 (omega arith) (omega arith))))
    ])

-- Taking the factors of two out of the first of two numbers that are not both even.
IsGcd-odd :
    (a b : ℕ)
    → 0 < a
    → 0 < b
    → ((a % 2 == 0) && (b % 2 == 0)) ≡ false
    → IsGcd (gcd_loop (strip_twos a a + b + 1) (strip_twos a a) b) a b
IsGcd-odd a b pos_a pos_b h =
    let (odd, le, pos) = strip_twos_odd a a pos_a (omega arith) in
    let g = gcd_loop (strip_twos a a + b + 1) (strip_twos a a) b in
    let core = gcd_loop-IsGcd (strip_twos a a + b + 1) (strip_twos a a) b odd pos_b (omega arith) in
    elim (Bool-cases (a % 2 == 0)) [
      | inl e ↦
          IsGcd-comm g b a
            (strip_twos-IsGcd a g b a (ground arith) (IsGcd-comm g (strip_twos a a) b core))
      | inr e ↦ subst (λ z. IsGcd g z b) (strip_twos_of_odd a e) core
    ]

-- A divisor of a number that is not 0 is at most that number.
divides_le : (d n : ℕ) → 0 < n → Divides d n → d ≤ n
divides_le d n pos (zero, e) = absurd (omega arith)
divides_le d n pos (suc k, e) = omega arith

-- The first loop keeps the number of common factors of two in `shift`; the shift back loses nothing,
-- as the result is at most `a`.
gcd_shift_last :
    (fuel a b shift : ℕ)
    → 0 < a
    → 0 < b
    → a * 2 ^ shift < 2 ^ 64
    → ((a % 2 == 0) && (b % 2 == 0)) ≡ false
    → (g : ℕ) × (IsGcd g a b) × (gcd_shift (suc fuel) a b shift ≡ g * 2 ^ shift)
unfolding gcd_shift
gcd_shift_last fuel a b shift pos_a pos_b w e =
    let g = gcd_loop (strip_twos a a + b + 1) (strip_twos a a) b in
    let is = IsGcd-odd a b pos_a pos_b e in
    let le = divides_le g a pos_a is.left in
    let small : g * 2 ^ shift < 2 ^ 64 = omega (arith, mul_mono g a (2 ^ shift) le) in
    (g, is, rw (e, gcd_shift) (mod-small (g * 2 ^ shift) small))

gcd_shift_both : (a b : ℕ) → ((a % 2 == 0) && (b % 2 == 0)) ≡ true → (a % 2 ≡ 0) × (b % 2 ≡ 0)
gcd_shift_both a b e = (ground arith, ground arith)

gcd_shift_double :
    (fuel a b shift : ℕ)
    → ((a % 2 == 0) && (b % 2 == 0)) ≡ true
    → gcd_shift (suc fuel) a b shift ≡ gcd_shift fuel (a / 2) (b / 2) (shift + 1)
unfolding gcd_shift
gcd_shift_double fuel a b shift e = rw (e, gcd_shift) refl

shift_small : (a shift : ℕ) → a % 2 ≡ 0 → a * 2 ^ shift < 2 ^ 64 → a / 2 * 2 ^ (shift + 1) < 2 ^ 64
shift_small a shift even w =
    let half : a ≡ a / 2 * 2 = omega arith in
    rw (power_step shift, sym (mul_assoc (a / 2) 2 (2 ^ shift)), sym half) w

shifted : (g shift : ℕ) → g * 2 ^ (shift + 1) ≡ g * 2 * 2 ^ shift
shifted g shift = rw (power_step shift) (sym (mul_assoc g 2 (2 ^ shift)))

gcd_shift_lem :
    (fuel a b shift : ℕ)
    → 0 < a
    → 0 < b
    → a < fuel
    → a * 2 ^ shift < 2 ^ 64
    → (g : ℕ) × (IsGcd g a b) × (gcd_shift fuel a b shift ≡ g * 2 ^ shift)
gcd_shift_lem zero a b shift pos_a pos_b h w = absurd (omega arith)
gcd_shift_lem (suc fuel) a b shift pos_a pos_b h w =
    elim (Bool-cases ((a % 2 == 0) && (b % 2 == 0))) [
      | inr e ↦ gcd_shift_last fuel a b shift pos_a pos_b w e
      | inl e ↦
          let (ea, eb) = gcd_shift_both a b e in
          let (g, is, r) =
            gcd_shift_lem fuel (a / 2) (b / 2) (shift + 1) (omega arith) (omega arith) (omega arith)
              (shift_small a shift ea w) in
          (
            g * 2,
            IsGcd-double g a b ea eb is,
            gcd_shift_double fuel a b shift e ∙ r ∙ shifted g shift,
          )
    ]

-- For two 64-bit words `gcd` returns a common divisor that every common divisor divides.
pub gcd-IsGcd : (a b : ℕ) → a < 2 ^ 64 → b < 2 ^ 64 → IsGcd (gcd a b) a b
unfolding gcd
gcd-IsGcd a b ha hb = elim (Bool-cases (a == 0)) [
  | inl e ↦ rw e (subst (λ z. IsGcd b z b) (sym (eq_of a 0 e)) (IsGcd-comm b b 0 (IsGcd-zero b)))
  | inr e ↦ elim (Bool-cases (b == 0)) [
    | inl f ↦ rw (e, f) (subst (λ z. IsGcd a a z) (sym (eq_of b 0 f)) (IsGcd-zero a))
    | inr f ↦
        let (g, is, r) =
          gcd_shift_lem (a + 1) a b 0 (ground arith) (ground arith) (omega arith) (omega arith) in
        rw (e, f, r, mul-one g) is
  ]
]
