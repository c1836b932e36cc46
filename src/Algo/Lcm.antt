-- ===== src/Algo/Lcm.antt =====
-- `lcm` of vl_algo.c: where it returns the least common multiple, and where 0.
use veritable_lasagna.Base.{
  ℕ, zero, suc, ◌-◌, ◌*◌, ◌/◌, ◌%◌, ◌^◌, ◌≤◌, ◌<◌, ◌≡◌, ◌⊎◌, inl, inr, refl, arith, ◌∙◌, ap, true,
  false, ◌==◌, ltb, Bool-cases, ltb→lt, ltb→ge,
}
use native.Mathlib.Nat.{mul_comm, mul_assoc, le-div_iff_mul-le, div-lt_iff_lt-mul, mul-div_left}
use veritable_lasagna.Algo.{gcd, lcm}
use veritable_lasagna.Algo.Divides.{Divides}
use veritable_lasagna.Algo.Gcd.{gcd-IsGcd, mod-small}

ne : (n : ℕ) → 0 < n → (n == 0) ≡ false
ne n h = ground arith

-- A number that is not 0 has no divisor 0, and is its quotient times its divisor.
exact : (d n : ℕ) → 0 < n → Divides d n → n / d * d ≡ n
exact zero n pos (k, e) = absurd (omega arith)
exact (suc d) n pos (k, e) = rw (e, mul-div_left k {n = suc d} (omega arith)) refl

lcm_overflow :
    (a b : ℕ)
    → 0 < a
    → 0 < b
    → ltb ((2 ^ 64 - 1) / b) (a / gcd a b) ≡ true
    → (2 ^ 64 ≤ a / gcd a b * b) × (lcm a b ≡ 0)
unfolding lcm
lcm_overflow a b pos_a pos_b e =
    let lt = ltb→lt ((2 ^ 64 - 1) / b) (a / gcd a b) e in
    let le = (div-lt_iff_lt-mul {k = b} {x = 2 ^ 64 - 1} {y = a / gcd a b} pos_b).0 lt in
    (omega arith, rw (e, ne a pos_a, ne b pos_b) refl)

lcm_product :
    (a b : ℕ)
    → 0 < a
    → 0 < b
    → ltb ((2 ^ 64 - 1) / b) (a / gcd a b) ≡ false
    → lcm a b ≡ a / gcd a b * b % 2 ^ 64
unfolding lcm
lcm_product a b pos_a pos_b e = rw (e, ne a pos_a, ne b pos_b) refl

lcm_fits :
    (a b : ℕ)
    → 0 < a
    → 0 < b
    → ltb ((2 ^ 64 - 1) / b) (a / gcd a b) ≡ false
    → (a / gcd a b * b < 2 ^ 64) × (lcm a b ≡ a / gcd a b * b)
lcm_fits a b pos_a pos_b e =
    let ge = ltb→ge ((2 ^ 64 - 1) / b) (a / gcd a b) e in
    let le = (le-div_iff_mul-le {k = b} {x = a / gcd a b} {y = 2 ^ 64 - 1} pos_b).0 ge in
    let small : a / gcd a b * b < 2 ^ 64 = omega arith in
    (small, lcm_product a b pos_a pos_b e ∙ mod-small (a / gcd a b * b) small)

-- For two 64-bit words other than 0, either the quotient of `a` by the greatest common divisor,
-- times `b`, fits a word and `lcm` times `gcd` is the product of the two, or it does not fit and
-- `lcm` returns 0.
pub lcm-times-gcd :
    (a b : ℕ)
    → a < 2 ^ 64
    → b < 2 ^ 64
    → 0 < a
    → 0 < b
    → ((a / gcd a b * b < 2 ^ 64) × (lcm a b * gcd a b ≡ a * b))
      ⊎ ((2 ^ 64 ≤ a / gcd a b * b) × (lcm a b ≡ 0))
lcm-times-gcd a b ha hb pos_a pos_b =
    let is = gcd-IsGcd a b ha hb in
    elim (Bool-cases (ltb ((2 ^ 64 - 1) / b) (a / gcd a b))) [
      | inl e ↦ inr (lcm_overflow a b pos_a pos_b e)
      | inr e ↦
          let (small, eq) = lcm_fits a b pos_a pos_b e in
          inl (
            small,
            rw eq (
                omega (
                  arith,
                  mul_assoc (a / gcd a b) b (gcd a b),
                  mul_comm b (gcd a b),
                  mul_assoc (a / gcd a b) (gcd a b) b,
                  ap (λ z. z * b) (exact (gcd a b) a pos_a is.left),
                )),
          )
    ]
