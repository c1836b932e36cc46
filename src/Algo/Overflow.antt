-- ===== src/Algo/Overflow.antt =====
-- The overflow tests of vl_algo.c against the unbounded sum, difference and product.
use veritable_lasagna.Base.{
  ℕ, zero, suc, ◌+◌, ◌-◌, ◌*◌, ◌/◌, ◌^◌, ◌<◌, ◌≡◌, refl, inl, inr, true, false, ◌==◌, if◌then◌else◌,
  arith, ltb, leb, Bool-cases, ltb→lt, ltb→ge,
}
use native.Mathlib.Nat.{le-div_iff_mul-le, div-lt_iff_lt-mul}
use veritable_lasagna.Algo.{add_overflow, sub_underflow, mul_overflow}

add_overflow_lem : (a b : ℕ) → a < 2 ^ 64 → add_overflow a b ≡ leb (2 ^ 64) (a + b)
unfolding add_overflow
add_overflow_lem a b h = ground arith

not_zero : (n : ℕ) → (suc n == 0) ≡ false
not_zero n = ground arith

mul_overflow_lem : (a b : ℕ) → mul_overflow a b ≡ leb (2 ^ 64) (a * b)
unfolding mul_overflow
mul_overflow_lem zero b = ground arith
mul_overflow_lem (suc a) zero = ground arith
mul_overflow_lem (suc a) (suc b) = elim (Bool-cases (ltb ((2 ^ 64 - 1) / suc b) (suc a))) [
  | inl e ↦
      let lt = ltb→lt ((2 ^ 64 - 1) / suc b) (suc a) e in
      let le = (div-lt_iff_lt-mul {k = suc b} {x = 2 ^ 64 - 1} {y = suc a} (omega arith)).0 lt in
      let big : leb (2 ^ 64) (suc a * suc b) ≡ true = ground arith in
      rw (e, not_zero a, not_zero b, big) refl
  | inr e ↦
      let ge = ltb→ge ((2 ^ 64 - 1) / suc b) (suc a) e in
      let le = (le-div_iff_mul-le {k = suc b} {x = suc a} {y = 2 ^ 64 - 1} (omega arith)).0 ge in
      let small : leb (2 ^ 64) (suc a * suc b) ≡ false = ground arith in
      rw (e, not_zero a, not_zero b, small) refl
]

-- For a 64-bit word `a`, `add_overflow` and `mul_overflow` tell whether the sum and the product
-- with `b` reach 2 ^ 64, and `sub_underflow` whether `b` exceeds `a`.
overflow_tests :
    (a b : ℕ)
    → a < 2 ^ 64
    → (add_overflow a b ≡ leb (2 ^ 64) (a + b))
      × (mul_overflow a b ≡ leb (2 ^ 64) (a * b))
      × (sub_underflow a b ≡ (if b - a == 0 then false else true))
unfolding sub_underflow
overflow_tests a b h = (add_overflow_lem a b h, mul_overflow_lem a b, ground arith)
