-- ===== src/Algo.antt =====
-- src/core/vl_algo.c: greatest common divisor, least common multiple, and the
-- overflow tests, on 64-bit words.
pub mod Divides
pub mod Gcd
pub mod Lcm
pub mod Overflow
pub mod Zeros
mod Examples
use veritable_lasagna.Base.{
  ℕ, zero, suc, ◌+◌, ◌-◌, ◌*◌, ◌/◌, ◌%◌, ◌^◌, Bool, true, false, ◌&&◌, ◌==◌, if◌then◌else◌, ltb,
}

-- `while ((n & 1) == 0) n >>= 1;` With `n` as its fuel the loop ends by its test, if 0 < n.
pub strip_twos : ℕ → ℕ → ℕ
strip_twos zero n = n
strip_twos (suc fuel) n = elim (n % 2 == 0) [ true ↦ strip_twos fuel (n / 2) | false ↦ n ]

-- The do-while loop of vlAlgoGCD: `b` loses its factors of two, the smaller of the two is
-- subtracted from the larger, and the loop ends when nothing is left.
pub gcd_loop : ℕ → ℕ → ℕ → ℕ
unfolding strip_twos
gcd_loop zero a b = a
gcd_loop (suc fuel) a b =
    let b1 = strip_twos b b in
    let lo = if ltb b1 a then b1 else a in
    let hi = if ltb b1 a then a else b1 in
    elim (hi - lo == 0) [ true ↦ lo | false ↦ gcd_loop fuel lo (hi - lo) ]

-- The first loop of vlAlgoGCD, `while (((a | b) & 1) == 0)`, with the rest of the function behind
-- it. The last shift is on 64 bits.
pub gcd_shift : ℕ → ℕ → ℕ → ℕ → ℕ
unfolding strip_twos gcd_loop
gcd_shift zero a b shift = 0
gcd_shift (suc fuel) a b shift = elim ((a % 2 == 0) && (b % 2 == 0)) [
  | true ↦ gcd_shift fuel (a / 2) (b / 2) (shift + 1)
  | false ↦ gcd_loop (strip_twos a a + b + 1) (strip_twos a a) b * 2 ^ shift % 2 ^ 64
]

-- vlAlgoGCD
pub gcd : ℕ → ℕ → ℕ
unfolding gcd_shift
gcd a b = if a == 0 then b else if b == 0 then a else gcd_shift (a + 1) a b 0

-- vlAlgoLCM
pub lcm : ℕ → ℕ → ℕ
unfolding gcd
lcm a b =
    let quotient = a / gcd a b in
    if (if a == 0 then true else b == 0)
    then 0
    else if ltb ((2 ^ 64 - 1) / b) quotient
    then 0
    else quotient * b % 2 ^ 64

-- vlAlgoAddOverflow, vlAlgoSubUnderflow and vlAlgoMulOverflow, in their portable branches.
pub add_overflow : ℕ → ℕ → Bool
add_overflow a b = ltb (2 ^ 64 - 1 - a) b

pub sub_underflow : ℕ → ℕ → Bool
sub_underflow a b = ltb a b

pub mul_overflow : ℕ → ℕ → Bool
mul_overflow a b = if (if a == 0 then true else b == 0) then false else ltb ((2 ^ 64 - 1) / b) a
