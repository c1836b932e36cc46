-- ===== src/Algo/Divides.antt =====
-- Divisibility of native numbers, and what it says of the steps of the binary algorithm.
use veritable_lasagna.Base.{
  refl, subst, ℕ, ◌+◌, ◌-◌, ◌*◌, ◌/◌, ◌%◌, ◌≡◌, ◌⊎◌, inl, inr, arith, ◌==◌, Bool-cases,
}
use native.Mathlib.Nat.{mul_comm, mul-sub}

-- `d` divides `n`, with the quotient.
abbrev pub Divides : ℕ → ℕ → Type 0
Divides d n = (k : ℕ) × (n ≡ k * d)

-- `g` is a common divisor of `a` and `b`, and every common divisor divides it.
pub record IsGcd (g a b : ℕ) : Type 0 where
  pub left : Divides g a
  pub right : Divides g b
  pub greatest : (d : ℕ) → Divides d a → Divides d b → Divides d g

pub divides-add : (d m n : ℕ) → Divides d m → Divides d n → Divides d (m + n)
divides-add d m n (j, e) (k, f) = (j + k, omega arith)

pub divides-sub : (d m n : ℕ) → Divides d m → Divides d n → Divides d (m - n)
divides-sub d m n (j, e) (k, f) =
    (j - k, omega (arith, mul-sub d j k, mul_comm d j, mul_comm d k, mul_comm d (j - k)))

pub divides-double : (d n : ℕ) → Divides d n → Divides d (n * 2)
divides-double d n (k, e) = (k * 2, omega arith)

parity : (n : ℕ) → ((j : ℕ) × (n ≡ 2 * j)) ⊎ ((j : ℕ) × (n ≡ 2 * j + 1))
parity n = elim (Bool-cases (n % 2 == 0)) [
  | inl e ↦ inl (n / 2, ground arith)
  | inr e ↦ inr (n / 2, ground arith)
]

odd_times_odd : (k d j i : ℕ) → k ≡ 2 * j + 1 → d ≡ 2 * i + 1 → (k * d) % 2 ≡ 1
odd_times_odd k d j i p q = rw (p, q) (omega arith)

even_times : (k d j : ℕ) → k ≡ 2 * j → k * d ≡ 2 * (j * d)
even_times k d j p = rw p (omega arith)

-- An odd divisor of an even number divides its half.
pub divides_half : (d n : ℕ) → d % 2 ≡ 1 → n % 2 ≡ 0 → Divides d n → Divides d (n / 2)
divides_half d n odd even (k, e) = elim (parity k) [
  | inl (j, p) ↦ (j, omega (arith, even_times k d j p))
  | inr (j, p) ↦ absurd (omega (arith, odd_times_odd k d j (d / 2) p (omega arith)))
]

-- A divisor of an odd number is odd.
pub divides_odd : (d n : ℕ) → n % 2 ≡ 1 → Divides d n → d % 2 ≡ 1
divides_odd d n odd (k, e) = elim (parity d) [
  | inl (j, p) ↦ absurd (omega (arith, even_times d k j p, mul_comm k d))
  | inr (j, p) ↦ omega arith
]

-- Halving a double.
pub divides_half_of : (e n : ℕ) → n % 2 ≡ 0 → Divides (2 * e) n → Divides e (n / 2)
divides_half_of e n even (k, p) =
    (k, omega (arith, even_times (2 * e) k e refl, mul_comm k (2 * e), mul_comm k e))

-- A divisor of two even numbers divides the double of each divisor of their halves.
pub greatest-double :
    (g a b : ℕ)
    → a % 2 ≡ 0
    → b % 2 ≡ 0
    → ((d : ℕ) → Divides d (a / 2) → Divides d (b / 2) → Divides d g)
    → (d : ℕ) → Divides d a
    → Divides d b
    → Divides d (g * 2)
greatest-double g a b ea eb greatest d p q = elim (parity d) [
  | inl (e, r) ↦
      let p' : Divides (2 * e) a = subst (λ z. Divides z a) r p in
      let q' : Divides (2 * e) b = subst (λ z. Divides z b) r q in
      let (k, s) = greatest e (divides_half_of e a ea p') (divides_half_of e b eb q') in
      (k, rw r (omega (arith, even_times (2 * e) k e refl, mul_comm k (2 * e), mul_comm k e)))
  | inr (e, r) ↦
      let odd : d % 2 ≡ 1 = omega arith in
      divides-double d g (greatest d (divides_half d a odd ea p) (divides_half d b odd eb q))
]
