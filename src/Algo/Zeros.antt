-- ===== src/Algo/Zeros.antt =====
-- The counts of leading zeros of src/core/vl_algo.c, in their portable branches.

use native.Mathlib.Omega.{pow_step}
use native.Mathlib.Nat.{mul-le-mul_right, pow-le-pow_right, one-le-pow}
use veritable_lasagna.Base.{
  ℕ, zero, suc, ◌+◌, ◌-◌, ◌*◌, ◌/◌, ◌%◌, ◌^◌, ◌≤◌, ◌<◌, ◌≡◌, inl, inr, refl, sym, ap, ap₂, ◌∙◌,
  Bool, true, false, ltb, leb, ◌==◌, if◌then◌else◌, arith, Bool-cases,
}

-- A step of vlAlgoCLZ32: where the upper `k` bits of the word are 0, which is where it is below
-- 2 ^ (32 - k), they are counted and shifted out.
pub clz_step : ℕ → ℕ × ℕ → ℕ × ℕ
clz_step k (count, value) =
    if ltb value (2 ^ (32 - k)) then (count + k, value * 2 ^ k % 2 ^ 32) else (count, value)

-- vlAlgoCLZ32
pub clz32 : ℕ → ℕ
unfolding clz_step
clz32 value =
    let (count, shifted) = clz_step 2 (clz_step 4 (clz_step 8 (clz_step 16 (0, value)))) in
    if value == 0 then 32 else if ltb shifted (2 ^ 31) then count + 1 else count

-- vlAlgoCLZ64
pub clz64 : ℕ → ℕ
unfolding clz32
clz64 value =
    let high = value / 2 ^ 32 in
    if value == 0 then 64 else if high == 0 then 32 + clz32 (value % 2 ^ 32) else clz32 high

-- What is left after a step: the word shifted by the count, with a bit set above a bound.
record Shifted (value bound : ℕ) (s : ℕ × ℕ) : Type 0 where
  pub is : s.1 ≡ value * 2 ^ s.0
  pub above : bound ≤ s.1
  pub narrow : s.1 < 2 ^ 32

doubled_left : (x p : ℕ) → x * (2 * p) ≡ 2 * (x * p)
doubled_left x p = grind arith

shift_sum : (value count k : ℕ) → value * 2 ^ count * 2 ^ k ≡ value * 2 ^ (count + k)
shift_sum value count zero =
    (let same : count ≡ count + 0 = omega arith in omega arith ∙ ap (λ n. value * 2 ^ n) same)
shift_sum value count (suc k) =
    let next : count + suc k ≡ suc (count + k) = omega arith in
    ap (λ z. value * 2 ^ count * z) (pow_step 2 k)
    ∙ doubled_left (value * 2 ^ count) (2 ^ k)
    ∙ ap (λ z. 2 * z) (shift_sum value count k)
    ∙ sym (doubled_left value (2 ^ (count + k)))
    ∙ sym (ap (λ z. value * z) (ap (λ n. 2 ^ n) next ∙ pow_step 2 (count + k)))

module _ (value : ℕ) where
  clz_step-Shifted :
      (k low bound : ℕ) (s : ℕ × ℕ)
      → Shifted value low s
      → bound ≤ 2 ^ (32 - k)
      → ((v : ℕ) → v < 2 ^ (32 - k) → v * 2 ^ k < 2 ^ 32)
      → ((v : ℕ) → low ≤ v → bound ≤ v * 2 ^ k)
      → Shifted value bound (clz_step k s)
  unfolding clz_step
  clz_step-Shifted k low bound (count, v) s h fits raised =
      elim (Bool-cases (ltb v (2 ^ (32 - k)))) [
        | inl small ↦
            let less : v < 2 ^ (32 - k) = ground arith in
            let room = fits v less in
            let same : v * 2 ^ k % 2 ^ 32 ≡ v * 2 ^ k = omega (arith, room) in
            rw (small, same)
              (record {
                is = ap (λ z. z * 2 ^ k) s.is ∙ shift_sum value count k;
                above = raised v s.above;
                narrow = room;
              })
        | inr large ↦ rw large (record { is = s.is; above = ground arith; narrow = s.narrow })
      ]

  -- The leading bit of the word is the highest one after the shift by the count.
  clz32_lem :
      1 ≤ value
      → value < 2 ^ 32
      → (2 ^ 31 ≤ value * 2 ^ clz32 value) × (value * 2 ^ clz32 value < 2 ^ 32)
  unfolding clz32
  clz32_lem h k =
      let start : Shifted value 1 (0, value) = record { is = omega arith; above = h; narrow = k } in
      let a =
        clz_step-Shifted 16 1 (2 ^ 16) (0, value) start (omega arith) (λ v w. omega arith)
          (λ v w. omega arith) in
      let s1 = clz_step 16 (0, value) in
      let b =
        clz_step-Shifted 8 (2 ^ 16) (2 ^ 24) s1 a (omega arith) (λ v w. omega arith)
          (λ v w. omega arith) in
      let s2 = clz_step 8 s1 in
      let c =
        clz_step-Shifted 4 (2 ^ 24) (2 ^ 28) s2 b (omega arith) (λ v w. omega arith)
          (λ v w. omega arith) in
      let s3 = clz_step 4 s2 in
      let d =
        clz_step-Shifted 2 (2 ^ 28) (2 ^ 30) s3 c (omega arith) (λ v w. omega arith)
          (λ v w. omega arith) in
      let s4 = clz_step 2 s3 in
      let not_zero : (value == 0) ≡ false = ground arith in
      elim (Bool-cases (ltb s4.1 (2 ^ 31))) [
        | inl small ↦
            let one : value * 2 ^ (s4.0 + 1) ≡ 2 * s4.1 =
              sym (shift_sum value s4.0 1) ∙ omega (arith, d.is) in
            let up = d.above in
            rw (not_zero, small)
              (
                omega (arith, one, up),
                (let less : s4.1 < 2 ^ 31 = ground arith in omega (arith, one, less)),
              )
        | inr large ↦
            let least : 2 ^ 31 ≤ s4.1 = ground arith in
            rw (not_zero, large) (omega (arith, d.is, least), omega (arith, d.is, d.narrow))
      ]

-- A multiple of a power of two below 2 ^ 32 is below it by as much.
below_power : (h c : ℕ) → 1 ≤ h → h * 2 ^ c < 2 ^ 32 → (h + 1) * 2 ^ c ≤ 2 ^ 32
below_power h c some_bits less =
    let one : 2 ^ c ≤ h * 2 ^ c = omega (arith, mul-le-mul_right (2 ^ c) some_bits) in
    let few : c ≤ 31 = elim (Bool-cases (leb 32 c)) [
      | inl many ↦
          let more : 32 ≤ c = ground arith in
          let large : 2 ^ 32 ≤ 2 ^ c = pow-le-pow_right (omega arith) more in absurd (omega arith)
      | inr small ↦ ground arith
    ] in
    let back : 32 - c + c ≡ 32 = omega arith in
    let product : 2 ^ (32 - c) * 2 ^ c ≡ 2 ^ 32 =
      (let same : 2 ^ (32 - c) ≡ 1 * 2 ^ (32 - c) = omega arith in ap (λ z. z * 2 ^ c) same)
      ∙ shift_sum 1 (32 - c) c
      ∙ ap (λ n. 1 * 2 ^ n) back in
    let room : h + 1 ≤ 2 ^ (32 - c) = elim (Bool-cases (leb (2 ^ (32 - c)) h)) [
      | inl large ↦
          let reach : 2 ^ (32 - c) ≤ h = ground arith in
          absurd (omega (arith, mul-le-mul_right (2 ^ c) reach, product))
      | inr small ↦ ground arith
    ] in
    omega (arith, mul-le-mul_right (2 ^ c) room, product)

swap_factors : (a b q : ℕ) → a * b * q ≡ a * q * b
swap_factors a b q = grind arith

-- The upper half of a word has a bit.
upper_half :
    (v h c : ℕ)
    → h ≡ v / 2 ^ 32
    → 1 ≤ h
    → 2 ^ 31 ≤ h * 2 ^ c
    → h * 2 ^ c < 2 ^ 32
    → (2 ^ 63 ≤ v * 2 ^ c) × (v * 2 ^ c < 2 ^ 64)
upper_half v h c e some_bits above less =
    let q = 2 ^ c in
    let low : h * 2 ^ 32 ≤ v = omega arith in
    let high : v + 1 ≤ (h + 1) * 2 ^ 32 = omega arith in
    let one_more : (v + 1) * q ≡ v * q + q = grind arith in
    let some_q : 1 ≤ q = one-le-pow c 2 (omega arith) in
    (
      omega (arith, mul-le-mul_right q low, swap_factors h (2 ^ 32) q),
      omega (
        arith,
        mul-le-mul_right q high,
        swap_factors (h + 1) (2 ^ 32) q,
        one_more,
        below_power h c some_bits less,
        some_q,
      ),
    )

clz64_at :
    (value : ℕ) (none : Bool)
    → (value == 0) ≡ false
    → (value / 2 ^ 32 == 0) ≡ none
    → clz64 value ≡ (if none then 32 + clz32 (value % 2 ^ 32) else clz32 (value / 2 ^ 32))
unfolding clz64
clz64_at value none e h =
    ap₂ (λ x y. if x then 64 else if y then 32 + clz32 (value % 2 ^ 32) else clz32 (value / 2 ^ 32))
      e h

-- For a word other than 0, the word times two to the power of `clz64` of it is a number below 2 ^
-- 64 with the highest of 64 bits set.
pub clz64_lem :
    (value : ℕ)
    → 1 ≤ value
    → value < 2 ^ 64
    → (2 ^ 63 ≤ value * 2 ^ clz64 value) × (value * 2 ^ clz64 value < 2 ^ 64)
clz64_lem value h k =
    let not_zero : (value == 0) ≡ false = ground arith in
    elim (Bool-cases (value / 2 ^ 32 == 0)) [
      | inl none ↦
          let low : value % 2 ^ 32 ≡ value = ground arith in
          let small : value < 2 ^ 32 = ground arith in
          let (above, less) = clz32_lem value h small in
          let c = clz32 value in
          let shifted : value * 2 ^ (32 + c) ≡ value * 2 ^ c * 2 ^ 32 =
            (let sum : 32 + c ≡ c + 32 = omega arith in
              ap (λ n. value * 2 ^ n) sum ∙ sym (shift_sum value c 32)) in
          rw (clz64_at value true not_zero none)
            (rw low (omega (arith, shifted, above), omega (arith, shifted, less)))
      | inr upper ↦
          let high = value / 2 ^ 32 in
          let some_bits : 1 ≤ high = ground arith in
          let (above, less) = clz32_lem high some_bits (omega arith) in
          rw (clz64_at value false not_zero upper)
            (upper_half value high (clz32 high) refl some_bits above less)
    ]
