-- ===== src/Stack/Words.antt =====
-- The words in the headers of vl_stack.c.
use native.Mathlib.Nat.{div-div-eq-div-mul}
use native.Mathlib.Omega.{pow_step}
use veritable_lasagna.Base.{
  ℕ, zero, suc, ◌+◌, ◌/◌, ◌%◌, ◌^◌, ◌≤◌, ◌<◌, ◌≡◌, refl, sym, ap, ◌∙◌, arith,
}
use veritable_lasagna.Buffer.{copied}
use veritable_lasagna.Buffer.Write.{copied-inside, copied-outside}
use veritable_lasagna.Stack.{value, digit, word_at, set_word}

pub value-agree : (n : ℕ) (f g : ℕ → ℕ) → ((i : ℕ) → i < n → f i ≡ g i) → value n f ≡ value n g
value-agree zero f g same = refl
value-agree (suc n) f g same =
    let first = same 0 (omega arith) in
    let others =
      value-agree n (λ i. f (suc i)) (λ i. g (suc i)) (λ i h. same (suc i) (omega arith)) in
    omega (arith, first, others)

value-digit : (n v : ℕ) → v < 256 ^ n → value n (digit v) ≡ v
value-digit zero v h = omega arith
value-digit (suc n) v h =
    let less : v / 256 < 256 ^ n = omega (arith, pow_step 256 n) in
    let others =
      value-agree n (λ i. digit v (suc i)) (digit (v / 256))
        λ i k.
          ap (λ z. z % 256)
            (ap (λ z. v / z) (pow_step 256 i) ∙ sym (div-div-eq-div-mul v 256 (256 ^ i))) in
    omega (arith, others, value-digit n (v / 256) less)

pub word_at-set_word :
    (bytes : ℕ → ℕ) (at v : ℕ) → v < 2 ^ 64 → word_at (set_word bytes at v) at ≡ v
word_at-set_word bytes at v h =
    value-agree 8 (λ i. set_word bytes at v (at + i)) (digit v)
      (λ i k. copied-inside bytes at 8 i (digit v) k)
    ∙ value-digit 8 v (omega arith)

pub word_at-agree :
    (f g : ℕ → ℕ) (at : ℕ)
    → ((i : ℕ) → at ≤ i → i < at + 8 → f i ≡ g i)
    → word_at f at ≡ word_at g at
word_at-agree f g at same =
    value-agree 8 (λ i. f (at + i)) (λ i. g (at + i))
      λ i h. same (at + i) (omega arith) (omega arith)

-- Bytes in front of a store, and behind it.
pub copied-before :
    (old : ℕ → ℕ) (offset size i : ℕ) (from : ℕ → ℕ)
    → i < offset
    → copied old offset size from i ≡ old i
copied-before old offset size i from h = copied-outside old offset size i from (ground arith)
