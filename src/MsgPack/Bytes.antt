-- ===== src/MsgPack/Bytes.antt =====
-- Words as bytes, signed numbers as their bits, and the bit operations on tags, as
-- src/core/vl_msgpack_io.c uses them.
use Prim.Native.Nat.{bit_and, bit_or}
use mathlib.Core.List.{reverse, reverse-reverse, reverse-cons}
use veritable_lasagna.Base.{
  ℕ, zero, suc, ◌+◌, ◌-◌, ◌*◌, ◌/◌, ◌%◌, ◌^◌, ◌<◌, ◌≤◌, ◌++◌, ◌≡◌, refl, ap, ◌∙◌, Bool, true, false,
  ◌&&◌, List, [], ◌∷◌, ltb, leb, ◌==◌, if◌then◌else◌, arith, length, length-append, ==_iff,
}
use native.Mathlib.Omega.{pow_step}
use native.Mathlib.Nat.{mul-le-mul_left, mul_assoc}

-- `negsuc n` is -(n + 1).
pub data ℤ : Type 0 where
  pos : ℕ → ℤ
  negsuc : ℕ → ℤ

-- The order of signed integers.
abbrev pub leb_int : ℤ → ℤ → Bool
leb_int (pos m) (pos n) = leb m n
leb_int (pos m) (negsuc n) = false
leb_int (negsuc m) (pos n) = true
leb_int (negsuc m) (negsuc n) = leb n m

-- The low `w` bits of an integer in two's complement, and the integer that `w` bits stand for.
abbrev pub low_bits : ℕ → ℤ → ℕ
low_bits w (pos n) = n % 2 ^ w
low_bits w (negsuc n) = 2 ^ w - 1 - n % 2 ^ w

abbrev pub signed : ℕ → ℕ → ℤ
signed w u = if ltb u (2 ^ (w - 1)) then pos u else negsuc (2 ^ w - 1 - u)

-- The memory of a word of `n` bytes on a little-endian system, and the word that bytes stand for.
abbrev pub le_bytes : ℕ → ℕ → List ℕ
le_bytes zero v = []
le_bytes (suc n) v = (v % 256) ∷ le_bytes n (v / 256)

abbrev pub le_value : List ℕ → ℕ
le_value [] = 0
le_value (b ∷ bs) = b + 256 * le_value bs

-- `_VL_FLIP_ENDIAN` on a word that is written, and on one that was read.
pub word_bytes : ℕ → ℕ → List ℕ
word_bytes n v = reverse (le_bytes n v)

pub word_of : List ℕ → ℕ
word_of bs = le_value (reverse bs)

-- The first `n` bytes of a value in a temporary buffer of zeros.
abbrev pub padded : ℕ → List ℕ → List ℕ
padded zero value = []
padded (suc n) [] = 0 ∷ padded n []
padded (suc n) (b ∷ bs) = b ∷ padded n bs

le_value-le_bytes : (n v : ℕ) → v < 256 ^ n → le_value (le_bytes n v) ≡ v
le_value-le_bytes zero v h = omega arith
le_value-le_bytes (suc n) v h =
    let less : v / 256 < 256 ^ n = omega (arith, pow_step 256 n) in
    omega (arith, le_value-le_bytes n (v / 256) less)

-- A word that was written and is read back is the same.
pub word_of-word_bytes : (n v : ℕ) → v < 256 ^ n → word_of (word_bytes n v) ≡ v
unfolding word_of word_bytes
word_of-word_bytes n v h = ap le_value (reverse-reverse (le_bytes n v)) ∙ le_value-le_bytes n v h

length-reverse : (bs : List ℕ) → length (reverse bs) ≡ length bs
length-reverse [] = refl
length-reverse (b ∷ bs) =
    rw (reverse-cons b bs) (omega (arith, length-append (reverse bs) (b ∷ []), length-reverse bs))

length-le_bytes : (n v : ℕ) → length (le_bytes n v) ≡ n
length-le_bytes zero v = refl
length-le_bytes (suc n) v = omega (arith, length-le_bytes n (v / 256))

pub length-word_bytes : (n v : ℕ) → length (word_bytes n v) ≡ n
unfolding word_bytes
length-word_bytes n v = length-reverse (le_bytes n v) ∙ length-le_bytes n v

-- A test of every number below a bound.
all_below : ℕ → (ℕ → Bool) → Bool
all_below zero p = true
all_below (suc n) p = p n && all_below n p

all_below-elem : (n : ℕ) (p : ℕ → Bool) (x : ℕ) → all_below n p ≡ true → x < n → p x ≡ true
unfolding all_below
all_below-elem zero p x h k = absurd (omega arith)
all_below-elem (suc n) p x h k = ground (arith, all_below-elem n p x)

equal_below :
    (n : ℕ) (f g : ℕ → ℕ) → all_below n (λ x. f x == g x) ≡ true → (x : ℕ) → x < n → f x ≡ g x
equal_below n f g h x k = (==_iff (f x) (g x)).0 (all_below-elem n (λ x. f x == g x) x h k)

pub or_string : (n : ℕ) → n < 32 → bit_or 160 (bit_and n 31) ≡ 160 + n
unfolding all_below
or_string = equal_below 32 (λ n. bit_or 160 (bit_and n 31)) (λ n. 160 + n) refl

pub and_string : (n : ℕ) → n < 32 → bit_and (160 + n) 31 ≡ n
unfolding all_below
and_string = equal_below 32 (λ n. bit_and (160 + n) 31) (λ n. n) refl

pub or_map : (n : ℕ) → n < 16 → bit_or 128 (bit_and n 15) ≡ 128 + n
unfolding all_below
or_map = equal_below 16 (λ n. bit_or 128 (bit_and n 15)) (λ n. 128 + n) refl

pub and_map : (n : ℕ) → n < 16 → bit_and (128 + n) 15 ≡ n
unfolding all_below
and_map = equal_below 16 (λ n. bit_and (128 + n) 15) (λ n. n) refl

pub or_array : (n : ℕ) → n < 16 → bit_or 144 (bit_and n 15) ≡ 144 + n
unfolding all_below
or_array = equal_below 16 (λ n. bit_or 144 (bit_and n 15)) (λ n. 144 + n) refl

pub and_array : (n : ℕ) → n < 16 → bit_and (144 + n) 15 ≡ n
unfolding all_below
and_array = equal_below 16 (λ n. bit_and (144 + n) 15) (λ n. n) refl

pub or_negative : (n : ℕ) → n < 31 → bit_or 224 (255 - n) ≡ 255 - n
unfolding all_below
or_negative = equal_below 31 (λ n. bit_or 224 (255 - n)) (λ n. 255 - n) refl

pub or_positive : (n : ℕ) → n < 128 → bit_or 0 n ≡ n
unfolding all_below
or_positive = equal_below 128 (λ n. bit_or 0 n) (λ n. n) refl

pub and_positive : (n : ℕ) → n < 128 → bit_and n 127 ≡ n
unfolding all_below
and_positive = equal_below 128 (λ n. bit_and n 127) (λ n. n) refl

pub word_bytes-one : (n : ℕ) → n < 256 → word_bytes 1 n ≡ n ∷ []
unfolding word_bytes
word_bytes-one n h = ap (λ z. z ∷ []) (omega arith)

-- The two and the four bytes of a word.
pub word_bytes-two : (v : ℕ) → word_bytes 2 v ≡ (v / 256 % 256) ∷ (v % 256) ∷ []
unfolding word_bytes
word_bytes-two v = refl

pub word_bytes-four :
    (v : ℕ)
    → word_bytes 4 v
      ≡ (v / 256 / 256 / 256 % 256) ∷ (v / 256 / 256 % 256) ∷ (v / 256 % 256) ∷ (v % 256) ∷ []
unfolding word_bytes
word_bytes-four v = refl

pub and_string_small : (n : ℕ) → n < 256 → bit_and n 31 ≤ 31
unfolding all_below
and_string_small n h =
    let small = all_below-elem 256 (λ x. leb (bit_and x 31) 31) n refl h in ground arith

-- Numbers that each fit a byte.
abbrev pub AreBytes : List ℕ → Type 0
AreBytes [] = Unit {0}
AreBytes (b ∷ bs) = (b < 256) × AreBytes bs

le_value-snoc :
    (xs : List ℕ) (b : ℕ) → le_value (xs ++ (b ∷ [])) ≡ le_value xs + 256 ^ length xs * b
le_value-snoc [] b = omega arith
le_value-snoc (x ∷ xs) b =
    rw (pow_step 256 (length xs))
      (omega (arith, le_value-snoc xs b, mul_assoc 256 (256 ^ length xs) b))

pub word_of-cons : (b : ℕ) (bs : List ℕ) → word_of (b ∷ bs) ≡ word_of bs + 256 ^ length bs * b
unfolding word_of
word_of-cons b bs =
    ap le_value (reverse-cons b bs) ∙ rw (le_value-snoc (reverse bs) b, length-reverse bs) refl

pub word_of_below : (bs : List ℕ) → AreBytes bs → word_of bs < 256 ^ length bs
unfolding word_of
word_of_below [] h = omega arith
word_of_below (b ∷ bs) (small, h) =
    let most = mul-le-mul_left {m = b} {n = 255} (256 ^ length bs) (omega arith) in
    omega (arith, word_of-cons b bs, word_of_below bs h, pow_step 256 (length bs))
