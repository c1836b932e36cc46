-- ===== src/Rand/Fill.antt =====
-- What vlRandFill of src/core/vl_rand.c writes.
use mathlib.Core.List.{append_assoc}
use native.Mathlib.Nat.{div-div-eq-div-mul}
use native.Mathlib.Omega.{pow_step}
use veritable_lasagna.Base.{
  take, ℕ, zero, suc, ◌+◌, ◌-◌, ◌*◌, ◌/◌, ◌%◌, ◌≤◌, ◌≡◌, refl, sym, ap, ap₂, ◌∙◌, ◌<◌, ◌^◌, true,
  ◌==◌, List, [], ◌∷◌, ◌++◌, arith, length, length-append, Bool-cases, ==_iff, inl, inr,
}
use veritable_lasagna.Rand.{next, low_bytes, leading, fill_front, fill_words, fill_rest, fill}

length-low_bytes : (n word : ℕ) → length (low_bytes n word) ≡ n
length-low_bytes zero word = refl
length-low_bytes (suc n) word = ap suc (length-low_bytes n (word / 256))

fill_rest_lem : (n rand : ℕ) → (fill_rest n rand).0 ≡ low_bytes n (next rand).0
unfolding fill_rest
fill_rest_lem n rand = elim (Bool-cases (n == 0)) [
  | inl e ↦ rw e (ap (λ k. low_bytes k (next rand).0) (sym ((==_iff n 0).0 e)))
  | inr e ↦ rw e refl
]

length-fill_front :
    (address len rand : ℕ) → length (fill_front address len rand).0 ≡ leading address len
unfolding fill_front leading
length-fill_front address len rand = elim (Bool-cases (address % 8 == 0)) [
  | inl e ↦ rw e refl
  | inr e ↦ rw e (length-low_bytes _ (next rand).0)
]

length-fill_words : (n rand : ℕ) → length (fill_words n rand).0 ≡ n * 8
unfolding fill_words
length-fill_words zero rand = refl
length-fill_words (suc n) rand =
    length-append (low_bytes 8 (next rand).0) (fill_words n (next rand).1).0
    ∙ omega (arith, length-fill_words n (next rand).1)

leading_le : (address len : ℕ) → leading address len ≤ len
unfolding leading
leading_le address len = ground arith

pub length-fill : (rand address len : ℕ) → length (fill rand address len).0 ≡ len
unfolding fill
length-fill rand address len =
    let a = fill_front address len rand in
    let n = len - leading address len in
    let w = fill_words (n / 8) a.1 in
    let r = fill_rest (n % 8) w.1 in
    let last = ap length (fill_rest_lem (n % 8) w.1) ∙ length-low_bytes (n % 8) (next w.1).0 in
    length-append a.0 (w.0 ++ r.0)
    ∙ ap (λ k. length a.0 + k) (length-append w.0 r.0)
    ∙ omega (
      arith,
      leading_le address len,
      length-fill_front address len rand,
      last,
      length-fill_words (n / 8) a.1,
    )

-- The bytes of the words of the loop.
abbrev stream : ℕ → ℕ → List ℕ
stream n rand = (fill_words n rand).0

take-low_bytes :
    (r n word : ℕ) (rest : List ℕ) → r ≤ n → take r (low_bytes n word ++ rest) ≡ low_bytes r word
take-low_bytes zero n word rest h = refl
take-low_bytes (suc r) zero word rest h = absurd (omega arith)
take-low_bytes (suc r) (suc n) word rest h =
    ap (λ bytes. word % 256 ∷ bytes) (take-low_bytes r n (word / 256) rest (omega arith))

suc_plus : (n m : ℕ) → suc n + m ≡ suc (n + m)
suc_plus n m = omega arith

take_past :
    (n m word : ℕ) (rest : List ℕ)
    → take (n + m) (low_bytes n word ++ rest) ≡ low_bytes n word ++ take m rest
take_past zero m word rest = ap (λ k. take k rest) (omega arith)
take_past (suc n) m word rest =
    ap (λ k. take k (low_bytes (suc n) word ++ rest)) (suc_plus n m)
    ∙ ap (λ bytes. word % 256 ∷ bytes) (take_past n m (word / 256) rest)

minus_none : (n : ℕ) → n - 0 ≡ n
minus_none n = omega arith

words_none : (r : ℕ) → 0 * 8 + r ≡ r
words_none r = omega arith

words_more : (q r : ℕ) → suc q * 8 + r ≡ 8 + (q * 8 + r)
words_more q r = omega arith

take-stream :
    (q r rand : ℕ)
    → r ≤ 8
    → take (q * 8 + r) (stream (q + 1) rand)
      ≡ stream q rand ++ low_bytes r (next (fill_words q rand).1).0
unfolding fill_words
take-stream zero r rand h =
    ap (λ k. take k (stream 1 rand)) (words_none r) ∙ take-low_bytes r 8 (next rand).0 [] h
take-stream (suc q) r rand h =
    let word = (next rand).0 in
    let state = (next rand).1 in
    ap (λ k. take k (stream (suc q + 1) rand)) (words_more q r)
    ∙ ap (λ k. take (8 + (q * 8 + r)) (stream k rand)) (suc_plus q 1)
    ∙ take_past 8 (q * 8 + r) word (stream (q + 1) state)
    ∙ ap (λ bytes. low_bytes 8 word ++ bytes) (take-stream q r state h)
    ∙ sym (append_assoc (low_bytes 8 word) (stream q state) _)

words-stream :
    (m rand : ℕ)
    → (fill_words (m / 8) rand).0 ++ (fill_rest (m % 8) (fill_words (m / 8) rand).1).0
      ≡ take m (stream (m / 8 + 1) rand)
words-stream m rand =
    ap (λ bytes. stream (m / 8) rand ++ bytes) (fill_rest_lem (m % 8) (fill_words (m / 8) rand).1)
    ∙ sym (take-stream (m / 8) (m % 8) rand (omega arith))
    ∙ ap (λ k. take k (stream (m / 8 + 1) rand)) (omega arith)

-- The first values of a function.
abbrev pub tabulate : ℕ → (ℕ → ℕ) → List ℕ
tabulate zero f = []
tabulate (suc n) f = f 0 ∷ tabulate n (λ i. f (suc i))

tabulate-same : (n : ℕ) (f g : ℕ → ℕ) → ((i : ℕ) → i < n → f i ≡ g i) → tabulate n f ≡ tabulate n g
tabulate-same zero f g same = refl
tabulate-same (suc n) f g same =
    ap₂ ◌∷◌ (same 0 (omega arith))
      (tabulate-same n (λ i. f (suc i)) (λ i. g (suc i)) (λ i h. same (suc i) (omega arith)))

tabulate-plus :
    (n m : ℕ) (f : ℕ → ℕ) → tabulate (n + m) f ≡ tabulate n f ++ tabulate m (λ i. f (n + i))
tabulate-plus zero m f =
    ap (λ k. tabulate k f) (omega arith)
    ∙ tabulate-same m f (λ i. f (0 + i)) (λ i h. ap f (omega arith))
tabulate-plus (suc n) m f =
    ap (λ k. tabulate k f) (suc_plus n m)
    ∙ ap (λ bytes. f 0 ∷ bytes)
        (tabulate-plus n m (λ i. f (suc i))
          ∙ ap (λ bytes. tabulate n (λ i. f (suc i)) ++ bytes)
              (tabulate-same m (λ i. f (suc (n + i))) (λ i. f (suc n + i))
                (λ i h. ap f (omega arith))))

take-tabulate : (n m : ℕ) (f : ℕ → ℕ) → n ≤ m → take n (tabulate m f) ≡ tabulate n f
take-tabulate zero m f h = refl
take-tabulate (suc n) zero f h = absurd (omega arith)
take-tabulate (suc n) (suc m) f h =
    ap (λ bytes. f 0 ∷ bytes) (take-tabulate n m (λ i. f (suc i)) (omega arith))

-- The draw with number `k` from a state, with no draw before it: each draw adds the same constant to
-- the state. Its byte with number `i` is the one at 256 ^ i.
abbrev pub drawn : ℕ → ℕ → ℕ
drawn rand k = (next ((rand + k * 0x9E3779B97F4A7C15) % 2 ^ 64)).0

abbrev pub byte_of : ℕ → ℕ → ℕ
byte_of word i = word / 256 ^ i % 256

abbrev pub drawn_byte : ℕ → ℕ → ℕ
drawn_byte rand i = byte_of (drawn rand (i / 8)) (i % 8)

byte_of-next : (word i : ℕ) → byte_of (word / 256) i ≡ byte_of word (suc i)
byte_of-next word i =
    ap (λ w. w % 256)
      (div-div-eq-div-mul word 256 (256 ^ i) ∙ ap (λ d. word / d) (sym (pow_step 256 i)))

low_bytes-tabulate : (n word : ℕ) → low_bytes n word ≡ tabulate n (byte_of word)
low_bytes-tabulate zero word = refl
low_bytes-tabulate (suc n) word = ap₂ ◌∷◌ (omega arith) (
    low_bytes-tabulate n (word / 256)
    ∙ tabulate-same n (byte_of (word / 256)) (λ i. byte_of word (suc i))
        (λ i h. byte_of-next word i))

-- The state after a draw, and the first draw.
drawn-next : (rand k : ℕ) → drawn (next rand).1 k ≡ drawn rand (suc k)
unfolding next
drawn-next rand k = ap (λ s. (next s).0) (omega arith)

drawn-first : (rand : ℕ) → drawn rand 0 ≡ (next rand).0
unfolding next
drawn-first rand =
    let same : ((rand + 0 * 0x9E3779B97F4A7C15) % 2 ^ 64 + 0x9E3779B97F4A7C15) % 2 ^ 64
        ≡ (rand + 0x9E3779B97F4A7C15) % 2 ^ 64 =
      omega arith in
    rw same refl

stream-drawn : (n rand : ℕ) → stream n rand ≡ tabulate (n * 8) (drawn_byte rand)
unfolding fill_words
stream-drawn zero rand = refl
stream-drawn (suc n) rand =
    let eight : suc n * 8 ≡ 8 + n * 8 = omega arith in
    ap₂ ◌++◌
      (low_bytes-tabulate 8 (next rand).0
        ∙ tabulate-same 8 (byte_of (next rand).0) (drawn_byte rand) (λ i h.
          (let first : 0 ≡ i / 8 = omega arith in
            let same : i ≡ i % 8 = omega arith in
            ap₂ byte_of (sym (drawn-first rand) ∙ ap (drawn rand) first) same)))
      (stream-drawn n (next rand).1
        ∙ tabulate-same (n * 8) (drawn_byte (next rand).1) (λ i. drawn_byte rand (8 + i))
            (λ i h.
              (let later : suc (i / 8) ≡ (8 + i) / 8 = omega arith in
                let same : i % 8 ≡ (8 + i) % 8 = omega arith in
                ap₂ byte_of (drawn-next rand (i / 8) ∙ ap (drawn rand) later) same)))
    ∙ sym (tabulate-plus 8 (n * 8) (drawn_byte rand))
    ∙ ap (λ k. tabulate k (drawn_byte rand)) (sym eight)

-- At an address that is a multiple of 8, the byte with number `i` of the `len` bytes that `fill`
-- writes is the one at 256 ^ (i % 8) of what `next` draws with i / 8 times 0x9E3779B97F4A7C15
-- added to the state, modulo 2 ^ 64.
pub fill-drawn :
    (rand address len : ℕ)
    → address % 8 ≡ 0
    → (fill rand address len).0 ≡ tabulate len (drawn_byte rand)
unfolding fill fill_front leading
fill-drawn rand address len aligned =
    let start : (address % 8 == 0) ≡ true = (==_iff (address % 8) 0).1 aligned in
    rw start
      (words-stream (len - 0) rand ∙ ap (λ m. take m (stream (m / 8 + 1) rand)) (minus_none len))
    ∙ ap (take len) (stream-drawn (len / 8 + 1) rand)
    ∙ take-tabulate len ((len / 8 + 1) * 8) (drawn_byte rand) (omega arith)
