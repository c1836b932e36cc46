-- ===== src/Rand.antt =====
-- src/core/vl_rand.c, include/core/vl/vl_rand.h: the splitmix64 generator.
mod Examples
pub mod Fill
use Prim.Native.Nat.{bit_xor}
use veritable_lasagna.Base.{
  ℕ, zero, suc, ◌+◌, ◌-◌, ◌*◌, ◌/◌, ◌%◌, ◌^◌, ltb, ◌==◌, if◌then◌else◌, List, [], ◌∷◌, ◌++◌,
}

-- vlRandNext: the number that is drawn, and the state after it.
pub next : ℕ → ℕ × ℕ
next rand =
    let state = (rand + 0x9E3779B97F4A7C15) % 2 ^ 64 in
    let z1 = bit_xor state (state / 2 ^ 30) * 0xBF58476D1CE4E5B9 % 2 ^ 64 in
    let z2 = bit_xor z1 (z1 / 2 ^ 27) * 0x94D049BB133111EB % 2 ^ 64 in
    (bit_xor z2 (z2 / 2 ^ 31), state)

-- The low `n` bytes of a word, the lowest one first.
abbrev pub low_bytes : ℕ → ℕ → List ℕ
low_bytes zero word = []
low_bytes (suc n) word = word % 256 ∷ low_bytes n (word / 256)

-- The bytes in front of the first aligned word: none at an aligned address, and a part of one word
-- otherwise.
pub leading : ℕ → ℕ → ℕ
leading address len =
    let misalignment = address % 8 in
    if misalignment == 0 then 0 else if ltb (8 - misalignment) len then 8 - misalignment else len

pub fill_front : ℕ → ℕ → ℕ → List ℕ × ℕ
unfolding next leading
fill_front address len rand =
    if address % 8 == 0
    then ([], rand)
    else (low_bytes (leading address len) (next rand).0, (next rand).1)

-- The loop over the aligned words.
pub fill_words : ℕ → ℕ → List ℕ × ℕ
unfolding next
fill_words zero rand = ([], rand)
fill_words (suc n) rand =
    let (word, state) = next rand in
    let (bytes, last) = fill_words n state in (low_bytes 8 word ++ bytes, last)

-- The bytes behind them, if there are any.
pub fill_rest : ℕ → ℕ → List ℕ × ℕ
unfolding next
fill_rest n rand = if n == 0 then ([], rand) else (low_bytes n (next rand).0, (next rand).1)

-- vlRandFill: the bytes that are written at an address, and the state after them.
pub fill : ℕ → ℕ → ℕ → List ℕ × ℕ
unfolding leading fill_front fill_words fill_rest
fill rand address len =
    let remaining = len - leading address len in
    let (bytes, rand1) = fill_front address len rand in
    let (words, rand2) = fill_words (remaining / 8) rand1 in
    let (rest, rand3) = fill_rest (remaining % 8) rand2 in (bytes ++ (words ++ rest), rand3)
