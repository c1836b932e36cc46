-- ===== src/Rand/Examples.antt =====
-- The theorems on vl_rand.c at the seed 42.
use veritable_lasagna.Base.{◌≡◌, refl, arith}
use veritable_lasagna.Rand.{next, fill}
use veritable_lasagna.Rand.Fill.{tabulate, drawn_byte, fill-drawn}

fill-drawn_example : (fill 42 1000 20).0 ≡ tabulate 20 (drawn_byte 42)
fill-drawn_example = fill-drawn 42 1000 20 (omega arith)

first_word : (next 0).0 ≡ 0xE220A8397B1DCDAF
unfolding next
first_word = refl
