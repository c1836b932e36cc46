-- ===== src/Algo/Examples.antt =====
-- The theorems on vl_algo.c at a few numbers.
use veritable_lasagna.Algo.Zeros.{clz64, clz64_lem}
use veritable_lasagna.Base.{◌*◌, ◌/◌, ◌^◌, ◌≤◌, ◌<◌, ◌≡◌, ◌⊎◌, refl, arith}
use veritable_lasagna.Algo.{gcd, lcm}
use veritable_lasagna.Algo.Divides.{IsGcd}
use veritable_lasagna.Algo.Gcd.{gcd-IsGcd}
use veritable_lasagna.Algo.Lcm.{lcm-times-gcd}

gcd_of_84_60 : gcd 84 60 ≡ 12
unfolding gcd
gcd_of_84_60 = refl

lcm_of_84_60 : lcm 84 60 ≡ 420
unfolding lcm
lcm_of_84_60 = refl

gcd-IsGcd_example : IsGcd (gcd 84 60) 84 60
gcd-IsGcd_example = gcd-IsGcd 84 60 (omega arith) (omega arith)

lcm-times-gcd_example :
    ((84 / gcd 84 60 * 60 < 2 ^ 64) × (lcm 84 60 * gcd 84 60 ≡ 84 * 60))
    ⊎ ((2 ^ 64 ≤ 84 / gcd 84 60 * 60) × (lcm 84 60 ≡ 0))
lcm-times-gcd_example = lcm-times-gcd 84 60 (omega arith) (omega arith) (omega arith) (omega arith)

clz64_lem_example :
    (2 ^ 63 ≤ 5000000000 * 2 ^ clz64 5000000000) × (5000000000 * 2 ^ clz64 5000000000 < 2 ^ 64)
clz64_lem_example = clz64_lem 5000000000 (omega arith) (omega arith)
