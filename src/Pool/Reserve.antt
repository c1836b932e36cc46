-- ===== src/Pool/Reserve.antt =====
-- `reserve` of vl_pool.c adds blocks until enough elements are available.
use veritable_lasagna.Base.{ℕ, ◌^◌, ◌≤◌, ◌<◌, ◌≡◌, List, [], ◌∷◌, arith, count}
use veritable_lasagna.Pool.{Node, Pool, sample, available}
use veritable_lasagna.Pool.Owns.{Owns}

available-lt : (ns : List Node) → available ns < 2 ^ 32
available-lt [] = omega arith
available-lt (n ∷ ns) = omega arith

module _ {A : Type 0} where
  -- What `reserve` promises: room for `n` elements, while what is held stays as it is.
  pub record Reserved (p : Pool A) (live : List ℕ) (n : ℕ) (q : Pool A) : Type 0 where
    pub owns : Owns q live
    pub enough : n ≤ available q.lookup
    pub keeps : (y : ℕ) → 1 ≤ count y live → sample q y ≡ sample p y
