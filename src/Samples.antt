-- ===== src/Samples.antt =====
-- Test data: a pool with one block of sixteen elements, whose first two are held.
use veritable_lasagna.Base.{ℕ, zero, suc, ◌^◌, refl, List, [], ◌∷◌, arith}
use veritable_lasagna.Pool.{Node, Pool}
use veritable_lasagna.Pool.Owns.{Ledger}
use veritable_lasagna.Pool.Take.{CanGrow}
use veritable_lasagna.Pool.Tables.{TableFits}

abbrev pub sample_nodes : List Node
sample_nodes = record { total_taken = 2; block_size = 16 } ∷ []

-- The indices of the first and the second element of the block.
abbrev pub first : ℕ
first = 0

abbrev pub second : ℕ
second = 2 ^ 32

abbrev pub sample_pool : {A : Type 0} → (ℕ → ℕ → A) → Pool A
sample_pool slots = record {
  growth_increment = 32;
  lookup = sample_nodes;
  lookup_capacity = 16;
  table_size = 16;
  free_capacity = 16;
  free_stack = [];
  slots = slots;
}

pub sample_nodes-Ledger : Ledger sample_nodes [] (first ∷ second ∷ [])
sample_nodes-Ledger = record {
  unique = λ x. ground arith;
  taken = λ i. elim i [ zero ↦ ground arith | suc j ↦ ground arith ];
  below = λ x h. ground arith;
  fits = λ i. elim i [ zero ↦ ground arith | suc j ↦ ground arith ];
  narrow = λ i. elim i [ zero ↦ ground arith | suc j ↦ ground arith ];
  few = omega arith;
}

pub sample_pool-CanGrow : {A : Type 0} (slots : ℕ → ℕ → A) → CanGrow (sample_pool slots)
sample_pool-CanGrow slots = record { block = omega arith; room = omega arith }

pub sample_pool-TableFits : {A : Type 0} (slots : ℕ → ℕ → A) → TableFits (sample_pool slots)
sample_pool-TableFits slots = record { used = omega arith; recorded = refl; pos = omega arith }
