-- ===== src/Pool/Examples.antt =====
-- The theorems on vl_pool.c at a pool with two held elements.
use veritable_lasagna.Base.{
  ℕ, zero, suc, ◌%◌, ◌^◌, ◌≤◌, ◌<◌, refl, ◌∙◌, length, length-append, ◌+◌, ◌≡◌, ◌⊎◌, none, some,
  List, [], ◌∷◌, arith,
}
use veritable_lasagna.Samples.{first, second, sample_pool, sample_nodes-Ledger}
use veritable_lasagna.Pool.{
  Pool, take, return_idx, sample, clone, invalid_idx, init, node_added, fresh_node,
}
use veritable_lasagna.Pool.Owns.{Ledger, Owns, Ledger-new}
use veritable_lasagna.Pool.Take.{Handed, take_null}
use veritable_lasagna.Pool.Give.{return_idx-Owns, Ledger-single}
use veritable_lasagna.Pool.Tables.{Cloned, clone_lem}

abbrev slots : ℕ → ℕ → ℕ
slots n e = e + 10

abbrev block : ℕ → ℕ
block e = 0

abbrev held : List ℕ
held = first ∷ second ∷ []

abbrev pool : Pool ℕ
pool = sample_pool slots

take_null_example :
    Handed pool held (take none pool).0 (take none pool).1 ⊎ (take none pool ≡ (invalid_idx, pool))
take_null_example = take_null pool held sample_nodes-Ledger

return_idx-Owns_example :
    Owns (return_idx pool first) (second ∷ [])
    × ((y : ℕ) → sample (return_idx pool first) y ≡ sample pool y)
return_idx-Owns_example = return_idx-Owns pool (second ∷ []) first sample_nodes-Ledger

-- A pool as it is set up, and after more blocks were added.
abbrev initial : Pool ℕ
initial = record {
  growth_increment = 16;
  lookup = fresh_node 16 ∷ [];
  lookup_capacity = 16;
  table_size = 16;
  free_capacity = 16;
  free_stack = [];
  slots = λ i. block;
}

initial-init : init (some block) ≡ some initial
unfolding init
initial-init = refl

grown : ℕ → Pool ℕ → Pool ℕ
unfolding node_added
grown zero p = p
grown (suc n) p = node_added block (grown n p)

abbrev wide_pool : Pool ℕ
wide_pool = grown 16 initial

grown-length : (n : ℕ) → length (grown n initial).lookup ≡ n + 1
unfolding grown node_added
grown-length zero = refl
grown-length (suc n) =
    let p = grown n initial in
    length-append p.lookup (fresh_node (p.growth_increment % 2 ^ 32) ∷ [])
    ∙ omega (arith, grown-length n)

grown-Ledger : (n : ℕ) → n < 1000 → Ledger (grown n initial).lookup [] []
unfolding grown node_added
grown-Ledger zero h = Ledger-single 16 (omega arith)
grown-Ledger (suc n) h =
    let p = grown n initial in
    Ledger-new p.lookup [] [] (p.growth_increment % 2 ^ 32) (grown-Ledger n (omega arith))
      (omega arith) (omega (arith, grown-length n))

wide_pool-Owns : Owns wide_pool []
unfolding grown node_added
wide_pool-Owns = grown-Ledger 16 (omega arith)

-- Seventeen blocks do not fit the table of a new pool.
clone_lem_example :
    (length wide_pool.lookup ≤ 16 → Cloned wide_pool [] (clone wide_pool initial))
    × (16 < length wide_pool.lookup → clone wide_pool initial ≡ none)
clone_lem_example =
    clone_lem wide_pool initial [] wide_pool-Owns (omega (arith, grown-length 16)) (omega arith)
