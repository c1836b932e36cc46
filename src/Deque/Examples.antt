-- ===== src/Deque/Examples.antt =====
-- The theorems on vl_deque.c at a deque with the elements 7 and 9.
use veritable_lasagna.Base.{ℕ, ◌≡◌, refl, some, [], ◌∷◌}
use veritable_lasagna.Samples.{first, second}
use veritable_lasagna.LinkedSamples.{two_ids, two_values, two_ends, two_ends-IsLinked}
use veritable_lasagna.Deque.{Deque, pop_back}
use veritable_lasagna.Deque.Refines.{IsDeque, pop_back-IsDeque}

abbrev deque : Deque ℕ
deque = record { ends = two_ends; total_elements = 2 }

deque-IsDeque : IsDeque deque two_ids two_values
deque-IsDeque = record { linked = two_ends-IsLinked; total = refl }

pop_back-IsDeque_example :
    ((pop_back deque).0 ≡ some 9) × IsDeque (pop_back deque).1 (first ∷ []) (7 ∷ [])
pop_back-IsDeque_example = pop_back-IsDeque deque (first ∷ []) second (7 ∷ []) 9 deque-IsDeque
