-- ===== src/Stack/Examples.antt =====
-- The theorems on vl_stack.c at a fresh stack, and at one that holds a block of five bytes.
use veritable_lasagna.Base.{ℕ, ◌-◌, ◌<◌, ◌≡◌, refl, some, [], ◌∷◌, leb, ◌==◌, if◌then◌else◌, arith}
use veritable_lasagna.Stack.{Stack, init, push_value, peek, peek_size, pop}
use veritable_lasagna.Stack.Lifo.{IsStack, pop-IsStack, pop-push_value}

abbrev zeros : ℕ → ℕ
zeros i = 0

abbrev numbers : ℕ → ℕ
numbers i = i

abbrev fresh : Stack
fresh = init zeros

abbrev held : Stack
held = record {
  depth = 1;
  head_offset = 0;
  buffer = record {
    size = 40;
    offset = 24;
    capacity = 64;
    bytes = λ i. if i == 0 then 5 else if leb 16 i then i - 16 else 0;
  };
}

held-IsStack : IsStack held ((5, numbers) ∷ [])
held-IsStack = record {
  fits = record { used = omega arith; pos = omega arith; narrow = omega arith };
  inside = omega arith;
  low = omega arith;
  few = omega arith;
  counted = refl;
  blocks = (omega arith, refl, (λ i h. ground arith), (refl, refl));
}

pop-IsStack_example :
    (peek_size held ≡ 5) × ((i : ℕ) → i < 5 → peek held i ≡ i) × IsStack (pop held) []
pop-IsStack_example = pop-IsStack held 5 numbers [] held-IsStack

pop-push_value_example :
    (at : ℕ) × (s' : Stack) × (push_value zeros held zeros 7 ≡ some (at, s'))
    × ((pop s').depth ≡ 1)
    × ((pop s').head_offset ≡ 0)
    × ((pop s').buffer.offset ≡ 24)
    × ((i : ℕ) → i < 24 → (pop s').buffer.bytes i ≡ held.buffer.bytes i)
pop-push_value_example =
    pop-push_value zeros held zeros 7 ((5, numbers) ∷ []) held-IsStack (omega arith) (omega arith)
