-- ===== src/LinkedList/Examples.antt =====
-- The theorems on vl_linked_list.c at a list with the elements 7 and 9.
use veritable_lasagna.Base.{ℕ, ◌≡◌, refl, some, [], ◌∷◌}
use veritable_lasagna.Samples.{first, second, sample_pool-CanGrow}
use veritable_lasagna.LinkedSamples.{linked_slots, linked_block, two_ends, two_ends-IsLinked}
use veritable_lasagna.Linked.Fields.{IsLinked}
use veritable_lasagna.LinkedList.{LinkedList, pop_front, insert_after, remove}
use veritable_lasagna.LinkedList.Insert.{insert_after-IsLinked}
use veritable_lasagna.LinkedList.Remove.{remove-IsLinked}

abbrev list : LinkedList ℕ
list = record { ends = two_ends; length = 2 }

-- The list without its first element.
abbrev single : LinkedList ℕ
single = pop_front list

insert_after-IsLinked_example :
    let (new, l) = insert_after (some linked_block) list first 5 in
    IsLinked l.ends (first ∷ new ∷ second ∷ []) (7 ∷ 5 ∷ 9 ∷ [])
insert_after-IsLinked_example =
    insert_after-IsLinked list 5 linked_block [] first second [] [] 7 (9 ∷ []) two_ends-IsLinked
      refl (sample_pool-CanGrow linked_slots)

remove-IsLinked_example :
    IsLinked (remove list second).ends (first ∷ []) (7 ∷ []) × ((remove list second).length ≡ 2)
remove-IsLinked_example =
    remove-IsLinked list (first ∷ []) second [] (7 ∷ []) 9 [] two_ends-IsLinked refl
