-- ===== src/LinkedSamples.antt =====
-- Test data: doubly linked slots with the elements 7 and 9.
use veritable_lasagna.Base.{ℕ, refl, List, [], ◌∷◌, ◌==◌, if◌then◌else◌}
use veritable_lasagna.Samples.{first, second, sample_pool, sample_nodes-Ledger}
use veritable_lasagna.Pool
use veritable_lasagna.Pool.{invalid_idx}
use veritable_lasagna.Linked.{Slot, Ends}
use veritable_lasagna.Linked.Fields.{IsLinked}

abbrev pub linked_slots : ℕ → ℕ → Slot ℕ
linked_slots n e =
    if e == 0
    then record { prev = invalid_idx; next = second; value = 7 }
    else record { prev = first; next = invalid_idx; value = 9 }

abbrev pub linked_block : ℕ → Slot ℕ
linked_block e = record { prev = 0; next = 0; value = 0 }

abbrev pub two_ids : List ℕ
two_ids = first ∷ second ∷ []

abbrev pub two_values : List ℕ
two_values = 7 ∷ 9 ∷ []

abbrev pub two_ends : Ends ℕ
two_ends = record { nodes = sample_pool linked_slots; head = first; tail = second }

pub two_ends-IsLinked : IsLinked two_ends two_ids two_values
unfolding Pool.sample
two_ends-IsLinked = record {
  owns = sample_nodes-Ledger;
  head = refl;
  tail = refl;
  links = (refl, refl, (refl, refl, tt));
  holds = refl;
}
