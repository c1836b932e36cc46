-- ===== src/LinkedList/Find.antt =====
-- `find` of vl_linked_list.c against a search in the list of the elements.
use veritable_lasagna.Base.{
  ℕ, zero, suc, ◌<◌, ◌≤◌, ◌≡◌, refl, ap, ◌∙◌, Bool, false, some, List, [], ◌∷◌, map, ◌==◌,
  if◌then◌else◌, arith, length, count, first_or, Links,
}
use veritable_lasagna.Pool.{invalid_idx}
use veritable_lasagna.Pool.Owns.{Ledger-range}
use veritable_lasagna.Linked.{prev_at, next_at, value_at}
use veritable_lasagna.Linked.Fields.{IsLinked}
use veritable_lasagna.LinkedList.{LinkedList, find_from, find, next, sample}

module _ {V : Type 0} (eq : V → V → Bool) (element : V) where
  -- The slot of the first element that is equal to the one sought, or VL_POOL_INVALID_IDX.
  abbrev pub first_match : List ℕ → List V → ℕ
  first_match [] vs = invalid_idx
  first_match (x ∷ xs) [] = invalid_idx
  first_match (x ∷ xs) (v ∷ vs) = if eq v element then x else first_match xs vs

  find_walk :
      (l : LinkedList V) (fuel before : ℕ) (ids : List ℕ) (vs : List V)
      → Links (prev_at l.ends.nodes) (next_at l.ends.nodes) before ids invalid_idx
      → map (value_at l.ends.nodes) ids ≡ vs
      → ((y : ℕ) → 1 ≤ count y ids → y < invalid_idx)
      → length ids < fuel
      → find_from fuel eq l (first_or invalid_idx ids) element ≡ some (first_match ids vs)
  unfolding find_from next sample
  find_walk l zero before ids vs links holds valid h = absurd (omega arith)
  find_walk l (suc fuel) before [] vs links holds valid h = refl
  find_walk l (suc fuel) before (x ∷ xs) [] links holds valid h = absurd (cc holds)
  find_walk l (suc fuel) before (x ∷ xs) (v ∷ vs) links holds valid h =
      let inside : x < invalid_idx = valid x (ground arith) in
      let f : (x == invalid_idx) ≡ false = ground arith in
      let value : value_at l.ends.nodes x ≡ v = cc holds in
      let rest =
        find_walk l fuel x xs vs links.2 (cc holds) (λ y k. valid y (ground arith)) (omega arith) in
      rw (f, value, links.1, rest) (ground arith)

  -- With more fuel than the list has elements, `find` returns the iterator of the first element
  -- that is equal to the one sought, or VL_POOL_INVALID_IDX if there is none.
  pub find-first_match :
      (l : LinkedList V) (ids : List ℕ) (vs : List V) (fuel : ℕ)
      → IsLinked l.ends ids vs
      → length ids < fuel
      → find fuel eq l element ≡ some (first_match ids vs)
  unfolding find
  find-first_match l ids vs fuel is h =
      ap (λ z. find_from fuel eq l z element) is.head
      ∙ find_walk l fuel invalid_idx ids vs is.links is.holds
          (λ y k. (Ledger-range ids y is.owns (omega arith)).2) h
