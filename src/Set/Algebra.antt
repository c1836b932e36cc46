-- ===== src/Set/Algebra.antt =====
-- vlSetClone, vlSetCopy and the operations on two sets of src/core/vl_set.c. The two sets have the same
-- element size and comparator, and the destination is neither of them: the code makes a new one then.
use Prim.Native.Nat.{Ordering}
use veritable_lasagna.Base.{
  ℕ, zero, suc, Bool, true, false, Option, none, some, ◌==◌, leb, if◌then◌else◌,
}
use veritable_lasagna.Pool
use veritable_lasagna.Pool.{Pool, invalid_idx}
use veritable_lasagna.Set.{Slot, Set, sample, front, back, next, find}
use veritable_lasagna.Set.Insertion.{insert}

module _ {V : Type 0} where
  abbrev dropped : Option (ℕ × Set V) → Option (Set V)
  dropped none = none
  dropped (some (i, s)) = some s

  -- The loops over the elements of `src` from `cur` on, up to `end` or to the last one. `add` is their
  -- body. `none` means that the fuel of a loop ran out.
  unfoldable pub each :
      ℕ → ℕ → (V → Set V → Option (Set V)) → Set V → ℕ → ℕ → Set V → Option (Set V)
  each zero steps add src cur end dest = none
  each (suc fuel) steps add src cur end dest =
      let go = λ (i : ℕ) (d : Set V). each fuel steps add src i end d in
      if cur == invalid_idx then some dest else elim (add (sample src cur) dest) [
        | none ↦ none
        | some dest' ↦
            if cur == end
            then some dest'
            else elim (next steps src cur) [ none ↦ none | some after ↦ go after dest' ]
      ]

  unfoldable pub each_from :
      ℕ → (V → Set V → Option (Set V)) → Set V → Option ℕ → Option ℕ → Set V → Option (Set V)
  each_from fuel add src none end dest = none
  each_from fuel add src (some begin) none dest = none
  each_from fuel add src (some begin) (some end) dest = each fuel fuel add src begin end dest

  module _ (fuel : ℕ) (block : Option (ℕ → Slot V)) (cmp : V → V → Ordering) where
    unfoldable pub adding : V → Set V → Option (Set V)
    adding elem dest = dropped (insert fuel block cmp dest elem)

    -- The body of an intersection or a difference: `there` says whether it takes what is in `b`.
    unfoldable pub adding_if : Bool → Set V → V → Set V → Option (Set V)
    adding_if there b elem dest = elim (find fuel cmp b elem) [
      | none ↦ none
      | some i ↦
          if (if i == invalid_idx then false else true)
          then if there then adding elem dest else some dest
          else if there
          then some dest
          else adding elem dest
    ]

    -- VL_SET_FOREACH ends behind the last element.
    unfoldable pub for_each : (V → Set V → Option (Set V)) → Set V → Set V → Option (Set V)
    for_each add src dest = each_from fuel add src (front fuel src) (some invalid_idx) dest

    -- vlSetCopy, where VL_SET_ITER_INVALID stands for the first or the last element.
    unfoldable pub copy : Set V → ℕ → ℕ → Set V → Option (Set V)
    copy src begin end dest =
        if src.total_elements == 0
        then some dest
        else each_from fuel adding src (if begin == invalid_idx then front fuel src else some begin)
            (if end == invalid_idx then back fuel src else some end) dest

    unfoldable pub then_each : Set V → Option (Set V) → Option (Set V)
    then_each src none = none
    then_each src (some dest) = for_each adding src dest

    -- vlSetUnion, vlSetIntersection, vlSetDifference
    unfoldable pub union : Set V → Set V → Set V → Option (Set V)
    union a b dest = then_each b (for_each adding a dest)

    unfoldable pub intersection : Set V → Set V → Set V → Option (Set V)
    intersection a b dest =
        if leb a.total_elements b.total_elements
        then for_each (adding_if true b) a dest
        else for_each (adding_if true a) b dest

    unfoldable pub difference : Set V → Set V → Set V → Option (Set V)
    difference a b dest =
        if b.total_elements == 0
        then for_each adding a dest
        else for_each (adding_if false b) a dest

  -- vlSetClone into an existing set.
  unfoldable pub clone : Set V → Set V → Option (Set V)
  clone src dest = elim (Pool.clone src.node_pool dest.node_pool) [
    | none ↦ none
    | some p ↦ some (record { node_pool = p; root = src.root; total_elements = src.total_elements })
  ]
