-- ===== src/Arena/Positive.antt =====
-- The calls on the free set of src/core/vl_arena.c keep its regions from being empty.
use veritable_lasagna.Base.{ℕ, ◌+◌, ◌≤◌, inl, inr, List, [], ◌∷◌, ltb, ◌==◌, arith, Bool-cases}
use veritable_lasagna.Arena.{
  Region, insert_region, is_adjacent, scan_right, merge_left, rejoin, merged, coalesce, release,
}
use veritable_lasagna.Arena.Cover.{IsPositive}

pub insert_region-IsPositive :
    (r : Region) (qs : List Region) → 1 ≤ r.size → IsPositive qs → IsPositive (insert_region r qs)
unfolding insert_region
insert_region-IsPositive r [] h pos = (h, tt)
insert_region-IsPositive r (q ∷ qs) h pos = elim (Bool-cases (q.offset == r.offset)) [
  | inl e ↦ rw e pos
  | inr e ↦ elim (Bool-cases (ltb r.offset q.offset)) [
    | inl f ↦ rw (e, f) (h, pos)
    | inr f ↦ rw (e, f) (pos.0, insert_region-IsPositive r qs h pos.1)
  ]
]

rejoin-IsPositive :
    (ps rs : List Region) → IsPositive ps → IsPositive rs → IsPositive (rejoin ps rs)
unfolding rejoin
rejoin-IsPositive [] rs a b = b
rejoin-IsPositive (p ∷ ps) rs a b = rejoin-IsPositive ps (p ∷ rs) a.1 (a.0, b)

scan_right-IsPositive :
    (ps : List Region) (r : Region) (rs : List Region)
    → IsPositive ps
    → 1 ≤ r.size
    → IsPositive rs
    → let (before, last, rest) = scan_right ps r rs in
      IsPositive before × (1 ≤ last.size) × IsPositive rest
unfolding scan_right
scan_right-IsPositive ps r [] a h b = (a, h, b)
scan_right-IsPositive ps r (q ∷ qs) a h b = elim (Bool-cases (is_adjacent r q)) [
  | inl e ↦ rw e (scan_right-IsPositive (r ∷ ps) q qs (h, a) b.0 b.1)
  | inr e ↦ rw e (a, h, b)
]

merge_left-IsPositive :
    (ls : List Region) (r : Region)
    → IsPositive ls
    → 1 ≤ r.size
    → IsPositive (merge_left ls r).0 × (1 ≤ (merge_left ls r).1.size)
unfolding merge_left
merge_left-IsPositive [] r a h = (tt, h)
merge_left-IsPositive (l ∷ ls) r a h = elim (Bool-cases (is_adjacent l r)) [
  | inl e ↦ rw e (merge_left-IsPositive ls (record l { size = l.size + r.size }) a.1 (omega arith))
  | inr e ↦ rw e (a, h)
]

merged-IsPositive :
    (ps : List Region) (r : Region) (rs : List Region)
    → IsPositive ps
    → 1 ≤ r.size
    → IsPositive rs
    → IsPositive (merged ps r rs)
unfolding merged
merged-IsPositive ps r rs a h b =
    let (before, last, rest) = scan_right-IsPositive ps r rs a h b in
    let (kept, one) = merge_left-IsPositive _ _ before last in
    rejoin-IsPositive _ _ kept (one, rest)

coalesce-IsPositive :
    (o : ℕ) (ps rs : List Region) → IsPositive ps → IsPositive rs → IsPositive (coalesce o ps rs)
unfolding coalesce
coalesce-IsPositive o ps [] a b = rejoin-IsPositive ps [] a tt
coalesce-IsPositive o ps (r ∷ rs) a b = elim (Bool-cases (r.offset == o)) [
  | inl e ↦ rw e (merged-IsPositive ps r rs a b.0 b.1)
  | inr e ↦ rw e (coalesce-IsPositive o (r ∷ ps) rs (b.0, a) b.1)
]

pub release-IsPositive :
    (r : Region) (qs : List Region) → 1 ≤ r.size → IsPositive qs → IsPositive (release r qs)
unfolding release
release-IsPositive r qs h pos =
    coalesce-IsPositive r.offset [] (insert_region r qs) tt (insert_region-IsPositive r qs h pos)
