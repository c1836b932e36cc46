-- ===== src/Arena/Cover.antt =====
-- Which bytes a list of regions covers, and how often.
use veritable_lasagna.Base.{
  ℕ, ◌+◌, ◌-◌, ◌≤◌, ◌<◌, ◌≡◌, ◌⊎◌, inl, inr, refl, true, false, ◌&&◌, none, some, List, [], ◌∷◌,
  ltb, leb, ◌==◌, if◌then◌else◌, arith, Bool-cases, ==_iff, ltb→lt,
}
use veritable_lasagna.Arena.{
  Region, insert_region, is_adjacent, scan_right, merge_left, rejoin, merged, coalesce, release,
  take_first,
}

abbrev pub at_byte : ℕ → Region → ℕ
at_byte x r = if leb r.offset x && ltb x (r.offset + r.size) then 1 else 0

-- The sum of a measure of the regions, and how often a byte is covered.
abbrev pub weigh : (Region → ℕ) → List Region → ℕ
weigh m [] = 0
weigh m (r ∷ rs) = m r + weigh m rs

abbrev pub cover : ℕ → List Region → ℕ
cover x = weigh (at_byte x)

abbrev pub IsPositive : List Region → Type 0
IsPositive [] = Unit {0}
IsPositive (r ∷ rs) = (1 ≤ r.size) × IsPositive rs

-- Two adjacent regions cover what the joined one covers.
at_byte_joined :
    (x : ℕ) (l r : Region)
    → is_adjacent l r ≡ true
    → at_byte x (record l { size = l.size + r.size }) ≡ at_byte x l + at_byte x r
at_byte_joined x l r e = ground arith

-- What the operations of the free set make of a sum, where two adjacent regions count as the joined one.
module _ (m : Region → ℕ)
    (joins : (l r : Region)
      → is_adjacent l r ≡ true
      → m (record l { size = l.size + r.size }) ≡ m l + m r) where
  -- A region with an offset that no other one covers is added.
  pub weigh-insert_region :
      (r : Region) (qs : List Region)
      → cover r.offset qs ≡ 0
      → IsPositive qs
      → weigh m (insert_region r qs) ≡ m r + weigh m qs
  unfolding insert_region
  weigh-insert_region r [] apart pos = refl
  weigh-insert_region r (q ∷ qs) apart pos =
      let other : (q.offset == r.offset) ≡ false = (let one = pos.0 in ground arith) in
      elim (Bool-cases (ltb r.offset q.offset)) [
        | inl e ↦ rw (other, e) refl
        | inr e ↦ rw (other, e) (omega (arith, weigh-insert_region r qs (omega arith) pos.1))
      ]

  pub weigh-rejoin : (ps rs : List Region) → weigh m (rejoin ps rs) ≡ weigh m ps + weigh m rs
  unfolding rejoin
  weigh-rejoin [] rs = omega arith
  weigh-rejoin (p ∷ ps) rs = omega (arith, weigh-rejoin ps (p ∷ rs))

  weigh-scan_right :
      (ps : List Region) (r : Region) (rs : List Region)
      → let (before, last, rest) = scan_right ps r rs in
        weigh m before + m last + weigh m rest ≡ weigh m ps + m r + weigh m rs
  unfolding scan_right
  weigh-scan_right ps r [] = refl
  weigh-scan_right ps r (q ∷ qs) = elim (Bool-cases (is_adjacent r q)) [
    | inl e ↦ rw e (omega (arith, weigh-scan_right (r ∷ ps) q qs))
    | inr e ↦ rw e refl
  ]

  weigh-merge_left :
      (ls : List Region) (r : Region)
      → weigh m (merge_left ls r).0 + m (merge_left ls r).1 ≡ weigh m ls + m r
  unfolding merge_left
  weigh-merge_left [] r = refl
  weigh-merge_left (l ∷ ls) r = elim (Bool-cases (is_adjacent l r)) [
    | inl e ↦
        rw e (omega (arith, weigh-merge_left ls (record l { size = l.size + r.size }), joins l r e))
    | inr e ↦ rw e refl
  ]

  pub weigh-merged :
      (ps : List Region) (r : Region) (rs : List Region)
      → weigh m (merged ps r rs) ≡ weigh m ps + m r + weigh m rs
  unfolding merged
  weigh-merged ps r rs =
      let (before, last, rest) = scan_right ps r rs in
      let (kept, one) = merge_left before last in
      omega (
        arith,
        weigh-rejoin kept (one ∷ rest),
        weigh-merge_left before last,
        weigh-scan_right ps r rs,
      )

  weigh-coalesce :
      (o : ℕ) (ps rs : List Region) → weigh m (coalesce o ps rs) ≡ weigh m ps + weigh m rs
  unfolding coalesce
  weigh-coalesce o ps [] = weigh-rejoin ps []
  weigh-coalesce o ps (r ∷ rs) = elim (Bool-cases (r.offset == o)) [
    | inl e ↦ rw e (omega (arith, weigh-merged ps r rs))
    | inr e ↦ rw e (omega (arith, weigh-coalesce o (r ∷ ps) rs))
  ]

  -- A region that is released is covered once more.
  pub weigh-release :
      (r : Region) (qs : List Region)
      → cover r.offset qs ≡ 0
      → IsPositive qs
      → weigh m (release r qs) ≡ m r + weigh m qs
  unfolding release
  weigh-release r qs apart pos =
      omega
        (arith, weigh-coalesce r.offset [] (insert_region r qs), weigh-insert_region r qs apart pos)

pub cover-release :
    (x : ℕ) (r : Region) (qs : List Region)
    → cover r.offset qs ≡ 0
    → IsPositive qs
    → cover x (release r qs) ≡ at_byte x r + cover x qs
cover-release x = weigh-release (at_byte x) (at_byte_joined x)

pub cover-insert_region :
    (x : ℕ) (r : Region) (qs : List Region)
    → cover r.offset qs ≡ 0
    → IsPositive qs
    → cover x (insert_region r qs) ≡ at_byte x r + cover x qs
cover-insert_region x = weigh-insert_region (at_byte x) (at_byte_joined x)

-- The piece that is taken, and what is left.
pub record Taken (n : ℕ) (qs : List Region) (p : ℕ) (rest : List Region) : Type 0 where
  pub covers : (x : ℕ) → cover x rest + at_byte x (record { offset = p; size = n }) ≡ cover x qs
  pub positive : IsPositive rest

exact_covers :
    (n x : ℕ) (q : Region) (qs : List Region)
    → q.size ≡ n
    → cover x qs + at_byte x (record { offset = q.offset; size = n }) ≡ cover x (q ∷ qs)
exact_covers n x q qs same = ground arith

cut_covers :
    (n x : ℕ) (q : Region)
    → n < q.size
    → at_byte x (record q { size = q.size - n })
        + at_byte x (record { offset = q.offset + (q.size - n); size = n })
      ≡ at_byte x q
cut_covers n x q less = ground arith

pub take_first-Taken :
    (n : ℕ) (qs : List Region)
    → IsPositive qs
    → (take_first n qs ≡ none)
      ⊎ ((p : ℕ) × (rest : List Region) × (take_first n qs ≡ some (p, rest)) × Taken n qs p rest)
unfolding take_first
take_first-Taken n [] pos = inl refl
take_first-Taken n (q ∷ qs) pos = elim (Bool-cases (q.size == n)) [
  | inl same ↦ inr (
    q.offset,
    qs,
    rw same refl,
    record { covers = λ x. exact_covers n x q qs ((==_iff q.size n).0 same); positive = pos.1 },
  )
  | inr other ↦ elim (Bool-cases (ltb n q.size)) [
    | inl less ↦ inr (
      q.offset + (q.size - n),
      record q { size = q.size - n } ∷ qs,
      rw (other, less) refl,
      record {
        covers = λ x. omega (arith, cut_covers n x q (ltb→lt n q.size less));
        positive = (omega (arith, ltb→lt n q.size less), pos.1);
      },
    )
    | inr more ↦ elim (take_first-Taken n qs pos.1) [
      | inl e ↦ inl (rw (other, more, e) refl)
      | inr (p, rest, e, taken) ↦ inr (
        p,
        q ∷ rest,
        rw (other, more, e) refl,
        record { covers = λ x. omega (arith, taken.covers x); positive = (pos.0, taken.positive) },
      )
    ]
  ]
]
