-- ===== src/Arena/Reserve.antt =====
-- vlArenaTotalFree and vlArenaReserve of src/core/vl_arena.c.
use veritable_lasagna.Base.{
  ℕ, zero, suc, ◌+◌, ◌-◌, ◌%◌, ◌^◌, ◌≤◌, ◌<◌, ◌≡◌, refl, sym, subst, ap, ◌∙◌, Option, none, some,
  List, [], ◌∷◌, ltb, leb, if◌then◌else◌, arith,
}
use veritable_lasagna.Buffer.{grow}
use veritable_lasagna.Buffer.Write.{grow-some}
use veritable_lasagna.Arena.{Region, Arena, enlarge, release}
use veritable_lasagna.Arena.Cover.{at_byte, weigh, cover, IsPositive, cover-release}
use veritable_lasagna.Arena.Positive.{release-IsPositive}
use veritable_lasagna.Arena.Tiled.{region, IsTiled, IsHeaded, IsHeaded-agree}

-- vlArenaTotalFree
pub total_free : List Region → ℕ
total_free [] = 0
total_free (r ∷ rs) = (r.size + total_free rs) % 2 ^ 64

-- The number of bytes that are asked for, less the free ones where it is larger.
pub wanted_bytes : ℕ → ℕ → ℕ
wanted_bytes num_bytes free_bytes =
    if leb num_bytes free_bytes then num_bytes else num_bytes - free_bytes

-- vlArenaReserve, where the reallocation succeeds. The loop is that of vlBufferWrite, and `none`
-- means that it does not end.
pub reserve_sized : (ℕ → ℕ) → Arena → Option ℕ → Option Arena
unfolding enlarge release
reserve_sized more a none = none
reserve_sized more a (some new_size) =
    let b = enlarge more new_size a in
    some (record b {
      free = release (record { offset = a.capacity; size = new_size - a.capacity }) b.free;
    })

pub reserve : (ℕ → ℕ) → Arena → ℕ → Option Arena
unfolding total_free wanted_bytes reserve_sized
reserve more a num_bytes =
    let wanted = wanted_bytes num_bytes (total_free a.free) in
    reserve_sized more a (grow 65 a.capacity ((wanted + a.capacity) % 2 ^ 64))

-- The bytes of regions, and those of them below a bound.
abbrev pub total : List Region → ℕ
total = weigh (λ r. r.size)

below : ℕ → (ℕ → ℕ) → ℕ
below zero f = 0
below (suc n) f = f n + below n f

below_add : (n : ℕ) (f g : ℕ → ℕ) → below n (λ x. f x + g x) ≡ below n f + below n g
unfolding below
below_add zero f g = refl
below_add (suc n) f g = omega (arith, below_add n f g)

below_same : (n : ℕ) (f g : ℕ → ℕ) → ((x : ℕ) → x < n → f x ≡ g x) → below n f ≡ below n g
unfolding below
below_same zero f g same = refl
below_same (suc n) f g same =
    omega (arith, same n (omega arith), below_same n f g (λ x h. same x (omega arith)))

below_ones : (n m : ℕ) → n ≤ m → below n (λ x. if ltb x m then 1 else 0) ≡ n
unfolding below
below_ones zero m h = refl
below_ones (suc n) m h = let rest = below_ones n m (omega arith) in ground arith

below_zeros : (n : ℕ) → below n (λ x. 0) ≡ 0
unfolding below
below_zeros zero = refl
below_zeros (suc n) = omega (arith, below_zeros n)

-- One region up to a byte of it.
below_region :
    (n : ℕ) (r : Region)
    → below n (λ x. at_byte x r)
      ≡ (if leb n r.offset then 0 else if leb n (r.offset + r.size) then n - r.offset else r.size)
unfolding below
below_region zero r = ground arith
below_region (suc n) r = let rest = below_region n r in ground arith

-- Where no byte from a bound on is covered, the bytes below it are all.
below_total :
    (n : ℕ) (rs : List Region)
    → IsPositive rs
    → ((x : ℕ) → n ≤ x → cover x rs ≡ 0)
    → below n (λ x. cover x rs) ≡ total rs
below_total n [] pos all = below_zeros n
below_total n (r ∷ rs) pos all =
    let here = all (r.offset + r.size - 1) in
    let some_bytes = pos.0 in
    let whole : below n (λ x. at_byte x r) ≡ r.size = below_region n r ∙ ground arith in
    below_add n (λ x. at_byte x r) (λ x. cover x rs)
    ∙ omega (arith, whole, below_total n rs pos.1 (λ x h. (let o = all x h in omega arith)))

IsHeaded-IsPositive : (bytes : ℕ → ℕ) (rs : List Region) → IsHeaded bytes rs → IsPositive rs
IsHeaded-IsPositive bytes [] h = tt
IsHeaded-IsPositive bytes (r ∷ rs) (word, enough, rest) =
    (omega arith, IsHeaded-IsPositive bytes rs rest)

tiled_total :
    (a : Arena) (live : List Region) → IsTiled a live → total a.free + total live ≡ a.capacity
tiled_total a live is =
    let free_bytes =
      below_total a.capacity a.free is.positive (λ x h. (let o = is.once x in ground arith)) in
    let live_bytes =
      below_total a.capacity live (IsHeaded-IsPositive a.bytes live is.headed)
        (λ x h. (let o = is.once x in ground arith)) in
    omega (
      arith,
      free_bytes,
      live_bytes,
      below_add a.capacity (λ x. cover x a.free) (λ x. cover x live),
      below_same a.capacity (λ x. cover x a.free + cover x live)
          (λ x. if ltb x a.capacity then 1 else 0) (λ x h. is.once x),
      below_ones a.capacity a.capacity (omega arith),
    )

-- A sum that fits a word does not wrap.
total_free-total : (rs : List Region) → total rs < 2 ^ 64 → total_free rs ≡ total rs
unfolding total_free
total_free-total [] h = refl
total_free-total (r ∷ rs) h = let rest = total_free-total rs (omega arith) in omega arith

-- The free bytes and those of the blocks, with the words of their sizes, are all of the memory.
pub total_free-IsTiled :
    (a : Arena) (live : List Region) → IsTiled a live → total_free a.free + total live ≡ a.capacity
total_free-IsTiled a live is =
    let all = tiled_total a live is in
    let narrow = is.narrow in omega (arith, total_free-total a.free (omega arith))

-- What a client gets: the blocks as they were, and as many free bytes as it asked for.
pub record Reserved (a : Arena) (live : List Region) (num_bytes : ℕ) (out : Option Arena)
    : Type 0 where
  pub arena : Arena
  pub ends : out ≡ some arena
  pub tiled : IsTiled arena live
  pub enough : num_bytes ≤ total_free arena.free
  pub keeps : (x : ℕ) → 1 ≤ cover x live → arena.bytes x ≡ a.bytes x
  pub wider : a.capacity ≤ arena.capacity

module _ (more : ℕ → ℕ) (a : Arena) (live : List Region) (is : IsTiled a live) where
  module _ (new_size : ℕ) (larger : a.capacity < new_size) (fits : new_size < 2 ^ 64) where
    abbrev added : Region
    added = region a.capacity (new_size - a.capacity)

    abbrev enlarged : Arena
    enlarged = enlarge more new_size a

    enlarged_once :
        (x : ℕ) → cover x (release added a.free) + cover x live ≡ (if ltb x new_size then 1 else 0)
    enlarged_once x =
        let behind = is.once a.capacity in
        let apart : cover a.capacity a.free ≡ 0 = ground arith in
        let more_free = cover-release x added a.free apart is.positive in
        let old = is.once x in ground arith

    enlarged_keeps : (x : ℕ) → 1 ≤ cover x live → enlarged.bytes x ≡ a.bytes x
    unfolding enlarge
    enlarged_keeps x h = let old = is.once x in ground arith

    enlarged-IsTiled : IsTiled (record enlarged { free = release added a.free }) live
    unfolding enlarge
    enlarged-IsTiled = record {
      once = enlarged_once;
      positive = release-IsPositive added a.free (omega arith) is.positive;
      headed = IsHeaded-agree a.bytes enlarged.bytes live enlarged_keeps is.headed;
      narrow = fits;
    }

    reserve_grown :
        (num_bytes : ℕ)
        → num_bytes ≤ total_free a.free + (new_size - a.capacity)
        → Reserved a live num_bytes (reserve_sized more a (some new_size))
    unfolding reserve_sized enlarge
    reserve_grown num_bytes enough =
        let b = record (enlarge more new_size a) { free = release added a.free } in
        record {
          arena = b;
          ends = refl;
          tiled = enlarged-IsTiled;
          enough =
              omega
                (arith, total_free-IsTiled a live is, total_free-IsTiled b live enlarged-IsTiled);
          keeps = enlarged_keeps;
          wider = omega (arith, larger);
        }

  -- Where just one region, held or free, has each byte of the memory, the memory is not empty, and
  -- it and the number asked for are together below 2 ^ 63, `reserve` ends, at least that number of
  -- bytes are free, just one region still has each byte, and the held blocks keep their bytes.
  pub reserve_lem :
      (num_bytes : ℕ)
      → 1 ≤ a.capacity
      → a.capacity + num_bytes < 2 ^ 63
      → Reserved a live num_bytes (reserve more a num_bytes)
  unfolding reserve wanted_bytes
  reserve_lem num_bytes some_memory room =
      let free_bytes = total_free a.free in
      let wanted = wanted_bytes num_bytes free_bytes in
      let less : wanted ≤ num_bytes = ground arith in
      let enough : num_bytes ≤ free_bytes + wanted = ground arith in
      let sum : (wanted + a.capacity) % 2 ^ 64 ≡ wanted + a.capacity = omega arith in
      let narrow = is.narrow in
      let (new_size, e, larger, wider, fits) =
        grow-some 64 a.capacity ((wanted + a.capacity) % 2 ^ 64) (omega (arith, sum)) narrow
          (omega (arith, sum)) in
      subst (Reserved a live num_bytes) (ap (reserve_sized more a) (sym e))
        (reserve_grown new_size (omega (arith, sum)) fits num_bytes (omega (arith, sum)))
