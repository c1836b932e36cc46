-- ===== src/Arena.antt =====
-- src/core/vl_arena.c, include/core/vl/vl_arena.h: a growing block of memory that is handed out in
-- pieces, with a set of its free regions.
pub mod Cover
pub mod Positive
pub mod Tiled
pub mod Alloc
pub mod Free
pub mod Realloc
pub mod Moved
pub mod Reserve
pub mod Runs
pub mod FreeSet
mod Examples
use veritable_lasagna.Base.{
  ℕ, zero, suc, ◌+◌, ◌-◌, ◌%◌, ◌^◌, Bool, Option, none, some, List, [], ◌∷◌, ltb, leb, ◌==◌,
  if◌then◌else◌,
}
use veritable_lasagna.Buffer.{grow, copied}
use veritable_lasagna.Stack.{word_at, set_word}

-- A `vl_arena_node`: a free region.
pub record Region : Type 0 where
  pub offset : ℕ
  pub size : ℕ

-- `capacity` is the size of the allocation `data`, `bytes` its contents, and `free` the list of the
-- regions that the set `freeSet` stands for, in the order of their offsets.
pub record Arena : Type 0 where
  pub capacity : ℕ
  pub bytes : ℕ → ℕ
  pub free : List Region

-- vlSetInsert on the free set: a region with an offset that is there is not added.
pub insert_region : Region → List Region → List Region
insert_region r [] = r ∷ []
insert_region r (q ∷ qs) =
    let rest = q ∷ insert_region r qs in
    if q.offset == r.offset then q ∷ qs else if ltb r.offset q.offset then r ∷ (q ∷ qs) else rest

-- vlSetFind and vlSetRemove on the free set
pub find_region : ℕ → List Region → Option Region
find_region o [] = none
find_region o (q ∷ qs) = let rest = find_region o qs in if q.offset == o then some q else rest

pub remove_region : ℕ → List Region → List Region
remove_region o [] = []
remove_region o (q ∷ qs) = let rest = q ∷ remove_region o qs in if q.offset == o then qs else rest

-- Whether the second region begins where the first one ends.
abbrev pub is_adjacent : Region → Region → Bool
is_adjacent l r = (l.offset + l.size) == r.offset

-- The two phases of vl_HeapCoalesce. The regions in front of the current one are in reverse order.
pub scan_right : List Region → Region → List Region → List Region × Region × List Region
scan_right passed r [] = (passed, r, [])
scan_right passed r (q ∷ qs) =
    let rest = scan_right (r ∷ passed) q qs in if is_adjacent r q then rest else (passed, r, q ∷ qs)

pub merge_left : List Region → Region → List Region × Region
merge_left [] r = ([], r)
merge_left (l ∷ ls) r =
    let rest = merge_left ls (record l { size = l.size + r.size }) in
    if is_adjacent l r then rest else (l ∷ ls, r)

pub rejoin : List Region → List Region → List Region
rejoin [] rest = rest
rejoin (p ∷ passed) rest = rejoin passed (p ∷ rest)

-- vl_HeapCoalesce at the region with an offset.
pub merged : List Region → Region → List Region → List Region
unfolding scan_right merge_left rejoin
merged passed r rs =
    let (before, last, rest) = scan_right passed r rs in
    let (kept, one) = merge_left before last in rejoin kept (one ∷ rest)

pub coalesce : ℕ → List Region → List Region → List Region
unfolding merged rejoin
coalesce o passed [] = rejoin passed []
coalesce o passed (r ∷ rs) =
    let rest = coalesce o (r ∷ passed) rs in if r.offset == o then merged passed r rs else rest

-- `vl_HeapCoalesce(arena, vlSetInsert(&arena->freeSet, &newNode))`
pub release : Region → List Region → List Region
unfolding coalesce insert_region
release r free = coalesce r.offset [] (insert_region r free)

-- vlArenaInit, where the allocation succeeds, and vlArenaClear
pub init : (ℕ → ℕ) → ℕ → Arena
init bytes size = record {
  capacity = size;
  bytes = bytes;
  free = record { offset = 0; size = size } ∷ [];
}

pub clear : Arena → Arena
clear a = record a { free = record { offset = 0; size = a.capacity } ∷ [] }

-- The search of vlArenaMemAlloc for the first region that is large enough. It is used up, or the
-- piece is cut off at its end.
abbrev pub keep : Region → Option (ℕ × List Region) → Option (ℕ × List Region)
keep q none = none
keep q (some (p, rs)) = some (p, q ∷ rs)

pub take_first : ℕ → List Region → Option (ℕ × List Region)
take_first n [] = none
take_first n (q ∷ qs) =
    let rest = keep q (take_first n qs) in
    if q.size == n
    then some (q.offset, qs)
    else if ltb n q.size
    then some (q.offset + (q.size - n), record q { size = q.size - n } ∷ qs)
    else rest

-- `arena->data = vlMemRealloc(arena->data, newSize)`, where it succeeds. `more` is what the new
-- bytes hold.
pub enlarge : (ℕ → ℕ) → ℕ → Arena → Arena
enlarge more new_size a = record a {
  capacity = new_size;
  bytes = λ i. if ltb i a.capacity then a.bytes i else more i;
}

-- A block begins with its size.
pub set_size : ℕ → ℕ → Arena → Arena
set_size at n a = record a { bytes = set_word a.bytes at n }

-- The growth of vlArenaMemAlloc: the piece is the end of the new memory.
pub alloc_grown : (ℕ → ℕ) → ℕ → Arena → ℕ → ℕ × Arena
unfolding enlarge set_size release
alloc_grown more n a new_size =
    let init_size = a.capacity in
    let growth = new_size - init_size in
    let b = enlarge more new_size a in
    let at = init_size + (growth - n) in
    (
      at + 8,
      set_size at n
          (record b { free = release (record { offset = init_size; size = growth - n }) b.free }),
    )

-- The growth, where its loop ends with a size. The loop is that of vlBufferWrite.
pub alloc_more : (ℕ → ℕ) → ℕ → Arena → Option ℕ → Option (ℕ × Arena)
unfolding alloc_grown
alloc_more more n a none = none
alloc_more more n a (some new_size) = some (alloc_grown more n a new_size)

pub alloc_in : (ℕ → ℕ) → ℕ → Arena → Option (ℕ × List Region) → Option (ℕ × Arena)
unfolding alloc_more set_size
alloc_in more n a (some (p, rest)) = some (p + 8, set_size p n (record a { free = rest }))
alloc_in more n a none = alloc_more more n a (grow 65 a.capacity ((n + a.capacity) % 2 ^ 64))

-- vlArenaMemAlloc. `none` means that the loop of the growth does not end.
pub alloc : (ℕ → ℕ) → Arena → ℕ → Option (ℕ × Arena)
unfolding take_first alloc_in
alloc more a size =
    let n = (size + 8) % 2 ^ 64 in
    if size == 0 then some (0, a) else alloc_in more n a (take_first n a.free)

-- vlArenaMemFree, and vlArenaMemSize
pub free : Arena → ℕ → Arena
unfolding release
free a ptr =
    let p = (ptr + 2 ^ 64 - 8) % 2 ^ 64 in
    let size = word_at a.bytes p in
    if size == 0 then a else record a { free = release (record { offset = p; size = size }) a.free }

pub mem_size : Arena → ℕ → ℕ
mem_size a ptr = (word_at a.bytes ((ptr + 2 ^ 64 - 8) % 2 ^ 64) + 2 ^ 64 - 8) % 2 ^ 64

-- vlArenaMemRealloc: the block shrinks, or grows into the free region behind it, or moves. A block of
-- the size that is asked for is returned by the offset of its size, and a block that moves is
-- copied from the offset of its size.
pub shrink : Arena → ℕ → ℕ → ℕ → Arena
unfolding set_size release
shrink a p n old =
    set_size p n (record a { free = release (record { offset = p + n; size = old - n }) a.free })

pub extend : Arena → ℕ → ℕ → ℕ → Region → Arena
unfolding set_size remove_region insert_region
extend a p n old r =
    let rest = remove_region (p + old) a.free in
    let cut = insert_region (record { offset = p + n; size = old + r.size - n }) rest in
    set_size p n (record a { free = if r.size + old == n then rest else cut })

pub move : ℕ → ℕ → Option (ℕ × Arena) → Option (ℕ × Arena)
unfolding free
move p old none = none
move p old (some (result, a)) =
    some
      (result, free (record a { bytes = copied a.bytes result old (λ i. a.bytes (p + i)) }) (p + 8))

pub extend_or_move : (ℕ → ℕ) → Arena → ℕ → ℕ → ℕ → Option Region → Option (ℕ × Arena)
unfolding extend move alloc
extend_or_move more a p n old none = move p old (alloc more a n)
extend_or_move more a p n old (some r) =
    if leb n (r.size + old) then some (p + 8, extend a p n old r) else move p old (alloc more a n)

pub realloc : (ℕ → ℕ) → Arena → ℕ → ℕ → Option (ℕ × Arena)
unfolding shrink extend_or_move find_region
realloc more a ptr size =
    let p = (ptr + 2 ^ 64 - 8) % 2 ^ 64 in
    let n = (size + 8) % 2 ^ 64 in
    let old = word_at a.bytes p in
    if n == old
    then some (p, a)
    else if ltb n old
    then some (p + 8, shrink a p n old)
    else extend_or_move more a p n old (find_region (p + old) a.free)
