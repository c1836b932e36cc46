-- ===== src/Arena/Runs.antt =====
-- Sequences of calls on the arena of vl_arena.c.
use veritable_lasagna.Base.{
  ℕ, ◌+◌, ◌-◌, ◌^◌, ◌≤◌, ◌<◌, ◌≡◌, refl, sym, subst, ap, ◌∙◌, Option, some, List, [], ◌∷◌, ◌++◌,
  arith,
}
use veritable_lasagna.Arena.{Region, Arena, init, clear, alloc, free, mem_size}
use veritable_lasagna.Arena.Cover.{at_byte, cover}
use veritable_lasagna.Arena.Tiled.{region, IsTiled, front-IsTiled}
use veritable_lasagna.Arena.Alloc.{block, alloc-Allocated}
use veritable_lasagna.Arena.Free.{free-IsTiled, free-capacity, mem_size_lem, inside_memory}
use veritable_lasagna.Arena.Reserve.{reserve, reserve_lem}

-- The arenas that calls can reach, with the blocks that are held: allocated and not yet freed. A
-- new arena has at least one byte, and so has a block; sums of sizes are below 2 ^ 63.
pub data Run : Arena → List Region → Type 0 where
  started : (bytes : ℕ → ℕ) (size : ℕ) → 1 ≤ size → size < 2 ^ 63 → Run (init bytes size) []
  allocated :
      (more : ℕ → ℕ) (a b : Arena) (live : List Region) (ptr size : ℕ)
      → Run a live
      → 1 ≤ size
      → a.capacity + size + 8 < 2 ^ 63
      → alloc more a size ≡ some (ptr, b)
      → Run b (block ptr size ∷ live)
  freed :
      (a : Arena) (before : List Region) (r : Region) (after : List Region)
      → Run a (before ++ (r ∷ after))
      → Run (free a (r.offset + 8)) (before ++ after)
  reserved :
      (more : ℕ → ℕ) (a b : Arena) (live : List Region) (num_bytes : ℕ)
      → Run a live
      → a.capacity + num_bytes < 2 ^ 63
      → reserve more a num_bytes ≡ some b
      → Run b live
  cleared : (a : Arena) (live : List Region) → Run a live → Run (clear a) []

-- The memory as one free region.
one_region :
    (a : Arena)
    → a.free ≡ region 0 a.capacity ∷ []
    → 1 ≤ a.capacity
    → a.capacity < 2 ^ 64
    → IsTiled a []
one_region a all some_memory narrow = record {
  once = λ x. rw all (ground arith);
  positive = rw all (some_memory, tt);
  headed = tt;
  narrow = narrow;
}

clear-IsTiled :
    (a : Arena) (live : List Region)
    → IsTiled a live
    → 1 ≤ a.capacity
    → IsTiled (clear a) [] × (1 ≤ (clear a).capacity)
unfolding clear
clear-IsTiled a live is some_memory = (one_region (clear a) refl some_memory is.narrow, some_memory)

-- A block by its offset and its pointer.
at_block : (r : Region) → 9 ≤ r.size → r ≡ block (r.offset + 8) (r.size - 8)
at_block r enough =
    sym (ap (λ o. region o (r.size - 8 + 8)) (omega arith) ∙ ap (region r.offset) (omega arith))

front_block :
    (a : Arena) (before : List Region) (r : Region) (after : List Region)
    → IsTiled a (before ++ (r ∷ after))
    → (9 ≤ r.size) × IsTiled a (before ++ (block (r.offset + 8) (r.size - 8) ∷ after))
front_block a before r after is =
    let enough = (front-IsTiled a before r after is).headed.1 in
    (enough, subst (λ q. IsTiled a (before ++ (q ∷ after))) (at_block r enough) is)

result_of : {A : Type 0} (x y : A) (out : Option A) → out ≡ some x → out ≡ some y → x ≡ y
result_of x y out e f = cc (sym e ∙ f)

pub Run-IsTiled : (a : Arena) (live : List Region) → Run a live → IsTiled a live × (1 ≤ a.capacity)
Run-IsTiled a live (started bytes size some_memory small) =
    unfold init in (one_region (init bytes size) refl some_memory (omega arith), some_memory)
Run-IsTiled a live (allocated more a' b live' ptr size run some_bytes room e) =
    let (is, some_memory) = Run-IsTiled a' live' run in
    let new = alloc-Allocated more a' live' size is some_bytes some_memory room in
    let same = result_of (new.ptr, new.arena) (ptr, b) (alloc more a' size) new.ends e in
    (
      subst (λ z. IsTiled z.1 (block z.0 size ∷ live')) same new.tiled,
      subst (λ z. 1 ≤ z.1.capacity) same (omega (arith, new.wider)),
    )
Run-IsTiled a live (freed a' before r after run) =
    let (is, some_memory) = Run-IsTiled a' (before ++ (r ∷ after)) run in
    let (enough, there) = front_block a' before r after is in
    (
      (free-IsTiled a' before after (r.offset + 8) (r.size - 8) there (omega arith)).0,
      omega (arith, free-capacity a' (r.offset + 8)),
    )
Run-IsTiled a live (reserved more a' b live' num_bytes run room e) =
    let (is, some_memory) = Run-IsTiled a' live' run in
    let new = reserve_lem more a' live' is num_bytes some_memory room in
    let same = result_of new.arena b (reserve more a' num_bytes) new.ends e in
    (
      subst (λ z. IsTiled z live') same new.tiled,
      subst (λ z. 1 ≤ z.capacity) same (omega (arith, new.wider)),
    )
Run-IsTiled a live (cleared a' live' run) =
    let (is, some_memory) = Run-IsTiled a' live' run in clear-IsTiled a' live' is some_memory

-- In every arena that is reached from a new one of 1 to 2 ^ 63 - 1 bytes by releases of any of the
-- held blocks, clears, and allocations of at least one byte and reservations for which the size of
-- the memory and the bytes asked for, with the 8 bytes of a block's header, are together below 2 ^
-- 63, a held block lies in the memory, has the size that was asked for, and shares no byte with
-- another held block or a free region.
pub Run-apart :
    (a : Arena) (before : List Region) (r : Region) (after : List Region)
    → Run a (before ++ (r ∷ after))
    → (mem_size a (r.offset + 8) + 8 ≡ r.size)
      × (r.offset + r.size ≤ a.capacity)
      × ((x : ℕ) → 1 ≤ at_byte x r → cover x (before ++ after) + cover x a.free ≡ 0)
Run-apart a before r after run =
    let (is, some_memory) = Run-IsTiled a (before ++ (r ∷ after)) run in
    let (enough, there) = front_block a before r after is in
    let front = front-IsTiled a before (block (r.offset + 8) (r.size - 8)) after there in
    let own = front-IsTiled a before r after is in
    let past : 8 ≤ r.offset + 8 = omega arith in
    (
      omega (arith, mem_size_lem a (before ++ after) (r.offset + 8) (r.size - 8) front past),
      omega (arith, inside_memory a (before ++ after) (r.offset + 8) (r.size - 8) front past),
      λ x h. (let o = own.once x in ground arith),
    )
