-- ===== src/Arena/Tiled.antt =====
-- The blocks and the free regions of an arena of vl_arena.c tile its memory.
use veritable_lasagna.Base.{
  ℕ, ◌+◌, ◌^◌, ◌≤◌, ◌<◌, ◌≡◌, ◌∙◌, List, [], ◌∷◌, ◌++◌, ltb, if◌then◌else◌, arith,
}
use veritable_lasagna.Buffer.Write.{copied-outside}
use veritable_lasagna.Stack.{word_at, set_word, digit}
use veritable_lasagna.Stack.Words.{word_at-set_word, word_at-agree}
use veritable_lasagna.Arena.{Region, Arena, set_size}
use veritable_lasagna.Arena.Cover.{at_byte, cover, IsPositive}

abbrev pub region : ℕ → ℕ → Region
region offset size = record { offset = offset; size = size }

-- Each block begins with its size, which is that of the word and of at least one byte.
abbrev pub IsHeaded : (ℕ → ℕ) → List Region → Type 0
IsHeaded bytes [] = Unit {0}
IsHeaded bytes (r ∷ rs) = (word_at bytes r.offset ≡ r.size) × (9 ≤ r.size) × IsHeaded bytes rs

-- Every byte of the memory belongs to just one region, free or held by a client.
pub record IsTiled (a : Arena) (live : List Region) : Type 0 where
  pub once : (x : ℕ) → cover x a.free + cover x live ≡ (if ltb x a.capacity then 1 else 0)
  pub positive : IsPositive a.free
  pub headed : IsHeaded a.bytes live
  pub narrow : a.capacity < 2 ^ 64

-- A store of a size, away from a byte.
pub set_word-outside :
    (bytes : ℕ → ℕ) (p n v i : ℕ)
    → 8 ≤ n
    → at_byte i (region p n) ≡ 0
    → set_word bytes p v i ≡ bytes i
set_word-outside bytes p n v i h away = copied-outside bytes p 8 i (digit v) (ground arith)

-- Blocks whose sizes are not written over.
pub IsHeaded-agree :
    (f g : ℕ → ℕ) (rs : List Region)
    → ((x : ℕ) → 1 ≤ cover x rs → g x ≡ f x)
    → IsHeaded f rs
    → IsHeaded g rs
IsHeaded-agree f g [] same h = tt
IsHeaded-agree f g (r ∷ rs) same (word, enough, rest) = (
  word_at-agree g f r.offset (λ i a b. same i (ground arith)) ∙ word,
  enough,
  IsHeaded-agree f g rs (λ x k. same x (omega arith)) rest,
)

-- The bytes of one region, one list, and the new block.
pub set_size-IsTiled :
    (a : Arena) (p n : ℕ) (live : List Region)
    → ((x : ℕ)
        → cover x a.free + (at_byte x (region p n) + cover x live)
          ≡ (if ltb x a.capacity then 1 else 0))
    → IsPositive a.free
    → IsHeaded a.bytes live
    → a.capacity < 2 ^ 64
    → 9 ≤ n
    → n < 2 ^ 64
    → IsTiled (set_size p n a) (region p n ∷ live)
      × ((x : ℕ) → 1 ≤ cover x live → (set_size p n a).bytes x ≡ a.bytes x)
unfolding set_size
set_size-IsTiled a p n live once positive headed narrow enough fits =
    let keeps : (x : ℕ) → 1 ≤ cover x live → set_word a.bytes p n x ≡ a.bytes x =
      λ x h. set_word-outside a.bytes p n n x (omega arith) (let o = once x in ground arith) in
    (
      record {
        once = once;
        positive = positive;
        headed = (
          word_at-set_word a.bytes p n fits,
          enough,
          IsHeaded-agree a.bytes (set_word a.bytes p n) live keeps headed,
        );
        narrow = narrow;
      },
      keeps,
    )

-- Lists that are put together.
pub cover-append : (x : ℕ) (rs qs : List Region) → cover x (rs ++ qs) ≡ cover x rs + cover x qs
cover-append x [] qs = omega arith
cover-append x (r ∷ rs) qs = omega (arith, cover-append x rs qs)

pub append-IsHeaded :
    (bytes : ℕ → ℕ) (rs qs : List Region)
    → IsHeaded bytes rs
    → IsHeaded bytes qs
    → IsHeaded bytes (rs ++ qs)
append-IsHeaded bytes [] qs a b = b
append-IsHeaded bytes (r ∷ rs) qs (word, enough, rest) b =
    (word, enough, append-IsHeaded bytes rs qs rest b)

pub IsHeaded-append :
    (bytes : ℕ → ℕ) (rs qs : List Region)
    → IsHeaded bytes (rs ++ qs)
    → IsHeaded bytes rs × IsHeaded bytes qs
IsHeaded-append bytes [] qs h = (tt, h)
IsHeaded-append bytes (r ∷ rs) qs (word, enough, rest) =
    let (a, b) = IsHeaded-append bytes rs qs rest in ((word, enough, a), b)

-- A block in the middle of the list may as well stand in front.
pub front-IsTiled :
    (a : Arena) (before : List Region) (r : Region) (after : List Region)
    → IsTiled a (before ++ (r ∷ after))
    → IsTiled a (r ∷ (before ++ after))
front-IsTiled a before r after is = record {
  once =
      λ x. omega (arith, is.once x, cover-append x before (r ∷ after), cover-append x before after);
  positive = is.positive;
  headed =
      (let (b, (word, enough, rest)) = IsHeaded-append a.bytes before (r ∷ after) is.headed in
        (word, enough, append-IsHeaded a.bytes before after b rest));
  narrow = is.narrow;
}
