-- ===== src/Stream/Seek.antt =====
-- StreamMemSeek of vl_stream_memory.c: positions, and where they are clamped.
use veritable_lasagna.Base.{
  ℕ, suc, ◌+◌, ◌-◌, ◌%◌, ◌^◌, ◌≤◌, ◌<◌, ◌≡◌, ◌⊎◌, inl, inr, refl, sym, ap, ◌∙◌, Bool, true, false,
  ltb, if◌then◌else◌, arith, Bool-cases,
}
use veritable_lasagna.Compare.{less_int, less_signed}
use veritable_lasagna.MsgPack.Bytes.{ℤ, pos, negsuc, signed}
use veritable_lasagna.Stream.{MemStream, Origin, from_start, from_cursor, from_end, position, seek}
use veritable_lasagna.Stream.Bounds.{IsOpen}

-- The position that is sought, as an integer.
abbrev pub plus : ℕ → ℤ → ℤ
plus n (pos m) = pos (n + m)
plus n (negsuc m) = if ltb m n then pos (n - suc m) else negsuc (m - n)

abbrev pub base_of : MemStream → Origin → ℕ
base_of s from_start = 0
base_of s from_cursor = s.cursor
base_of s from_end = s.size

-- What a position makes of the stream: one before the start is refused, and one behind the end is
-- the end.
abbrev pub clamped : MemStream → ℤ → Bool × MemStream
clamped s (pos n) = (true, record s { cursor = if ltb s.size n then s.size else n })
clamped s (negsuc n) = (false, s)

pub signed_pos : (u : ℕ) → u < 2 ^ 63 → signed 64 u ≡ pos u
signed_pos u h = let e : ltb u (2 ^ 63) ≡ true = ground arith in rw e refl

signed_neg : (u : ℕ) → 2 ^ 63 ≤ u → signed 64 u ≡ negsuc (2 ^ 64 - 1 - u)
signed_neg u h = let e : ltb u (2 ^ 63) ≡ false = ground arith in rw e refl

-- The sum of a size and a signed word.
signed_sum :
    (b o : ℕ)
    → b < 2 ^ 63
    → o < 2 ^ 64
    → (b + o < 2 ^ 63) ⊎ (2 ^ 63 ≤ o)
    → signed 64 ((b + o) % 2 ^ 64) ≡ plus b (signed 64 o)
signed_sum b o h k (inl small) =
    signed_pos ((b + o) % 2 ^ 64) (omega arith)
    ∙ ap pos (omega arith)
    ∙ sym (ap (plus b) (signed_pos o (omega arith)))
signed_sum b o h k (inr negative) = elim (Bool-cases (ltb (2 ^ 64 - 1 - o) b)) [
  | inl less ↦
      let above : plus b (negsuc (2 ^ 64 - 1 - o)) ≡ pos (b - suc (2 ^ 64 - 1 - o)) =
        rw less refl in
      let e : 2 ^ 64 - 1 - o < b = ground arith in
      signed_pos ((b + o) % 2 ^ 64) (omega arith)
      ∙ ap pos (omega arith)
      ∙ sym (ap (plus b) (signed_neg o negative) ∙ above)
  | inr more ↦
      let below : plus b (negsuc (2 ^ 64 - 1 - o)) ≡ negsuc (2 ^ 64 - 1 - o - b) = rw more refl in
      let e : b ≤ 2 ^ 64 - 1 - o = ground arith in
      signed_neg ((b + o) % 2 ^ 64) (omega arith)
      ∙ ap negsuc (omega arith)
      ∙ sym (ap (plus b) (signed_neg o negative) ∙ below)
]

-- The bits of a position that is not before the start.
signed_bits : (p n : ℕ) → p < 2 ^ 64 → signed 64 p ≡ pos n → p ≡ n
signed_bits p n h e = elim (Bool-cases (ltb p (2 ^ 63))) [
  | inl small ↦ cc (sym (signed_pos p (ground arith)) ∙ e)
  | inr large ↦ absurd (cc (sym (signed_neg p (ground arith)) ∙ e))
]

sought : MemStream → ℕ → Bool × MemStream
sought s p =
    if less_signed 64 p 0
    then (false, s)
    else (true, record s { cursor = if less_signed 64 s.size p then s.size else p })

sought-clamped :
    (s : MemStream) (p : ℕ) (z : ℤ)
    → IsOpen s
    → p < 2 ^ 64
    → signed 64 p ≡ z
    → sought s p ≡ clamped s z
unfolding sought less_int
sought-clamped s p (pos n) is h e =
    let size = signed_pos s.size is.narrow in
    let same = signed_bits p n h e in
    let not_less : ltb n 0 ≡ false = ground arith in
    rw (e, size)
      (rw not_less
        (ap (λ k. (true, record s { cursor = if ltb s.size n then s.size else k })) same))
sought-clamped s p (negsuc n) is h e = rw e refl

position-sum :
    (s : MemStream) (offset : ℕ) (origin : Origin)
    → offset < 2 ^ 64
    → position s offset origin ≡ (base_of s origin + offset) % 2 ^ 64
unfolding position
position-sum s offset from_start h = omega arith
position-sum s offset from_cursor h = refl
position-sum s offset from_end h = refl

base_narrow : (s : MemStream) (origin : Origin) → IsOpen s → base_of s origin < 2 ^ 63
base_narrow s from_start is = omega arith
base_narrow s from_cursor is = omega (arith, is.inside, is.narrow)
base_narrow s from_end is = is.narrow

-- On an open stream, where the sum of the base and a positive offset is below 2 ^ 63, `seek`
-- refuses a position before the start and leaves the stream as it is, and otherwise moves the
-- cursor to the position, or to the end if that is before it.
pub seek-clamped :
    (s : MemStream) (offset : ℕ) (origin : Origin)
    → IsOpen s
    → offset < 2 ^ 64
    → (base_of s origin + offset < 2 ^ 63) ⊎ (2 ^ 63 ≤ offset)
    → seek s offset origin ≡ clamped s (plus (base_of s origin) (signed 64 offset))
unfolding seek sought
seek-clamped s offset origin is h fits =
    let p = position s offset origin in
    let sum = position-sum s offset origin h in
    sought-clamped s p (plus (base_of s origin) (signed 64 offset)) is (omega (arith, sum))
      (ap (signed 64) sum ∙ signed_sum (base_of s origin) offset (base_narrow s origin is) h fits)
