-- ===== src/Stream/Bounds.antt =====
-- The calls of the memory stream of vl_stream_memory.c stay inside its memory.
use veritable_lasagna.Base.{
  ℕ, ◌+◌, ◌-◌, ◌%◌, ◌^◌, ◌≤◌, ◌<◌, ◌≡◌, ◌⊎◌, inl, inr, refl, Bool, true, false, ltb, ◌==◌,
  if◌then◌else◌, arith, Bool-cases,
}
use veritable_lasagna.Buffer.{copied}
use veritable_lasagna.Buffer.Write.{copied-outside}
use veritable_lasagna.Stream.{MemStream, write_open, available, moved, advance, read, write}

-- The cursor is inside the memory, whose size is a positive signed word.
pub record IsOpen (s : MemStream) : Type 0 where
  pub inside : s.cursor ≤ s.size
  pub narrow : s.size < 2 ^ 63

pub available_lem : (s : MemStream) → IsOpen s → available s ≡ s.size - s.cursor
unfolding available
available_lem s is = let a = is.inside in let b = is.narrow in omega arith

-- The number of bytes that a call moves.
abbrev pub count_of : MemStream → ℕ → ℕ
count_of s size = if ltb (s.size - s.cursor) size then s.size - s.cursor else size

pub moved_lem : (s : MemStream) (size : ℕ) → IsOpen s → moved s size ≡ count_of s size
unfolding moved
moved_lem s size is = rw (available_lem s is) refl

-- What a call makes of the stream: it is open, with the same size and mode, `n` bytes on, and only
-- bytes that it moved over can change.
pub record Moved (s : MemStream) (n : ℕ) (t : MemStream) : Type 0 where
  pub is : IsOpen t
  pub same_size : t.size ≡ s.size
  pub same_mode : t.read_only ≡ s.read_only
  pub forward : t.cursor ≡ s.cursor + n
  pub outside : (i : ℕ) → (i < s.cursor) ⊎ (s.cursor + n ≤ i) → t.bytes i ≡ s.bytes i

advance-Moved :
    (s : MemStream) (n : ℕ) (bytes : ℕ → ℕ)
    → IsOpen s
    → n ≤ s.size - s.cursor
    → ((i : ℕ) → (i < s.cursor) ⊎ (s.cursor + n ≤ i) → bytes i ≡ s.bytes i)
    → Moved s n (advance (record s { bytes = bytes }) n)
unfolding advance
advance-Moved s n bytes is h outside =
    let a = is.inside in
    let b = is.narrow in
    let sum : (s.cursor + n) % 2 ^ 64 ≡ s.cursor + n = omega arith in
    record {
      is = record { inside = omega (arith, sum); narrow = is.narrow };
      same_size = refl;
      same_mode = refl;
      forward = sum;
      outside = outside;
    }

stay-Moved : (s : MemStream) → IsOpen s → Moved s 0 s
stay-Moved s is = record {
  is = is;
  same_size = refl;
  same_mode = refl;
  forward = omega arith;
  outside = λ i h. refl;
}

pub read-Moved :
    (s : MemStream) (size : ℕ) (buf : ℕ → ℕ)
    → IsOpen s
    → let (n, got, t) = read s size buf in (n ≡ count_of s size) × Moved s n t × (t.bytes ≡ s.bytes)
unfolding read advance
read-Moved s size buf is = elim (Bool-cases (available s == 0)) [
  | inl empty ↦ let none_left = available_lem s is in rw empty (ground arith, stay-Moved s is, refl)
  | inr some_left ↦
      rw (some_left, moved_lem s size is)
        (refl, advance-Moved s (count_of s size) s.bytes is (ground arith) (λ i h. refl), refl)
]

pub write_open-Moved :
    (s : MemStream) (size : ℕ) (buf : ℕ → ℕ)
    → IsOpen s
    → let (n, t) = write_open s size buf in (n ≡ count_of s size) × Moved s n t
unfolding write_open
write_open-Moved s size buf is = elim (Bool-cases (available s == 0)) [
  | inl empty ↦ let none_left = available_lem s is in rw empty (ground arith, stay-Moved s is)
  | inr some_left ↦
      rw (some_left, moved_lem s size is)
        (
          refl,
          advance-Moved s (count_of s size) (copied s.bytes s.cursor (count_of s size) buf) is
              (ground arith)
              (λ i h. copied-outside s.bytes s.cursor (count_of s size) i buf (ground arith)),
        )
]

in_mode :
    (s : MemStream) (size : ℕ) (buf : ℕ → ℕ) (fixed : Bool)
    → IsOpen s
    → let (n, t) = if fixed then (0, s) else write_open s size buf in
      (n ≡ (if fixed then 0 else count_of s size)) × Moved s n t
in_mode s size buf true is = (refl, stay-Moved s is)
in_mode s size buf false is = write_open-Moved s size buf is

-- A `write` to an open stream reports as many bytes as fit, or 0 if the stream is read-only, moves
-- the cursor by that many, and changes no byte but those between the old and the new cursor; the
-- cursor stays inside the memory, whose size stays.
pub write-Moved :
    (s : MemStream) (size : ℕ) (buf : ℕ → ℕ)
    → IsOpen s
    → let (n, t) = write s size buf in
      (n ≡ (if s.read_only then 0 else count_of s size)) × Moved s n t
unfolding write
write-Moved s size buf is = in_mode s size buf s.read_only is
