-- ===== src/Stream/RoundTrip.antt =====
-- What is written to the memory stream of vl_stream_memory.c is read back.
use veritable_lasagna.Base.{
  ℕ, ◌+◌, ◌-◌, ◌≤◌, ◌<◌, ◌≡◌, inl, ap, ◌∙◌, true, false, ltb, ◌==◌, if◌then◌else◌, arith,
}
use veritable_lasagna.Buffer.{copied}
use veritable_lasagna.Buffer.Write.{copied-inside}
use veritable_lasagna.Stream.{
  MemStream, from_start, available, moved, advance, read, write_open, write, seek,
}
use veritable_lasagna.Stream.Bounds.{IsOpen, available_lem, moved_lem, read-Moved, write-Moved}
use veritable_lasagna.Stream.Seek.{clamped, seek-clamped, signed_pos, plus}

-- All of a request that fits.
module _ (s : MemStream) (size : ℕ) (buf : ℕ → ℕ) (is : IsOpen s)
    (fits : size ≤ s.size - s.cursor) where
  whole : moved s size ≡ size
  whole = moved_lem s size is ∙ ground arith

  read_bytes : (i : ℕ) → i < size → (read s size buf).1 i ≡ s.bytes (s.cursor + i)
  unfolding read
  read_bytes i h =
      let some_left : (available s == 0) ≡ false = (let e = available_lem s is in ground arith) in
      rw (some_left, whole)
        (ap (copied buf 0 size (λ k. s.bytes (s.cursor + k))) (omega arith)
          ∙ copied-inside buf 0 size i (λ k. s.bytes (s.cursor + k)) h)

  write_open_bytes : (i : ℕ) → i < size → (write_open s size buf).1.bytes (s.cursor + i) ≡ buf i
  unfolding write_open advance
  write_open_bytes i h =
      let some_left : (available s == 0) ≡ false = (let e = available_lem s is in ground arith) in
      rw (some_left, whole) (copied-inside s.bytes s.cursor size i buf h)

  write-write_open : s.read_only ≡ false → write s size buf ≡ write_open s size buf
  unfolding write
  write-write_open mutable = ap (λ fixed. if fixed then (0, s) else write_open s size buf) mutable

-- The stream with its cursor at an offset in it.
at_offset : MemStream → ℕ → MemStream
at_offset s offset = record s { cursor = offset }

seek_back :
    (s : MemStream) (offset : ℕ)
    → IsOpen s
    → offset ≤ s.size
    → seek s offset from_start ≡ (true, at_offset s offset)
unfolding at_offset
seek_back s offset is h =
    let narrow = is.narrow in
    let inside : ltb s.size (0 + offset) ≡ false = ground arith in
    seek-clamped s offset from_start is (omega arith) (inl (omega arith))
    ∙ ap (λ z. clamped s (plus 0 z)) (signed_pos offset (omega arith))
    ∙ rw inside (ap (λ k. (true, record s { cursor = k })) (omega arith))

at_offset-IsOpen :
    (s : MemStream) (offset : ℕ) → IsOpen s → offset ≤ s.size → IsOpen (at_offset s offset)
unfolding at_offset
at_offset-IsOpen s offset is h = record { inside = h; narrow = is.narrow }

-- On an open stream that is not read-only, where the bytes fit behind the cursor, a write of them,
-- a seek back to the old cursor from the start, and a read of as many move all of them, and
-- deliver the bytes that were written.
pub read-seek-write :
    (s : MemStream) (size : ℕ) (buf other : ℕ → ℕ)
    → IsOpen s
    → s.read_only ≡ false
    → size ≤ s.size - s.cursor
    → let (n, t) = write s size buf in
      let (found, u) = seek t s.cursor from_start in
      let (m, got, v) = read u size other in
      (n ≡ size) × (found ≡ true) × (m ≡ size) × ((i : ℕ) → i < size → got i ≡ buf i)
unfolding at_offset
read-seek-write s size buf other is mutable fits =
    let (count, moved_on) = write-Moved s size buf is in
    let t = (write s size buf).1 in
    let u = at_offset t s.cursor in
    let back = seek_back t s.cursor moved_on.is (omega (arith, moved_on.same_size, is.inside)) in
    let is_u =
      at_offset-IsOpen t s.cursor moved_on.is (omega (arith, moved_on.same_size, is.inside)) in
    let room : size ≤ u.size - u.cursor = omega (arith, moved_on.same_size) in
    (
      count ∙ rw mutable (ground arith),
      ap (λ z. z.0) back,
      rw back ((read-Moved u size other is_u).0 ∙ ground arith),
      λ i h.
          rw back (read_bytes u size other is_u room i h)
          ∙ ap (λ z. z.1.bytes (s.cursor + i)) (write-write_open s size buf is fits mutable)
          ∙ write_open_bytes s size buf is fits i h,
    )
