-- ===== src/Stream/Examples.antt =====
-- The memory stream of vl_stream_memory.c on ten bytes.
use veritable_lasagna.Base.{
  ℕ, ◌+◌, ◌-◌, ◌<◌, ◌^◌, ◌≡◌, refl, inr, false, true, if◌then◌else◌, arith,
}
use veritable_lasagna.Stream.{MemStream, from_start, from_end, read, write, seek}
use veritable_lasagna.Stream.Bounds.{IsOpen, Moved, count_of, write-Moved}
use veritable_lasagna.Stream.Seek.{seek-clamped}
use veritable_lasagna.Stream.RoundTrip.{read-seek-write}

abbrev stream : MemStream
stream = record { bytes = λ i. 0; size = 10; cursor = 4; read_only = false }

abbrev source : ℕ → ℕ
source i = i + 1

stream-IsOpen : IsOpen stream
stream-IsOpen = record { inside = omega arith; narrow = omega arith }

write-Moved_example :
    let (n, t) = write stream 20 source in
    (n ≡ (if stream.read_only then 0 else count_of stream 20)) × Moved stream n t
write-Moved_example = write-Moved stream 20 source stream-IsOpen

-- Two bytes before the end.
seek-clamped_example : seek stream (2 ^ 64 - 2) from_end ≡ (true, record stream { cursor = 8 })
seek-clamped_example =
    seek-clamped stream (2 ^ 64 - 2) from_end stream-IsOpen (omega arith) (inr (omega arith))

read-seek-write_example :
    let (n, t) = write stream 3 source in
    let (found, u) = seek t stream.cursor from_start in
    let (m, got, v) = read u 3 (λ i. 0) in
    (n ≡ 3) × (found ≡ true) × (m ≡ 3) × ((i : ℕ) → i < 3 → got i ≡ source i)
read-seek-write_example = read-seek-write stream 3 source (λ i. 0) stream-IsOpen refl (omega arith)
