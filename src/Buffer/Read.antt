-- ===== src/Buffer/Read.antt =====
-- What `read` and `copy` of vl_buffer.c return, and the round trip with `write`.
use veritable_lasagna.Base.{
  ℕ, ◌+◌, ◌-◌, ◌%◌, ◌^◌, ◌≤◌, ◌<◌, ◌≡◌, refl, subst, ap, ◌∙◌, inl, inr, Bool-cases, true, false,
  Option, none, some, ltb, leb, if◌then◌else◌, arith,
}
use veritable_lasagna.Buffer.{Buffer, copied, write, read, copy_behind, copy, seek}
use veritable_lasagna.Buffer.Write.{Fits, Written, write-Written, copied-inside, copied-outside}

-- A copy to the front of the destination.
copied-front :
    (old : ℕ → ℕ) (size i : ℕ) (from : ℕ → ℕ) → i < size → copied old 0 size from i ≡ from i
copied-front old size i from h =
    let zero_plus : 0 + i ≡ i = omega arith in
    subst (λ z. copied old 0 size from z ≡ from i) zero_plus (copied-inside old 0 size i from h)

module _ (b : Buffer) (size : ℕ) (dest : ℕ → ℕ) where
  -- What a read delivers: the number that it reports, and the bytes that it copies.
  pub record Delivered (n : ℕ) (out : Option (ℕ × (ℕ → ℕ) × Buffer)) : Type 0 where
    pub got : ℕ → ℕ
    pub after : Buffer
    pub ends : out ≡ some (n, got, after)
    pub bytes : (i : ℕ) → i < size → got i ≡ b.bytes (b.offset + i)
    pub others : (i : ℕ) → size ≤ i → got i ≡ dest i
    pub forward : after.offset ≡ b.offset + n

  abbrev after_read : ℕ → Buffer
  after_read n = record b { offset = (b.offset + n) % 2 ^ 64 }

  read_some :
      (n : ℕ)
      → 1 ≤ n
      → b.offset + size ≤ b.capacity
      → b.offset + n < 2 ^ 64
      → Delivered n (
          if ltb 0 n
          then if leb (b.offset + size) b.capacity
            then some (n, copied dest 0 size (λ i. b.bytes (b.offset + i)), after_read n)
            else none
          else some (n, dest, after_read n))
  read_some n h k w =
      let some_read : ltb 0 n ≡ true = ground arith in
      let inside : leb (b.offset + size) b.capacity ≡ true = ground arith in
      rw (some_read, inside)
        (record {
          got = copied dest 0 size (λ i. b.bytes (b.offset + i));
          after = after_read n;
          ends = refl;
          bytes = λ i j. copied-front dest size i (λ k. b.bytes (b.offset + k)) j;
          others = λ i j. copied-outside dest 0 size i (λ k. b.bytes (b.offset + k)) (ground arith);
          forward = omega arith;
        })

  -- Where the request ends inside the buffer, `read` reports and delivers just the bytes asked
  -- for, and moves the offset behind them.
  pub read-Delivered :
      b.offset + size ≤ b.size
      → b.size ≤ b.capacity
      → b.capacity < 2 ^ 64
      → Delivered size (read b size dest)
  unfolding read
  read-Delivered h u w =
      let all : ltb b.size ((b.offset + size) % 2 ^ 64) ≡ false = ground arith in
      elim (Bool-cases (ltb 0 size)) [
        | inl some_read ↦ rw all (read_some size (ground arith) (omega arith) (omega arith))
        | inr nothing ↦
            rw (all, nothing)
              (record {
                got = dest;
                after = after_read size;
                ends = refl;
                bytes = λ i j. absurd (ground arith);
                others = λ i j. refl;
                forward = omega arith;
              })
      ]

  -- Where the offset is inside the buffer and the request goes beyond the end, but not beyond the
  -- allocation, `read` reports the bytes that are left and stops at the end, but delivers as many
  -- as were requested.
  pub read_short :
      b.offset < b.size
      → b.size < b.offset + size
      → b.offset + size ≤ b.capacity
      → b.capacity < 2 ^ 64
      → Delivered (b.size - b.offset) (read b size dest)
  unfolding read
  read_short h k u w =
      let short : ltb b.size ((b.offset + size) % 2 ^ 64) ≡ true = ground arith in
      let rest : (b.size + 2 ^ 64 - b.offset) % 2 ^ 64 ≡ b.size - b.offset = omega arith in
      rw (short, rest) (read_some (b.size - b.offset) (omega arith) u (omega arith))

-- Where the allocation is not empty, the bytes in use fit it, and the end of the write is below 2
-- ^ 63, `write` ends, and a `read` of as many bytes from the offset that it returned stays inside
-- the allocation, reports all of them and delivers the bytes that were written.
pub read-write :
    (rest : ℕ → ℕ) (b : Buffer) (size : ℕ) (from dest : ℕ → ℕ)
    → Fits b
    → b.offset + size < 2 ^ 63
    → (at : ℕ) × (b' : Buffer) × (write rest b size (some from) ≡ some (at, b'))
      × (got : ℕ → ℕ) × (b'' : Buffer) × (read (seek b' at) size dest ≡ some (size, got, b''))
      × ((i : ℕ) → i < size → got i ≡ from i)
unfolding seek
read-write rest b size from dest f h =
    let (at, b', e, w) = write-Written rest b size from f h in
    let back =
      read-Delivered (seek b' at) size dest (omega (arith, w.place, w.covers)) w.fits.used
        w.fits.narrow in
    (
      at,
      b',
      e,
      back.got,
      back.after,
      back.ends,
      λ i k. back.bytes i k ∙ ap (λ z. b'.bytes (z + i)) w.place ∙ w.new i k,
    )

-- Where the allocation of the destination is not empty, its bytes in use fit it, the ends are
-- below 2 ^ 63, and the bytes that are copied lie in the allocation of the source, `copy` writes
-- the source's bytes from its offset on, `len` of them, but where fewer are left, as many as the
-- request goes beyond the end.
pub copy-Written :
    (rest : ℕ → ℕ) (src dest : Buffer) (len : ℕ)
    → Fits dest
    → src.offset + len < 2 ^ 63
    → dest.offset + src.offset + len < 2 ^ 63
    → src.offset + (if ltb src.size (src.offset + len) then src.offset + len - src.size else len)
      ≤ src.capacity
    → (n : ℕ) × (at : ℕ) × (src' : Buffer) × (dest' : Buffer) × (copy rest src dest len
        ≡ some (n, src', dest'))
      × (n ≡ (if ltb src.size (src.offset + len) then src.offset + len - src.size else len))
      × Written dest n (λ i. src.bytes (src.offset + i)) at dest'
      × (src'.offset ≡ src.offset + n)
unfolding copy copy_behind
copy-Written rest src dest len f h k inside =
    let n = if ltb src.size (src.offset + len) then src.offset + len - src.size else len in
    let most : n ≤ src.offset + len = ground arith in
    let (at, dest', e, w) =
      write-Written rest dest n (λ i. src.bytes (src.offset + i)) f (omega arith) in
    let wrap : (src.offset + len) % 2 ^ 64 ≡ src.offset + len = omega arith in
    let fits : leb (src.offset + n) src.capacity ≡ true = ground arith in
    (
      n,
      at,
      record src { offset = (src.offset + n) % 2 ^ 64 },
      dest',
      rw wrap (ap (copy_behind src n) e ∙ rw fits refl),
      refl,
      w,
      omega arith,
    )
