-- ===== src/Buffer/Write.antt =====
-- What `write` of vl_buffer.c does to the bytes and the capacity.
use veritable_lasagna.Base.{
  ℕ, zero, suc, ◌+◌, ◌-◌, ◌*◌, ◌%◌, ◌^◌, ◌≤◌, ◌<◌, ◌≡◌, refl, subst, inl, inr, ◌∙◌, true, false,
  ◌&&◌, none, some, ltb, leb, if◌then◌else◌, arith, Bool-cases, leb→le,
}
use native.Mathlib.Nat.{mul_assoc}
use native.Mathlib.Omega.{pow_step}
use veritable_lasagna.Buffer.{Buffer, resize, copied, grow, write_at, write}

-- The bytes in use lie inside the allocation, which is not empty and has a size below 2 ^ 64.
pub record Fits (b : Buffer) : Type 0 where
  pub used : b.size ≤ b.capacity
  pub pos : 1 ≤ b.capacity
  pub narrow : b.capacity < 2 ^ 64

doubled : (n fuel need : ℕ) → need < n * 2 ^ suc fuel → need < n * 2 * 2 ^ fuel
doubled n fuel need h =
    rw (mul_assoc n 2 (2 ^ fuel)) (subst (λ z. need < n * z) (pow_step 2 fuel) h)

-- Where the size needed is below 2 ^ 63 and the fuel allows for the doublings, the loop of `write`
-- ends at a size above it, not below the old one, without a wrap.
pub grow-some :
    (fuel n need : ℕ)
    → need < 2 ^ 63
    → n < 2 ^ 64
    → need < n * 2 ^ fuel
    → (r : ℕ) × (grow (suc fuel) n need ≡ some r) × (need < r) × (n ≤ r) × (r < 2 ^ 64)
unfolding grow
grow-some zero n need h w k = (n, ground arith, omega arith, omega arith, omega arith)
grow-some (suc fuel) n need h w k = elim (Bool-cases (leb n need)) [
  | inr big ↦ (n, rw (big, grow) refl, ground arith, omega arith, omega arith)
  | inl small ↦
      let le = leb→le n need small in
      let wrap : n * 2 % 2 ^ 64 ≡ n * 2 = omega arith in
      let (r, e, above, more, fits) =
        grow-some fuel (n * 2) need h (omega arith) (doubled n fuel need k) in
      (r, rw (small, wrap, grow) e, above, omega arith, fits)
]

grow-some-Fits :
    (b : Buffer) (size : ℕ)
    → Fits b
    → b.offset + size < 2 ^ 63
    → (r : ℕ) × (grow 65 b.capacity ((size + b.offset) % 2 ^ 64) ≡ some r)
      × (b.offset + size < r)
      × (b.capacity ≤ r)
      × (r < 2 ^ 64)
grow-some-Fits b size f h =
    let sum : (size + b.offset) % 2 ^ 64 ≡ b.offset + size = omega arith in
    let pos = f.pos in
    let (r, e, above, more, fits) =
      grow-some 64 b.capacity ((size + b.offset) % 2 ^ 64) (omega arith) f.narrow (omega arith) in
    (r, e, omega arith, more, fits)

-- What a write of `size` bytes promises: the offset that it returns is the old one, the bytes of
-- the source stand there, all other bytes in use are as before, and the buffer still fits.
pub record Written (b : Buffer) (size : ℕ) (from : ℕ → ℕ) (at : ℕ) (b' : Buffer) : Type 0 where
  pub place : at ≡ b.offset
  pub fits : Fits b'
  pub end : b'.offset ≡ b.offset + size
  pub covers : b.offset + size ≤ b'.size
  pub new : (i : ℕ) → i < size → b'.bytes (b.offset + i) ≡ from i
  pub old :
      (i : ℕ)
      → i < b.size
      → ((leb b.offset i) && ltb i (b.offset + size)) ≡ false
      → b'.bytes i ≡ b.bytes i

abbrev grown : (ℕ → ℕ) → Buffer → ℕ → Buffer
grown rest b r = if ltb b.capacity r then resize rest b r else b

grown-capacity :
    (rest : ℕ → ℕ) (b : Buffer) (r : ℕ) → b.capacity ≤ r → (grown rest b r).capacity ≡ r
unfolding resize
grown-capacity rest b r h = ground arith

grown-bytes :
    (rest : ℕ → ℕ) (b : Buffer) (r i : ℕ) → i < b.capacity → (grown rest b r).bytes i ≡ b.bytes i
unfolding resize
grown-bytes rest b r i h = ground arith

pub copied-inside :
    (old : ℕ → ℕ) (offset size i : ℕ) (from : ℕ → ℕ)
    → i < size
    → copied old offset size from (offset + i) ≡ from i
unfolding copied
copied-inside old offset size i from h =
    let inside : ((leb offset (offset + i)) && ltb (offset + i) (offset + size)) ≡ true =
      ground arith in
    let back : offset + i - offset ≡ i = omega arith in rw (inside, back) refl

pub copied-outside :
    (old : ℕ → ℕ) (offset size i : ℕ) (from : ℕ → ℕ)
    → ((leb offset i) && ltb i (offset + size)) ≡ false
    → copied old offset size from i ≡ old i
unfolding copied
copied-outside old offset size i from h = rw h refl

write_at-Written :
    (rest : ℕ → ℕ) (b : Buffer) (size : ℕ) (from : ℕ → ℕ) (r : ℕ)
    → Fits b
    → b.offset + size < 2 ^ 63
    → b.offset + size < r
    → b.capacity ≤ r
    → r < 2 ^ 64
    → Written b size from
        (write_at rest b size (some from) r).0
        (write_at rest b size (some from) r).1
unfolding write_at resize copied
write_at-Written rest b size from r f h above more narrow = record {
  place = refl;
  fits = record {
    used = ground (arith, grown-capacity rest b r more, f.used);
    pos = omega (arith, grown-capacity rest b r more, f.pos);
    narrow = omega (arith, grown-capacity rest b r more);
  };
  end = omega arith;
  covers = ground arith;
  new = λ i k. copied-inside (grown rest b r).bytes b.offset size i from k;
  old = λ i k out.
      copied-outside (grown rest b r).bytes b.offset size i from out
      ∙ grown-bytes rest b r i (omega (arith, f.used));
}

-- Where the allocation is not empty, the bytes in use fit it, and the end of the write is below 2
-- ^ 63, `write` ends, and returns the old offset and a buffer that has the source's bytes there
-- and its old bytes elsewhere, and whose bytes in use fit its allocation.
pub write-Written :
    (rest : ℕ → ℕ) (b : Buffer) (size : ℕ) (from : ℕ → ℕ)
    → Fits b
    → b.offset + size < 2 ^ 63
    → (at : ℕ) × (b' : Buffer) × (write rest b size (some from) ≡ some (at, b'))
      × Written b size from at b'
unfolding write
write-Written rest b size from f h =
    let (r, e, above, more, narrow) = grow-some-Fits b size f h in
    rw (e, write) (_, _, refl, write_at-Written rest b size from r f h above more narrow)

-- What a write from NULL promises: the bytes in use are as before, and the others are claimed.
pub record Claimed (b : Buffer) (size : ℕ) (at : ℕ) (b' : Buffer) : Type 0 where
  pub place : at ≡ b.offset
  pub fits : Fits b'
  pub end : b'.offset ≡ b.offset + size
  pub covers : b'.offset ≤ b'.size
  pub old : (i : ℕ) → i < b.size → b'.bytes i ≡ b.bytes i

write_at-Claimed :
    (rest : ℕ → ℕ) (b : Buffer) (size r : ℕ)
    → Fits b
    → b.offset + size < 2 ^ 63
    → b.offset + size < r
    → b.capacity ≤ r
    → r < 2 ^ 64
    → Claimed b size (write_at rest b size none r).0 (write_at rest b size none r).1
unfolding write_at resize
write_at-Claimed rest b size r f h above more narrow = record {
  place = refl;
  fits = record {
    used = ground (arith, grown-capacity rest b r more, f.used);
    pos = omega (arith, grown-capacity rest b r more, f.pos);
    narrow = omega (arith, grown-capacity rest b r more);
  };
  end = omega arith;
  covers = ground arith;
  old = λ i k. grown-bytes rest b r i (omega (arith, f.used));
}

pub write-Claimed :
    (rest : ℕ → ℕ) (b : Buffer) (size : ℕ)
    → Fits b
    → b.offset + size < 2 ^ 63
    → (at : ℕ) × (b' : Buffer) × (write rest b size none ≡ some (at, b')) × Claimed b size at b'
unfolding write
write-Claimed rest b size f h =
    let (r, e, above, more, narrow) = grow-some-Fits b size f h in
    rw (e, write) (_, _, refl, write_at-Claimed rest b size r f h above more narrow)
