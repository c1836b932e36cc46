-- ===== src/Buffer/Examples.antt =====
-- The theorems on vl_buffer.c at a buffer of 32 bytes, of which 20 are in use.
use veritable_lasagna.Base.{ℕ, ◌+◌, ◌<◌, ◌≡◌, refl, some, arith}
use veritable_lasagna.Buffer.{Buffer, grow, write, read, copy, seek}
use veritable_lasagna.Buffer.Write.{Fits, Written, write-Written}
use veritable_lasagna.Buffer.Read.{read-write, copy-Written}

abbrev buffer : Buffer
buffer = record { size = 20; offset = 18; capacity = 32; bytes = λ i. i }

abbrev zeros : ℕ → ℕ
zeros i = 0

buffer-Fits : Fits buffer
buffer-Fits = record { used = omega arith; pos = omega arith; narrow = omega arith }

grow_from_32 : grow 65 32 100 ≡ some 128
unfolding grow
grow_from_32 = refl

write-Written_example :
    (at : ℕ) × (b' : Buffer) × (write zeros buffer 40 (some zeros) ≡ some (at, b'))
    × Written buffer 40 zeros at b'
write-Written_example = write-Written zeros buffer 40 zeros buffer-Fits (omega arith)

read-write_example :
    (at : ℕ) × (b' : Buffer) × (write zeros buffer 40 (some zeros) ≡ some (at, b'))
    × (got : ℕ → ℕ) × (b'' : Buffer) × (read (seek b' at) 40 zeros ≡ some (40, got, b''))
    × ((i : ℕ) → i < 40 → got i ≡ 0)
read-write_example = read-write zeros buffer 40 zeros zeros buffer-Fits (omega arith)

copy-Written_example :
    (n : ℕ) × (at : ℕ) × (src' : Buffer) × (dest' : Buffer) × (copy zeros buffer buffer 10
      ≡ some (n, src', dest'))
    × (n ≡ 8)
    × Written buffer n (λ i. 18 + i) at dest'
    × (src'.offset ≡ 18 + n)
copy-Written_example =
    copy-Written zeros buffer buffer 10 buffer-Fits (omega arith) (omega arith) (omega arith)
