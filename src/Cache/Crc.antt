-- ===== src/Cache/Crc.antt =====
-- cache_format.cpp: the checksum of a cache's payload. A byte is a number below 256.
use native.Mathlib.Decide.{dec_lt}
use lsfg_nx.Base.{
  ℕ, zero, suc, ◌-◌, ◌/◌, ◌%◌, ◌^◌, ◌<◌, ◌≡◌, bit_and, bit_xor, arith, refl, List, [], ◌∷◌, ◌++◌,
  All,
}
use lsfg_nx.Base.Bits.{bit_and-one, bit_xor-bound}

abbrev pub crc32_polynomial : ℕ
crc32_polynomial = 0xEDB8_8320

-- `~` on 32-bit numbers.
abbrev pub invert : ℕ → ℕ
invert a = 2 ^ 32 - 1 - a

-- The body of the loop over the bits of a byte; the mask is the negative of the last bit.
unfoldable pub shift_bit : ℕ → ℕ
shift_bit remainder =
    let mask = (2 ^ 32 - bit_and remainder 1) % 2 ^ 32 in
    bit_xor (remainder / 2) (bit_and crc32_polynomial mask)

unfoldable pub shift_bits : ℕ → ℕ → ℕ
shift_bits zero remainder = remainder
shift_bits (suc bits) remainder = shift_bits bits (shift_bit remainder)

-- The loop over the bytes.
unfoldable pub digest_bytes : ℕ → List ℕ → ℕ
digest_bytes remainder [] = remainder
digest_bytes remainder (byte ∷ data') = digest_bytes (shift_bits 8 (bit_xor remainder byte)) data'

unfoldable pub crc32 : List ℕ → ℕ → ℕ
crc32 data' seed = invert (digest_bytes (invert seed) data')

digest_bytes-append :
    (xs ys : List ℕ) (r : ℕ) → digest_bytes r (xs ++ ys) ≡ digest_bytes (digest_bytes r xs) ys
unfolding digest_bytes
digest_bytes-append [] ys r = refl
digest_bytes-append (x ∷ xs) ys r = digest_bytes-append xs ys (shift_bits 8 (bit_xor r x))

shift_bit-bound : (r : ℕ) → r < 2 ^ 32 → shift_bit r < 2 ^ 32
unfolding shift_bit
shift_bit-bound r h = elim (dec_lt 0 (r % 2)) [
  | yes odd ↦
      let mask : (2 ^ 32 - bit_and r 1) % 2 ^ 32 ≡ 2 ^ 32 - 1 = omega (arith, bit_and-one r) in
      rw mask (bit_xor-bound 32 (r / 2) crc32_polynomial (omega arith) (omega arith))
  | no even ↦
      let mask : (2 ^ 32 - bit_and r 1) % 2 ^ 32 ≡ 0 = omega (arith, bit_and-one r) in
      rw mask (bit_xor-bound 32 (r / 2) 0 (omega arith) (omega arith))
]

shift_bits-bound : (n r : ℕ) → r < 2 ^ 32 → shift_bits n r < 2 ^ 32
unfolding shift_bits
shift_bits-bound zero r h = h
shift_bits-bound (suc n) r h = shift_bits-bound n (shift_bit r) (shift_bit-bound r h)

digest_bytes-bound :
    (xs : List ℕ) (r : ℕ) → All (λ x. x < 256) xs → r < 2 ^ 32 → digest_bytes r xs < 2 ^ 32
unfolding digest_bytes
digest_bytes-bound [] r a h = h
digest_bytes-bound (x ∷ xs) r (b, a) h =
    digest_bytes-bound xs (shift_bits 8 (bit_xor r x)) a
      (shift_bits-bound 8 (bit_xor r x) (bit_xor-bound 32 r x h (omega (arith, b))))

-- The checksum of bytes in two parts is that of the second part, seeded with that of the first.
pub crc32-append :
    (xs ys : List ℕ) (seed : ℕ)
    → All (λ x. x < 256) xs
    → crc32 (xs ++ ys) seed ≡ crc32 ys (crc32 xs seed)
unfolding crc32
crc32-append xs ys seed a =
    let bound = digest_bytes-bound xs (invert seed) a (omega arith) in
    let twice : invert (invert (digest_bytes (invert seed) xs)) ≡ digest_bytes (invert seed) xs =
      omega (arith, bound) in
    rw (digest_bytes-append xs ys (invert seed), twice) refl
