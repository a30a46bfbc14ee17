-- ===== src/Backend/Arena/Laws.antt =====
-- layout.cpp: where the arena places an allocation.
use lsfg_nx.Base.{
  ℕ, zero, suc, ◌+◌, ◌-◌, ◌*◌, ◌/◌, ◌%◌, ◌^◌, ◌≤◌, ◌<◌, ◌≡◌, sym, subst, arith, bit_and, false,
}
use native.Mathlib.Nat.{mul-mod_left, pow-suc, one-le-pow}
use native.Mathlib.Decide.{dec_le}
use lsfg_nx.Base.Bits.{power_of_two, bit_and-clear_low, two-pow_mono}
use lsfg_nx.Backend.Arena.{
  Arena, round_up, place, block_size, max_memory_block_bytes, memory_block_alignment,
}

-- A power of two up to the alignment of a block is its own round-up mask.
pub round_up_power :
    (used k : ℕ)
    → used + 2 ^ k ≤ 2 ^ 64
    → 0 < 2 ^ k
    → k ≤ 64
    → round_up used (2 ^ k) ≡ (used + (2 ^ k - 1)) / 2 ^ k * 2 ^ k
round_up_power used k fits pos small =
    let sum : (used + (2 ^ k - 1)) % 2 ^ 64 ≡ used + (2 ^ k - 1) = omega arith in
    let mask : 2 ^ 64 - 1 - (2 ^ k - 1) ≡ 2 ^ 64 - 2 ^ k = omega arith in
    rw (sum, mask) (bit_and-clear_low k 64 (used + (2 ^ k - 1)) small (omega arith))

-- The multiple of `a` that a round-up gives.
pub round_bounds :
    (used a : ℕ)
    → 0 < a
    → let r = (used + (a - 1)) / a * a in (used ≤ r) × (r < used + a) × (r % a ≡ 0)
round_bounds used a h = (grind arith, grind arith, mul-mod_left ((used + (a - 1)) / a) a)

two-pow-add : (k j : ℕ) → 2 ^ (k + j) ≡ 2 ^ j * 2 ^ k
two-pow-add k zero = let e : k + 0 ≡ k = omega arith in rw e (omega arith)
two-pow-add k (suc j) =
    let e : k + suc j ≡ suc (k + j) = omega arith in
    rw (e, pow-suc 2 (k + j), pow-suc 2 j, two-pow-add k j) (omega arith)

multiple_below : (used a m : ℕ) → 0 < a → used ≤ m * a → (used + (a - 1)) / a * a ≤ m * a
multiple_below used a m h k = grind arith

exponent_small : (k : ℕ) → 2 ^ k ≤ memory_block_alignment → k ≤ 12
exponent_small k h = elim (dec_le k 12) [
  | yes p ↦ p
  | no p ↦ absurd (omega (arith, two-pow_mono 13 k (omega arith)))
]

-- Up to the alignment of a block, rounding up does not pass the end of the largest block.
round_within :
    (used k : ℕ)
    → used ≤ max_memory_block_bytes
    → k ≤ 12
    → (used + (2 ^ k - 1)) / 2 ^ k * 2 ^ k ≤ max_memory_block_bytes
round_within used k h small =
    let e : k + (12 - k) ≡ 12 = omega arith in
    let whole : 4096 ≡ 2 ^ (12 - k) * 2 ^ k = rw e at (two-pow-add k (12 - k)) in
    let multiple : max_memory_block_bytes ≡ 0xFFFFF * 2 ^ (12 - k) * 2 ^ k = omega (arith, whole) in
    rw multiple (
      multiple_below used (2 ^ k) (0xFFFFF * 2 ^ (12 - k)) (one-le-pow k 2 (omega arith))
        (omega (arith, multiple)))

-- What a placement that succeeds gives.
pub record Placed (arena : Arena) (size alignment : ℕ) (next : Arena) (offset : ℕ) : Type 0 where
  pub after : arena.used ≤ offset
  pub near : offset < arena.used + alignment
  pub aligned : offset % alignment ≡ 0
  pub holds : next.used ≡ offset + size
  pub within : next.used ≤ max_memory_block_bytes

place_power :
    (arena : Arena) (size k : ℕ)
    → arena.used ≤ max_memory_block_bytes
    → size < 2 ^ 64
    → k ≤ 12
    → bit_and (2 ^ k) (2 ^ k - 1) ≡ 0
    → (place arena size (2 ^ k)).0.overflowed ≡ false
    → Placed arena size (2 ^ k) (place arena size (2 ^ k)).0 (place arena size (2 ^ k)).1
unfolding place
place_power arena size k h w small p done =
    let pos : 0 < 2 ^ k = one-le-pow k 2 (omega arith) in
    let low : 2 ^ k ≤ 4096 = two-pow_mono k 12 small in
    let r : ℕ = (arena.used + (2 ^ k - 1)) / 2 ^ k * 2 ^ k in
    let e : round_up arena.used (2 ^ k) ≡ r =
      round_up_power arena.used k (omega arith) pos (omega arith) in
    let (a, b, c) = round_bounds arena.used (2 ^ k) pos in
    let d : r ≤ max_memory_block_bytes = round_within arena.used k h small in
    ground (arith, e, a, b, c, d)

place_accepted :
    (arena : Arena) (size alignment : ℕ)
    → (place arena size alignment).0.overflowed ≡ false
    → (0 < alignment) × (bit_and alignment (alignment - 1) ≡ 0)
unfolding place
place_accepted arena size alignment done = ground arith

-- While no more than the largest block is in use, a placement of a 64-bit size with an alignment of at
-- most a page that does not overflow lies behind what is in use, aligned and less than one alignment
-- away, takes its size from there, and ends within the largest block.
pub place-Placed :
    (arena : Arena) (size alignment : ℕ)
    → arena.used ≤ max_memory_block_bytes
    → size < 2 ^ 64
    → alignment ≤ memory_block_alignment
    → (place arena size alignment).0.overflowed ≡ false
    → Placed arena size alignment (place arena size alignment).0 (place arena size alignment).1
place-Placed arena size alignment h w low done =
    let (pos, mask) = accepted in
    let (k, e) = power_of_two alignment pos mask in
    let small : k ≤ 12 = exponent_small k (omega (arith, e)) in
    subst (λ a. Placed arena size a (place arena size a).0 (place arena size a).1) (sym e)
      (place_power arena size k h w small (rw e at mask) (rw e at done))
  where
    accepted : (0 < alignment) × (bit_and alignment (alignment - 1) ≡ 0)
    accepted = place_accepted arena size alignment done

-- With an alignment of at most 2 ^ 31, while no more than the largest block is in use: where rounding
-- up passes the end of the largest block, a placement of less than 2 ^ 32 bytes is not refused, since
-- the guard's subtraction wraps; the arena grows past the end, and the offset that the call returns
-- has lost its high bits.
pub place_beyond :
    (arena : Arena) (size k : ℕ)
    → let offset = (arena.used + (2 ^ k - 1)) / 2 ^ k * 2 ^ k in
      arena.used ≤ max_memory_block_bytes
      → k ≤ 31
      → bit_and (2 ^ k) (2 ^ k - 1) ≡ 0
      → max_memory_block_bytes < offset
      → size < 2 ^ 32
      → place arena size (2 ^ k) ≡ (record arena { used = offset + size }, offset % 2 ^ 32)
unfolding place
place_beyond arena size k h small mask beyond w =
    let pos : 0 < 2 ^ k = one-le-pow k 2 (omega arith) in
    let low : 2 ^ k ≤ 2 ^ 31 = two-pow_mono k 31 small in
    let e = round_up_power arena.used k (omega arith) pos (omega arith) in
    let (a, b, c) = round_bounds arena.used (2 ^ k) pos in ground (arith, e, a, b, c)

-- The block of an arena that has not overflowed holds all that is in use, in whole pages and less
-- than one page more.
pub block_size_bounds :
    (arena : Arena)
    → arena.used ≤ max_memory_block_bytes
    → arena.overflowed ≡ false
    → (arena.used ≤ block_size arena)
      × (block_size arena < arena.used + memory_block_alignment)
      × (block_size arena % memory_block_alignment ≡ 0)
unfolding block_size
block_size_bounds arena h ok =
    let e : round_up arena.used 4096 ≡ (arena.used + 4095) / 4096 * 4096 =
      round_up_power arena.used 12 (omega arith) (omega arith) (omega arith) in
    ground (arith, e, ok)
