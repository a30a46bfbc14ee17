-- ===== src/Backend/Arena.antt =====
-- runtime/backend layout.hpp and layout.cpp: the arena that places allocations in a memory block.
pub mod Laws
use lsfg_nx.Base.{
  ℕ, ◌+◌, ◌-◌, ◌%◌, ◌^◌, bit_and, Bool, true, false, not, ◌||◌, List, [], ◌∷◌, ltb, ◌==◌,
  if◌then◌else◌,
}

abbrev pub memory_block_alignment : ℕ
memory_block_alignment = 0x1000

abbrev pub max_memory_block_bytes : ℕ
max_memory_block_bytes = 0xFFFF_F000

pub record Arena : Type 0 where
  pub used : ℕ
  pub overflowed : Bool

abbrev pub empty : Arena
empty = record { used = 0; overflowed = false }

-- `(used + mask) & ~mask` on 64-bit numbers, where the mask is `alignment - 1`.
abbrev pub round_up : ℕ → ℕ → ℕ
round_up used alignment = bit_and ((used + (alignment - 1)) % 2 ^ 64) (2 ^ 64 - 1 - (alignment - 1))

-- The difference of two 64-bit numbers.
abbrev pub sub64 : ℕ → ℕ → ℕ
sub64 a b = (a + 2 ^ 64 - b) % 2 ^ 64

-- `Arena::place`: the arena that the call leaves, and the offset that it returns.
unfoldable pub place : Arena → ℕ → ℕ → Arena × ℕ
place arena size alignment =
    let offset = round_up arena.used alignment in
    if alignment == 0 || not (bit_and alignment (alignment - 1) == 0)
    then (record arena { overflowed = true }, 0)
    else if ltb offset arena.used || ltb (sub64 max_memory_block_bytes offset) size
    then (record arena { overflowed = true }, 0)
    else (record arena { used = (offset + size) % 2 ^ 64 }, offset % 2 ^ 32)

unfoldable pub block_size : Arena → ℕ
block_size arena =
    if arena.overflowed || arena.used == 0
    then 0
    else round_up arena.used memory_block_alignment % 2 ^ 32
