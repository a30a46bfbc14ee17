-- ===== src/Plugin/Coexistence/Allocate.antt =====
-- coexistence.cpp: the arena that the graphics library allocates from, by `allocate`.
use lsfg_nx.Base.{
  ℕ, ◌+◌, ◌-◌, ◌*◌, ◌/◌, ◌%◌, ◌^◌, ◌≤◌, ◌<◌, ◌≡◌, ◌⊎◌, inl, inr, refl, arith, bit_and, Bool, not,
  ◌||◌, Option, none, some, ltb, ◌==◌, if◌then◌else◌, if-either,
}
use native.Mathlib.Nat.{one-le-pow}
use native.Mathlib.Decide.{dec_le}
use lsfg_nx.Base.Bits.{power_of_two, two-pow_mono}
use lsfg_nx.Backend.Arena.{round_up}
use lsfg_nx.Backend.Arena.Laws.{round_up_power, round_bounds}
use lsfg_nx.Plugin.Coexistence.{DkResult}

abbrev pub arena_capacity : ℕ
arena_capacity = 1024 * 1024

-- What a call leaves: its result, the bytes in use, and where `*out` points in the storage; `none` is
-- a null pointer.
pub record Allocation : Type 0 where
  pub result : DkResult
  pub used : ℕ
  pub pointer : Option ℕ

-- `given` is whether `out` is not null, and `before` what it points to.
unfoldable pub allocate : ℕ → Bool → Option ℕ → ℕ → ℕ → Allocation
allocate used given before alignment size =
    let offset = round_up used alignment in
    if not given || alignment == 0 || not (bit_and alignment (alignment - 1) == 0)
    then record { result = DkResult.bad_input; used = used; pointer = before }
    else if ltb arena_capacity offset || ltb (arena_capacity - offset) size
    then record { result = DkResult.out_of_memory; used = used; pointer = none }
    else record { result = DkResult.success; used = offset + size; pointer = some offset }

-- The storage of a call that succeeds: behind what is in use, aligned, and inside the arena.
abbrev pub Fits : ℕ → ℕ → ℕ → Allocation → Type 0
Fits used alignment size a =
    (offset : ℕ) × (a.pointer ≡ some offset)
    × (used ≤ offset)
    × (offset < used + alignment)
    × (offset % alignment ≡ 0)
    × (offset + size ≡ a.used)

-- Nothing more is in use, and no storage is given.
abbrev pub Refused : ℕ → Option ℕ → Allocation → Type 0
Refused used before a =
    (a.used ≡ used)
    × (((a.result ≡ DkResult.bad_input) × (a.pointer ≡ before))
        ⊎ ((a.result ≡ DkResult.out_of_memory) × (a.pointer ≡ none)))

abbrev pub Allocated : ℕ → Option ℕ → ℕ → ℕ → Allocation → Type 0
Allocated used before alignment size a =
    (a.used ≤ arena_capacity)
    × (((a.result ≡ DkResult.success) × Fits used alignment size a) ⊎ Refused used before a)

power_below_word :
    (a : ℕ) → 0 < a → bit_and a (a - 1) ≡ 0 → a < 2 ^ 64 → (k : ℕ) × (a ≡ 2 ^ k) × (k ≤ 63)
power_below_word a pos mask small =
    let (k, e) = power_of_two a pos mask in
    (
      k,
      e,
      elim (dec_le k 63) [
        | yes p ↦ p
        | no p ↦ absurd (omega (arith, e, two-pow_mono 64 k (omega arith)))
      ],
    )

-- In the arena, rounding up does not wrap.
round_up-bounds :
    (used alignment : ℕ)
    → used ≤ arena_capacity
    → alignment < 2 ^ 64
    → 0 < alignment
    → bit_and alignment (alignment - 1) ≡ 0
    → let r = round_up used alignment in (used ≤ r) × (r < used + alignment) × (r % alignment ≡ 0)
round_up-bounds used alignment within small pos mask =
    let (k, e, low) = power_below_word alignment pos mask small in
    let half : 2 ^ k ≤ 2 ^ 63 = two-pow_mono k 63 low in
    let r : round_up used (2 ^ k) ≡ (used + (2 ^ k - 1)) / 2 ^ k * 2 ^ k =
      round_up_power used k (omega arith) (one-le-pow k 2 (omega arith)) (omega arith) in
    rw (e, r) (round_bounds used (2 ^ k) (one-le-pow k 2 (omega arith)))

-- With at most the whole arena in use, an allocation of the library's that succeeds lies behind
-- what is in use, aligned and less than one alignment away; any other leaves the arena as it is and
-- gives no storage. The arena is never in use past its end.
pub allocate-Fits :
    (used : ℕ) (given : Bool) (before : Option ℕ) (alignment size : ℕ)
    → used ≤ arena_capacity
    → alignment < 2 ^ 64
    → Allocated used before alignment size (allocate used given before alignment size)
unfolding allocate
allocate-Fits used given before alignment size within small =
    let P : Allocation → Type 0 = Allocated used before alignment size in
    let offset = round_up used alignment in
    if-either P (not given || alignment == 0 || not (bit_and alignment (alignment - 1) == 0)) _ _
      (λ _. (within, inr (refl, inl (refl, refl))))
      (λ open_.
        let (behind, near, aligned) =
          round_up-bounds used alignment within small (ground arith) (ground arith) in
        if-either P (ltb arena_capacity offset || ltb (arena_capacity - offset) size) _ _
          (λ _. (within, inr (refl, inr (refl, refl))))
          (λ fits. (ground arith, inl (refl, (offset, refl, behind, near, aligned, refl)))))
