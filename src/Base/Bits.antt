-- ===== src/Base/Bits.antt =====
-- `&` and `|` at variables: their digit recursions, and the two idioms of the code that rest on
-- them, the test for a power of two and the clearing of low bits.
use Prim.Native.Nat.{
  ℕ, zero, suc, ◌+◌, ◌-◌, ◌*◌, ◌/◌, ◌%◌, ◌^◌, ◌≤◌, ◌<◌, min, max, bit_and, bit_or, digits,
  bit_and-bitwise, bit_or-bitwise, bit_xor, bit_xor-bitwise, differ,
}
use mathlib.Core.Path.{◌≡◌, refl, ap, sym}
use native.Mathlib.Nat.{pow-suc, pow-succ', one-le-pow, div-div-eq-div-mul}
use native.Mathlib.Decide.{dec_lt}
use native.Mathlib.Omega.{arith}

-- The count of rounds does not matter once it covers the first operand.
module _ (z : ℕ → ℕ) (f : ℕ → ℕ → ℕ) where
  rounds_agree : (m n a b : ℕ) → a ≤ m → a ≤ n → digits z f m a b ≡ digits z f n a b
  rounds_agree zero zero a b p q = refl
  rounds_agree zero (suc n) zero b p q = refl
  rounds_agree zero (suc n) (suc a) b p q = absurd (omega arith)
  rounds_agree (suc m) zero zero b p q = refl
  rounds_agree (suc m) zero (suc a) b p q = absurd (omega arith)
  rounds_agree (suc m) (suc n) zero b p q = refl
  rounds_agree (suc m) (suc n) (suc a) b p q =
      ap (λ t. t * 2 + f (suc a % 2) (b % 2))
        (rounds_agree m n (suc a / 2) (b / 2) (omega arith) (omega arith))

pub bit_and_step : (a b : ℕ) → bit_and a b ≡ bit_and (a / 2) (b / 2) * 2 + min (a % 2) (b % 2)
bit_and_step zero b = omega (arith, bit_and-bitwise 0 b, bit_and-bitwise 0 (b / 2))
bit_and_step (suc a) b = omega (
  arith,
  bit_and-bitwise (suc a) b,
  bit_and-bitwise (suc a / 2) (b / 2),
  rounds_agree (λ b. zero) min a (suc a / 2) (suc a / 2) (b / 2) (omega arith) (omega arith),
)

pub bit_or_step : (a b : ℕ) → bit_or a b ≡ bit_or (a / 2) (b / 2) * 2 + max (a % 2) (b % 2)
bit_or_step zero b = omega (arith, bit_or-bitwise 0 b, bit_or-bitwise 0 (b / 2))
bit_or_step (suc a) b = omega (
  arith,
  bit_or-bitwise (suc a) b,
  bit_or-bitwise (suc a / 2) (b / 2),
  rounds_agree (λ b. b) max a (suc a / 2) (suc a / 2) (b / 2) (omega arith) (omega arith),
)

bit_xor_step : (a b : ℕ) → bit_xor a b ≡ bit_xor (a / 2) (b / 2) * 2 + differ (a % 2) (b % 2)
bit_xor_step zero b = omega (arith, bit_xor-bitwise 0 b, bit_xor-bitwise 0 (b / 2))
bit_xor_step (suc a) b = omega (
  arith,
  bit_xor-bitwise (suc a) b,
  bit_xor-bitwise (suc a / 2) (b / 2),
  rounds_agree (λ b. b) differ a (suc a / 2) (suc a / 2) (b / 2) (omega arith) (omega arith),
)

-- Operations on equal or empty operands, by recursion on a bound of the first.
and_self_below : (n a : ℕ) → a ≤ n → bit_and a a ≡ a
and_self_below n zero h = refl
and_self_below zero (suc a) h = absurd (omega arith)
and_self_below (suc n) (suc a) h =
    omega (arith, bit_and_step (suc a) (suc a), and_self_below n (suc a / 2) (omega arith))

pub bit_and_self : (a : ℕ) → bit_and a a ≡ a
bit_and_self a = and_self_below a a (omega arith)

and_zero_below : (n a : ℕ) → a ≤ n → bit_and a 0 ≡ 0
and_zero_below n zero h = refl
and_zero_below zero (suc a) h = absurd (omega arith)
and_zero_below (suc n) (suc a) h =
    omega (arith, bit_and_step (suc a) 0, and_zero_below n (suc a / 2) (omega arith))

pub bit_and-zero : (a : ℕ) → bit_and a 0 ≡ 0
bit_and-zero a = and_zero_below a a (omega arith)

pub bit_and-one : (a : ℕ) → bit_and a 1 ≡ a % 2
bit_and-one a = omega (arith, bit_and_step a 1, bit_and-zero (a / 2))

-- `a & (a - 1)` is 0 only for a power of two.
power_below : (n a : ℕ) → a ≤ n → 0 < a → bit_and a (a - 1) ≡ 0 → (k : ℕ) × (a ≡ 2 ^ k)
power_below zero a h pos e = absurd (omega arith)
power_below (suc n) a h pos e = elim (dec_lt 0 (a / 2)) [
  | yes more ↦ elim (dec_lt 0 (a % 2)) [
    | yes odd ↦ absurd (ground (arith, bit_and_step a (a - 1), half_odd odd, bit_and_self (a / 2)))
    | no even ↦
        let (k, p) = power_below n (a / 2) (omega arith) more (halved even) in
        (suc k, omega (arith, pow-suc 2 k, p))
  ]
  | no last ↦ (0, omega arith)
]
  where
    half_odd : 0 < a % 2 → (a - 1) / 2 ≡ a / 2
    half_odd odd = omega arith

    halved : ¬ (0 < a % 2) → bit_and (a / 2) (a / 2 - 1) ≡ 0
    halved even =
        let q : (a - 1) / 2 ≡ a / 2 - 1 = omega arith in
        rw (← q) (omega (arith, bit_and_step a (a - 1)))

pub power_of_two : (a : ℕ) → 0 < a → bit_and a (a - 1) ≡ 0 → (k : ℕ) × (a ≡ 2 ^ k)
power_of_two a pos e = power_below a a (omega arith) pos e

-- Clearing the low `k` bits of a word of `w` bits, as `x & ~(2 ^ k - 1)` does.
and_ones : (w x : ℕ) → x < 2 ^ w → bit_and x (2 ^ w - 1) ≡ x
and_ones zero x h = let e : x ≡ 0 = omega arith in rw e
and_ones (suc w) x h = ground (
  arith,
  bit_and_step x (2 ^ suc w - 1),
  pow-suc 2 w,
  one-le-pow w 2,
  and_ones w (x / 2) (omega (arith, pow-suc 2 w)),
)

pub two-pow_mono : (k w : ℕ) → k ≤ w → 2 ^ k ≤ 2 ^ w
two-pow_mono zero w h = one-le-pow w 2 (omega arith)
two-pow_mono (suc k) zero h = absurd (omega arith)
two-pow_mono (suc k) (suc w) h =
    omega (arith, two-pow_mono k w (omega arith), pow-suc 2 k, pow-suc 2 w)

pub bit_and-clear_low :
    (k w x : ℕ) → k ≤ w → x < 2 ^ w → bit_and x (2 ^ w - 2 ^ k) ≡ x / 2 ^ k * 2 ^ k
bit_and-clear_low zero w x h lt = omega (arith, and_ones w x lt)
bit_and-clear_low (suc k) zero x h lt = absurd (omega arith)
bit_and-clear_low (suc k) (suc w) x h lt =
    let high : bit_and (x / 2) ((2 ^ suc w - 2 ^ suc k) / 2) ≡ x / 2 / 2 ^ k * 2 ^ k =
      rw halves (bit_and-clear_low k w (x / 2) (omega arith) below) in
    rw (deeper, shifted) (omega (arith, bit_and_step x (2 ^ suc w - 2 ^ suc k), high, even))
  where
    below : x / 2 < 2 ^ w
    below = omega (arith, pow-suc 2 w)

    halves : (2 ^ suc w - 2 ^ suc k) / 2 ≡ 2 ^ w - 2 ^ k
    halves = omega (arith, pow-suc 2 w, pow-suc 2 k)

    even : (2 ^ suc w - 2 ^ suc k) % 2 ≡ 0
    even = omega (arith, pow-suc 2 w, pow-suc 2 k)

    deeper : x / 2 ^ suc k ≡ x / 2 / 2 ^ k
    deeper = rw (pow-succ' 2 k) (sym (div-div-eq-div-mul x 2 (2 ^ k)))

    shifted : x / 2 / 2 ^ k * 2 ^ suc k ≡ x / 2 / 2 ^ k * 2 ^ k * 2
    shifted = rw (pow-suc 2 k) (omega arith)

-- Joining a word with one that has no bit of it.
pub zero-or : (a : ℕ) → bit_or 0 a ≡ a
zero-or a = bit_or-bitwise 0 a

or_zero_below : (n a : ℕ) → a ≤ n → bit_or a 0 ≡ a
or_zero_below n zero h = refl
or_zero_below zero (suc a) h = absurd (omega arith)
or_zero_below (suc n) (suc a) h =
    omega (arith, bit_or_step (suc a) 0, or_zero_below n (suc a / 2) (omega arith))

pub bit_or-zero : (a : ℕ) → bit_or a 0 ≡ a
bit_or-zero a = or_zero_below a a (omega arith)

pub bit_or-high : (k a b : ℕ) → a < 2 ^ k → bit_or a (b * 2 ^ k) ≡ a + b * 2 ^ k
bit_or-high zero a b h = let e : a ≡ 0 = omega arith in rw e (omega (arith, zero-or (b * 2 ^ 0)))
bit_or-high (suc k) a b h =
    let p : b * 2 ^ suc k ≡ b * 2 ^ k * 2 = rw (pow-suc 2 k) (omega arith) in
    let half : b * 2 ^ k * 2 / 2 ≡ b * 2 ^ k = omega arith in
    let odd : b * 2 ^ k * 2 % 2 ≡ 0 = omega arith in
    let rest = bit_or-high k (a / 2) b (omega (arith, pow-suc 2 k)) in
    let deep = rw (← half) at rest in rw p (omega (arith, bit_or_step a (b * 2 ^ k * 2), deep, odd))

pub bit_or-low : (k a b : ℕ) → b < 2 ^ k → bit_or (a * 2 ^ k) b ≡ a * 2 ^ k + b
bit_or-low zero a b h = let e : b ≡ 0 = omega arith in rw e (omega (arith, bit_or-zero (a * 2 ^ 0)))
bit_or-low (suc k) a b h =
    let p : a * 2 ^ suc k ≡ a * 2 ^ k * 2 = rw (pow-suc 2 k) (omega arith) in
    let half : a * 2 ^ k * 2 / 2 ≡ a * 2 ^ k = omega arith in
    let odd : a * 2 ^ k * 2 % 2 ≡ 0 = omega arith in
    let rest = bit_or-low k a (b / 2) (omega (arith, pow-suc 2 k)) in
    let deep = rw (← half) at rest in rw p (omega (arith, bit_or_step (a * 2 ^ k * 2) b, deep, odd))

-- A mask of low bits is a remainder.
pub bit_and-mask5 : (a : ℕ) → bit_and a 0x1F ≡ a % 32
bit_and-mask5 a = omega (
  arith,
  bit_and_step a 31,
  bit_and_step (a / 2) 15,
  bit_and_step (a / 2 / 2) 7,
  bit_and_step (a / 2 / 2 / 2) 3,
  bit_and-one (a / 2 / 2 / 2 / 2),
)

pub bit_and-mask8 : (a : ℕ) → bit_and a 0xFF ≡ a % 256
bit_and-mask8 a = omega (
  arith,
  bit_and_step a 255,
  bit_and_step (a / 2) 127,
  bit_and_step (a / 2 / 2) 63,
  bit_and-mask5 (a / 2 / 2 / 2),
)

-- The exclusive or of two words of `k` bits is one.
differ_bound : (x y : ℕ) → x < 2 → y < 2 → differ x y < 2
differ_bound zero y h l = l
differ_bound (suc x) zero h l = h
differ_bound (suc x) (suc y) h l = differ_bound x y (omega arith) (omega arith)

pub bit_xor-bound : (k a b : ℕ) → a < 2 ^ k → b < 2 ^ k → bit_xor a b < 2 ^ k
bit_xor-bound zero a b h l =
    let e : a ≡ 0 = omega arith in rw e (omega (arith, bit_xor-bitwise 0 b))
bit_xor-bound (suc k) a b h l =
    let p = pow-suc 2 k in
    let rest = bit_xor-bound k (a / 2) (b / 2) (omega (arith, p)) (omega (arith, p)) in
    let last = differ_bound (a % 2) (b % 2) (omega arith) (omega arith) in
    omega (arith, p, rest, last, bit_xor_step a b)
