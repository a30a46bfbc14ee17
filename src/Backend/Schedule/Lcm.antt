-- ===== src/Backend/Schedule/Lcm.antt =====
-- `std::lcm` of unsigned numbers, by Euclid's algorithm.
use lsfg_nx.Base.{ℕ, zero, suc, ◌+◌, ◌*◌, ◌/◌, ◌%◌, ◌≤◌, ◌<◌, ◌≡◌, refl, ap, ◌∙◌, arith}
use native.Mathlib.Nat.{mul-div_cancel}

-- The second number is fuel enough, since it falls in every round.
gcd_go : ℕ → ℕ → ℕ → ℕ
gcd_go zero a b = a
gcd_go (suc fuel) a zero = a
gcd_go (suc fuel) a (suc b) = gcd_go fuel (suc b) (a % suc b)

unfoldable pub gcd : ℕ → ℕ → ℕ
unfolding gcd_go
gcd a b = gcd_go b a b

unfoldable pub lcm : ℕ → ℕ → ℕ
unfolding gcd
lcm a b = a / gcd a b * b

lcm_runs : lcm 4 6 ≡ 12
unfolding lcm
lcm_runs = refl

gcd_go-divides :
    (fuel a b : ℕ)
    → b ≤ fuel
    → (x : ℕ) × (y : ℕ) × (a ≡ x * gcd_go fuel a b) × (b ≡ y * gcd_go fuel a b)
unfolding gcd_go
gcd_go-divides zero a b h = (1, 0, omega arith, omega arith)
gcd_go-divides (suc fuel) a zero h = (1, 0, omega arith, omega arith)
gcd_go-divides (suc fuel) a (suc b) h =
    let (x, y, e, f) = gcd_go-divides fuel (suc b) (a % suc b) (omega arith) in
    (a / suc b * x + y, x, omega (arith, ap (λ (t : ℕ). a / suc b * t) e, f), e)

quotient_multiple :
    (a b g x y : ℕ)
    → 0 < a
    → a ≡ x * g
    → b ≡ y * g
    → (a / g * b ≡ y * a) × (a / g * b ≡ x * b) × (0 < x)
quotient_multiple a b g x y h e f =
    let pos : 0 < g = grind arith in
    let q : a / g ≡ x = ap (λ (t : ℕ). t / g) e ∙ mul-div_cancel x pos in
    let p : a / g * b ≡ x * b = ap (λ (t : ℕ). t * b) q in
    (omega (arith, p, ap (λ (t : ℕ). x * t) f, ap (λ (t : ℕ). y * t) e), p, grind arith)

-- What the schedule relies on: the result is a multiple of both numbers, and 0 only if one is.
pub lcm_multiple :
    (a b : ℕ) → 0 < a → (x : ℕ) × (y : ℕ) × (lcm a b ≡ y * a) × (lcm a b ≡ x * b) × (0 < x)
unfolding lcm gcd
lcm_multiple a b h =
    let (x, y, e, f) = gcd_go-divides b a b (omega arith) in
    let (p, q, r) = quotient_multiple a b (gcd_go b a b) x y h e f in (x, y, p, q, r)

product_pos : (x b c : ℕ) → 0 < x → 0 < b → c ≡ x * b → 0 < c
product_pos x b c h k e = grind arith

pub lcm_pos : (a b : ℕ) → 0 < a → 0 < b → 0 < lcm a b
lcm_pos a b h k = let (x, y, e, f, r) = lcm_multiple a b h in product_pos x b (lcm a b) r k f
