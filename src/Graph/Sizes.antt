-- ===== src/Graph/Sizes.antt =====
-- image_graph.cpp: the halvings of an image's sides.
use lsfg_nx.Base.{ℕ, zero, suc, ◌+◌, ◌-◌, ◌*◌, ◌/◌, ◌^◌, ◌<◌, ◌≡◌, arith, refl, sym}
use native.Mathlib.Nat.{pow-suc, pow-succ', one-le-pow, div-div-eq-div-mul}
use lsfg_nx.Graph.{add32}
use lsfg_nx.Graph.Extent.{ceil_halve}

-- Halving a side up `n` times, below the largest 32-bit number, divides it by 2 ^ n, rounded up.
pub ceil_halve_lem :
    (n value : ℕ) → value < 2 ^ 32 - 1 → ceil_halve n value ≡ (value + (2 ^ n - 1)) / 2 ^ n
unfolding ceil_halve
ceil_halve_lem zero value h = omega arith
ceil_halve_lem (suc n) value h =
    let here : add32 value 1 / 2 ≡ (value + 1) / 2 = omega arith in
    let rest = ceil_halve_lem n ((value + 1) / 2) (omega arith) in
    let deeper : (value + (2 ^ suc n - 1)) / 2 ^ suc n ≡ (value + (2 ^ suc n - 1)) / 2 / 2 ^ n =
      rw (pow-succ' 2 n) (sym (div-div-eq-div-mul (value + (2 * 2 ^ n - 1)) 2 (2 ^ n))) in
    let half : (value + (2 ^ suc n - 1)) / 2 ≡ (value + 1) / 2 + (2 ^ n - 1) =
      omega (arith, pow-suc 2 n, one-le-pow n 2) in
    rw (here, rest, deeper, half) refl
