-- ===== src/Instrument/Stat.antt =====
-- presentation.hpp, presentation.cpp: the tick conversions and the running statistic.
use lsfg_nx.Base.{
  ℕ, ◌+◌, ◌*◌, ◌/◌, ◌%◌, ◌^◌, ◌≤◌, ◌<◌, ◌≡◌, refl, subst, sym, arith, min, max, List, [], ◌∷◌, ◌==◌,
  if◌then◌else◌, length, All, All-mono, Contains, ◌⊎◌, inl, inr, ◌≢◌,
}
use native.Mathlib.Decide.{dec_le}

abbrev pub tick_frequency : ℕ
tick_frequency = 19_200_000

unfoldable pub ticks_to_us : ℕ → ℕ
ticks_to_us ticks = ticks * 1_000_000 % 2 ^ 64 / tick_frequency

unfoldable pub us_to_ticks : ℕ → ℕ
us_to_ticks microseconds = microseconds * tick_frequency % 2 ^ 64 / 1_000_000

-- Where the products fit 64 bits, a time in microseconds that goes to ticks and back loses at most
-- one microsecond, and never grows.
pub ticks_to_us-us_to_ticks :
    (microseconds : ℕ)
    → microseconds * tick_frequency < 2 ^ 64
    → (ticks_to_us (us_to_ticks microseconds) ≤ microseconds)
      × (microseconds ≤ ticks_to_us (us_to_ticks microseconds) + 1)
unfolding ticks_to_us us_to_ticks
ticks_to_us-us_to_ticks microseconds h = omega arith

pub record Stat : Type 0 where
  pub count : ℕ
  pub sum : ℕ
  pub min : ℕ
  pub max : ℕ

abbrev pub empty : Stat
empty = record { count = 0; sum = 0; min = 0; max = 0 }

unfoldable pub add : Stat → ℕ → Stat
add s value = record {
  count = (s.count + 1) % 2 ^ 64;
  sum = (s.sum + value) % 2 ^ 64;
  min = if s.count == 0 then value else min s.min value;
  max = if s.count == 0 then value else max s.max value;
}

unfoldable pub mean : Stat → ℕ
mean s = if s.count == 0 then 0 else s.sum / s.count

unfoldable pub total : List ℕ → ℕ
total [] = 0
total (v ∷ vs) = v + total vs

div_between :
    (n t low high : ℕ) → 0 < n → n * low ≤ t → t ≤ n * high → (low ≤ t / n) × (t / n ≤ high)
div_between n t low high h a b = grind arith

-- The values that a statistic is of, newest first.
pub record Summarises (s : Stat) (values : List ℕ) : Type 0 where
  pub counted : s.count ≡ length values
  pub summed : s.sum ≡ total values
  pub low : All (λ v. s.min ≤ v) values
  pub high : All (λ v. v ≤ s.max) values
  pub attained : (values ≡ []) ⊎ (Contains s.min values × Contains s.max values)

pub empty-Summarises : Summarises empty []
unfolding total
empty-Summarises = record {
  counted = refl;
  summed = refl;
  low = tt;
  high = tt;
  attained = inl refl;
}

min-Contains :
    (m value : ℕ) (values : List ℕ)
    → Contains m values
    → (min m value ≡ value) ⊎ Contains (min m value) values
min-Contains m value values c = elim (dec_le m value) [
  | yes p ↦ let e : min m value ≡ m = omega arith in inr (rw e c)
  | no p ↦ inl (omega arith)
]

max-Contains :
    (m value : ℕ) (values : List ℕ)
    → Contains m values
    → (max m value ≡ value) ⊎ Contains (max m value) values
max-Contains m value values c = elim (dec_le value m) [
  | yes p ↦ let e : max m value ≡ m = omega arith in inr (rw e c)
  | no p ↦ inl (omega arith)
]

add-next :
    (s : Stat) (value : ℕ)
    → s.count ≢ 0
    → ((add s value).min ≡ min s.min value) × ((add s value).max ≡ max s.max value)
unfolding add
add-next s value h = ground arith

-- Adding a value to a statistic whose counters do not wrap makes it one of the longer list.
pub add-Summarises :
    (s : Stat) (values : List ℕ) (value : ℕ)
    → Summarises s values
    → length values + 1 < 2 ^ 64
    → value + total values < 2 ^ 64
    → Summarises (add s value) (value ∷ values)
unfolding add total
add-Summarises s [] value v h k = record {
  counted = omega (arith, v.counted);
  summed = omega (arith, v.summed);
  low = (ground (arith, v.counted), tt);
  high = (ground (arith, v.counted), tt);
  attained = inr (inl (ground (arith, v.counted)), inl (ground (arith, v.counted)));
}
add-Summarises s (w ∷ ws) value v h k =
    let same = add-next s value (omega (arith, v.counted)) in
    record {
      counted = omega (arith, v.counted);
      summed = omega (arith, v.summed);
      low = (
        omega (arith, same),
        All-mono (λ x. s.min ≤ x) (w ∷ ws) (λ x p. omega (arith, same)) v.low,
      );
      high = (
        omega (arith, same),
        All-mono (λ x. x ≤ s.max) (w ∷ ws) (λ x p. omega (arith, same)) v.high,
      );
      attained = elim v.attained [
        | inl e ↦ absurd (cc e)
        | inr (a, b) ↦ inr (
          subst (λ m. (m ≡ value) ⊎ Contains m (w ∷ ws)) (sym same.0)
              (min-Contains s.min value (w ∷ ws) a),
          subst (λ m. (m ≡ value) ⊎ Contains m (w ∷ ws)) (sym same.1)
              (max-Contains s.max value (w ∷ ws) b),
        )
      ];
    }

total_bounds :
    (low high : ℕ) (values : List ℕ)
    → All (λ v. low ≤ v) values
    → All (λ v. v ≤ high) values
    → (length values * low ≤ total values) × (total values ≤ length values * high)
unfolding total
total_bounds low high [] a b = omega arith
total_bounds low high (v ∷ vs) a b = omega (arith, total_bounds low high vs a.1 b.1)

-- The mean of a statistic that is not empty lies between its least and its greatest value.
pub mean_bounds :
    (s : Stat) (values : List ℕ)
    → Summarises s values
    → s.count ≢ 0
    → (s.min ≤ mean s) × (mean s ≤ s.max)
unfolding mean
mean_bounds s values v h =
    let bounds = total_bounds s.min s.max values v.low v.high in
    ground (arith, div_between s.count s.sum s.min s.max)
