-- ===== src/Check/Laws.antt =====
-- What it means that a sequence of tests runs to its end.
use lsfg_nx.Base.{
  ℕ, zero, suc, ◌+◌, ◌-◌, ◌%◌, ◌^◌, ◌≤◌, ◌<◌, ◌≡◌, ◌↔◌, refl, arith, Bool, true, false, List, [],
  ◌∷◌, some, get_elem?, All, subst, sym,
}
use mathlib.Core.Option.{some-injective}
use native.Mathlib.Decide.{ℕ_discrete}
use lsfg_nx.Error.{ErrorCode}
use lsfg_nx.Check.{Check, go, stop, fault, ◌>>◌, reject, read, each, for_range}

pub >>-go : (a b : Check) → ((a >> b) ≡ go) ↔ ((a ≡ go) × (b ≡ go))
>>-go go b = (λ h. (refl, h), λ h. h.1)
>>-go (stop e) b = (λ h. (cc, cc), λ h. cc)
>>-go fault b = (λ h. (cc, cc), λ h. cc)

pub reject-go : (t : Bool) (e : ErrorCode) → (reject t e ≡ go) ↔ (t ≡ false)
reject-go true e = (λ h. cc, λ h. cc)
reject-go false e = (λ h. refl, λ h. refl)

pub read-go {ℓ} :
    {A : Type ℓ} (xs : List A) (i : ℕ) (body : A → Check)
    → (read xs i body ≡ go) ↔ ((x : A) × (get_elem? xs i ≡ some x) × (body x ≡ go))
read-go [] i body = (λ h. absurd (cc), λ (x, e, h). cc)
read-go (x ∷ xs) zero body =
    (λ h. (x, refl, h), λ t. subst (λ z. body z ≡ go) (sym (some-injective x t.0 t.1)) t.2)
read-go (x ∷ xs) (suc i) body = read-go xs i body

pub each-go {ℓ} :
    {A : Type ℓ} (xs : List A) (body : A → Check) → (each xs body ≡ go) ↔ All (λ x. body x ≡ go) xs
unfolding each
each-go [] body = (λ h. tt, λ h. refl)
each-go (x ∷ xs) body = (
  λ h. let s = (>>-go (body x) (each xs body)).0 h in (s.0, (each-go xs body).0 s.1),
  λ h. (>>-go (body x) (each xs body)).1 (h.0, (each-go xs body).1 h.1),
)

pub for_range-go :
    (i n : ℕ) (body : ℕ → Check)
    → (for_range i n body ≡ go) ↔ ((k : ℕ) → i ≤ k → k < i + n → body k ≡ go)
unfolding for_range
for_range-go i zero body = (λ h k a b. absurd (omega arith), λ h. refl)
for_range-go i (suc n) body = (
  λ h k a b.
      let s = (>>-go (body i) (for_range (suc i) n body)).0 h in
      elim (ℕ_discrete i k) [
        | yes e ↦ subst (λ m. body m ≡ go) e s.0
        | no ne ↦ (for_range-go (suc i) n body).0 s.1 k (omega arith) (omega arith)
      ],
  λ h. (>>-go (body i) (for_range (suc i) n body)).1 (
    h i (omega arith) (omega arith),
    (for_range-go (suc i) n body).1 (λ k a b. h k (omega arith) (omega arith)),
  ),
)

pub for_range-first :
    (i n : ℕ) (body : ℕ → Check)
    → 0 < n
    → for_range i n body ≡ (body i >> for_range (suc i) (n - 1) body)
unfolding for_range
for_range-first i zero body h = absurd (omega arith)
for_range-first i (suc n) body h = let e : suc n - 1 ≡ n = omega arith in rw e

-- A loop that reads `xs[first + k]` for each `k` below a count, where the sum is of 32-bit numbers
-- and does not wrap.
pub for_range-read {ℓ} :
    {A : Type ℓ} (xs : List A) (first n : ℕ) (body : A → Check)
    → first + n < 2 ^ 32
    → (for_range 0 n (λ k. read xs ((first + k) % 2 ^ 32) body) ≡ go)
      ↔ ((k : ℕ) → k < n → (x : A) × (get_elem? xs (first + k) ≡ some x) × (body x ≡ go))
for_range-read xs first n body fits = (
  λ h k b.
      let r : step k ≡ go = (for_range-go 0 n step).0 h k (omega arith) (omega (arith, b)) in
      let (x, e, s) = (read-go xs ((first + k) % 2 ^ 32) body).0 r in (x, rw (plain k b) at e, s),
  λ ok. (for_range-go 0 n step).1 (λ k low b.
      let here : k < n = omega (arith, b) in
      let (x, e, s) = ok k here in
      (read-go xs ((first + k) % 2 ^ 32) body).1 (x, rw (plain k here) e, s)),
)
  where
    step : ℕ → Check
    step k = read xs ((first + k) % 2 ^ 32) body

    plain : (k : ℕ) → k < n → (first + k) % 2 ^ 32 ≡ first + k
    plain k b = omega arith
