-- ===== src/Check.antt =====
-- The shape of the validators: a sequence of tests, each of which may return early. `fault` is a
-- read outside an array, for which the source has no behaviour.
pub mod Laws
use lsfg_nx.Base.{
  ℕ, zero, suc, ◌+◌, Bool, true, false, List, [], ◌∷◌, Option, none, some, get_elem?,
}
use lsfg_nx.Error.{ErrorCode}

pub data Check : Type 0 where
  go : Check
  stop : ErrorCode → Check
  fault : Check

-- The next statement runs where the one before it did not return.
infixl 5 ◌>>◌
abbrev pub ◌>>◌ : Check → Check → Check
go >> k = k
stop e >> k = stop e
fault >> k = fault

-- `if (test) return e;`
abbrev pub reject : Bool → ErrorCode → Check
reject true e = stop e
reject false e = go

-- `xs[i]`, for the statements that use it.
abbrev pub read {ℓ} : {A : Type ℓ} → List A → ℕ → (A → Check) → Check
read xs i body = elim (get_elem? xs i) [ none ↦ fault | some x ↦ body x ]

-- `for (const auto& x : xs)`
unfoldable pub each {ℓ} : {A : Type ℓ} → List A → (A → Check) → Check
each [] body = go
each (x ∷ xs) body = body x >> each xs body

-- `for (k = i; k < i + n; ++k)`
unfoldable pub for_range : ℕ → ℕ → (ℕ → Check) → Check
for_range i zero body = go
for_range i (suc n) body = body i >> for_range (suc i) n body
