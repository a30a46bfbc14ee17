-- ===== src/Outcome.antt =====
-- What a fallible function leaves: its result, the error that it returns, or a read or write outside
-- an array, for which the source has no behaviour.
use lsfg_nx.Base.{ap, ◌≡◌, ◌≢◌, refl, subst, Bool, true, false, if◌then◌else◌}
use lsfg_nx.Error.{ErrorCode}
use lsfg_nx.Check.{Check, go, stop, fault}

pub data Outcome {ℓ} (A : Type ℓ) : Type ℓ where
  done : A → Outcome A
  failed : ErrorCode → Outcome A
  faulted : Outcome A

infixl 5 ◌>>=◌ ◌>>◌
abbrev pub ◌>>=◌ {ℓ κ} : {A : Type ℓ} {B : Type κ} → Outcome A → (A → Outcome B) → Outcome B
done a >>= f = f a
failed e >>= f = failed e
faulted >>= f = faulted

abbrev pub ◌>>◌ {κ} : {B : Type κ} → Outcome (Unit {0}) → Outcome B → Outcome B
m >> k = m >>= λ _. k

abbrev pub of_check : Check → Outcome (Unit {0})
of_check go = done tt
of_check (stop e) = failed e
of_check fault = faulted

pub >>=-done {ℓ κ} :
    {A : Type ℓ} {B : Type κ} (m : Outcome A) (f : A → Outcome B) {b : B}
    → (m >>= f) ≡ done b
    → (a : A) × (m ≡ done a) × (f a ≡ done b)
>>=-done (done a) f h = (a, refl, h)
>>=-done (failed e) f h = cc
>>=-done faulted f h = cc

pub of_check-done : (c : Check) → of_check c ≡ done tt → c ≡ go
of_check-done go h = refl
of_check-done (stop e) h = cc
of_check-done fault h = cc

-- What two equal results hold.
value_or {ℓ} : {A : Type ℓ} → A → Outcome A → A
value_or d (done a) = a
value_or d (failed e) = d
value_or d faulted = d

pub done-injective {ℓ} : {A : Type ℓ} (a b : A) → done a ≡ done b → a ≡ b
unfolding value_or
done-injective a b h = ap (value_or a) h

-- What holds of the result, where there is one.
unfoldable pub Ensures {ℓ κ} : {A : Type ℓ} → (A → Type κ) → Outcome A → Type κ
Ensures P (done a) = P a
Ensures P (failed e) = Unit
Ensures P faulted = Unit

module _ {ℓ κ} {A : Type ℓ} (P : A → Type κ) where
  pub Ensures-done : (m : Outcome A) (a : A) → Ensures P m → m ≡ done a → P a
  unfolding Ensures
  Ensures-done m a h e = subst (Ensures P) e h

  pub Ensures-failed : (e : ErrorCode) → Ensures P (failed e)
  unfolding Ensures
  Ensures-failed e = tt

  pub Ensures-result : (a : A) → P a → Ensures P (done a)
  unfolding Ensures
  Ensures-result a h = h

  -- A test, whose result each branch may use.
  pub Ensures-if :
      (b : Bool) (x y : Outcome A)
      → (b ≡ true → Ensures P x)
      → (b ≡ false → Ensures P y)
      → Ensures P (if b then x else y)
  Ensures-if true x y f g = f refl
  Ensures-if false x y f g = g refl

  -- An early return.
  pub Ensures-guard :
      (b : Bool) (e : ErrorCode) (y : Outcome A)
      → (b ≡ false → Ensures P y)
      → Ensures P (if b then failed e else y)
  Ensures-guard b e y g = Ensures-if b (failed e) y (λ h. Ensures-failed e) g

pub Ensures-bind {ℓ κ μ ν} :
    {A : Type ℓ} {B : Type κ} (P : A → Type μ) (Q : B → Type ν) (m : Outcome A) (f : A → Outcome B)
    → Ensures P m
    → ((a : A) → P a → Ensures Q (f a))
    → Ensures Q (m >>= f)
unfolding Ensures
Ensures-bind P Q (done a) f h k = k a h
Ensures-bind P Q (failed e) f h k = tt
Ensures-bind P Q faulted f h k = tt

-- A step of which nothing is said.
pub Ensures-then {ℓ κ μ} :
    {A : Type ℓ} {B : Type κ} (Q : B → Type μ) (m : Outcome A) (f : A → Outcome B)
    → ((a : A) → Ensures Q (f a))
    → Ensures Q (m >>= f)
unfolding Ensures
Ensures-then Q (done a) f k = k a
Ensures-then Q (failed e) f k = tt
Ensures-then Q faulted f k = tt

-- There is a result.
abbrev pub Returns {ℓ} : {A : Type ℓ} → Outcome A → Type ℓ
Returns {A = A} m = (a : A) × (m ≡ done a)

pub Returns-result {ℓ} : {A : Type ℓ} (a : A) → Returns (done a)
Returns-result a = (a, refl)

pub Returns-bind {ℓ κ} :
    {A : Type ℓ} {B : Type κ} (m : Outcome A) (f : A → Outcome B)
    → Returns m
    → ((a : A) → Returns (f a))
    → Returns (m >>= f)
Returns-bind (done a) f h k = k a
Returns-bind (failed e) f (a, h) k = cc
Returns-bind faulted f (a, h) k = cc

pub Returns-if {ℓ} :
    {A : Type ℓ} (b : Bool) (x y : Outcome A)
    → (b ≡ true → Returns x)
    → (b ≡ false → Returns y)
    → Returns (if b then x else y)
Returns-if true x y f g = f refl
Returns-if false x y f g = g refl

-- Reads outside arrays aside, a call ends with a result or with an error.
abbrev pub Safe {ℓ} : {A : Type ℓ} → Outcome A → Type ℓ
Safe m = m ≢ faulted

pub Returns-Safe {ℓ} : {A : Type ℓ} (m : Outcome A) → Returns m → Safe m
Returns-Safe m (a, h) e = cc

pub done-Safe {ℓ} : {A : Type ℓ} (a : A) → Safe (done a)
done-Safe a e = cc

pub failed-Safe {ℓ} : {A : Type ℓ} (code : ErrorCode) → Safe {A = A} (failed code)
failed-Safe code e = cc

pub Safe-bind {ℓ κ} :
    {A : Type ℓ} {B : Type κ} (m : Outcome A) (f : A → Outcome B)
    → Safe m
    → ((a : A) → m ≡ done a → Safe (f a))
    → Safe (m >>= f)
Safe-bind (done a) f h k = k a refl
Safe-bind (failed e) f h k = λ p. cc
Safe-bind faulted f h k = λ p. h refl

pub Safe-if {ℓ} :
    {A : Type ℓ} (b : Bool) (x y : Outcome A)
    → (b ≡ true → Safe x)
    → (b ≡ false → Safe y)
    → Safe (if b then x else y)
Safe-if true x y f g = f refl
Safe-if false x y f g = g refl

pub Safe-guard {ℓ} :
    {A : Type ℓ} (b : Bool) (e : ErrorCode) (y : Outcome A)
    → (b ≡ false → Safe y)
    → Safe (if b then failed e else y)
Safe-guard b e y g = Safe-if b (failed e) y (λ h. failed-Safe e) g
