-- ===== src/Prelude/Results.antt =====
-- Go's `(T, error)` where the value beside an error is dropped, and runs that may panic.
use mathlib.Core.Path.{◌≡◌, refl}
use mathlib.Core.Logic.{◌⊎◌, inl, inr}

pub data Result {ℓ κ} (E : Type ℓ) (A : Type κ) : Type (ℓ ⊔ κ) where
  ok : A → Result E A
  err : E → Result E A

-- The early return `if err != nil { return err }`.
infixl 5 ◌>>=◌
abbrev pub ◌>>=◌ {ℓ κ μ} :
    {E : Type ℓ} {A : Type κ} {B : Type μ} → Result E A → (A → Result E B) → Result E B
ok a >>= f = f a
err e >>= f = err e

pub Result-cases {ℓ κ} :
    {E : Type ℓ} {A : Type κ} (r : Result E A) → ((a : A) × (r ≡ ok a)) ⊎ ((e : E) × (r ≡ err e))
Result-cases (ok a) = inl (a, refl)
Result-cases (err e) = inr (e, refl)

pub ok-inj {ℓ κ} : {E : Type ℓ} {A : Type κ} {a b : A} → ◌≡◌ {A = Result E A} (ok a) (ok b) → a ≡ b
ok-inj h = cc

-- Inversion of a chain that succeeds.
pub >>=-eq-ok {ℓ κ μ} :
    {E : Type ℓ} {A : Type κ} {B : Type μ} (r : Result E A) (f : A → Result E B) {b : B}
    → (r >>= f) ≡ ok b
    → (a : A) × (r ≡ ok a) × (f a ≡ ok b)
>>=-eq-ok (ok a) f h = (a, refl, h)
>>=-eq-ok (err e) f h = cc

-- A run that panics is `panics`; any other ends in `returns`.
pub data Run {ℓ} (A : Type ℓ) : Type ℓ where
  returns : A → Run A
  panics : Run A

pub returns-inj {ℓ} : {A : Type ℓ} {a b : A} → ◌≡◌ {A = Run A} (returns a) (returns b) → a ≡ b
returns-inj h = cc

abbrev pub and_then {ℓ κ} : {A : Type ℓ} {B : Type κ} → Run A → (A → Run B) → Run B
and_then (returns a) f = f a
and_then panics f = panics

-- Inversion of a run that returns.
pub and_then-eq-returns {ℓ κ} :
    {A : Type ℓ} {B : Type κ} (m : Run A) (f : A → Run B) {b : B}
    → and_then m f ≡ returns b
    → (a : A) × (m ≡ returns a) × (f a ≡ returns b)
and_then-eq-returns (returns a) f h = (a, refl, h)
and_then-eq-returns panics f h = cc

pub Run-cases {ℓ} : {A : Type ℓ} (r : Run A) → ((a : A) × (r ≡ returns a)) ⊎ (r ≡ panics)
Run-cases (returns a) = inl (a, refl)
Run-cases panics = inr refl

-- A run that does not panic.
abbrev pub Returns {ℓ} : {A : Type ℓ} → Run A → Type 0
Returns (returns a) = Unit
Returns panics = ⊥

pub Returns_lem {ℓ} : {A : Type ℓ} (r : Run A) → ¬ (r ≡ panics) → Returns r
Returns_lem (returns a) h = tt
Returns_lem panics h = h refl

pub Returns-and_then {ℓ κ} :
    {A : Type ℓ} {B : Type κ} (m : Run A) (f : A → Run B)
    → Returns m
    → ((a : A) → Returns (f a))
    → Returns (and_then m f)
Returns-and_then (returns a) f h k = k a
Returns-and_then panics f h k = h

-- The same, where the rest of the run may use what came before it.
pub Returns-and_then_eq {ℓ κ} :
    {A : Type ℓ} {B : Type κ} (m : Run A) (f : A → Run B)
    → Returns m
    → ((a : A) → m ≡ returns a → Returns (f a))
    → Returns (and_then m f)
Returns-and_then_eq (returns a) f h k = k a refl
Returns-and_then_eq panics f h k = h
