-- ===== src/Prelude/Fallible.antt =====
-- Steps that may panic and may return an error: the early return of Go under both.
use mathlib.Core.Path.{◌≡◌, refl}
use xdas.Prelude.Results.{Result, ok, err, Run, returns, panics, Returns}

infixl 5 ◌>>=◌
abbrev pub ◌>>=◌ {ℓ κ μ} :
    {E : Type ℓ} {A : Type κ} {B : Type μ}
    → Run (Result E A)
    → (A → Run (Result E B))
    → Run (Result E B)
returns (ok a) >>= f = f a
returns (err e) >>= f = returns (err e)
panics >>= f = panics

-- Inversion of a successful bind.
pub >>=-eq-ok {ℓ κ μ} :
    {E : Type ℓ} {A : Type κ} {B : Type μ} (m : Run (Result E A)) (f : A → Run (Result E B)) {b : B}
    → (m >>= f) ≡ returns (ok b)
    → (a : A) × (m ≡ returns (ok a)) × (f a ≡ returns (ok b))
>>=-eq-ok (returns (ok a)) f h = (a, refl, h)
>>=-eq-ok (returns (err e)) f h = cc
>>=-eq-ok panics f h = cc

pub Returns->>= {ℓ κ μ} :
    {E : Type ℓ} {A : Type κ} {B : Type μ} (m : Run (Result E A)) (f : A → Run (Result E B))
    → Returns m
    → ((a : A) → Returns (f a))
    → Returns (m >>= f)
Returns->>= (returns (ok a)) f h k = k a
Returns->>= (returns (err e)) f h k = tt
Returns->>= panics f h k = h
