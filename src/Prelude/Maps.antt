-- ===== src/Prelude/Maps.antt =====
-- Go's maps as association lists.
use mathlib.Core.Path.{◌≡◌, refl}
use mathlib.Core.List.{List, [], ◌∷◌}
use mathlib.Core.Option.{Option, none, some}
use native.Mathlib.Omega.{arith}
use xdas.Prelude.Tests.{Eq, ◌==◌, if◌then◌else◌}

module _ {ℓ κ} {K : Type ℓ} {V : Type κ} ⦃eq : Eq K⦄ where
  -- `v, ok := m[key]`
  unfoldable pub lookup : K → List (K × V) → Option V
  lookup key [] = none
  lookup key ((first, value) ∷ m) = if first == key then some value else lookup key m

  -- `m[key] = value`
  unfoldable pub insert : K → V → List (K × V) → List (K × V)
  insert key value [] = (key, value) ∷ []
  insert key value ((first, old) ∷ m) =
      let others = insert key value m in
      if first == key then (key, value) ∷ m else (first, old) ∷ others

  -- `m[key]`, the zero value where the key is missing
  unfoldable pub lookup_or : K → V → List (K × V) → V
  unfolding lookup
  lookup_or key zero_value m = elim (lookup key m) [ none ↦ zero_value | some value ↦ value ]

  pub lookup-insert :
      (key asked : K) (value : V) (m : List (K × V))
      → lookup asked (insert key value m) ≡ (if key == asked then some value else lookup asked m)
  unfolding lookup insert
  lookup-insert key asked value [] = refl
  lookup-insert key asked value ((first, old) ∷ m) = ground (
    arith,
    eq.beq_iff key asked,
    eq.beq_iff first key,
    eq.beq_iff first asked,
    lookup-insert key asked value m,
  )
