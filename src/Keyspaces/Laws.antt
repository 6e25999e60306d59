-- ===== src/Keyspaces/Laws.antt =====
-- internal/keyspaces/kind.go: the text form is a faithful one.
use xdas.Prelude.{
  zero, suc, ◌≤◌, ◌<◌, String, ◌≡◌, refl, ◌⊎◌, inl, inr, none, some, returns, panics, arith,
}
use text.Mathlib.TextEquality.{eq_iff}
use xdas.Keyspaces.{Kind, to_string, marshal_text, unmarshal_text}

-- `MarshalText` panics exactly at the numbers that are no kind, and what it writes for a kind,
-- `UnmarshalText` reads back, whatever the receiver held.
pub unmarshal_text-marshal_text :
    (k old : Kind)
    → ((k ≤ 3) × ((s : String) × (marshal_text k ≡ returns s) × (unmarshal_text old s ≡ (k, none))))
      ⊎ ((3 < k) × (marshal_text k ≡ panics))
unfolding marshal_text unmarshal_text
unmarshal_text-marshal_text zero old = inl (omega arith, ("string", refl, refl))
unmarshal_text-marshal_text (suc zero) old = inl (omega arith, ("dm", refl, refl))
unmarshal_text-marshal_text (suc (suc zero)) old = inl (omega arith, ("atomic", refl, refl))
unmarshal_text-marshal_text (suc (suc (suc zero))) old = inl (omega arith, ("hashes", refl, refl))
unmarshal_text-marshal_text (suc (suc (suc (suc k)))) old = inr (omega arith, refl)

-- A text that `UnmarshalText` accepts is the text of the kind it stores; a text that it refuses
-- leaves the receiver as it was.
pub unmarshal_text_cases :
    (old : Kind) (s : String)
    → ((unmarshal_text old s).1 ≡ none) × (to_string (unmarshal_text old s).0 ≡ returns s)
      ⊎ ((unmarshal_text old s ≡ (old, some s)))
unfolding unmarshal_text to_string
unmarshal_text_cases old s =
    ground (arith, eq_iff "string" s, eq_iff "dm" s, eq_iff "atomic" s, eq_iff "hashes" s)
