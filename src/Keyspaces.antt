-- ===== src/Keyspaces.antt =====
-- internal/keyspaces/kind.go: the kinds of a keyspace and their text form. A kind is an `int`.
pub mod Laws
use xdas.Prelude.{
  ℕ, zero, suc, String, List, [], ◌∷◌, Option, none, some, Run, returns, panics, and_then, lookup,
  string_eq,
}

abbrev pub Kind : Type 0
Kind = ℕ

abbrev pub ks_string : Kind
ks_string = 0

abbrev pub ks_dm : Kind
ks_dm = 1

abbrev pub ks_atomic : Kind
ks_atomic = 2

abbrev pub ks_hashes : Kind
ks_hashes = 3

-- `xs[i]`, which panics out of range
abbrev pub index : List String → ℕ → Run String
index [] i = panics
index (x ∷ xs) zero = returns x
index (x ∷ xs) (suc i) = index xs i

-- `String`
unfoldable pub to_string : Kind → Run String
to_string k = index ("string" ∷ "dm" ∷ "atomic" ∷ "hashes" ∷ []) k

abbrev pub kinds : List (String × Kind)
kinds = ("string", ks_string) ∷ ("dm", ks_dm) ∷ ("atomic", ks_atomic) ∷ ("hashes", ks_hashes) ∷ []

-- `UnmarshalText`: the new value of the receiver, and whether the text was refused.
unfoldable pub unmarshal_text : Kind → String → Kind × Option String
unfolding lookup
unmarshal_text k text = elim (lookup text kinds) [
  | none ↦ (k, some text)
  | some kind ↦ (kind, none)
]

-- `MarshalText`
unfoldable pub marshal_text : Kind → Run String
unfolding to_string
marshal_text k = and_then (to_string k) returns
