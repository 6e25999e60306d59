-- ===== src/Prelude/Text.antt =====
-- What the program uses of Go's `strings` and `net/http` text functions. The letters here are those of
-- ASCII, as in the names of headers.
use Prim.Native.Char.{Char, code}
use Prim.Native.String
use Prim.Native.String.{String}
use mathlib.Core.Path.{◌≡◌, refl, ap, sym, ◌∙◌}
use mathlib.Core.Bool.{true}
use mathlib.Core.Logic.{◌≢◌}
use mathlib.Core.Option.{none, some}
use mathlib.Core.List.{List, [], ◌∷◌}
use Prim.Native.Nat.{ℕ}
use native.Mathlib.Omega.{arith}
use xdas.Prelude.Tests.{◌==◌, nat_eq, if◌then◌else◌, nat_beq, nat_beq_iff}
use xdas.Prelude.Maps.{lookup}
use text.Mathlib.TextLemmas.{nil-append, cons-append, tail-eq_of_cons-eq, append_cancel_left}

infixr 65 ◌<>◌
-- `s + t` on strings
abbrev pub ◌<>◌ : String → String → String
s <> t = String.◌++◌ s t

abbrev one : Char → String
one c = String.◌∷◌ c String.[]

-- The letters, by the code of the small one.
abbrev letters : List (ℕ × Char)
letters =
    (b'a', "A")
    ∷ (b'b', "B")
    ∷ (b'c', "C")
    ∷ (b'd', "D")
    ∷ (b'e', "E")
    ∷ (b'f', "F")
    ∷ (b'g', "G")
    ∷ (b'h', "H")
    ∷ (b'i', "I")
    ∷ (b'j', "J")
    ∷ (b'k', "K")
    ∷ (b'l', "L")
    ∷ (b'm', "M")
    ∷ (b'n', "N")
    ∷ (b'o', "O")
    ∷ (b'p', "P")
    ∷ (b'q', "Q")
    ∷ (b'r', "R")
    ∷ (b's', "S")
    ∷ (b't', "T")
    ∷ (b'u', "U")
    ∷ (b'v', "V")
    ∷ (b'w', "W")
    ∷ (b'x', "X")
    ∷ (b'y', "Y")
    ∷ (b'z', "Z")
    ∷ []

unfoldable pub to_upper_char : Char → Char
to_upper_char c = elim (lookup (code c) letters) [ none ↦ c | some u ↦ u ]

-- The letters, by the code of the capital.
abbrev capitals : List (ℕ × Char)
capitals =
    (b'A', "a")
    ∷ (b'B', "b")
    ∷ (b'C', "c")
    ∷ (b'D', "d")
    ∷ (b'E', "e")
    ∷ (b'F', "f")
    ∷ (b'G', "g")
    ∷ (b'H', "h")
    ∷ (b'I', "i")
    ∷ (b'J', "j")
    ∷ (b'K', "k")
    ∷ (b'L', "l")
    ∷ (b'M', "m")
    ∷ (b'N', "n")
    ∷ (b'O', "o")
    ∷ (b'P', "p")
    ∷ (b'Q', "q")
    ∷ (b'R', "r")
    ∷ (b'S', "s")
    ∷ (b'T', "t")
    ∷ (b'U', "u")
    ∷ (b'V', "v")
    ∷ (b'W', "w")
    ∷ (b'X', "x")
    ∷ (b'Y', "y")
    ∷ (b'Z', "z")
    ∷ []

unfoldable pub to_lower_char : Char → Char
to_lower_char c = elim (lookup (code c) capitals) [ none ↦ c | some u ↦ u ]

nat_beq_refl : (n : ℕ) → nat_beq n n ≡ true
nat_beq_refl n = (nat_beq_iff n n).1 refl

abbrev pub push_head : Char → List String → List String
push_head c [] = one c ∷ []
push_head c (w ∷ ws) = String.◌∷◌ c w ∷ ws

-- `strings.Split(s, sep)` at a separator of one character
unfoldable pub split : Char → String → List String
split sep String.[] = "" ∷ []
split sep (String.◌∷◌ c s) =
    let rest = split sep s in if code c == code sep then "" ∷ rest else push_head c rest

-- The text does not hold the character.
abbrev pub Lacks : Char → String → Type 0
Lacks sep String.[] = Unit
Lacks sep (String.◌∷◌ c s) = (code c ≢ code sep) × Lacks sep s

pub split_of_Lacks : (sep : Char) (s : String) → Lacks sep s → split sep s ≡ s ∷ []
unfolding split
split_of_Lacks sep String.[] _ = refl
split_of_Lacks sep (String.◌∷◌ c s) (h, k) = ground (arith, split_of_Lacks sep s k)

pub split-append :
    (sep : Char) (s t : String)
    → Lacks sep s
    → split sep (s <> (String.◌∷◌ sep t)) ≡ s ∷ split sep t
unfolding split
split-append sep String.[] t _ = rw nil-append (ground (arith, nat_beq_refl (code sep)))
split-append sep (String.◌∷◌ c s) t (h, k) = rw cons-append (ground (arith, split-append sep s t k))

-- A text before the first separator, and what follows it, are determined by the joined text.
pub append-sep-inj :
    (sep : Char) (a b x y : String)
    → Lacks sep a
    → Lacks sep b
    → a <> (String.◌∷◌ sep x) ≡ b <> (String.◌∷◌ sep y)
    → (a ≡ b) × (x ≡ y)
append-sep-inj sep a b x y ha hb e = (
  heads,
  tail-eq_of_cons-eq (
      append_cancel_left a (String.◌∷◌ sep x) (String.◌∷◌ sep y)
        (e ∙ ap (λ t. t <> (String.◌∷◌ sep y)) (sym heads))),
)
  where
    parts : (a ∷ split sep x) ≡ (b ∷ split sep y)
    parts = cc (split-append sep a x ha, split-append sep b y hb, ap (split sep) e)

    heads : a ≡ b
    heads = cc parts
