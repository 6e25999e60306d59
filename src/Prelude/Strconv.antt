-- ===== src/Prelude/Strconv.antt =====
-- What the program uses of Go's `strconv`: decimal integers and Boolean words.
use Prim.Native.Char.{code}
use Prim.Native.String.{String}
use Prim.Native.Nat.{ℕ, zero, suc, ◌+◌, ◌-◌, ◌*◌, ◌/◌, ◌%◌, ◌^◌}
use mathlib.Core.Bool.{Bool, true, false, ◌&&◌}
use mathlib.Core.Option.{Option, none, some}
use mathlib.Core.List.{List, [], ◌∷◌}
use xdas.Prelude.Tests.{◌==◌, nat_eq, string_eq, if◌then◌else◌, ltb, leb}
use xdas.Prelude.Maps.{lookup}
use xdas.Prelude.Words.{int_mod, is_neg}
use xdas.Prelude.Text.{◌<>◌}

abbrev digit_texts : List (ℕ × String)
digit_texts =
    (0, "0")
    ∷ (1, "1")
    ∷ (2, "2")
    ∷ (3, "3")
    ∷ (4, "4")
    ∷ (5, "5")
    ∷ (6, "6")
    ∷ (7, "7")
    ∷ (8, "8")
    ∷ (9, "9")
    ∷ []

abbrev pub digit_text : ℕ → String
digit_text n = elim (lookup n digit_texts) [ none ↦ "" | some t ↦ t ]

-- Decimal digits; a number has at most as many as itself, and one more.
unfoldable pub decimal_from : ℕ → ℕ → String
decimal_from zero n = ""
decimal_from (suc fuel) n =
    let front = decimal_from fuel (n / 10) in
    if ltb n 10 then digit_text n else front <> digit_text (n % 10)

unfoldable pub decimal : ℕ → String
unfolding decimal_from lookup
decimal n = decimal_from (suc n) n

-- The text of an `int64`, as `strconv.Itoa` and `fmt` write it.
unfoldable pub itoa : ℕ → String
unfolding decimal
itoa n = if is_neg n then "-" <> decimal (int_mod - n) else decimal n

-- The value of a text of decimal digits, with what was read before.
unfoldable pub read_digits : ℕ → String → Option ℕ
read_digits n String.[] = some n
read_digits n (String.◌∷◌ c s) =
    let rest = read_digits (n * 10 + (code c - 48)) s in
    if leb b'0' (code c) && leb (code c) b'9' then rest else none

-- At least one digit.
unfoldable pub read_unsigned : String → Option ℕ
unfolding read_digits
read_unsigned String.[] = none
read_unsigned (String.◌∷◌ c s) = read_digits 0 (String.◌∷◌ c s)

-- The sign and the range of an `int64`.
abbrev pub positive : Option ℕ → Option ℕ
positive none = none
positive (some n) = if ltb n (2 ^ 63) then some n else none

abbrev pub negative : Option ℕ → Option ℕ
negative none = none
negative (some n) = if leb n (2 ^ 63) then some ((int_mod - n) % int_mod) else none

-- `strconv.Atoi`, without the kind of its error
unfoldable pub atoi : String → Option ℕ
unfolding read_unsigned
atoi String.[] = none
atoi (String.◌∷◌ c s) =
    if code c == b'-'
    then negative (read_unsigned s)
    else if code c == b'+'
    then positive (read_unsigned s)
    else positive (read_unsigned (String.◌∷◌ c s))

-- The value of `strconv.ParseUint(s, 10, 0)`, read from the left: a character that is no digit is a
-- syntax error, and where 64 bits are exceeded the largest number is the value, whatever follows.
unfoldable pub read_uint : ℕ → String → Option ℕ
read_uint n String.[] = some n
read_uint n (String.◌∷◌ c s) =
    let next = n * 10 + (code c - 48) in
    let rest = read_uint next s in
    if leb b'0' (code c) && leb (code c) b'9'
    then (if ltb next int_mod then rest else some (int_mod - 1))
    else none

unfoldable pub parse_uint : String → Option ℕ
unfolding read_uint
parse_uint String.[] = none
parse_uint (String.◌∷◌ c s) = read_uint 0 (String.◌∷◌ c s)

-- The value that `strconv.ParseInt(s, 10, 0)` gives whether or not it also gives an error: 0 on a
-- syntax error, and the nearest number when out of range.
abbrev pub saturate : Option ℕ → ℕ
saturate none = 0
saturate (some n) = if ltb n (2 ^ 63) then n else 2 ^ 63 - 1

abbrev pub saturate_negative : Option ℕ → ℕ
saturate_negative none = 0
saturate_negative (some n) = if leb n (2 ^ 63) then (int_mod - n) % int_mod else 2 ^ 63

unfoldable pub parse_int : String → ℕ
unfolding parse_uint
parse_int String.[] = 0
parse_int (String.◌∷◌ c s) =
    if code c == b'-'
    then saturate_negative (parse_uint s)
    else if code c == b'+'
    then saturate (parse_uint s)
    else saturate (parse_uint (String.◌∷◌ c s))

abbrev bool_words : List (String × Bool)
bool_words =
    ("1", true)
    ∷ ("t", true)
    ∷ ("T", true)
    ∷ ("TRUE", true)
    ∷ ("true", true)
    ∷ ("True", true)
    ∷ ("0", false)
    ∷ ("f", false)
    ∷ ("F", false)
    ∷ ("FALSE", false)
    ∷ ("false", false)
    ∷ ("False", false)
    ∷ []

-- `strconv.ParseBool`, which gives false beside an error
unfoldable pub parse_bool_word : String → Bool
unfolding lookup
parse_bool_word s = elim (lookup s bool_words) [ none ↦ false | some b ↦ b ]
