-- ===== src/Prelude/Decimals.antt =====
-- Go's `strconv`: a number that is written in decimal is read back.
use Prim.Native.Char.{Char, code}
use Prim.Native.String.{String}
use Prim.Native.Nat.{ℕ, zero, suc, ◌+◌, ◌-◌, ◌*◌, ◌/◌, ◌%◌, ◌^◌, ◌≤◌, ◌<◌}
use mathlib.Core.Path.{◌≡◌, refl, ap, sym, ◌∙◌}
use mathlib.Core.Bool.{Bool, true, false, ◌&&◌}
use mathlib.Core.Logic.{inl, inr}
use mathlib.Core.Option.{Option, none, some}
use native.Mathlib.Omega.{arith}
use xdas.Prelude.Tests.{◌==◌, nat_eq, if◌then◌else◌, ltb, leb, Bool-cases, lt→ltb}
use xdas.Prelude.Maps.{lookup}
use xdas.Prelude.Text.{◌<>◌}
use xdas.Prelude.Strconv.{
  digit_text, decimal_from, decimal, read_digits, read_unsigned, positive, atoi,
}
use text.Mathlib.TextLemmas.{nil-append, cons-append}

abbrev and_read : String → Option ℕ → Option ℕ
and_read t none = none
and_read t (some n) = read_digits n t

read_digits-append : (n : ℕ) (s t : String) → read_digits n (s <> t) ≡ and_read t (read_digits n s)
unfolding read_digits
read_digits-append n String.[] t = rw nil-append refl
read_digits-append n (String.◌∷◌ c s) t =
    let k = n * 10 + (code c - 48) in
    let is_digit = leb b'0' (code c) && leb (code c) b'9' in
    rw (cons-append c s t, read_digits)
      (ap (λ x. if is_digit then x else none) (read_digits-append k s t)
        ∙ under_test is_digit (read_digits k s))
  where
    under_test :
        (b : Bool) (x : Option ℕ)
        → (if b then and_read t x else none) ≡ and_read t (if b then x else none)
    under_test true x = refl
    under_test false x = refl

digit-read : (n d : ℕ) → d < 10 → read_digits n (digit_text d) ≡ some (n * 10 + d)
unfolding read_digits lookup
digit-read n zero h = refl
digit-read n (suc zero) h = refl
digit-read n (suc (suc zero)) h = refl
digit-read n (suc (suc (suc zero))) h = refl
digit-read n (suc (suc (suc (suc zero)))) h = refl
digit-read n (suc (suc (suc (suc (suc zero))))) h = refl
digit-read n (suc (suc (suc (suc (suc (suc zero)))))) h = refl
digit-read n (suc (suc (suc (suc (suc (suc (suc zero))))))) h = refl
digit-read n (suc (suc (suc (suc (suc (suc (suc (suc zero)))))))) h = refl
digit-read n (suc (suc (suc (suc (suc (suc (suc (suc (suc zero))))))))) h = refl
digit-read n (suc (suc (suc (suc (suc (suc (suc (suc (suc (suc d)))))))))) h = absurd (omega arith)

small_lem : (n : ℕ) → ltb n 10 ≡ true → n < 10
small_lem n e = ground arith

decimal_from-read : (fuel n : ℕ) → n < fuel → read_digits 0 (decimal_from fuel n) ≡ some n
unfolding decimal_from
decimal_from-read zero n h = absurd (omega arith)
decimal_from-read (suc fuel) n h = elim (Bool-cases (ltb n 10)) [
  | inl small ↦
      rw (small, decimal_from) (digit-read 0 n (small_lem n small) ∙ ap (λ x. some x) (omega arith))
  | inr large ↦
      rw (large, decimal_from)
        (read_digits-append 0 (decimal_from fuel (n / 10)) (digit_text (n % 10))
          ∙ ap (and_read (digit_text (n % 10)))
              (decimal_from-read fuel (n / 10) (smaller n large h))
          ∙ digit-read (n / 10) (n % 10) (omega arith)
          ∙ ap (λ x. some x) (omega arith))
]
  where
    smaller : (n : ℕ) → ltb n 10 ≡ false → n < suc fuel → n / 10 < fuel
    smaller n e h = let big : 10 ≤ n = ground arith in omega arith

abbrev is_empty : String → Bool
is_empty String.[] = true
is_empty (String.◌∷◌ c s) = false

is_empty-append : (s t : String) → is_empty t ≡ false → is_empty (s <> t) ≡ false
is_empty-append String.[] t e = rw nil-append e
is_empty-append (String.◌∷◌ c s) t e = rw (cons-append c s t) refl

empty-read : (n : ℕ) (s : String) → is_empty s ≡ true → read_digits n s ≡ some n
unfolding read_digits
empty-read n String.[] e = refl
empty-read n (String.◌∷◌ c s) e = absurd (cc e)

is_empty-digit : (d : ℕ) → d < 10 → is_empty (digit_text d) ≡ false
is_empty-digit d h = elim (Bool-cases (is_empty (digit_text d))) [
  | inr e ↦ e
  | inl e ↦
      let same : some 1 ≡ some (10 + d) = sym (empty-read 1 (digit_text d) e) ∙ digit-read 1 d h in
      absurd (not_one (some_inj same))
]
  where
    some_inj : {a b : ℕ} → some a ≡ some b → a ≡ b
    some_inj e = cc

    not_one : 1 ≡ 10 + d → ⊥
    not_one e = omega arith

is_empty-decimal : (n : ℕ) → is_empty (decimal n) ≡ false
unfolding decimal decimal_from
is_empty-decimal n = elim (Bool-cases (ltb n 10)) [
  | inl small ↦ rw (small, decimal, decimal_from) (is_empty-digit n (small_lem n small))
  | inr large ↦
      rw (large, decimal, decimal_from)
        (is_empty-append (decimal_from n (n / 10)) (digit_text (n % 10))
          (is_empty-digit (n % 10) (omega arith)))
]

read_unsigned_lem : (s : String) → is_empty s ≡ false → read_unsigned s ≡ read_digits 0 s
unfolding read_unsigned
read_unsigned_lem String.[] e = absurd (cc e)
read_unsigned_lem (String.◌∷◌ c s) e = refl

-- A text that is read as a number starts with a digit, so it is read with no sign.
atoi_unsigned : (s : String) (n : ℕ) → read_unsigned s ≡ some n → atoi s ≡ positive (some n)
unfolding atoi read_unsigned read_digits
atoi_unsigned String.[] n e = absurd (cc e)
atoi_unsigned (String.◌∷◌ c s) n e =
    let (minus, plus) = no_sign (code c) (digit_first c s n e) in
    rw (minus, atoi) (rw plus (ap positive e))
  where
    digit_first :
        (c : Char) (s : String) (n : ℕ)
        → read_digits 0 (String.◌∷◌ c s) ≡ some n
        → (leb b'0' (code c) && leb (code c) b'9') ≡ true
    digit_first c s n e = elim (Bool-cases (leb b'0' (code c) && leb (code c) b'9')) [
      | inl digit ↦ digit
      | inr wrong ↦ absurd (cc (rw (wrong, read_digits) at e))
    ]

    no_sign :
        (k : ℕ) → (leb b'0' k && leb k b'9') ≡ true → ((k == b'-') ≡ false) × ((k == b'+') ≡ false)
    no_sign k e = (ground arith, ground arith)

-- `strconv.Atoi` reads back a decimal.
pub atoi-decimal : (n : ℕ) → n < 2 ^ 63 → atoi (decimal n) ≡ some n
unfolding decimal
atoi-decimal n h =
    atoi_unsigned (decimal n) n (
      read_unsigned_lem (decimal n) (is_empty-decimal n)
      ∙ decimal_from-read (suc n) n (omega arith))
    ∙ rw (lt→ltb n (2 ^ 63) h) refl
