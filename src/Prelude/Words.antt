-- ===== src/Prelude/Words.antt =====
-- Go's machine integers. An `int` or `int64` is its two's complement pattern, a number below 2 ^ 64;
-- a `byte` is a number below 256.
use Prim.Native.Nat.{ℕ, zero, suc, ◌*◌, ◌%◌, ◌^◌, ◌<◌}
use mathlib.Core.Path.{◌≡◌}
use mathlib.Core.Bool.{Bool, true, ◌&&◌}
use native.Mathlib.Omega.{arith}
use xdas.Prelude.Tests.{ltb, leb}

abbrev pub int_mod : ℕ
int_mod = 2 ^ 64

-- x << k, at 64 bits
abbrev pub shl : ℕ → ℕ → ℕ
shl x k = x * 2 ^ k % int_mod

-- byte(x)
abbrev pub to_byte : ℕ → ℕ
to_byte x = x % 256

-- x < 0 and 0 < x, read as signed
abbrev pub is_neg : ℕ → Bool
is_neg x = leb (2 ^ 63) x

abbrev pub is_pos : ℕ → Bool
is_pos x = ltb 0 x && ltb x (2 ^ 63)

-- Over a small range, a check of every value.
abbrev pub all_below : ℕ → (ℕ → Bool) → Bool
all_below zero p = true
all_below (suc n) p = p n && all_below n p

pub all_below_sound : (n : ℕ) (p : ℕ → Bool) (x : ℕ) → all_below n p ≡ true → x < n → p x ≡ true
all_below_sound zero p x h lt = absurd (omega arith)
all_below_sound (suc n) p x h lt = ground (arith, all_below_sound n p x)
