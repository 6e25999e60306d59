-- ===== src/RedisCrypto/Hex.antt =====
-- What internal/rediscrypto/crypto.go and cmd/keygen/keygen.go use of Go's `encoding/hex`.
use Prim.Native.Char.{Char, code}
use xdas.Prelude.{
  ℕ, zero, suc, ◌+◌, ◌-◌, ◌*◌, ◌/◌, ◌%◌, ◌<◌, String, Option, none, some, List, [], ◌∷◌, Bytes,
  Bool, ◌&&◌, true, false, ◌≡◌, refl, ◌==◌, nat_eq, leb, ltb, if◌then◌else◌, all_below,
  all_below_sound, length, All, arith,
}

-- `len(s)`, in bytes of UTF-8
abbrev width : Char → ℕ
width c =
    if ltb (code c) 0x80
    then 1
    else if ltb (code c) 0x800
    then 2
    else if ltb (code c) 0x10000
    then 3
    else 4

unfoldable pub byte_len : String → ℕ
byte_len String.[] = 0
byte_len (String.◌∷◌ c s) = width c + byte_len s

-- The value of a hex digit, small or capital.
unfoldable pub from_hex_char : ℕ → Option ℕ
from_hex_char c =
    if leb b'0' c && leb c b'9'
    then some (c - 48)
    else if leb b'a' c && leb c b'f'
    then some (c - 87)
    else if leb b'A' c && leb c b'F'
    then some (c - 55)
    else none

abbrev push_pair : Option ℕ → Option ℕ → Option Bytes → Option Bytes
push_pair (some a) (some b) (some bs) = some ((a * 16 + b) ∷ bs)
push_pair _ _ _ = none

-- `hex.DecodeString`
unfoldable pub decode_string : String → Option Bytes
unfolding from_hex_char
decode_string String.[] = some []
decode_string (String.◌∷◌ a String.[]) = none
decode_string (String.◌∷◌ a (String.◌∷◌ b s)) =
    push_pair (from_hex_char (code a)) (from_hex_char (code b)) (decode_string s)

abbrev nth : List Char → ℕ → Char
nth [] n = "0"
nth (c ∷ cs) zero = c
nth (c ∷ cs) (suc n) = nth cs n

unfoldable pub hex_digit : ℕ → Char
hex_digit n =
    nth
      ("0" ∷ "1" ∷ "2" ∷ "3" ∷ "4" ∷ "5" ∷ "6" ∷ "7" ∷ "8" ∷ "9" ∷ "a" ∷ "b" ∷ "c" ∷ "d" ∷ "e" ∷ "f"
        ∷ [])
      n

-- `hex.EncodeToString`
unfoldable pub encode_to_string : Bytes → String
unfolding hex_digit
encode_to_string [] = String.[]
encode_to_string (b ∷ bs) =
    String.◌∷◌ (hex_digit (b / 16)) (String.◌∷◌ (hex_digit (b % 16)) (encode_to_string bs))

reads_digit : ℕ → Bool
reads_digit n = (width (hex_digit n) == 1) && is_digit (from_hex_char (code (hex_digit n)))
  where
    is_digit : Option ℕ → Bool
    is_digit none = false
    is_digit (some m) = m == n

digits_table : all_below 16 reads_digit ≡ true
unfolding reads_digit hex_digit from_hex_char
digits_table = refl

digit_lem :
    (n : ℕ) → n < 16 → (width (hex_digit n) ≡ 1) × (from_hex_char (code (hex_digit n)) ≡ some n)
unfolding reads_digit
digit_lem n h = ground (arith, all_below_sound 16 reads_digit n digits_table h)

abbrev pub IsByte : ℕ → Type 0
IsByte b = b < 256

pub decode_string-encode_to_string :
    (bs : Bytes) → All IsByte bs → decode_string (encode_to_string bs) ≡ some bs
unfolding decode_string encode_to_string
decode_string-encode_to_string [] _ = refl
decode_string-encode_to_string (b ∷ bs) (h, hs) =
    rw
      (
        (digit_lem (b / 16) (omega arith)).1,
        (digit_lem (b % 16) (omega arith)).1,
        decode_string-encode_to_string bs hs,
      )
      (ground arith)

pub byte_len-encode_to_string :
    (bs : Bytes) → All IsByte bs → byte_len (encode_to_string bs) ≡ 2 * length bs
unfolding byte_len encode_to_string
byte_len-encode_to_string [] _ = refl
byte_len-encode_to_string (b ∷ bs) (h, hs) = omega (
  arith,
  (digit_lem (b / 16) (omega arith)).0,
  (digit_lem (b % 16) (omega arith)).0,
  byte_len-encode_to_string bs hs,
)

hex_is_ascii : (c : Char) (n : ℕ) → from_hex_char (code c) ≡ some n → width c ≡ 1
unfolding from_hex_char
hex_is_ascii c n e = ground arith

push_pair_inv :
    (a b : Option ℕ) (r : Option Bytes) {bs : Bytes}
    → push_pair a b r ≡ some bs
    → (m : ℕ) × (n : ℕ) × (t : Bytes) × (a ≡ some m)
      × (b ≡ some n)
      × (r ≡ some t)
      × (length bs ≡ suc (length t))
push_pair_inv (some m) (some n) (some t) e = (m, n, t, refl, refl, refl, ground arith)
push_pair_inv none b r e = cc
push_pair_inv (some m) none r e = cc
push_pair_inv (some m) (some n) none e = cc

-- A text that decodes has two bytes for each byte of its value.
pub byte_len_of_decode :
    (s : String) (bs : Bytes) → decode_string s ≡ some bs → byte_len s ≡ 2 * length bs
unfolding decode_string byte_len
byte_len_of_decode String.[] [] e = refl
byte_len_of_decode String.[] (b ∷ bs) e = cc
byte_len_of_decode (String.◌∷◌ a String.[]) bs e = cc
byte_len_of_decode (String.◌∷◌ a (String.◌∷◌ b s)) bs e =
    let (m, n, t, ea, eb, et, grown) =
      push_pair_inv (from_hex_char (code a)) (from_hex_char (code b)) (decode_string s) e in
    omega (arith, hex_is_ascii a m ea, hex_is_ascii b n eb, byte_len_of_decode s t et, grown)
