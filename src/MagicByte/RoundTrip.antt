-- ===== src/MagicByte/RoundTrip.antt =====
-- internal/magicbyte/magicbyte.go: `Get` and `NewFrom` as a codec.
use xdas.Prelude.{
  ℕ, ◌%◌, ◌<◌, ◌≡◌, refl, Bool, true, ◌&&◌, ◌==◌, nat_eq, nat_beq_iff, all_below, all_below_sound,
  ltb, arith,
}
use xdas.MagicByte.{MagicByte, new_magic_byte, new_from, get}

-- The fields fit into their bits.
pub record IsValid (m : MagicByte) : Type 0 where
  pub cev_fits : m.cev < 4
  pub ctv_fits : m.ctv < 8
  pub encryption_fits : m.encryption < 4

-- The comparison of the repository's own test, at one triple.
reads_back : ℕ → ℕ → ℕ → Bool
reads_back c t e =
    let m = new_from (get (new_magic_byte c t e)) in
    (m.cev == c) && (m.ctv == t) && (m.encryption == e)

reads_back_table : all_below 4 (λ c. all_below 8 (λ t. all_below 4 (λ e. reads_back c t e))) ≡ true
unfolding reads_back new_from get
reads_back_table = refl

reads_back_lem : (c t e : ℕ) → c < 4 → t < 8 → e < 4 → reads_back c t e ≡ true
reads_back_lem c t e hc ht he =
    all_below_sound 4 (λ e. reads_back c t e) e
      (all_below_sound 8 (λ t. all_below 4 (λ e. reads_back c t e)) t
        (all_below_sound 4 (λ c. all_below 8 (λ t. all_below 4 (λ e. reads_back c t e))) c
          reads_back_table hc)
        ht)
      he

-- What `Get` packs, `NewFrom` reads back, for fields that fit into their bits.
pub new_from-get : (m : MagicByte) → IsValid m → new_from (get m) ≡ m
unfolding reads_back
new_from-get m v =
    ground (arith, reads_back_lem m.cev m.ctv m.encryption v.cev_fits v.ctv_fits v.encryption_fits)

packs_back : ℕ → Bool
packs_back b = get (new_from b) == b % 128

packs_back_table : all_below 256 packs_back ≡ true
unfolding packs_back new_from get
packs_back_table = refl

-- Packing what was read from any byte gives the byte without its reserved top bit.
pub get-new_from : (b : ℕ) → b < 256 → get (new_from b) ≡ b % 128
unfolding packs_back
get-new_from b h = (nat_beq_iff _ _).0 (all_below_sound 256 packs_back b packs_back_table h)

fields_fit : ℕ → Bool
fields_fit b = let m = new_from b in ltb m.cev 4 && ltb m.ctv 8 && ltb m.encryption 4

fields_fit_table : all_below 256 fields_fit ≡ true
unfolding fields_fit new_from
fields_fit_table = refl

-- Whatever the byte, the fields that `NewFrom` reads fit.
pub new_from-IsValid : (b : ℕ) → b < 256 → IsValid (new_from b)
unfolding fields_fit
new_from-IsValid b h = ground (arith, all_below_sound 256 fields_fit b fields_fit_table h)

pub get-lt : (m : MagicByte) → get m < 256
unfolding get
get-lt m = omega arith
