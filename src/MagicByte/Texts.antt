-- ===== src/MagicByte/Texts.antt =====
-- internal/magicbyte/magicbyte.go: the codes and the header texts.
use xdas.Prelude.{zero, suc, ℕ, ◌≤◌, ◌<◌, String, ◌≡◌, refl, arith}
use xdas.MagicByte.{MagicByte, new, new_magic_byte, get_content_type, get_content_encoding}
use xdas.MagicByte.RoundTrip.{IsValid}

-- The codes that `New` can store.
pub record IsKnown (m : MagicByte) : Type 0 where
  pub cev_known : m.cev ≤ 2
  pub ctv_known : m.ctv ≤ 2

pub new-IsKnown : (ce ct : String) (e : ℕ) → IsKnown (new ce ct e)
unfolding new
new-IsKnown ce ct e = ground arith

pub new-IsValid : (ce ct : String) (e : ℕ) → e < 4 → IsValid (new ce ct e)
unfolding new
new-IsValid ce ct e h = ground (arith, new-IsKnown ce ct e)

texts_back :
    (c t e : ℕ)
    → c ≤ 2
    → t ≤ 2
    → let m = new_magic_byte c t e in new (get_content_encoding m) (get_content_type m) e ≡ m
unfolding new get_content_encoding get_content_type
texts_back zero zero e _ _ = refl
texts_back zero (suc zero) e _ _ = refl
texts_back zero (suc (suc zero)) e _ _ = refl
texts_back (suc zero) zero e _ _ = refl
texts_back (suc zero) (suc zero) e _ _ = refl
texts_back (suc zero) (suc (suc zero)) e _ _ = refl
texts_back (suc (suc zero)) zero e _ _ = refl
texts_back (suc (suc zero)) (suc zero) e _ _ = refl
texts_back (suc (suc zero)) (suc (suc zero)) e _ _ = refl
texts_back (suc (suc (suc c))) t e h _ = absurd (omega arith)
texts_back c (suc (suc (suc t))) e _ h = absurd (omega arith)

-- The header texts of a magic byte made by `New` give the same magic byte again, whatever alias of
-- a media type, or unknown text, it was made from.
pub new-texts :
    (ce ct : String) (e : ℕ)
    → let m = new ce ct e in new (get_content_encoding m) (get_content_type m) e ≡ m
unfolding new
new-texts ce ct e =
    let k = new-IsKnown ce ct e in
    texts_back (new ce ct e).cev (new ce ct e).ctv e k.cev_known k.ctv_known
