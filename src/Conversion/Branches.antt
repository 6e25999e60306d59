-- ===== src/Conversion/Branches.antt =====
-- internal/conversion/conversion.go: which chain `Convert` takes.
use xdas.Prelude.{
  ℕ, String, none, Bytes, Result, returns, and_then, ◌≡◌, refl, ap, ◌≢◌, arith, nat_beq-true,
  nat_beq-false, nat_eq,
}
use native.Mathlib.Decide.{ℕ_discrete}
use xdas.Errors.{Error}
use xdas.MagicByte.{MagicByte}
use xdas.Conversion.Externals.{Libraries}
use xdas.Conversion.Metrics.{content_encoding, content_type, encryption, MetricsProvider}
use xdas.Conversion.Convert.{
  target, finish, convert_type, convert_encoding, convert_encryption, convert_to,
}

-- A settled output form: it asks for no content type only where the input has none.
abbrev pub IsSettled : MagicByte → MagicByte → Type 0
IsSettled i o = o.ctv ≡ 0 → i.ctv ≡ 0

pub target-IsSettled : (i o : MagicByte) → IsSettled i (target i o)
target-IsSettled i o = λ h. ground arith

module _ {Message : Type 0} (lib : Libraries Message) (random : ℕ → Result Error Bytes)
    (keyspace : String) (i o : MagicByte) (in_data : Bytes) (m : MetricsProvider) where
  pub convert_to_type :
      IsSettled i o
      → i.ctv ≢ o.ctv
      → convert_to lib random keyspace i o in_data m
        ≡ and_then
            (convert_type lib random keyspace i o in_data)
            (finish content_type keyspace i o in_data m)
  unfolding convert_to
  convert_to_type settled h =
      let e1 = nat_beq-false i.ctv o.ctv h in
      let e2 = nat_beq-false o.ctv 0 (λ z. ground (arith, settled z)) in rw (e1, e2) refl

  pub convert_to_encoding :
      i.ctv ≡ o.ctv
      → i.cev ≢ o.cev
      → convert_to lib random keyspace i o in_data m
        ≡ and_then
            (convert_encoding lib random i o in_data)
            (finish content_encoding keyspace i o in_data m)
  unfolding convert_to
  convert_to_encoding same h = rw (nat_beq-true i.ctv o.ctv same, nat_beq-false i.cev o.cev h) refl

  pub convert_to_encryption :
      i.ctv ≡ o.ctv
      → i.cev ≡ o.cev
      → i.encryption ≢ o.encryption
      → convert_to lib random keyspace i o in_data m
        ≡ and_then
            (convert_encryption lib random i o in_data)
            (finish encryption keyspace i o in_data m)
  unfolding convert_to
  convert_to_encryption t c h =
      rw
        (
          nat_beq-true i.ctv o.ctv t,
          nat_beq-true i.cev o.cev c,
          nat_beq-false i.encryption o.encryption h,
        )
        refl

  pub convert_to_same :
      i ≡ o
      → convert_to lib random keyspace i o in_data m
        ≡ returns (m, record { magic_byte = i; content = in_data; error = none })
  unfolding convert_to
  convert_to_same e =
      rw
        (
          nat_beq-true i.ctv o.ctv (ap (λ r. r.ctv) e),
          nat_beq-true i.cev o.cev (ap (λ r. r.cev) e),
          nat_beq-true i.encryption o.encryption (ap (λ r. r.encryption) e),
        )
        refl

-- The four cases of two forms.
pub data Difference (i o : MagicByte) : Type 0 where
  types : i.ctv ≢ o.ctv → Difference i o
  encodings : i.ctv ≡ o.ctv → i.cev ≢ o.cev → Difference i o
  encryptions : i.ctv ≡ o.ctv → i.cev ≡ o.cev → i.encryption ≢ o.encryption → Difference i o
  nothing : i ≡ o → Difference i o

pub difference : (i o : MagicByte) → Difference i o
difference i o = elim (ℕ_discrete i.ctv o.ctv) [
  | no t ↦ types t
  | yes t ↦ elim (ℕ_discrete i.cev o.cev) [
    | no c ↦ encodings t c
    | yes c ↦ elim (ℕ_discrete i.encryption o.encryption) [
      | no e ↦ encryptions t c e
      | yes e ↦ nothing (ground arith)
    ]
  ]
]
