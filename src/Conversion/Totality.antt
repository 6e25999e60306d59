-- ===== src/Conversion/Totality.antt =====
-- internal/conversion/conversion.go: when `Convert` and `Unpack` return.
use xdas.Prelude.{
  ℕ, String, some, Bytes, Bool, Result, ok, err, returns, Returns, Returns_lem, Returns-and_then,
  of_if, ◌≡◌, ◌==◌, nat_eq, string_eq, lookup, inl, inr, Option-cases, not, ◌&&◌,
}
use xdas.Prelude.Fallible.{Returns->>=}
use xdas.Errors.{Error}
use xdas.MagicByte.{MagicByte}
use xdas.RedisCrypto.{AesGcm}
use xdas.RedisCrypto
use xdas.RedisCrypto.Laws.{IsReady, decrypt_cases}
use xdas.Conversion.Externals.{Libraries}
use xdas.Conversion.Metrics.{Counter, content_encoding, content_type, encryption, MetricsProvider}
use xdas.Conversion.Codec.{
  global_decrypt, global_encrypt, decrypt, encrypt, decompress, compress, marshal, un_pack_by_pb,
  unpack, pack,
}
use xdas.Conversion.Convert.{
  target, finish, convert_type, convert_encoding, convert_encryption, convert_to, convert,
}
use xdas.Conversion.Counting.{IsCounted, inc_cases}

-- `Init` of internal/rediscrypto has succeeded with a key.
pub record IsInitialised {Message : Type 0} (lib : Libraries Message) : Type 0 where
  pub gcm : AesGcm
  pub gcm_set : lib.crypto ≡ some gcm
  pub ready : IsReady gcm

module _ {Message : Type 0} (lib : Libraries Message) (random : ℕ → Result Error Bytes)
    (set : IsInitialised lib) where
  decrypt-Returns : (n : ℕ) (d : Bytes) → Returns (decrypt lib n d)
  unfolding decrypt
  decrypt-Returns n d = of_if Returns (n == 0) _ _ tt (of_if Returns (n == 1) _ _ (opened) tt)
    where
      opened : Returns (global_decrypt lib d)
      opened = rw set.gcm_set (
          Returns_lem (RedisCrypto.decrypt lib.aead set.gcm d)
            ((decrypt_cases lib.aead set.gcm d).0 set.ready).1)

  encrypt-Returns : (n : ℕ) (d : Bytes) → Returns (encrypt lib random n d)
  unfolding encrypt RedisCrypto.encrypt
  encrypt-Returns n d = of_if Returns (n == 0) _ _ tt (of_if Returns (n == 1) _ _ (sealed) tt)
    where
      sealed : Returns (global_encrypt lib random d)
      sealed = rw set.gcm_set (rw (set.ready.gcm_set, RedisCrypto.encrypt) tt)

  un_pack_by_pb-Returns :
      (pb : Message) (i : MagicByte) (d : Bytes) → Returns (un_pack_by_pb lib pb i d)
  unfolding un_pack_by_pb
  un_pack_by_pb-Returns pb i d =
      Returns->>= (decrypt lib i.encryption d) _ (decrypt-Returns i.encryption d)
        (λ opened. Returns->>= (returns (decompress lib i.cev opened)) _ tt (λ plain. tt))

  -- `Unpack` returns whatever it is given.
  pub unpack-Returns :
      (keyspace : String) (i : MagicByte) (d : Bytes) → Returns (unpack lib keyspace i d)
  unfolding unpack
  unpack-Returns keyspace i d = elim (Option-cases (lookup keyspace lib.pb_message)) [
    | inl unknown ↦ rw (unknown, unpack) tt
    | inr (pb, known) ↦ rw (known, unpack) (un_pack_by_pb-Returns pb i d)
  ]

  convert_type-Returns :
      (keyspace : String) (i o : MagicByte) (d : Bytes)
      → Returns (convert_type lib random keyspace i o d)
  unfolding convert_type pack
  convert_type-Returns keyspace i o d =
      Returns->>= (unpack lib keyspace i d) _ (unpack-Returns keyspace i d) (λ pb.
        Returns->>= (returns (marshal lib o.ctv pb)) _ tt (λ plain.
          Returns->>= (returns (compress lib o.cev plain)) _ tt
            (λ packed. encrypt-Returns o.encryption packed)))

  convert_encoding-Returns :
      (i o : MagicByte) (d : Bytes) → Returns (convert_encoding lib random i o d)
  unfolding convert_encoding
  convert_encoding-Returns i o d =
      Returns->>= (decrypt lib i.encryption d) _ (decrypt-Returns i.encryption d) (λ opened.
        Returns->>= (returns (decompress lib i.cev opened)) _ tt (λ plain.
          Returns->>= (returns (compress lib o.cev plain)) _ tt
            (λ packed. encrypt-Returns o.encryption packed)))

  convert_encryption-Returns :
      (i o : MagicByte) (d : Bytes) → Returns (convert_encryption lib random i o d)
  unfolding convert_encryption
  convert_encryption-Returns i o d =
      Returns->>= (decrypt lib i.encryption d) _ (decrypt-Returns i.encryption d)
        (λ opened. encrypt-Returns o.encryption opened)

finish-Returns :
    (counter : Bool → Counter) (keyspace : String) (i o : MagicByte) (d : Bytes)
    (m : MetricsProvider) (r : Result Error Bytes)
    → IsCounted keyspace m
    → Returns (finish counter keyspace i o d m r)
unfolding finish
finish-Returns counter keyspace i o d m (ok x) counted =
    let (m', bumped, _, _) = (inc_cases (counter Bool.true) keyspace m).0 counted in rw bumped tt
finish-Returns counter keyspace i o d m (err e) counted =
    let (m', bumped, _, _) = (inc_cases (counter Bool.false) keyspace m).0 counted in rw bumped tt

-- Once `Init` has set a cipher, `Convert` returns, whatever the forms and the data are, for every
-- keyspace that can be counted.
pub convert-Returns :
    {Message : Type 0} (lib : Libraries Message) (random : ℕ → Result Error Bytes)
    (keyspace : String) (i o : MagicByte) (d : Bytes) (m : MetricsProvider)
    → IsInitialised lib
    → IsCounted keyspace m
    → Returns (convert lib random keyspace i o d m)
unfolding convert convert_to
convert-Returns lib random keyspace i o d m set counted =
    let o' = target i o in
    of_if Returns (not (i.ctv == o'.ctv) && not (o'.ctv == 0)) _ _
      (Returns-and_then (convert_type lib random keyspace i o' d) _
        (convert_type-Returns lib random set keyspace i o' d)
        (λ r. finish-Returns content_type keyspace i o' d m r counted))
      (of_if Returns (not (i.cev == o'.cev)) _ _
        (Returns-and_then (convert_encoding lib random i o' d) _
          (convert_encoding-Returns lib random set i o' d)
          (λ r. finish-Returns content_encoding keyspace i o' d m r counted))
        (of_if Returns (not (i.encryption == o'.encryption)) _ _
          (Returns-and_then (convert_encryption lib random i o' d) _
            (convert_encryption-Returns lib random set i o' d)
            (λ r. finish-Returns encryption keyspace i o' d m r counted))
          tt))
