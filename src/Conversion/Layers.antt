-- ===== src/Conversion/Layers.antt =====
-- internal/conversion/conversion.go: what one layer packs, the same layer opens.
use xdas.Prelude.{
  ℕ, ◌≤◌, some, Bytes, length, Result, ok, Run, returns, ◌≡◌, refl, arith, nat_eq, zero, suc,
}
use xdas.Prelude.Fallible.{◌>>=◌}
use xdas.Errors.{Error}
use xdas.MagicByte.{MagicByte}
use xdas.RedisCrypto.{AesGcm, nonce_size}
use xdas.RedisCrypto.Laws.{IsReady, decrypt-encrypt}
use xdas.Conversion.Externals.{Libraries}
use xdas.Conversion.Codec.{decrypt, encrypt, decompress, compress}

-- The payload of a stored value: what is left under encryption and compression.
abbrev pub payload :
    {Message : Type 0} → Libraries Message → MagicByte → Bytes → Run (Result Error Bytes)
payload lib m stored = do
  opened ← decrypt lib m.encryption stored
  returns (decompress lib m.cev opened)

-- `Init` has run, the random source works, and zstd reads what it writes.
pub record Works {Message : Type 0} (lib : Libraries Message) (random : ℕ → Result Error Bytes)
    : Type 0 where
  pub gcm : AesGcm
  pub gcm_set : lib.crypto ≡ some gcm
  pub ready : IsReady gcm
  pub nonce : Bytes
  pub drawn : random nonce_size ≡ ok nonce
  pub drawn_size : length nonce ≡ nonce_size
  pub zstd_round_trip : (d : Bytes) → lib.zstd_decode_all (lib.zstd_encode_all d) ≡ ok d

-- The encodings and encryptions that are implemented.
pub record IsSupported (m : MagicByte) : Type 0 where
  pub cev_supported : m.cev ≤ 1
  pub encryption_supported : m.encryption ≤ 1

module _ {Message : Type 0} (lib : Libraries Message) (random : ℕ → Result Error Bytes)
    (works : Works lib random) where
  pub decrypt-encrypt_layer :
      (encryption : ℕ) (d : Bytes)
      → encryption ≤ 1
      → (c : Bytes) × (encrypt lib random encryption d ≡ returns (ok c))
        × (decrypt lib encryption c ≡ returns (ok d))
  unfolding encrypt decrypt
  decrypt-encrypt_layer zero d h = (d, refl, refl)
  decrypt-encrypt_layer (suc zero) d h =
      let (c, sealed, _, opened) =
        decrypt-encrypt lib.aead works.gcm random works.nonce d works.ready works.drawn
          works.drawn_size in
      (c, rw (works.gcm_set, encrypt) sealed, rw (works.gcm_set, decrypt) opened)
  decrypt-encrypt_layer (suc (suc n)) d h = absurd (omega arith)

  pub decompress-compress_layer :
      (cev : ℕ) (d : Bytes)
      → cev ≤ 1
      → (c : Bytes) × (compress lib cev d ≡ ok c) × (decompress lib cev c ≡ ok d)
  unfolding compress decompress
  decompress-compress_layer zero d h = (d, refl, refl)
  decompress-compress_layer (suc zero) d h = (lib.zstd_encode_all d, refl, works.zstd_round_trip d)
  decompress-compress_layer (suc (suc n)) d h = absurd (omega arith)

  -- Compressed and then encrypted, a payload is opened again.
  pub pack-payload :
      (m : MagicByte) (p : Bytes)
      → IsSupported m
      → (c : Bytes) × ((returns (compress lib m.cev p) >>= encrypt lib random m.encryption)
          ≡ returns (ok c))
        × (payload lib m c ≡ returns (ok p))
  pack-payload m p s =
      let (packed, packs, opens) = decompress-compress_layer m.cev p s.cev_supported in
      let (c, seals, unseals) = decrypt-encrypt_layer m.encryption packed s.encryption_supported in
      (c, rw packs seals, rw (unseals, opens) refl)
