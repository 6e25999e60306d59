-- ===== src/RedisCrypto/Gcm.antt =====
-- internal/rediscrypto/crypto.go: `AesGCM`, `NewAesGCM`, `Encrypt` and `Decrypt`.
use xdas.Prelude.{
  ℕ, ◌+◌, String, Option, none, some, List, [], ◌∷◌, ◌++◌, Bytes, length, take, drop, ◌||◌, ltb,
  ◌==◌, nat_eq, if◌then◌else◌, Result, ok, err, ◌>>=◌, Run, returns, panics,
}
use xdas.Errors.{
  Error, invalid_encryption_key, not_encrypted_data, invalid_hex, key_size_error, external,
}
use xdas.RedisCrypto.Hex.{byte_len, decode_string}
use xdas.RedisCrypto.Cipher.{Aead, nonce_size, gcm_overhead}

-- `gcm` is the key of the cipher, and `none` is the nil interface.
pub record AesGcm : Type 0 where
  pub gcm : Option Bytes
  pub key : Bytes
  pub overhead : ℕ

-- `AesGCM{}`
abbrev pub nil_cipher : AesGcm
nil_cipher = record { gcm = none; key = []; overhead = 0 }

-- `hex.DecodeString` with its error
abbrev pub hex_decode : String → Result Error Bytes
hex_decode value = elim (decode_string value) [ none ↦ err invalid_hex | some key ↦ ok key ]

-- `aes.NewCipher`, whose block is known by its key; `cipher.NewGCM` takes every AES block.
abbrev new_cipher : Bytes → Result Error Bytes
new_cipher key =
    if length key == 16 || length key == 24 || length key == 32 then ok key else err key_size_error

abbrev new_gcm : Bytes → Result Error Bytes
new_gcm block = ok block

-- The body of the branch `index == 0`.
unfoldable pub first_key : AesGcm → String → Result Error AesGcm
first_key aes_gcm value = do
  key ← hex_decode value
  block ← new_cipher key
  gcm ← new_gcm block
  ok (record { gcm = some gcm; key = key; overhead = gcm_overhead + nonce_size })

-- The loop of `NewAesGCM`, with its index and the struct that it fills.
unfoldable pub new_aes_gcm_from : ℕ → AesGcm → List String → Result Error AesGcm
new_aes_gcm_from index aes_gcm [] = ok aes_gcm
new_aes_gcm_from index aes_gcm (value ∷ rest) =
    if byte_len value == 64
    then (do
      filled ← if index == 0 then first_key aes_gcm value else ok aes_gcm
      new_aes_gcm_from (index + 1) filled rest)
    else err (invalid_encryption_key value)

-- `NewAesGCM`
unfoldable pub new_aes_gcm : List String → Result Error AesGcm
new_aes_gcm hex_key = new_aes_gcm_from 0 nil_cipher hex_key

module _ (aead : Aead) where
  -- `Encrypt`. `random` is what `io.ReadFull(rand.Reader, nonce)` gives for a length. A method of a
  -- nil cipher panics.
  unfoldable pub encrypt : (ℕ → Result Error Bytes) → AesGcm → Bytes → Run (Result Error Bytes)
  encrypt random a plaintext = elim a.gcm [
    | none ↦ panics
    | some key ↦ returns (do nonce ← random nonce_size; ok (nonce ++ aead.seal key nonce plaintext))
  ]

  -- `a.gcm.Open(nil, nonce, ciphertext, nil)` with its error
  abbrev pub open_gcm : Bytes → Bytes → Bytes → Result Error Bytes
  open_gcm key nonce ciphertext = elim (aead.open_sealed key nonce ciphertext) [
    | none ↦ err (external 0)
    | some plaintext ↦ ok plaintext
  ]

  -- `Decrypt`
  unfoldable pub decrypt : AesGcm → Bytes → Run (Result Error Bytes)
  decrypt a ciphertext =
      if ltb (length ciphertext) a.overhead then returns (err not_encrypted_data) else elim a.gcm [
        | none ↦ panics
        | some key ↦
            returns (open_gcm key (take nonce_size ciphertext) (drop nonce_size ciphertext))
      ]
