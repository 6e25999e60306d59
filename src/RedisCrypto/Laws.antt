-- ===== src/RedisCrypto/Laws.antt =====
-- internal/rediscrypto/crypto.go: what `Encrypt` and `Decrypt` promise.
use xdas.Prelude.{
  ℕ, ◌+◌, ◌<◌, ◌≤◌, none, some, ◌++◌, Bytes, length, take, drop, length-append, take-length_append,
  drop-length_append, Result, ok, err, returns, panics, ◌≡◌, refl, ◌≢◌, subst, arith, le→ltb,
}
use xdas.Errors.{Error, not_encrypted_data}
use xdas.RedisCrypto.Cipher.{Aead, nonce_size}
use xdas.RedisCrypto.Gcm.{AesGcm, encrypt, decrypt, open_gcm}

-- A cipher that `NewAesGCM` has filled from a key.
pub record IsReady (a : AesGcm) : Type 0 where
  pub cipher : Bytes
  pub gcm_set : a.gcm ≡ some cipher
  pub overhead_set : a.overhead ≡ 28

-- What `Seal` appends to the nonce, split where `Decrypt` splits it.
module _ (nonce sealed : Bytes) (size : length nonce ≡ nonce_size) where
  take-nonce : take nonce_size (nonce ++ sealed) ≡ nonce
  take-nonce = subst (λ n. take n (nonce ++ sealed) ≡ nonce) size (take-length_append nonce sealed)

  drop-nonce : drop nonce_size (nonce ++ sealed) ≡ sealed
  drop-nonce = subst (λ n. drop n (nonce ++ sealed) ≡ sealed) size (drop-length_append nonce sealed)

module _ (aead : Aead) (a : AesGcm) where
  encrypt_of_IsReady :
      (random : ℕ → Result Error Bytes) (nonce plaintext : Bytes) (ready : IsReady a)
      → random nonce_size ≡ ok nonce
      → encrypt aead random a plaintext
        ≡ returns (ok (nonce ++ aead.seal ready.cipher nonce plaintext))
  unfolding encrypt
  encrypt_of_IsReady random nonce plaintext ready drawn =
      rw (ready.gcm_set, encrypt) (rw drawn refl)

  decrypt_of_IsReady :
      (ready : IsReady a) (c : Bytes)
      → 28 ≤ length c
      → decrypt aead a c
        ≡ returns (open_gcm aead ready.cipher (take nonce_size c) (drop nonce_size c))
  unfolding decrypt
  decrypt_of_IsReady ready c h =
      rw (ready.overhead_set, le→ltb (length c) 28 h) (rw (ready.gcm_set, decrypt) refl)

  -- With a filled cipher and a random source that gives a nonce of its size, encryption succeeds and
  -- adds 28 bytes, and decryption gives the plaintext back.
  pub decrypt-encrypt :
      (random : ℕ → Result Error Bytes) (nonce plaintext : Bytes)
      → IsReady a
      → random nonce_size ≡ ok nonce
      → length nonce ≡ nonce_size
      → (c : Bytes) × (encrypt aead random a plaintext ≡ returns (ok c))
        × (length c ≡ length plaintext + 28)
        × (decrypt aead a c ≡ returns (ok plaintext))
  decrypt-encrypt random nonce plaintext ready drawn size =
      (c, encrypt_of_IsReady random nonce plaintext ready drawn, grown, opened)
    where
      open ready use {cipher}

      c : Bytes
      c = nonce ++ aead.seal cipher nonce plaintext

      grown : length c ≡ length plaintext + 28
      grown = omega (
        arith,
        length-append nonce (aead.seal cipher nonce plaintext),
        aead.length-seal cipher nonce plaintext,
      )

      opened : decrypt aead a c ≡ returns (ok plaintext)
      opened =
          rw
            (
              decrypt_of_IsReady ready c (omega (arith, grown)),
              take-nonce nonce (aead.seal cipher nonce plaintext) size,
              drop-nonce nonce (aead.seal cipher nonce plaintext) size,
              open_gcm,
              aead.open-seal cipher nonce plaintext,
            )
            refl

  -- Once the cipher is filled, data shorter than the overhead is refused, and no data makes
  -- `Decrypt` panic; the nil cipher that an empty key list leaves panics on all data.
  pub decrypt_cases :
      (c : Bytes)
      → (IsReady a
          → (length c < 28 → decrypt aead a c ≡ returns (err not_encrypted_data))
            × (decrypt aead a c ≢ panics))
        × (a.gcm ≡ none → a.overhead ≡ 0 → decrypt aead a c ≡ panics)
  unfolding decrypt
  decrypt_cases c = (
    λ ready. (
      λ h. ground (arith, ready.gcm_set, ready.overhead_set),
      λ e. ground (arith, ready.gcm_set, ready.overhead_set),
    ),
    λ e o. ground arith,
  )
