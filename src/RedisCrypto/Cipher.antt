-- ===== src/RedisCrypto/Cipher.antt =====
-- The interface of Go's AES in Galois counter mode (crypto/aes, crypto/cipher), which
-- internal/rediscrypto/crypto.go uses, with what their documentation states.
use xdas.Prelude.{ℕ, ◌+◌, Option, some, Bytes, length, ◌≡◌}

-- The sizes that `cipher.NewGCM` fixes: `NonceSize()` and `Overhead()`.
abbrev pub nonce_size : ℕ
nonce_size = 12

abbrev pub gcm_overhead : ℕ
gcm_overhead = 16

-- `Seal` and `Open` under a key and a nonce, without additional data.
pub record Aead : Type 0 where
  pub seal : Bytes → Bytes → Bytes → Bytes
  pub open_sealed : Bytes → Bytes → Bytes → Option Bytes
  pub open-seal :
      (key nonce plaintext : Bytes)
      → open_sealed key nonce (seal key nonce plaintext) ≡ some plaintext
  pub length-seal :
      (key nonce plaintext : Bytes)
      → length (seal key nonce plaintext) ≡ length plaintext + gcm_overhead
