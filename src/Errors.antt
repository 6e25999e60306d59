-- ===== src/Errors.antt =====
-- Go's `error` values: those that the program makes, and those that libraries and services return.
use xdas.Prelude.{ℕ, String}

pub data Error : Type 0 where
  -- internal/rediscrypto
  invalid_encryption_key : String → Error
  not_encrypted_data : Error
  -- internal/conversion
  unknown_keyspace unknown_encoding_type unknown_content_type : Error
  unknown_decryption unknown_encryption : ℕ → Error
  -- cmd/xdas: a stored value without its magic byte, and `redis.Nil`
  no_magic_byte redis_nil : Error
  -- encoding/hex and crypto/aes
  invalid_hex key_size_error : Error
  -- `http.MaxBytesError`
  max_bytes_error : Error
  -- any other error of a library or a service
  external : ℕ → Error
