-- ===== src/RedisCrypto/Globals.antt =====
-- internal/rediscrypto/crypto.go: the package's globals and `Init`; cmd/keygen/keygen.go.
use xdas.Prelude.{
  String, Option, some, List, Bytes, ◌==◌, string_eq, if◌then◌else◌, Result, ok, err, Run, returns,
  panics, to_upper,
}
use xdas.Errors.{Error}
use xdas.RedisCrypto.Hex.{encode_to_string}
use xdas.RedisCrypto.Gcm.{AesGcm, new_aes_gcm}

-- `Init`: the new value of the globals `globalDefaultCrypto`, `Encrypt` and `Decrypt`, which are set
-- together, beside what is returned. An unknown type panics.
unfoldable pub init :
    Option AesGcm → String → List String → Run (Option AesGcm × Result Error AesGcm)
unfolding new_aes_gcm to_upper
init globals crypto_type hex_key =
    if to_upper crypto_type == "AESGCM"
    then returns (elim (new_aes_gcm hex_key) [
      | ok crypto ↦ (some crypto, ok crypto)
      | err e ↦ (globals, err e)
    ])
    else panics

-- cmd/keygen/keygen.go: the line that is printed for the 32 bytes read from the random source. A
-- failing source panics.
unfoldable pub keygen : Result Error Bytes → Run String
unfolding encode_to_string
keygen random = elim random [ ok aes_key ↦ returns (encode_to_string aes_key) | err e ↦ panics ]
