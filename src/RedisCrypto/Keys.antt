-- ===== src/RedisCrypto/Keys.antt =====
-- internal/rediscrypto/crypto.go: which keys `NewAesGCM` takes; cmd/keygen/keygen.go: they include
-- each one that the tool prints.
use xdas.Prelude.{
  ℕ, ◌+◌, ◌<◌, String, none, some, List, [], ◌∷◌, Bytes, length, All, ok, err, ◌>>=◌, returns, ◌≡◌,
  refl, ◌↔◌, arith, inl, inr, Option-cases, nat_eq, nat_beq_iff, sym,
}
use xdas.Errors.{invalid_hex, invalid_encryption_key}
use native.Mathlib.Decide.{ℕ_discrete}
use xdas.RedisCrypto.Hex.{
  byte_len, decode_string, encode_to_string, IsByte, decode_string-encode_to_string,
  byte_len-encode_to_string, byte_len_of_decode,
}
use xdas.RedisCrypto.Gcm.{AesGcm, new_aes_gcm, new_aes_gcm_from, first_key, nil_cipher}
use xdas.RedisCrypto.Globals.{keygen}

abbrev pub Has64Bytes : String → Type 0
Has64Bytes value = byte_len value ≡ 64

-- After the first key the loop only checks lengths.
loop_rest :
    (index : ℕ) (acc a : AesGcm) (rest : List String)
    → 0 < index
    → (new_aes_gcm_from index acc rest ≡ ok a) ↔ (All Has64Bytes rest × (acc ≡ a))
unfolding new_aes_gcm_from
loop_rest index acc a [] h = (λ e. (tt, cc), λ (_, e). cc)
loop_rest index acc a (value ∷ rest) h = ground (arith, loop_rest (index + 1) acc a rest)

-- The struct that a key fills.
abbrev pub filled : Bytes → AesGcm
filled key = record { gcm = some key; key = key; overhead = 28 }

first_key_of_decode :
    (acc : AesGcm) (value : String) (bytes : Bytes)
    → Has64Bytes value
    → decode_string value ≡ some bytes
    → first_key acc value ≡ ok (filled bytes)
unfolding first_key
first_key_of_decode acc value bytes h e = ground (arith, byte_len_of_decode value bytes e)

first_key_of_not_hex :
    (acc : AesGcm) (value : String)
    → decode_string value ≡ none
    → first_key acc value ≡ err invalid_hex
unfolding first_key
first_key_of_not_hex acc value e = ground arith

loop_first :
    (value : String) (rest : List String)
    → Has64Bytes value
    → new_aes_gcm (value ∷ rest)
      ≡ (first_key nil_cipher value >>= λ acc. new_aes_gcm_from 1 acc rest)
unfolding new_aes_gcm new_aes_gcm_from
loop_first value rest h = rw ((nat_beq_iff (byte_len value) 64).1 h) refl

loop_bad :
    (value : String) (rest : List String)
    → ¬ Has64Bytes value
    → new_aes_gcm (value ∷ rest) ≡ err (invalid_encryption_key value)
unfolding new_aes_gcm new_aes_gcm_from
loop_bad value rest h = ground arith

-- What an accepted list of keys shows.
abbrev Accepts : String → List String → AesGcm → Type 0
Accepts value rest a =
    All Has64Bytes (value ∷ rest)
    × ((bytes : Bytes) × (decode_string value ≡ some bytes) × (a ≡ filled bytes))

accepted :
    (value : String) (rest : List String) (a : AesGcm)
    → new_aes_gcm (value ∷ rest) ≡ ok a
    → Accepts value rest a
accepted value rest a e = elim (ℕ_discrete (byte_len value) 64) [
  | no h ↦ absurd (length_error h)
  | yes h ↦ elim (Option-cases (decode_string value)) [
    | inl d ↦ absurd (hex_error h d)
    | inr (bytes, d) ↦
        let (others, same) =
          (loop_rest 1 (filled bytes) a rest (omega arith)).0 (later h bytes d) in
        ((h, others), (bytes, d, sym same))
  ]
]
  where
    length_error : ¬ Has64Bytes value → ⊥
    length_error h = cc (loop_bad value rest h, e)

    hex_error : Has64Bytes value → decode_string value ≡ none → ⊥
    hex_error h d = cc (first_key_of_not_hex nil_cipher value d, loop_first value rest h, e)

    later :
        Has64Bytes value
        → (bytes : Bytes) → decode_string value ≡ some bytes
        → new_aes_gcm_from 1 (filled bytes) rest ≡ ok a
    later h bytes d =
        rw (loop_first value rest h, first_key_of_decode nil_cipher value bytes h d) at e

-- A nonempty list of keys is accepted exactly when each has 64 bytes and the first is hexadecimal,
-- and then the cipher is filled from the first alone. The empty list is accepted too, and leaves the
-- cipher nil.
pub new_aes_gcm_iff :
    (value : String) (rest : List String) (a : AesGcm)
    → ((new_aes_gcm (value ∷ rest) ≡ ok a) ↔ (
        All Has64Bytes (value ∷ rest)
        × ((bytes : Bytes) × (decode_string value ≡ some bytes) × (a ≡ filled bytes))))
      × (new_aes_gcm [] ≡ ok nil_cipher)
unfolding new_aes_gcm new_aes_gcm_from
new_aes_gcm_iff value rest a = ((accepted value rest a, complete), refl)
  where
    complete : Accepts value rest a → new_aes_gcm (value ∷ rest) ≡ ok a
    complete ((h, others), (bytes, d, same)) =
        rw (loop_first value rest h, first_key_of_decode nil_cipher value bytes h d)
          ((loop_rest 1 (filled bytes) a rest (omega arith)).1 (others, sym same))

-- Every key that the tool prints for 32 random bytes is accepted, and the cipher holds those bytes.
pub new_aes_gcm-keygen :
    (random : Bytes)
    → All IsByte random
    → length random ≡ 32
    → (line : String) × (keygen (ok random) ≡ returns line)
      × (new_aes_gcm (line ∷ []) ≡ ok (filled random))
unfolding keygen
new_aes_gcm-keygen random bytes size =
    let line : String = encode_to_string random in
    (
      line,
      refl,
      ((new_aes_gcm_iff line [] (filled random)).0.1 (
        (omega (arith, byte_len-encode_to_string random bytes), tt),
        (random, decode_string-encode_to_string random bytes, refl),
      )),
    )
