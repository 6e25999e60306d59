-- ===== src/Examples/Conversions.antt =====
-- `Convert`, `Encrypt` and `Decrypt` at concrete values.
use xdas.Prelude.{
  ◌+◌, ◌<◌, insert, String, some, none, List, [], ◌∷◌, ◌++◌, Bytes, length, ok, err, returns,
  panics, ◌≡◌, ◌≢◌, ◌↔◌, All, refl, arith, string_eq, nat_eq, lookup, true, if◌then◌else◌, ◌==◌,
}
use mathlib.Core.Option
use xdas.Errors.{not_encrypted_data, unknown_keyspace}
use xdas.RedisCrypto.{Aead, AesGcm, new_aes_gcm, nil_cipher, keygen, decode_string}
use xdas.RedisCrypto
use xdas.RedisCrypto.Keys.{filled, Has64Bytes, new_aes_gcm_iff, new_aes_gcm-keygen}
use xdas.RedisCrypto.Laws.{IsReady, decrypt-encrypt, decrypt_cases}
use xdas.Conversion.{
  Libraries, MetricsProvider, CounterType, no_counts, no_metrics, prometheus_metrics, Converted,
  convert, target, marshal, unmarshal, unpack, content_encoding, bump, inc, init,
}
use xdas.Conversion.Layers.{payload}
use xdas.Conversion.Counting.{IsCounted, Raises, counts, inc_cases}
use xdas.Conversion.Outcome.{Outcome, convert-Outcome}
use xdas.Conversion.Preservation.{Succeeds, convert-payload, convert_without_messages}
use xdas.Examples.Fixtures.{
  toy_aead, toy_random, toy_lib, toy-Works, pa_metrics, plain_json, stored_json, plain_protobuf,
  document, key, nonce, tag,
}

abbrev registered : List (String × Bytes)
registered = ("pa", []) ∷ []

convert-payload_example :
    Succeeds
      (convert (toy_lib []) toy_random "pa" plain_json stored_json document pa_metrics)
      stored_json
      (λ c. payload (toy_lib []) stored_json c ≡ returns (ok document))
unfolding lookup xdas.Conversion.decrypt xdas.Conversion.decompress
convert-payload_example =
    convert-payload (toy_lib []) toy_random "pa" plain_json stored_json document pa_metrics document
      (toy-Works []) (no_counts, refl)
      (record { cev_supported = omega arith; encryption_supported = omega arith }) refl refl

abbrev counted_once : MetricsProvider
counted_once = prometheus_metrics (("pa", record no_counts { content_encoding_suc = 1 }) ∷ [])

abbrev at_rest : Converted
at_rest = record { magic_byte = stored_json; content = nonce ++ tag ++ 40 ∷ document; error = none }

convert-Outcome_example :
    Outcome "pa" plain_json stored_json document pa_metrics counted_once at_rest
unfolding convert insert xdas.Conversion.convert_encoding xdas.Conversion.decrypt
    xdas.Conversion.decompress xdas.Conversion.compress xdas.Conversion.encrypt RedisCrypto.encrypt
    inc lookup
convert-Outcome_example =
    convert-Outcome (toy_lib []) toy_random "pa" plain_json stored_json document pa_metrics
      counted_once at_rest refl

convert_without_messages_example :
    (m' : MetricsProvider) × (convert
        (toy_lib [])
        toy_random
        "pa"
        plain_json
        plain_protobuf
        document
        pa_metrics
      ≡ returns (
        m',
        record { magic_byte = plain_json; content = document; error = some unknown_keyspace },
      ))
unfolding lookup
convert_without_messages_example =
    convert_without_messages (toy_lib []) toy_random "pa" plain_json plain_protobuf document
      pa_metrics refl (no_counts, refl) (ground arith)

decrypt-encrypt_example :
    (c : Bytes) × (RedisCrypto.encrypt toy_aead toy_random (filled key) document ≡ returns (ok c))
    × (length c ≡ length document + 28)
    × (RedisCrypto.decrypt toy_aead (filled key) c ≡ returns (ok document))
decrypt-encrypt_example =
    decrypt-encrypt toy_aead (filled key) toy_random nonce document
      (record { cipher = key; gcm_set = refl; overhead_set = refl }) refl refl

decrypt_cases_example :
    (IsReady nil_cipher
      → (length document < 28
          → RedisCrypto.decrypt toy_aead nil_cipher document ≡ returns (err not_encrypted_data))
        × (RedisCrypto.decrypt toy_aead nil_cipher document ≢ panics))
    × (nil_cipher.gcm ≡ none
        → nil_cipher.overhead ≡ 0
        → RedisCrypto.decrypt toy_aead nil_cipher document ≡ panics)
decrypt_cases_example = decrypt_cases toy_aead nil_cipher document

abbrev hex_key : String
hex_key = "00000000000000000000000000000000000000000000000000000000000000ff"

new_aes_gcm_iff_example :
    ((new_aes_gcm (hex_key ∷ []) ≡ ok (filled key)) ↔ (
      All Has64Bytes (hex_key ∷ [])
      × ((bytes : Bytes) × (decode_string hex_key ≡ some bytes) × (filled key ≡ filled bytes))))
    × (new_aes_gcm [] ≡ ok nil_cipher)
new_aes_gcm_iff_example = new_aes_gcm_iff hex_key [] (filled key)

new_aes_gcm-keygen_example :
    (line : String) × (keygen (ok key) ≡ returns line) × (new_aes_gcm (line ∷ []) ≡ ok (filled key))
new_aes_gcm-keygen_example = new_aes_gcm-keygen key (ground arith) refl

inc_cases_example :
    (IsCounted "dm" pa_metrics
      → (m' : MetricsProvider) × (inc (content_encoding true) "dm" pa_metrics ≡ returns m')
        × ((j : String)
            → (counts j m' ≡ (
                if "dm" == j
                then Option.map (bump (content_encoding true)) (counts j pa_metrics)
                else counts j pa_metrics))
              × (IsCounted j pa_metrics → IsCounted j m'))
        × ((c : CounterType) → Raises (content_encoding true) c (bump (content_encoding true) c)))
    × (¬ IsCounted "dm" pa_metrics → inc (content_encoding true) "dm" pa_metrics ≡ panics)
inc_cases_example = inc_cases (content_encoding true) "dm" pa_metrics
