-- ===== src/Examples/Fixtures.antt =====
-- Concrete stand-ins for the libraries that internal/conversion and internal/rediscrypto call.
use xdas.Prelude.{ℕ, String, some, List, [], ◌∷◌, ◌++◌, Bytes, drop, Result, ok, err, refl, arith}
use xdas.Errors.{Error, external}
use xdas.MagicByte.{MagicByte, new_magic_byte}
use xdas.RedisCrypto.{Aead}
use xdas.RedisCrypto.Keys.{filled}
use xdas.Conversion.{Libraries, MetricsProvider, prometheus_metrics, no_counts}
use xdas.Conversion.Layers.{Works}

abbrev pub tag : Bytes
tag = 0 ∷ 0 ∷ 0 ∷ 0 ∷ 0 ∷ 0 ∷ 0 ∷ 0 ∷ 0 ∷ 0 ∷ 0 ∷ 0 ∷ 0 ∷ 0 ∷ 0 ∷ 0 ∷ []

abbrev pub nonce : Bytes
nonce = 1 ∷ 2 ∷ 3 ∷ 4 ∷ 5 ∷ 6 ∷ 7 ∷ 8 ∷ 9 ∷ 10 ∷ 11 ∷ 12 ∷ []

abbrev pub key : Bytes
key = tag ++ tag

-- A cipher that sets a constant tag in front.
abbrev pub toy_aead : Aead
toy_aead = record {
  seal = λ key nonce plaintext. tag ++ plaintext;
  open_sealed = λ key nonce sealed. some (drop 16 sealed);
  open-seal = λ key nonce plaintext. refl;
  length-seal = λ key nonce plaintext. omega arith;
}

-- A source that always gives the same nonce.
abbrev pub toy_random : ℕ → Result Error Bytes
toy_random n = ok nonce

abbrev pub tail_of : Bytes → Result Error Bytes
tail_of [] = err (external 9)
tail_of (b ∷ bs) = ok bs

-- Each library writes a mark in front, and reads by dropping it.
abbrev pub toy_lib : List (String × Bytes) → Libraries Bytes
toy_lib registered = record {
  zstd_encode_all = λ d. 40 ∷ d;
  zstd_decode_all = tail_of;
  proto_unmarshal = λ fresh d. tail_of d;
  proto_marshal = λ pb. ok (8 ∷ pb);
  json_unmarshal = λ fresh d. tail_of d;
  json_marshal = λ pb. ok (123 ∷ pb);
  aead = toy_aead;
  crypto = some (filled key);
  pb_message = registered;
}

pub toy-Works : (registered : List (String × Bytes)) → Works (toy_lib registered) toy_random
toy-Works registered = record {
  gcm = filled key;
  gcm_set = refl;
  ready = record { cipher = key; gcm_set = refl; overhead_set = refl };
  nonce = nonce;
  drawn = refl;
  drawn_size = refl;
  zstd_round_trip = λ d. refl;
}

abbrev pub pa_metrics : MetricsProvider
pa_metrics = prometheus_metrics (("pa", no_counts) ∷ [])

-- JSON as it arrives, JSON compressed and encrypted at rest, and Protocol Buffers.
abbrev pub plain_json : MagicByte
plain_json = new_magic_byte 0 1 0

abbrev pub stored_json : MagicByte
stored_json = new_magic_byte 1 1 1

abbrev pub plain_protobuf : MagicByte
plain_protobuf = new_magic_byte 0 2 0

abbrev pub document : Bytes
document = 123 ∷ 34 ∷ 125 ∷ []
