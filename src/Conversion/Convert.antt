-- ===== src/Conversion/Convert.antt =====
-- internal/conversion/conversion.go: `Convert`.
use xdas.Prelude.{
  ℕ, String, Option, none, some, Bytes, Bool, true, false, not, ◌&&◌, ◌==◌, nat_eq, if◌then◌else◌,
  Result, ok, err, Run, returns, and_then,
}
use xdas.Prelude.Fallible.{◌>>=◌}
use xdas.Errors.{Error}
use xdas.MagicByte.{MagicByte, new_magic_byte}
use xdas.Conversion.Externals.{Libraries}
use xdas.Conversion.Metrics.{
  Counter, content_encoding, content_type, encryption, MetricsProvider, inc,
}
use xdas.Conversion.Codec.{decrypt, encrypt, decompress, compress, unpack, pack}

-- The three results of `Convert`.
pub record Converted : Type 0 where
  pub magic_byte : MagicByte
  pub content : Bytes
  pub error : Option Error

-- The output form, with the content type of the input where the output asks for none.
abbrev pub target : MagicByte → MagicByte → MagicByte
target in_magic_byte out_magic_byte =
    if out_magic_byte.ctv == 0
    then new_magic_byte out_magic_byte.cev in_magic_byte.ctv out_magic_byte.encryption
    else out_magic_byte

-- The counting and the return that follow each of the three chains.
unfoldable pub finish :
    (Bool → Counter)
    → String
    → MagicByte
    → MagicByte
    → Bytes
    → MetricsProvider
    → Result Error Bytes
    → Run (MetricsProvider × Converted)
finish counter keyspace in_magic_byte out_magic_byte in_data metrics (ok result) =
    and_then (inc (counter true) keyspace metrics) λ counted.
      returns (counted, record { magic_byte = out_magic_byte; content = result; error = none })
finish counter keyspace in_magic_byte out_magic_byte in_data metrics (err e) =
    and_then (inc (counter false) keyspace metrics) λ counted.
      returns (counted, record { magic_byte = in_magic_byte; content = in_data; error = some e })

module _ {Message : Type 0} (lib : Libraries Message) where
  -- decrypt -> decompress -> unmarshal -> marshal -> compress -> encrypt
  unfoldable pub convert_type :
      (ℕ → Result Error Bytes) → String → MagicByte → MagicByte → Bytes → Run (Result Error Bytes)
  convert_type random keyspace in_magic_byte out_magic_byte in_data = do
    pb ← unpack lib keyspace in_magic_byte in_data
    pack lib random out_magic_byte pb

  -- decrypt -> decompress -> compress -> encrypt
  unfoldable pub convert_encoding :
      (ℕ → Result Error Bytes) → MagicByte → MagicByte → Bytes → Run (Result Error Bytes)
  convert_encoding random in_magic_byte out_magic_byte in_data = do
    opened ← decrypt lib in_magic_byte.encryption in_data
    plain ← returns (decompress lib in_magic_byte.cev opened)
    packed ← returns (compress lib out_magic_byte.cev plain)
    encrypt lib random out_magic_byte.encryption packed

  -- decrypt -> encrypt
  unfoldable pub convert_encryption :
      (ℕ → Result Error Bytes) → MagicByte → MagicByte → Bytes → Run (Result Error Bytes)
  convert_encryption random in_magic_byte out_magic_byte in_data = do
    opened ← decrypt lib in_magic_byte.encryption in_data
    encrypt lib random out_magic_byte.encryption opened

  -- `Convert`, after the output form is settled
  unfoldable pub convert_to :
      (ℕ → Result Error Bytes)
      → String
      → MagicByte
      → MagicByte
      → Bytes
      → MetricsProvider
      → Run (MetricsProvider × Converted)
  unfolding finish
  convert_to random keyspace in_magic_byte out_magic_byte in_data metrics =
      if not (in_magic_byte.ctv == out_magic_byte.ctv) && not (out_magic_byte.ctv == 0)
      then and_then (convert_type random keyspace in_magic_byte out_magic_byte in_data)
          (finish content_type keyspace in_magic_byte out_magic_byte in_data metrics)
      else if not (in_magic_byte.cev == out_magic_byte.cev)
      then and_then (convert_encoding random in_magic_byte out_magic_byte in_data)
          (finish content_encoding keyspace in_magic_byte out_magic_byte in_data metrics)
      else if not (in_magic_byte.encryption == out_magic_byte.encryption)
      then and_then (convert_encryption random in_magic_byte out_magic_byte in_data)
          (finish encryption keyspace in_magic_byte out_magic_byte in_data metrics)
      else returns (metrics, record { magic_byte = in_magic_byte; content = in_data; error = none })

  unfoldable pub convert :
      (ℕ → Result Error Bytes)
      → String
      → MagicByte
      → MagicByte
      → Bytes
      → MetricsProvider
      → Run (MetricsProvider × Converted)
  unfolding convert_to
  convert random keyspace in_magic_byte out_magic_byte in_data metrics =
      convert_to random keyspace in_magic_byte (target in_magic_byte out_magic_byte) in_data metrics
