-- ===== src/Conversion/Codec.antt =====
-- internal/conversion/conversion.go: the layers of a stored value, `Decrypt`, `Encrypt`,
-- `Decompress`, `Compress`, `Unmarshal`, `Marshal`, and `Unpack` and `Pack` over all of them. A value
-- that is returned beside an error is dropped: no caller reads it.
use xdas.Prelude.{
  ℕ, String, none, some, Bytes, ◌==◌, nat_eq, string_eq, if◌then◌else◌, lookup, Result, ok, err,
  Run, returns, panics,
}
use xdas.Prelude.Fallible.{◌>>=◌}
use xdas.Errors.{
  Error, unknown_keyspace, unknown_encoding_type, unknown_content_type, unknown_decryption,
  unknown_encryption,
}
use xdas.MagicByte.{
  MagicByte, content_encoding_none, content_encoding_zstd, content_type_json,
  content_type_proto_buf,
}
use xdas.RedisCrypto.{AesGcm}
use xdas.RedisCrypto
use xdas.Conversion.Externals.{Libraries}

module _ {Message : Type 0} (lib : Libraries Message) where
  -- The global functions of rediscrypto, which are nil before `Init`: a call panics.
  abbrev pub global_decrypt : Bytes → Run (Result Error Bytes)
  global_decrypt in_data = elim lib.crypto [
    | none ↦ panics
    | some a ↦ RedisCrypto.decrypt lib.aead a in_data
  ]

  abbrev pub global_encrypt : (ℕ → Result Error Bytes) → Bytes → Run (Result Error Bytes)
  global_encrypt random in_data = elim lib.crypto [
    | none ↦ panics
    | some a ↦ RedisCrypto.encrypt lib.aead random a in_data
  ]

  -- `Decrypt`
  unfoldable pub decrypt : ℕ → Bytes → Run (Result Error Bytes)
  decrypt encryption in_data =
      if encryption == 0
      then returns (ok in_data)
      else if encryption == 1
      then global_decrypt in_data
      else returns (err (unknown_decryption encryption))

  -- `Encrypt`
  unfoldable pub encrypt : (ℕ → Result Error Bytes) → ℕ → Bytes → Run (Result Error Bytes)
  encrypt random encryption in_data =
      if encryption == 0
      then returns (ok in_data)
      else if encryption == 1
      then global_encrypt random in_data
      else returns (err (unknown_encryption encryption))

  -- `Decompress`; zlib is refused like an unknown encoding
  unfoldable pub decompress : ℕ → Bytes → Result Error Bytes
  decompress content_encoding_value in_data =
      if content_encoding_value == content_encoding_none
      then ok in_data
      else if content_encoding_value == content_encoding_zstd
      then lib.zstd_decode_all in_data
      else err unknown_encoding_type

  -- `Compress`
  unfoldable pub compress : ℕ → Bytes → Result Error Bytes
  compress content_encoding_value in_data =
      if content_encoding_value == content_encoding_none
      then ok in_data
      else if content_encoding_value == content_encoding_zstd
      then ok (lib.zstd_encode_all in_data)
      else err unknown_encoding_type

  -- `Unmarshal`: the message that is filled
  unfoldable pub unmarshal : ℕ → Message → Bytes → Result Error Message
  unmarshal in_type pb in_data =
      if in_type == content_type_proto_buf
      then lib.proto_unmarshal pb in_data
      else if in_type == content_type_json
      then lib.json_unmarshal pb in_data
      else err unknown_content_type

  -- `Marshal`
  unfoldable pub marshal : ℕ → Message → Result Error Bytes
  marshal out_type pb =
      if out_type == content_type_proto_buf
      then lib.proto_marshal pb
      else if out_type == content_type_json
      then lib.json_marshal pb
      else err unknown_content_type

  -- `UnPackByPB`
  unfoldable pub un_pack_by_pb : Message → MagicByte → Bytes → Run (Result Error Message)
  un_pack_by_pb pb in_magic_byte in_data = do
    opened ← decrypt in_magic_byte.encryption in_data
    plain ← returns (decompress in_magic_byte.cev opened)
    returns (unmarshal in_magic_byte.ctv pb plain)

  -- `Unpack`
  unfoldable pub unpack : String → MagicByte → Bytes → Run (Result Error Message)
  unfolding un_pack_by_pb
  unpack keyspace in_magic_byte in_data = elim (lookup keyspace lib.pb_message) [
    | none ↦ returns (err unknown_keyspace)
    | some new_pb ↦ un_pack_by_pb new_pb in_magic_byte in_data
  ]

  -- `Pack`
  unfoldable pub pack : (ℕ → Result Error Bytes) → MagicByte → Message → Run (Result Error Bytes)
  pack random out_magic_byte pb = do
    plain ← returns (marshal out_magic_byte.ctv pb)
    packed ← returns (compress out_magic_byte.cev plain)
    encrypt random out_magic_byte.encryption packed
