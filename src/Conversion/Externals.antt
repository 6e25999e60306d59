-- ===== src/Conversion/Externals.antt =====
-- What internal/conversion uses of other packages: zstd, Protocol Buffers, and the globals of
-- internal/rediscrypto.
use xdas.Prelude.{String, Option, List, [], Bytes, Result}
use xdas.Errors.{Error}
use xdas.RedisCrypto.{Aead, AesGcm}

-- `Message` stands for `proto.Message`; unmarshalling fills a given message.
pub record Libraries (Message : Type 0) : Type 0 where
  pub zstd_encode_all : Bytes → Bytes
  pub zstd_decode_all : Bytes → Result Error Bytes
  pub proto_unmarshal : Message → Bytes → Result Error Message
  pub proto_marshal : Message → Result Error Bytes
  pub json_unmarshal : Message → Bytes → Result Error Message
  pub json_marshal : Message → Result Error Bytes
  pub aead : Aead
  -- `globalDefaultCrypto`; `none` before `rediscrypto.Init`
  pub crypto : Option AesGcm
  -- `pbMessage`: the fresh message of a keyspace
  pub pb_message : List (String × Message)

-- The value that the program gives `pbMessage`, and which nothing changes.
abbrev pub source_pb_message : {Message : Type 0} → List (String × Message)
source_pb_message = []
