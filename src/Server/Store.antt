-- ===== src/Server/Store.antt =====
-- cmd/xdas/redis.go, and the Redis client that the handlers use.
use xdas.Prelude.{ℕ, String, List, [], ◌∷◌, Bytes, Bool, ◌<>◌, Result, ok, err, ◌>>=◌}
use xdas.Errors.{Error, no_magic_byte}
use xdas.MagicByte.{MagicByte, new_from}

-- An entry of the result of `MGet`: nil, a Go string, or a value of another type.
pub data Entry : Type 0 where
  nil other : Entry
  string : Bytes → Entry

-- `redis.UniversalClient` over the state of the server. A missing key is the error `redis.Nil`. Times
-- to live and counts are `int64`s.
pub record Redis (S : Type 0) : Type 0 where
  pub get : S → String → Result Error Bytes
  pub set : S → String → Bytes → ℕ → S × Result Error String
  pub del : S → String → S × Result Error ℕ
  pub mget : S → List String → Result Error (List Entry)
  pub exists : S → String → ℕ
  pub incr_by : S → String → ℕ → S × Result Error ℕ
  pub expire : S → String → ℕ → S × Result Error Bool

-- `redisKey` and `redisKeyCT`
unfoldable pub redis_key : String → String → String
redis_key keyspace id = keyspace <> ":{" <> id <> "}"

unfoldable pub redis_key_ct : String → String → String → String → String
redis_key_ct keyspace id epoch_hour quarter =
    keyspace <> ":{" <> id <> "}" <> "_" <> epoch_hour <> "_" <> quarter

-- `redisParseResult`
unfoldable pub redis_parse_result : Bytes → Result Error (MagicByte × Bytes)
unfolding new_from
redis_parse_result [] = err no_magic_byte
redis_parse_result (b ∷ rest) = ok (new_from b, rest)

-- `redisGet`
unfoldable pub redis_get : {S : Type 0} → Redis S → S → String → Result Error (MagicByte × Bytes)
redis_get client s key = do result ← client.get s key; redis_parse_result result
