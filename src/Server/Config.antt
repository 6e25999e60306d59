-- ===== src/Server/Config.antt =====
-- cmd/xdas/config.go: the configuration and its validation; internal/config/redis.go.
use xdas.Prelude.{
  ℕ, ◌*◌, String, List, [], ◌∷◌, Option, none, some, Bool, false, ◌==◌, string_eq, nat_eq,
  if◌then◌else◌, length, ltb, is_neg, ◌||◌, not, Result, ok, err, ◌>>=◌,
}
use xdas.Errors.{Error, external}
use xdas.MagicByte.{MagicByte, new}
use xdas.Keyspaces.{Kind}
use xdas.FindX.{FindX, no_metrics}
use xdas.Server.Util.{hour}

pub record KeyspaceFormat : Type 0 where
  pub content_type : String
  pub content_encoding : String
  pub magic_byte : MagicByte

pub record KeyspaceConfig : Type 0 where
  pub input : KeyspaceFormat
  pub store : KeyspaceFormat
  pub output : KeyspaceFormat
  pub kind : Kind
  pub find_x : Option FindX
  pub ttl_string : String
  pub ttl : ℕ

-- `internal/config.RedisConfig`
pub record RedisConfig : Type 0 where
  pub addrs : List String
  pub encryption_key : List String
  pub encryption : ℕ

-- `NewRedis`
abbrev pub new_redis : RedisConfig
new_redis = record { addrs = []; encryption_key = []; encryption = 0 }

-- `RedisConfig.Validate`: its three errors
pub data RedisConfigError : Type 0 where
  no_redis_addr invalid_encrypt no_encrypt_key : RedisConfigError

unfoldable pub validate_redis : RedisConfig → Option RedisConfigError
validate_redis c =
    if ltb (length c.addrs) 1
    then some no_redis_addr
    else if is_neg c.encryption || ltb 1 c.encryption
    then some invalid_encrypt
    else if not (length c.encryption_key == 1)
    then some no_encrypt_key
    else none

-- The part of `Configuration` that the handlers and the validation read.
pub record Configuration : Type 0 where
  pub no_metrics : Bool
  pub validate_content : Bool
  pub redis : RedisConfig
  pub keyspaces : List (String × KeyspaceConfig)
  pub multipart_keyspaces : List String
  pub device_mapping_ttl : String
  pub device_mapping_accel_ttl : String
  pub dm_ttl : ℕ
  pub accel_dm_ttl : ℕ

-- `new(findx.FindX)`
abbrev pub new_find_x : FindX
new_find_x = record {
  is_enabled = false;
  keyspace = "";
  url = "";
  channel_buffer_size = 0;
  thread = 0;
  registration = record { keyspace = ""; prom_namespace = ""; prom_reg = false };
  metrics = no_metrics;
  enabled = false;
  ch = [];
  closed = false;
  waiting = 0;
  in_flight = [];
  left = 0;
  adding = [];
}

-- `if s == "" { s = t }`
abbrev pub or_else : String → String → String
or_else s t = if s == "" then t else s

abbrev pub with_magic_byte : KeyspaceFormat → String → String → ℕ → KeyspaceFormat
with_magic_byte f content_encoding content_type encryption = record f {
  content_encoding = content_encoding;
  content_type = content_type;
  magic_byte = new content_encoding content_type encryption;
}

abbrev pub find_x_or_new : Option FindX → FindX
find_x_or_new none = new_find_x
find_x_or_new (some f) = f

-- The three formats of one round of the loop of `validateKeyspaceConfig`.
unfoldable pub fill_formats : ℕ → KeyspaceConfig → KeyspaceConfig
unfolding new
fill_formats encryption value =
    let input = value.input in
    let store_encoding : String = or_else value.store.content_encoding input.content_encoding in
    let store_type : String = or_else value.store.content_type input.content_type in
    let wanted : String = if store_type == "" then "" else value.output.content_type in
    record value {
      input = with_magic_byte input input.content_encoding input.content_type 0;
      store = with_magic_byte value.store store_encoding store_type encryption;
      output =
          with_magic_byte value.output (or_else value.output.content_encoding store_encoding)
            (or_else wanted store_type) 0;
      find_x = some (find_x_or_new value.find_x);
    }

module _ (parse_duration : String → Option ℕ) where
  -- One round; a TTL that does not parse ends the program.
  unfoldable pub validate_keyspace : ℕ → KeyspaceConfig → Result Error KeyspaceConfig
  unfolding fill_formats
  validate_keyspace encryption value = elim (parse_duration value.ttl_string) [
    | none ↦ err (external 6)
    | some ttl ↦ ok (record (fill_formats encryption value) { ttl = ttl })
  ]

  unfoldable pub validate_keyspaces :
      ℕ → List (String × KeyspaceConfig) → Result Error (List (String × KeyspaceConfig))
  unfolding validate_keyspace
  validate_keyspaces encryption [] = ok []
  validate_keyspaces encryption ((key, value) ∷ rest) = do
    value' ← validate_keyspace encryption value
    rest' ← validate_keyspaces encryption rest
    ok ((key, value') ∷ rest')

  -- `validateKeyspaceConfig`
  unfoldable pub validate_keyspace_config : Configuration → Result Error Configuration
  unfolding validate_keyspaces
  validate_keyspace_config config = do
    keyspaces ← validate_keyspaces config.redis.encryption config.keyspaces
    ok (record config { keyspaces = keyspaces })

  abbrev pub duration_or : String → ℕ → ℕ
  duration_or s default = elim (parse_duration s) [ none ↦ default | some ttl ↦ ttl ]

  -- `validateDeviceMappingConfig`
  unfoldable pub validate_device_mapping_config : Configuration → Configuration
  validate_device_mapping_config config = record config {
    dm_ttl = duration_or config.device_mapping_ttl (hour * 24 * 365);
    accel_dm_ttl = duration_or config.device_mapping_accel_ttl (hour * 24 * 7);
  }
