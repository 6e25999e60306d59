-- ===== src/Server/Setup.antt =====
-- cmd/xdas: `getConfig` of config.go, and `main` of xdas.go up to where it listens.
use xdas.Prelude.{
  ℕ, String, [], Bytes, Option, none, some, Bool, false, ◌==◌, string_eq, not, ◌&&◌, if◌then◌else◌,
  Result, ok, err, ◌>>=◌, Run, returns, and_then,
}
use xdas.Errors.{Error}
use xdas.RedisCrypto
use xdas.RedisCrypto.{AesGcm}
use xdas.Conversion.{MetricsProvider}
use xdas.Logger.{Levels, Logger, new_logger, set_level, debug}
use xdas.Sections.{
  Tls, Files, HClientConfig, new_h_client, validate_h_client, WebConfig, new_web, validate_web,
}
use xdas.Server.Config.{
  Configuration, new_redis, validate_redis, validate_keyspace_config,
  validate_device_mapping_config,
}
use xdas.Server.OwnMetrics.{Descriptor, new_metrics}
use xdas.Server.Lifecycle.{new_convert, start_services}

-- The flags of the command line: `-v`, `-config` or the environment, `-verbose` if it is given, and
-- `-addr` or the environment.
pub record Flags : Type 0 where
  pub version : Bool
  pub config_file : String
  pub verbose : Option Bool
  pub addr : String

-- `os.Exit`, with its code.
pub data Exit : Type 0 where
  exits : ℕ → Exit

-- `if err != nil { logger.Fatal(err) }`
abbrev pub or_fatal : {E A : Type 0} → Result E A → Result Exit A
or_fatal (ok a) = ok a
or_fatal (err e) = err (exits 1)

-- The same, for a method that leaves its receiver changed.
abbrev pub unless_fatal : {E A : Type 0} → A × Option E → Result Exit A
unless_fatal (a, none) = ok a
unless_fatal (a, some e) = err (exits 1)

-- `Configuration`: its sections, and the part that the handlers read.
pub record Settings (Certificate CertPool : Type 0) : Type 0 where
  pub verbose : Bool
  pub web : WebConfig Certificate CertPool
  pub h_client : HClientConfig Certificate CertPool
  pub rest : Configuration

-- What `getConfig` calls: `os.Open` and the reading, `jsoncr.Remove`, `json.Unmarshal`,
-- `time.ParseDuration`, and the files of the TLS sections.
pub record Sources (Certificate CertPool : Type 0) : Type 0 where
  pub open_file : String → Result Error Bytes
  pub remove : Bytes → Result Error Bytes
  pub unmarshal :
      Bytes → Settings Certificate CertPool → Result Error (Settings Certificate CertPool)
  pub parse_duration : String → Option ℕ
  pub files : Files Certificate CertPool

module _ {Certificate CertPool : Type 0} where
  -- The configuration before the file is read: `NewWeb`, `NewHClient` and `NewRedis`.
  abbrev pub new_settings : Settings Certificate CertPool
  new_settings = record {
    verbose = false;
    web = new_web;
    h_client = new_h_client;
    rest = record {
      no_metrics = false;
      validate_content = false;
      redis = new_redis;
      keyspaces = [];
      multipart_keyspaces = [];
      device_mapping_ttl = "";
      device_mapping_accel_ttl = "";
      dm_ttl = 0;
      accel_dm_ttl = 0;
    };
  }

  abbrev pub override : Option Bool → Settings Certificate CertPool → Settings Certificate CertPool
  override none config = config
  override (some verbose) config = record config { verbose = verbose }

module _ {Certificate CertPool : Type 0} (sources : Sources Certificate CertPool) where
  open sources use {open_file, remove, unmarshal, parse_duration, files}

  -- The reading of the file, if there is one.
  abbrev pub parsed : String → Result Exit (Settings Certificate CertPool)
  parsed config_file = if config_file == "" then ok new_settings else do
    file ← or_fatal (open_file config_file)
    b ← or_fatal (remove file)
    or_fatal (unmarshal b new_settings)

  -- The `Validate` calls, in their order, and the two validations that follow.
  unfoldable pub validated :
      String → Settings Certificate CertPool → Result Exit (Settings Certificate CertPool)
  unfolding validate_web validate_h_client validate_redis validate_keyspace_config
      validate_device_mapping_config
  validated addr config = do
    web ← unless_fatal (validate_web addr config.web)
    h_client ← unless_fatal (validate_h_client files config.h_client)
    redis ← unless_fatal (config.rest.redis, validate_redis config.rest.redis)
    keyed ← or_fatal (validate_keyspace_config parse_duration config.rest)
    ok (record config {
      web = web;
      h_client = h_client;
      rest = validate_device_mapping_config parse_duration keyed;
    })

  -- `getConfig`
  unfoldable pub get_config : Flags → Result Exit (Settings Certificate CertPool)
  unfolding validated
  get_config flags = if flags.version then err (exits 0) else do
    config ← parsed flags.config_file
    validated flags.addr (override flags.verbose config)

-- How the server listens.
pub data Listening : Type 0 where
  listen_and_serve_tls : String → String → Listening
  listen_and_serve : Listening

-- The server at the moment it listens: its configuration, with the started services, the globals
-- that `main` has set, and its logger.
pub record Started (Certificate CertPool : Type 0) : Type 0 where
  pub settings : Settings Certificate CertPool
  pub crypto : Option AesGcm
  pub metrics : MetricsProvider
  pub logger : Logger
  pub levels : Levels
  pub listening : Listening

-- The choice at the end of `main`
unfoldable pub listens : {Certificate CertPool : Type 0} → Tls Certificate CertPool → Listening
listens tls =
    if not (tls.cert_file == "") && not (tls.key_file == "")
    then listen_and_serve_tls tls.cert_file tls.key_file
    else listen_and_serve

module _ {Certificate CertPool R : Type 0} (parse_request_uri : String → Option Error)
    (register_find_x : String → String → String → Option Error)
    (register : R → String → String → String → Result Error R)
    (own : R → Descriptor → Result Error R) (reg : R) where
  -- What `main` does with its configuration.
  unfoldable pub set_up :
      Logger
      → Levels
      → Settings Certificate CertPool
      → Run (Result Exit (Started Certificate CertPool))
  unfolding set_level RedisCrypto.init new_metrics new_convert start_services listens
  set_up logger levels config =
      and_then (RedisCrypto.init none "AesGCM" config.rest.redis.encryption_key) λ (crypto, result).
        elim result [
          | err e ↦ returns (err (exits 1))
          | ok cipher ↦ and_then (new_metrics own reg) λ registry.
              and_then (start_services parse_request_uri register_find_x config.rest.keyspaces)
                λ started. returns (
                  ok (record {
                    settings = record config { rest = record config.rest { keyspaces = started } };
                    crypto = crypto;
                    metrics = new_convert register registry config.rest.keyspaces;
                    logger = logger;
                    levels = if config.verbose then set_level logger debug levels else levels;
                    listening = listens config.web.tls;
                  }))
        ]

  -- `main`, up to `ListenAndServe`
  unfoldable pub main :
      Sources Certificate CertPool → Flags → Run (Result Exit (Started Certificate CertPool))
  unfolding new_logger get_config set_up
  main sources flags =
      let (logger, levels) = new_logger [] in
      elim (get_config sources flags) [
        | err exit ↦ returns (err exit)
        | ok config ↦ set_up logger levels config
      ]
