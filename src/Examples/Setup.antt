-- ===== src/Examples/Setup.antt =====
-- The start of the server with one keyspace, and a first request.
use xdas.Prelude.{
  ℕ, suc, String, List, [], ◌∷◌, Bytes, Option, some, none, true, false, lookup, string_eq, Result,
  ok, ok-inj, Run, returns, Returns, ◌≡◌, refl, sym, ap, ◌∙◌, subst, inl, inr, Bool-cases, ◌==◌,
  utf8,
}
use xdas.RedisCrypto.Keys.{filled}
use xdas.Conversion.{MetricsProvider, prometheus_metrics, no_counts}
use xdas.FindX.{FindX, no_metrics}
use xdas.Logger.{new_logger, debug}
use xdas.Sections.{no_tls, Files, Tls}
use xdas.Server.{
  Flags, Settings, Sources, new_settings, Started, listen_and_serve_tls, main, World, Services,
  Configuration, KeyspaceConfig, new_find_x,
}
use xdas.Errors.{Error}
use xdas.Server.{Descriptor}
use xdas.Server.Up.{AllFresh}
use xdas.Examples.Fixtures.{key, toy_lib}
use xdas.Examples.FindX.{parses_all, registers_all}
use xdas.Examples.Serving.{Memory, services, world, pa_config}

abbrev zero_key : String
zero_key = "0000000000000000000000000000000000000000000000000000000000000000"

abbrev redis_configured : Configuration
redis_configured = record world.config {
  redis = record { addrs = "localhost:6379" ∷ []; encryption_key = zero_key ∷ []; encryption = 1 };
}

abbrev pub secured : Tls ℕ ℕ
secured = record no_tls { cert_file = "cert.pem"; key_file = "key.pem" }

-- The file of the configuration, read.
abbrev from_json : Settings ℕ ℕ
from_json = record new_settings {
  web = record { addr = ":8443"; tls = secured };
  rest = redis_configured;
}

abbrev pub files : Files ℕ ℕ
files = record {
  load_key_pair = λ cert key. ok 1;
  read_file = λ name. ok (utf8 name);
  append_certs_from_pem = λ pem. some 2;
}

abbrev day : ℕ
day = 86_400_000_000_000

abbrev pub sources : Sources ℕ ℕ
sources = record {
  open_file = λ name. ok (utf8 name);
  remove = λ b. ok b;
  unmarshal = λ b config. ok from_json;
  parse_duration = λ t. some day;
  files = files;
}

abbrev pub flags : Flags
flags = record { version = false; config_file = "xdas.json"; verbose = some true; addr = "" }

new_service-fresh :
    (c : KeyspaceConfig) (f : FindX)
    → ◌≡◌ {A = Option KeyspaceConfig} (some pa_config) (some c)
    → c.find_x ≡ some f
    → (f.metrics ≡ no_metrics) × (f.enabled ≡ false)
new_service-fresh c f known given =
    let same : pa_config ≡ c = cc in
    let taken : ◌≡◌ {A = Option FindX} (some new_find_x) (some f) =
      ap (λ d. d.find_x) same ∙ given in
    let new : new_find_x ≡ f = cc in (ap (λ g. g.metrics) (sym new), ap (λ g. g.enabled) (sym new))

pa-fresh : AllFresh world.config.keyspaces
unfolding lookup
pa-fresh k c f known given = elim (Bool-cases ("pa" == k)) [
  | inl hit ↦ new_service-fresh c f (rw (hit, lookup) at known) given
  | inr miss ↦ absurd (nothing (rw (miss, lookup) at known))
]
  where
    nothing : ◌≡◌ {A = Option KeyspaceConfig} none (some c) → ⊥
    nothing m = cc

pub from_json-fresh :
    (b : Bytes) (config : Settings ℕ ℕ)
    → sources.unmarshal b new_settings ≡ ok config
    → AllFresh config.rest.keyspaces
from_json-fresh b config e = subst AllFresh (ap (λ s. s.rest.keyspaces) (ok-inj e)) pa-fresh

-- A registry that takes everything, as a list of the server's own metrics.
abbrev pub counting : List Descriptor → String → String → String → Result Error (List Descriptor)
counting held keyspace name code = ok held

abbrev pub holding : List Descriptor → Descriptor → Result Error (List Descriptor)
holding held d = ok (d ∷ held)

-- A metric of the Go collector, which the default registry holds from the start.
abbrev go_goroutines : Descriptor
go_goroutines = record {
  namespace = "";
  name = "go_goroutines";
  help = "Number of goroutines that currently exist.";
  const_labels = [];
  label_names = [];
}

-- The server of that configuration when it listens.
abbrev pub up : Started ℕ ℕ
up = record {
  settings = record from_json {
    verbose = true;
    web = record { addr = ":8443"; tls = secured };
    rest = record redis_configured {
      keyspaces = ("pa", record pa_config { ttl = day }) ∷ [];
      dm_ttl = day;
      accel_dm_ttl = day;
    };
  };
  crypto = some (filled key);
  metrics = prometheus_metrics (("pa", no_counts) ∷ []);
  logger = (new_logger []).0;
  levels = debug ∷ [];
  listening = listen_and_serve_tls "cert.pem" "key.pem";
}

pub starts_up : main parses_all registers_all counting holding [] sources flags ≡ returns (ok up)
unfolding main xdas.RedisCrypto.new_aes_gcm_from xdas.RedisCrypto.byte_len
    xdas.RedisCrypto.first_key xdas.RedisCrypto.decode_string xdas.Conversion.init_metrics
    xdas.Conversion.init_counters xdas.Conversion.register_all xdas.Prelude.insert
starts_up = refl

abbrev pub answering_services : Services Memory Bytes
answering_services = record services { lib = record (toy_lib []) { crypto = up.crypto } }

abbrev pub answering : World Memory
answering = record world { config = up.settings.rest; metrics = up.metrics }
