-- ===== src/Server/OwnMetrics.antt =====
-- cmd/xdas/metrics.go: the metrics that the server registers for itself when it starts.
use xdas.Prelude.{String, List, [], ◌∷◌, Result, ok, err, Run, returns, panics, and_then}
use xdas.Errors.{Error}
use xdas.Server.Lifecycle.{app_name}

-- What Prometheus tells metrics apart by: the name under its namespace, the help, the labels with their
-- constant values, and the names of the labels that vary.
pub record Descriptor : Type 0 where
  pub namespace : String
  pub name : String
  pub help : String
  pub const_labels : List (String × String)
  pub label_names : List String

-- The fields `counter`, `duration`, `redisReadErr` and `redisWriteErr` of `newMetrics`
abbrev pub api_requests_total : Descriptor
api_requests_total = record {
  namespace = "";
  name = "api_requests_total";
  help = "A counter for total number of requests.";
  const_labels = [];
  label_names = "app" ∷ "code" ∷ "method" ∷ "keyspace" ∷ "client" ∷ [];
}

abbrev pub api_request_duration : Descriptor
api_request_duration = record {
  namespace = "";
  name = "api_request_duration_seconds";
  help = "A histogram of latencies for requests.";
  const_labels = [];
  label_names = "app" ∷ [];
}

abbrev pub redis_read_errors : Descriptor
redis_read_errors = record {
  namespace = app_name;
  name = "redis_errors_total";
  help = "A counter of Redis errors.";
  const_labels = ("ops", "read") ∷ [];
  label_names = [];
}

abbrev pub redis_write_errors : Descriptor
redis_write_errors = record {
  namespace = app_name;
  name = "redis_errors_total";
  help = "A counter of Redis errors.";
  const_labels = ("ops", "write") ∷ [];
  label_names = [];
}

abbrev pub build_information : Descriptor
build_information = record {
  namespace = app_name;
  name = "build_info";
  help = "Build Information";
  const_labels = [];
  label_names = "buildtime" ∷ "goversion" ∷ "version" ∷ [];
}

-- Over a registry as a state: `Register` gives its next state or an error.
module _ {R : Type 0} (register : R → Descriptor → Result Error R) where
  -- `prometheus.MustRegister`, which panics at the first error
  unfoldable pub must_register : List Descriptor → R → Run R
  must_register [] reg = returns reg
  must_register (d ∷ ds) reg = elim (register reg d) [
    | ok next ↦ must_register ds next
    | err e ↦ panics
  ]

  -- `createBuildInfoMetrics`: the registry. The one value of the gauge is always 1.
  unfoldable pub create_build_info_metrics : R → Run R
  unfolding must_register
  create_build_info_metrics reg = must_register (build_information ∷ []) reg

  -- `newMetrics`: the registry that it leaves. All counters start at 0.
  unfoldable pub new_metrics : R → Run R
  unfolding must_register create_build_info_metrics
  new_metrics reg =
      and_then
        (must_register
          (api_requests_total ∷ api_request_duration ∷ redis_read_errors ∷ redis_write_errors ∷ [])
          reg)
        create_build_info_metrics
