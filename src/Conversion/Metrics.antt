-- ===== src/Conversion/Metrics.antt =====
-- internal/conversion/metrics.go: the counters of conversions, for each keyspace.
use xdas.Prelude.{
  ℕ, ◌+◌, ◌%◌, String, Option, none, some, List, [], ◌∷◌, Bool, true, false, ◌==◌, string_eq,
  if◌then◌else◌, lookup, insert, Result, ok, err, ◌>>=◌, Run, returns, panics, int_mod,
}
use xdas.Errors.{Error, external}

-- Counters are `uint64` and wrap.
pub record CounterType : Type 0 where
  pub content_encoding_suc : ℕ
  pub content_encoding_fail : ℕ
  pub content_type_suc : ℕ
  pub content_type_fail : ℕ
  pub encryption_suc : ℕ
  pub encryption_fail : ℕ

abbrev pub no_counts : CounterType
no_counts = record {
  content_encoding_suc = 0;
  content_encoding_fail = 0;
  content_type_suc = 0;
  content_type_fail = 0;
  encryption_suc = 0;
  encryption_fail = 0;
}

-- The six counters of the interface `metricsProvider`, `incContentEncodingSuc` and so on.
pub data Counter : Type 0 where
  content_encoding content_type encryption : Bool → Counter

-- `atomic.AddUint64(&counter.…, 1)`; the flag says whether the conversion succeeded.
unfoldable pub bump : Counter → CounterType → CounterType
bump (content_encoding true) c = record c {
  content_encoding_suc = (c.content_encoding_suc + 1) % int_mod;
}
bump (content_encoding false) c = record c {
  content_encoding_fail = (c.content_encoding_fail + 1) % int_mod;
}
bump (content_type true) c = record c { content_type_suc = (c.content_type_suc + 1) % int_mod }
bump (content_type false) c = record c { content_type_fail = (c.content_type_fail + 1) % int_mod }
bump (encryption true) c = record c { encryption_suc = (c.encryption_suc + 1) % int_mod }
bump (encryption false) c = record c { encryption_fail = (c.encryption_fail + 1) % int_mod }

-- The two implementations. The field `unknown` of `prometheusMetrics` is assigned nowhere, so it is
-- nil in every state.
pub data MetricsProvider : Type 0 where
  no_metrics : MetricsProvider
  prometheus_metrics : List (String × CounterType) → MetricsProvider

-- The `inc…` methods. A keyspace without counters is counted at `p.unknown`, which is nil: the
-- address of its field panics.
unfoldable pub inc : Counter → String → MetricsProvider → Run MetricsProvider
unfolding bump
inc counter keyspace no_metrics = returns no_metrics
inc counter keyspace (prometheus_metrics counters) = elim (lookup keyspace counters) [
  | none ↦ panics
  | some c ↦ returns (prometheus_metrics (insert keyspace (bump counter c) counters))
]

-- What tells the counters of one keyspace apart for the registry: name and code.
abbrev pub counter_names : List (String × String)
counter_names =
    ("ce", "suc")
    ∷ ("ce", "fail")
    ∷ ("ct", "suc")
    ∷ ("ct", "fail")
    ∷ ("en", "suc")
    ∷ ("en", "fail")
    ∷ []

-- A Prometheus registry is a state, and `Register` takes a keyspace, a name and a code.
module _ {R : Type 0} (register : R → String → String → String → Result Error R) where
  unfoldable pub register_all : String → List (String × String) → R → Result Error R
  register_all keyspace [] r = ok r
  register_all keyspace ((name, code) ∷ names) r = do
    next ← register r keyspace name code
    register_all keyspace names next

  -- The loop of `prometheusMetrics.init`, with the map that it fills.
  unfoldable pub init_counters :
      List (String × CounterType) → List String → R → Result Error (List (String × CounterType))
  init_counters counters [] r = ok counters
  init_counters counters (keyspace ∷ keyspaces) r = do
    next ← register_all keyspace counter_names r
    init_counters (insert keyspace no_counts counters) keyspaces next

  -- `prometheusMetrics.init`, for a registry that is not nil
  unfoldable pub init_metrics :
      R → String → List String → Result Error (List (String × CounterType))
  init_metrics reg namespace keyspaces =
      if namespace == "" then err (external 1) else init_counters [] keyspaces reg

  -- `Init`, called once, after the package's `init` has set `noMetrics`.
  unfoldable pub init : Option R → String → List String → MetricsProvider
  init none namespace keyspaces = no_metrics
  init (some reg) namespace keyspaces = elim (init_metrics reg namespace keyspaces) [
    | ok counters ↦ prometheus_metrics counters
    | err e ↦ no_metrics
  ]
