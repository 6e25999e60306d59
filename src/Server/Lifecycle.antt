-- ===== src/Server/Lifecycle.antt =====
-- cmd/xdas/xdas.go: what the server sets up before it listens.
use xdas.Prelude.{
  String, List, [], ◌∷◌, Option, none, some, if◌then◌else◌, Result, Run, returns, panics, and_then,
  string_eq,
}
use xdas.Errors.{Error}
use xdas.Conversion.{MetricsProvider, init}
use xdas.FindX.{FindX, start}
use xdas.Server.Config.{KeyspaceConfig}

abbrev pub app_name : String
app_name = "xdas"

abbrev pub keys : List (String × KeyspaceConfig) → List String
keys [] = []
keys ((k, c) ∷ rest) = k ∷ keys rest

-- `newConvert`, over the default registerer of Prometheus
unfoldable pub new_convert :
    {R : Type 0}
    → (R → String → String → String → Result Error R)
    → R
    → List (String × KeyspaceConfig)
    → MetricsProvider
unfolding init
new_convert register reg keyspaces = init register (some reg) app_name (keys keyspaces)

-- A loop over the configured services; a keyspace without one is a nil dereference.
abbrev pub each_service :
    (String → FindX → Run FindX)
    → List (String × KeyspaceConfig)
    → Run (List (String × KeyspaceConfig))
each_service act [] = returns []
each_service act ((k, c) ∷ rest) = elim c.find_x [
  | none ↦ panics
  | some f ↦ and_then (act k f) λ f'.
      and_then (each_service act rest)
        λ others. returns ((k, record c { find_x = some f' }) ∷ others)
]

module _ (parse_request_uri : String → Option Error)
    (register : String → String → String → Option Error) where
  -- The body of the loop of `newFindX`. An error of `Start` is only logged.
  unfoldable pub started_service : String → FindX → Run FindX
  unfolding start
  started_service keyspace f =
      if f.is_enabled
      then and_then
          (start parse_request_uri register (record f {
            keyspace = keyspace;
            registration = record f.registration { keyspace = keyspace; prom_namespace = app_name };
          }))
          (λ (g, e). returns g)
      else returns f

  -- `newFindX`
  unfoldable pub start_services :
      List (String × KeyspaceConfig) → Run (List (String × KeyspaceConfig))
  unfolding started_service
  start_services keyspaces = each_service started_service keyspaces
