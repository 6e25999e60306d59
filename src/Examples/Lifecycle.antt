-- ===== src/Examples/Lifecycle.antt =====
-- The start and the shutdown of the server, with one keyspace.
use xdas.Prelude.{
  ℕ, suc, String, List, [], ◌∷◌, some, true, false, lookup, string_eq, Result, ok, ◌≡◌, refl,
}
use xdas.Errors.{Error}
use xdas.FindX.{FindX, no_metrics}
use xdas.FindX.Threads.{Inv}
use xdas.Server.{KeyspaceConfig, start_services}
use xdas.Server.Running.{start_services-Inv}
use xdas.Examples.FindX.{parses_all, registers_all, configured}
use xdas.Examples.Serving.{pa_config}

abbrev pub counting : ℕ → String → String → String → Result Error ℕ
counting r keyspace name code = ok (suc r)

abbrev pub of_service : FindX → KeyspaceConfig
of_service f = record pa_config { find_x = some f }

abbrev pub set_up : FindX
set_up = record configured {
  registration = record { keyspace = "pa"; prom_namespace = "xdas"; prom_reg = true };
  channel_buffer_size = 128;
  thread = 1;
  waiting = 1;
  enabled = true;
}

abbrev only : FindX → List (String × KeyspaceConfig)
only f = ("pa", of_service f) ∷ []

start_services-Inv_example :
    (c : KeyspaceConfig) × (f : FindX) × (f' : FindX) × (lookup {K = String} "pa" (only configured)
      ≡ some c)
    × (c.find_x ≡ some f)
    × (of_service set_up ≡ record c { find_x = some f' })
    × (f.metrics ≡ no_metrics
        → f.enabled ≡ false
        → f'.enabled ≡ true
        → Inv f' × (f'.keyspace ≡ "pa"))
unfolding lookup start_services
start_services-Inv_example =
    start_services-Inv parses_all registers_all (only configured) (only set_up) "pa"
      (of_service set_up) refl refl

abbrev pub shutting : FindX
shutting = record set_up { ch = "A" ∷ [] }
