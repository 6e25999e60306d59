-- ===== src/Examples/Routing.antt =====
-- A sequence of requests to the routes.
use xdas.Prelude.{List, [], ◌∷◌, some, All, length, lookup, string_eq, ◌≡◌, refl, ◌⊎◌, ◌≤◌, utf8}
use xdas.Server.{
  Method, get, other_method, Endpoint, keyspace, healthz, Request, World, Labels, KeyspaceConfig,
}
use xdas.Server.Labelled.{serve_all, serve_all-IsBounded}
use xdas.Examples.Serving.{Memory, services, world, get_request}

abbrev requests : List (Method × Endpoint × Request)
requests =
    (get, keyspace "nothing" "A", get_request)
    ∷ (
      other_method,
      keyspace "pa" "A",
      record get_request { header = ("User-Agent", "curl/8.5") ∷ [] },
    )
    ∷ (get, healthz, get_request)
    ∷ []

abbrev counted_once : World Memory
counted_once = record world {
  counter =
      record {
        app = "xdas";
        code = 405;
        method = other_method;
        keyspace = "pa";
        client = utf8 "curl";
      }
      ∷ [];
  duration = 1;
}

serve_all-IsBounded_example :
    All
      (λ (l : Labels).
        ((l.keyspace ≡ "multi")
          ⊎ ((c : KeyspaceConfig) × (lookup l.keyspace world.config.keyspaces ≡ some c)))
        × (length l.client ≤ 12))
      counted_once.counter
unfolding serve_all
serve_all-IsBounded_example = serve_all-IsBounded services "1" world requests counted_once refl refl
