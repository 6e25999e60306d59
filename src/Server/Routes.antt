-- ===== src/Server/Routes.antt =====
-- cmd/xdas/routes.go: the handlers of the routes and their limit on a body; the middleware of
-- cmd/xdas/xdas.go. Which route a path matches is chi's, and not modelled.
use xdas.Prelude.{
  ℕ, String, Option, none, some, Bool, true, false, lookup, ◌==◌, nat_eq, string_eq, if◌then◌else◌,
  length, take, ltb, returns,
}
use xdas.Errors.{max_bytes_error}
use xdas.Keyspaces.{ks_atomic}
use xdas.Server.Http.{
  Method, get, put, post, delete, other_method, Reading, at_eof, broken, too_large, other_panic,
  write_header, http_error,
}
use xdas.Server.Config.{KeyspaceConfig}
use xdas.Server.State.{Handler, Services}
use xdas.Server.RequestMetrics.{app_metrics}
use xdas.Server.Get.{xdas_get}
use xdas.Server.Put.{xdas_put, xdas_del}
use xdas.Server.Multi.{xdas_multi_get}
use xdas.Server.Atomic.{atomic_inc, handle_version, handle_healthz}

abbrev pub max_size : ℕ
max_size = 1_000_000

-- `middleware.RequestSize(MaxSize)`: a longer body is cut off with an error.
unfoldable pub limited : Reading → Reading
limited (at_eof b) =
    if ltb max_size (length b) then broken (take max_size b) max_bytes_error else at_eof b
limited (broken b e) =
    if ltb max_size (length b) then broken (take max_size b) max_bytes_error else broken b e
limited too_large = too_large
limited other_panic = other_panic

-- What the router of chi can match a path with, by the table of `addRoutes`, with the URL parameters
-- of the match.
pub data Endpoint : Type 0 where
  multi : String → Endpoint
  inc keyspace : String → String → Endpoint
  metrics version healthz no_route : Endpoint

abbrev pub is_atomic : Option KeyspaceConfig → Bool
is_atomic none = false
is_atomic (some c) = c.kind == ks_atomic

abbrev pub is_configured : Option KeyspaceConfig → Bool
is_configured none = false
is_configured (some c) = true

module _ {S : Type 0} where
  -- `validateKeyspace`
  unfoldable pub validate_keyspace_first : Handler S → Handler S
  unfolding lookup http_error
  validate_keyspace_first next s r w =
      if is_configured (lookup r.keyspace s.config.keyspaces)
      then next s r w
      else returns (s, http_error "Invalid keyspace" 400 w)

  -- `validateAtomicKeyspace`
  unfoldable pub validate_atomic_keyspace_first : Handler S → Handler S
  unfolding lookup http_error
  validate_atomic_keyspace_first next s r w =
      if is_atomic (lookup r.keyspace s.config.keyspaces)
      then next s r w
      else returns (s, http_error "Invalid keyspace" 400 w)

  -- `addURLParamKeyspace`
  unfoldable pub add_url_param_keyspace : String → Handler S → Handler S
  add_url_param_keyspace name next s r w = next s (record r { keyspace = name }) w

  -- The answer of the router where no handler has the method, and where no route matches.
  abbrev pub method_not_allowed : Handler S
  method_not_allowed s r w = returns (s, write_header 405 w)

  abbrev pub no_handler : Handler S
  no_handler s r w = returns (s, write_header 404 w)

module _ {S Message : Type 0} (services : Services S Message) (version_text : String) where
  unfoldable pub keyspace_handler : Method → Handler S
  unfolding xdas_get xdas_put xdas_del
  keyspace_handler get s r w = xdas_get services s r w
  keyspace_handler put s r w = xdas_put services s r w
  keyspace_handler post s r w = xdas_put services s r w
  keyspace_handler delete s r w = returns (xdas_del services s r w)
  keyspace_handler other_method s r w = method_not_allowed s r w

  unfoldable pub inc_handler : Method → Handler S
  unfolding atomic_inc
  inc_handler put s r w = returns (atomic_inc services s r w)
  inc_handler post s r w = returns (atomic_inc services s r w)
  inc_handler m s r w = method_not_allowed s r w

  unfoldable pub multi_handler : Method → Handler S
  unfolding xdas_multi_get
  multi_handler get s r w = xdas_multi_get services s r w
  multi_handler m s r w = method_not_allowed s r w

  -- `if !s.config.NoMetrics { r.Use(s.metrics.appMetrics) }`
  unfoldable pub counted : Method → Handler S → Handler S
  unfolding app_metrics
  counted m next s r w =
      if s.config.no_metrics then next s r w else app_metrics services.valid_string m next s r w

  -- The answer to a request, with its body under the limit. The metrics page is the library's.
  unfoldable pub serve : Method → Endpoint → Handler S
  unfolding limited validate_keyspace_first validate_atomic_keyspace_first add_url_param_keyspace
      keyspace_handler inc_handler multi_handler counted
  serve m (multi id) s r w =
      add_url_param_keyspace "multi" (counted m (multi_handler m)) s
        (record r { id = id; body = limited r.body }) w
  serve m (keyspace k id) s r w =
      validate_keyspace_first (counted m (keyspace_handler m)) s
        (record r { keyspace = k; id = id; body = limited r.body }) w
  serve m (inc k id) s r w =
      validate_atomic_keyspace_first (counted m (inc_handler m)) s
        (record r { keyspace = k; id = id; body = limited r.body }) w
  serve get metrics s r w = returns (s, write_header 200 w)
  serve get version s r w = returns (s, handle_version version_text w)
  serve get healthz s r w = returns (s, handle_healthz w)
  serve m no_route s r w = no_handler s r w
  serve m e s r w = method_not_allowed s r w
