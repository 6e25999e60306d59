-- ===== src/Server/Served.antt =====
-- cmd/xdas/routes.go: every request to a healthy server is answered.
use xdas.Prelude.{
  String, List, Bool, true, false, ltb, length, Run, Returns, Returns-and_then, of_if, ok, ◌≡◌, ◌≢◌,
  ◌⊎◌, inl, inr, lookup, string_eq, Option-cases, if◌then◌else◌,
}
use xdas.Conversion.Totality.{IsInitialised}
use xdas.Server.Http.{
  Method, get, put, post, delete, other_method, Request, Reading, at_eof, broken, too_large,
  other_panic, Response,
}
use xdas.Server.Store.{Entry}
use xdas.Server.State.{World, Handler, Services}
use xdas.Server.RequestMetrics.{product, client_label, app_metrics}
use xdas.Server.Routes.{
  max_size, limited, Endpoint, multi, inc, keyspace, metrics, version, healthz, no_route, is_atomic,
  validate_keyspace_first, validate_atomic_keyspace_first, add_url_param_keyspace, keyspace_handler,
  inc_handler, multi_handler, counted, serve,
}
use xdas.Server.Tame.{Known}
use xdas.Server.Totality.{xdas_put-Returns, xdas_get-Returns}
use xdas.Server.MultiTotality.{xdas_multi_get-Returns}
use xdas.Server.Health.{IsHealthy, IsHealthy-IsServiced}

limited-read : (body : Reading) → body ≢ other_panic → limited body ≢ other_panic
unfolding limited
limited-read (at_eof b) h =
    of_if (λ x. x ≢ other_panic) (ltb max_size (length b)) _ _ (λ e. cc) (λ e. cc)
limited-read (broken b x) h =
    of_if (λ x. x ≢ other_panic) (ltb max_size (length b)) _ _ (λ e. cc) (λ e. cc)
limited-read too_large h = λ e. cc
limited-read other_panic h = h

first_branch :
    {A : Type 0} (b : Bool) (x y : Run A) → b ≡ true → Returns x → Returns (if b then x else y)
first_branch true x y e h = h
first_branch false x y e h = absurd (cc e)

-- `MGET` answers with one value for each key.
abbrev pub OneEach : {S Message : Type 0} → Services S Message → Type 0
OneEach {S} services =
    (store : S) (keys : List String) (results : List Entry)
    → services.redis.mget store keys ≡ ok results
    → length results ≡ length keys

-- The metrics can count a request: they are off, or the label of its client is valid.
abbrev pub Countable : {S Message : Type 0} → Services S Message → World S → Request → Type 0
Countable services s r =
    (s.config.no_metrics ≡ true) ⊎ (services.valid_string (client_label r) ≡ true)

module _ {S Message : Type 0} (services : Services S Message) (version_text : String)
    (set : IsInitialised services.lib) (one_each : OneEach services) where
  keyspace_handler-Returns :
      (m : Method) (s : World S) (r : Request) (w : Response)
      → IsHealthy s
      → Known r.keyspace s
      → r.body ≢ other_panic
      → Returns (keyspace_handler services version_text m s r w)
  unfolding keyspace_handler
  keyspace_handler-Returns get s r w h known read =
      xdas_get-Returns services set s r w (h.countable r.keyspace known)
        (IsHealthy-IsServiced r.keyspace s h known)
  keyspace_handler-Returns put s r w h known read =
      xdas_put-Returns services set s r w (h.countable r.keyspace known) read
  keyspace_handler-Returns post s r w h known read =
      xdas_put-Returns services set s r w (h.countable r.keyspace known) read
  keyspace_handler-Returns delete s r w h known read = tt
  keyspace_handler-Returns other_method s r w h known read = tt

  inc_handler-Returns :
      (m : Method) (s : World S) (r : Request) (w : Response)
      → Returns (inc_handler services version_text m s r w)
  unfolding inc_handler
  inc_handler-Returns put s r w = tt
  inc_handler-Returns post s r w = tt
  inc_handler-Returns get s r w = tt
  inc_handler-Returns delete s r w = tt
  inc_handler-Returns other_method s r w = tt

  multi_handler-Returns :
      (m : Method) (s : World S) (r : Request) (w : Response)
      → IsHealthy s
      → Returns (multi_handler services version_text m s r w)
  unfolding multi_handler
  multi_handler-Returns get s r w h = xdas_multi_get-Returns services set one_each s r w h
  multi_handler-Returns put s r w h = tt
  multi_handler-Returns post s r w h = tt
  multi_handler-Returns delete s r w h = tt
  multi_handler-Returns other_method s r w h = tt

  counted-Returns :
      (m : Method) (next : Handler S) (s : World S) (r : Request) (w : Response)
      → Countable services s r
      → Returns (next s r w)
      → Returns (counted services version_text m next s r w)
  unfolding counted app_metrics
  counted-Returns m next s r w (inl off) h = first_branch s.config.no_metrics (next s r w) _ off h
  counted-Returns m next s r w (inr valid) h =
      of_if Returns s.config.no_metrics _ _ h
        (Returns-and_then (next s r w) _ h (λ (s', w'). rw valid tt))

  -- Every request to a healthy server is answered, if the reading of its body does not panic and the
  -- metrics can count it.
  pub serve-Returns :
      (m : Method) (e : Endpoint) (s : World S) (r : Request) (w : Response)
      → IsHealthy s
      → r.body ≢ other_panic
      → Countable services s r
      → Returns (serve services version_text m e s r w)
  unfolding serve add_url_param_keyspace validate_keyspace_first validate_atomic_keyspace_first
      client_label product
  serve-Returns m (multi id) s r w h read c =
      counted-Returns m (multi_handler services version_text m) s _ w c
        (multi_handler-Returns m s _ w h)
  serve-Returns m (keyspace k id) s r w h read c =
      elim (Option-cases (lookup k s.config.keyspaces)) [
        | inl unknown ↦ rw (unknown, validate_keyspace_first) tt
        | inr (conf, known) ↦
            rw (known, validate_keyspace_first)
              (counted-Returns m (keyspace_handler services version_text m) s _ w c
                (keyspace_handler-Returns m s _ w h (conf, known) (limited-read r.body read)))
      ]
  serve-Returns m (inc k id) s r w h read c =
      of_if Returns (is_atomic (lookup k s.config.keyspaces)) _ _
        (counted-Returns m (inc_handler services version_text m) s _ w c
          (inc_handler-Returns m s _ w))
        tt
  serve-Returns get metrics s r w h read c = tt
  serve-Returns get version s r w h read c = tt
  serve-Returns get healthz s r w h read c = tt
  serve-Returns put metrics s r w h read c = tt
  serve-Returns put version s r w h read c = tt
  serve-Returns put healthz s r w h read c = tt
  serve-Returns post metrics s r w h read c = tt
  serve-Returns post version s r w h read c = tt
  serve-Returns post healthz s r w h read c = tt
  serve-Returns delete metrics s r w h read c = tt
  serve-Returns delete version s r w h read c = tt
  serve-Returns delete healthz s r w h read c = tt
  serve-Returns other_method metrics s r w h read c = tt
  serve-Returns other_method version s r w h read c = tt
  serve-Returns other_method healthz s r w h read c = tt
  serve-Returns m no_route s r w h read c = tt
