-- ===== src/Server/Labelled.antt =====
-- cmd/xdas/routes.go: the counter of requests is bounded, over every sequence of requests.
use xdas.Prelude.{
  ◌≤◌, String, List, [], ◌∷◌, some, All, length, Run, returns, and_then, and_then-eq-returns,
  returns-inj, sym, ◌⊎◌, ◌≡◌, refl, subst, inl, inr, lookup, string_eq, Option-cases,
}
use xdas.Server.Http.{Method, get, put, post, delete, other_method, Request, Response, new_response}
use xdas.Server.Config.{KeyspaceConfig}
use xdas.Server.State.{World, Handler, Services}
use xdas.Server.Routes.{
  Endpoint, multi, inc, keyspace, metrics, version, healthz, no_route, is_atomic,
  validate_keyspace_first, validate_atomic_keyspace_first, add_url_param_keyspace, keyspace_handler,
  inc_handler, multi_handler, counted, serve,
}
use xdas.Server.Tame.{Tames}
use xdas.Server.Untouched.{world_of}
use xdas.Server.Serving.{keyspace_handler-Tames, inc_handler-Tames, multi_handler-Tames}
use xdas.Server.Bounded.{Named, IsBounded, Bounds, Bounds-if, Bounds-tame, app_metrics-Bounds}

-- Requests that are answered one after the other, until one panics.
unfoldable pub serve_all :
    {S Message : Type 0}
    → Services S Message
    → String
    → World S
    → List (Method × Endpoint × Request)
    → Run (World S)
unfolding serve
serve_all services version_text s [] = returns s
serve_all services version_text s ((m, e, r) ∷ rest) =
    and_then (serve services version_text m e s r new_response)
      λ (s', w). serve_all services version_text s' rest

module _ {S Message : Type 0} (services : Services S Message) (version_text : String)
    (first : World S) where
  counted-Bounds :
      (m : Method) (next : Handler S) (s : World S) (r : Request) (w : Response)
      → IsBounded first s
      → Named s r.keyspace
      → Tames s world_of (next s r w)
      → Bounds first (counted services version_text m next s r w)
  unfolding counted
  counted-Bounds m next s r w b named v =
      Bounds-if first s.config.no_metrics _ _ (Bounds-tame first s (next s r w) b v)
        (app_metrics-Bounds first services.valid_string m next s r w b named v)

  validated-Bounds :
      (m : Method) (s : World S) (r : Request) (w : Response)
      → IsBounded first s
      → Bounds first (
          validate_keyspace_first
            (counted services version_text m (keyspace_handler services version_text m))
            s
            r
            w)
  unfolding validate_keyspace_first
  validated-Bounds m s r w b = elim (Option-cases (lookup r.keyspace s.config.keyspaces)) [
    | inl unknown ↦ rw (unknown, validate_keyspace_first) b
    | inr (c, known) ↦
        rw (known, validate_keyspace_first)
          (counted-Bounds m (keyspace_handler services version_text m) s r w b (inr (c, known))
            (keyspace_handler-Tames services version_text m s r w))
  ]

  atomic-Bounds :
      (m : Method) (s : World S) (r : Request) (w : Response)
      → IsBounded first s
      → Bounds first (
          validate_atomic_keyspace_first
            (counted services version_text m (inc_handler services version_text m))
            s
            r
            w)
  unfolding validate_atomic_keyspace_first
  atomic-Bounds m s r w b = elim (Option-cases (lookup r.keyspace s.config.keyspaces)) [
    | inl unknown ↦ rw (unknown, validate_atomic_keyspace_first) b
    | inr (c, known) ↦
        Bounds-if first (is_atomic (lookup r.keyspace s.config.keyspaces)) _ _
          (counted-Bounds m (inc_handler services version_text m) s r w b (inr (c, known))
            (inc_handler-Tames services version_text m s r w))
          b
  ]

  serve-Bounds :
      (m : Method) (e : Endpoint) (s : World S) (r : Request) (w : Response)
      → IsBounded first s
      → Bounds first (serve services version_text m e s r w)
  unfolding serve add_url_param_keyspace
  serve-Bounds m (multi id) s r w b =
      counted-Bounds m (multi_handler services version_text m) s _ w b (inl refl)
        (multi_handler-Tames services version_text m s _ w)
  serve-Bounds m (keyspace k id) s r w b = validated-Bounds m s _ w b
  serve-Bounds m (inc k id) s r w b = atomic-Bounds m s _ w b
  serve-Bounds get metrics s r w b = b
  serve-Bounds get version s r w b = b
  serve-Bounds get healthz s r w b = b
  serve-Bounds put metrics s r w b = b
  serve-Bounds put version s r w b = b
  serve-Bounds put healthz s r w b = b
  serve-Bounds post metrics s r w b = b
  serve-Bounds post version s r w b = b
  serve-Bounds post healthz s r w b = b
  serve-Bounds delete metrics s r w b = b
  serve-Bounds delete version s r w b = b
  serve-Bounds delete healthz s r w b = b
  serve-Bounds other_method metrics s r w b = b
  serve-Bounds other_method version s r w b = b
  serve-Bounds other_method healthz s r w b = b
  serve-Bounds m no_route s r w b = b

  IsBounded-run :
      (requests : List (Method × Endpoint × Request)) (s s' : World S)
      → IsBounded first s
      → serve_all services version_text s requests ≡ returns s'
      → IsBounded first s'
  unfolding serve_all
  IsBounded-run [] s s' b e = subst (IsBounded first) (returns-inj e) b
  IsBounded-run ((m, e, r) ∷ rest) s s' b ran =
      let ((next, w), served, later) =
        and_then-eq-returns (serve services version_text m e s r new_response) _ ran in
      IsBounded-run rest next s' (subst (Bounds first) served (serve-Bounds m e s r new_response b))
        later

  -- From a world in which no request was counted, over every sequence of requests to any route and by
  -- any method, as long as none panics, the labels that are counted stay bounded: each names a
  -- keyspace that was configured at the start, or multi, and has at most 12 bytes for the client,
  -- however many other keyspaces the requests ask for.
  pub serve_all-IsBounded :
      (requests : List (Method × Endpoint × Request)) (s' : World S)
      → first.counter ≡ []
      → serve_all services version_text first requests ≡ returns s'
      → All
          (λ l.
            ((l.keyspace ≡ "multi")
              ⊎ ((c : KeyspaceConfig) × (lookup l.keyspace first.config.keyspaces ≡ some c)))
            × (length l.client ≤ 12))
          s'.counter
  serve_all-IsBounded requests s' e ran =
      (IsBounded-run requests first s'
        (record {
          labels = subst (All (λ l. Named first l.keyspace × (length l.client ≤ 12))) (sym e) tt;
          configured = λ k h. h;
        })
        ran).labels
