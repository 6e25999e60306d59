-- ===== src/Server/Serving.antt =====
-- cmd/xdas/routes.go: what the answer to a request leaves of the world, whatever its route is.
use xdas.Prelude.{
  suc, String, ◌∷◌, Run, returns, panics, and_then, of_if, ◌≡◌, refl, inl, inr, lookup, string_eq,
  Option-cases, if◌then◌else◌,
}
use xdas.Server.Http.{Method, get, put, post, delete, other_method, Request, Response, status_of}
use xdas.Server.State.{World, Handler, Services}
use xdas.Server.RequestMetrics.{client_label, app_metrics}
use xdas.Server.Routes.{
  Endpoint, multi, inc, keyspace, metrics, version, healthz, no_route, is_atomic,
  validate_keyspace_first, validate_atomic_keyspace_first, add_url_param_keyspace, keyspace_handler,
  inc_handler, multi_handler, counted, serve,
}
use xdas.Server.Tame.{IsTame, IsTame-refl, Tames}
use xdas.Server.Untouched.{world_of, xdas_get-Tames}
use xdas.Server.Untouched.Changes.{xdas_put-Tames, xdas_del-IsTame, atomic_inc-IsTame}
use xdas.Server.MultiTame.{xdas_multi_get-Tames}

module _ {S : Type 0} where
  -- From one world to another, a handler ran, and then the request may have been counted.
  abbrev pub Recounts : World S → World S → Type 0
  Recounts s s' =
      (t : World S) × IsTame s t × (s' ≡ record t { counter = s'.counter; duration = s'.duration })

  abbrev pub Recounting : World S → Run (World S × Response) → Type 0
  Recounting s (returns (s', w)) = Recounts s s'
  Recounting s panics = Unit

  Recounting-Tames :
      (s : World S) (run : Run (World S × Response)) → Tames s world_of run → Recounting s run
  Recounting-Tames s (returns (s', w)) v = (s', v, refl)
  Recounting-Tames s panics v = tt

module _ {S Message : Type 0} (services : Services S Message) (version_text : String) where
  pub keyspace_handler-Tames :
      (m : Method) (s : World S) (r : Request) (w : Response)
      → Tames s world_of (keyspace_handler services version_text m s r w)
  unfolding keyspace_handler
  keyspace_handler-Tames get s r w = xdas_get-Tames services s r w
  keyspace_handler-Tames put s r w = xdas_put-Tames services s r w
  keyspace_handler-Tames post s r w = xdas_put-Tames services s r w
  keyspace_handler-Tames delete s r w = xdas_del-IsTame services s r w
  keyspace_handler-Tames other_method s r w = IsTame-refl s

  pub inc_handler-Tames :
      (m : Method) (s : World S) (r : Request) (w : Response)
      → Tames s world_of (inc_handler services version_text m s r w)
  unfolding inc_handler
  inc_handler-Tames put s r w = atomic_inc-IsTame services s r w
  inc_handler-Tames post s r w = atomic_inc-IsTame services s r w
  inc_handler-Tames get s r w = IsTame-refl s
  inc_handler-Tames delete s r w = IsTame-refl s
  inc_handler-Tames other_method s r w = IsTame-refl s

  pub multi_handler-Tames :
      (m : Method) (s : World S) (r : Request) (w : Response)
      → Tames s world_of (multi_handler services version_text m s r w)
  unfolding multi_handler
  multi_handler-Tames get s r w = xdas_multi_get-Tames services s r w
  multi_handler-Tames put s r w = IsTame-refl s
  multi_handler-Tames post s r w = IsTame-refl s
  multi_handler-Tames delete s r w = IsTame-refl s
  multi_handler-Tames other_method s r w = IsTame-refl s

  counted-Recounting :
      (m : Method) (next : Handler S) (s : World S) (r : Request) (w : Response)
      → Tames s world_of (next s r w)
      → Recounting s (counted services version_text m next s r w)
  unfolding counted app_metrics
  counted-Recounting m next s r w v =
      of_if (Recounting s) s.config.no_metrics _ _ (Recounting-Tames s (next s r w) v)
        (after (next s r w) v)
    where
      after :
          (run : Run (World S × Response))
          → Tames s world_of run
          → Recounting s (
              and_then run λ (s', w').
                if services.valid_string (client_label r)
                then returns (
                  record s' {
                    counter =
                        record {
                          app = "xdas";
                          code = status_of w';
                          method = m;
                          keyspace = r.keyspace;
                          client = client_label r;
                        }
                        ∷ s'.counter;
                    duration = suc s'.duration;
                  },
                  w',
                )
                else panics)
      after panics v = tt
      after (returns (s', w')) v =
          of_if (Recounting s) (services.valid_string (client_label r)) _ panics (s', v, refl) tt

  -- The answer to a request changes no more than a handler does, but for the counting.
  pub serve-Recounting :
      (m : Method) (e : Endpoint) (s : World S) (r : Request) (w : Response)
      → Recounting s (serve services version_text m e s r w)
  unfolding serve add_url_param_keyspace validate_keyspace_first validate_atomic_keyspace_first
  serve-Recounting m (multi id) s r w =
      counted-Recounting m (multi_handler services version_text m) s _ w
        (multi_handler-Tames m s _ w)
  serve-Recounting m (keyspace k id) s r w = elim (Option-cases (lookup k s.config.keyspaces)) [
    | inl unknown ↦ rw (unknown, validate_keyspace_first) (s, IsTame-refl s, refl)
    | inr (c, known) ↦
        rw (known, validate_keyspace_first)
          (counted-Recounting m (keyspace_handler services version_text m) s _ w
            (keyspace_handler-Tames m s _ w))
  ]
  serve-Recounting m (inc k id) s r w =
      of_if (Recounting s) (is_atomic (lookup k s.config.keyspaces)) _ _
        (counted-Recounting m (inc_handler services version_text m) s _ w
          (inc_handler-Tames m s _ w))
        (s, IsTame-refl s, refl)
  serve-Recounting get metrics s r w = (s, IsTame-refl s, refl)
  serve-Recounting get version s r w = (s, IsTame-refl s, refl)
  serve-Recounting get healthz s r w = (s, IsTame-refl s, refl)
  serve-Recounting put metrics s r w = (s, IsTame-refl s, refl)
  serve-Recounting put version s r w = (s, IsTame-refl s, refl)
  serve-Recounting put healthz s r w = (s, IsTame-refl s, refl)
  serve-Recounting post metrics s r w = (s, IsTame-refl s, refl)
  serve-Recounting post version s r w = (s, IsTame-refl s, refl)
  serve-Recounting post healthz s r w = (s, IsTame-refl s, refl)
  serve-Recounting delete metrics s r w = (s, IsTame-refl s, refl)
  serve-Recounting delete version s r w = (s, IsTame-refl s, refl)
  serve-Recounting delete healthz s r w = (s, IsTame-refl s, refl)
  serve-Recounting other_method metrics s r w = (s, IsTame-refl s, refl)
  serve-Recounting other_method version s r w = (s, IsTame-refl s, refl)
  serve-Recounting other_method healthz s r w = (s, IsTame-refl s, refl)
  serve-Recounting m no_route s r w = (s, IsTame-refl s, refl)
