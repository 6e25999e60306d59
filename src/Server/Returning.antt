-- ===== src/Server/Returning.antt =====
-- cmd/xdas/xdas.go: `main` does not panic before it listens.
use xdas.Prelude.{
  if_true, ℕ, String, List, [], ◌∷◌, Option, some, Result, ok, >>=-eq-ok, ok-inj, All, Returns,
  returns, Returns-and_then, ◌≡◌, sym, ap, subst, Result-cases, inl, inr, true, Bool-cases,
  Option-cases,
}
use xdas.Errors.{Error}
use xdas.RedisCrypto.{new_aes_gcm}
use xdas.FindX.{FindX, start, can_start, buffer_size, threads}
use xdas.Logger.{Levels, Logger}
use xdas.Server.Config.{
  KeyspaceConfig, Configuration, validate_keyspaces, validate_keyspace_config,
  validate_device_mapping_config,
}
use xdas.Server.Filled.{validate_keyspaces-All}
use xdas.Server.OwnMetrics.{Descriptor, new_metrics}
use xdas.Server.Lifecycle.{app_name, each_service, start_services, started_service}
use xdas.Server.Setup.{Settings, Sources, set_up}
use xdas.Server.Starting.{IsValidated}
use xdas.Server.Listens.{init-made, init-refused}

-- Each keyspace has a service.
abbrev pub AllServiced : List (String × KeyspaceConfig) → Type 0
AllServiced = All (λ (k, c). (f : FindX) × (c.find_x ≡ some f))

-- The runtime can make the channel and the threads of each service that is enabled.
abbrev pub AllStartable : List (String × KeyspaceConfig) → Type 0
AllStartable = All (λ (k, c).
    (f : FindX)
    → c.find_x ≡ some f
    → f.is_enabled ≡ true
    → can_start (buffer_size f) (threads f) ≡ true)

module _ (parse_request_uri : String → Option Error)
    (register : String → String → String → Option Error) where
  start-Returns :
      (f : FindX)
      → can_start (buffer_size f) (threads f) ≡ true
      → Returns (start parse_request_uri register f)
  unfolding start
  start-Returns f fits = elim (Bool-cases f.is_enabled) [
    | inr off ↦ rw (off, start) tt
    | inl on ↦ elim (Option-cases (parse_request_uri f.url)) [
      | inl fine ↦ rw (on, start) (rw fine (rw fits tt))
      | inr (e, bad) ↦ rw (on, start) (rw bad tt)
    ]
  ]

  started_service-Returns :
      (k : String) (f : FindX)
      → (f.is_enabled ≡ true → can_start (buffer_size f) (threads f) ≡ true)
      → Returns (started_service parse_request_uri register k f)
  unfolding started_service
  started_service-Returns k f fits = elim (Bool-cases f.is_enabled) [
    | inr off ↦ rw (off, started_service) tt
    | inl on ↦
        let called : FindX = record f {
          keyspace = k;
          registration = record f.registration { keyspace = k; prom_namespace = app_name };
        } in
        subst Returns (sym (if_true f.is_enabled on _ (returns f))) (
          Returns-and_then (start parse_request_uri register called) _
            (start-Returns called (fits on)) (λ g. tt))
  ]

  start_services-Returns :
      (ks : List (String × KeyspaceConfig))
      → AllServiced ks
      → AllStartable ks
      → Returns (start_services parse_request_uri register ks)
  unfolding start_services
  start_services-Returns [] v fits = tt
  start_services-Returns ((k, c) ∷ rest) ((f, given), others) (fit, fits) =
      let act = started_service parse_request_uri register in
      rw given (
        Returns-and_then (act k f) _ (started_service-Returns k f (fit f given)) (λ g.
          Returns-and_then (each_service act rest) _ (start_services-Returns rest others fits)
            (λ ks. tt)))

validated-AllServiced :
    (parse_duration : String → Option ℕ) (config keyed : Configuration)
    → validate_keyspace_config parse_duration config ≡ ok keyed
    → AllServiced keyed.keyspaces
unfolding validate_keyspace_config
validated-AllServiced parse_duration config keyed e =
    let (out, looped, e1) =
      >>=-eq-ok (validate_keyspaces parse_duration config.redis.encryption config.keyspaces) _ e in
    subst AllServiced (ap (λ c. c.keyspaces) (ok-inj e1))
      (validate_keyspaces-All parse_duration config.redis.encryption config.keyspaces out looped)

module _ {Certificate CertPool R : Type 0} (parse_request_uri : String → Option Error)
    (register_find_x : String → String → String → Option Error)
    (register : R → String → String → String → Result Error R)
    (own : R → Descriptor → Result Error R) (reg : R) where
  set_up-Returns :
      (logger : Logger) (levels : Levels) (config : Settings Certificate CertPool) (registry : R)
      → new_metrics own reg ≡ returns registry
      → AllServiced config.rest.keyspaces
      → AllStartable config.rest.keyspaces
      → Returns (set_up parse_request_uri register_find_x register own reg logger levels config)
  unfolding set_up
  set_up-Returns logger levels config registry registered v fits =
      elim (Result-cases (new_aes_gcm config.rest.redis.encryption_key)) [
        | inr (wrong, refused) ↦
            rw (init-refused config.rest.redis.encryption_key wrong refused, set_up) tt
        | inl (a, made) ↦
            rw (init-made config.rest.redis.encryption_key a made, set_up)
              (rw registered (
                Returns-and_then
                  (start_services parse_request_uri register_find_x config.rest.keyspaces) _
                  (start_services-Returns parse_request_uri register_find_x config.rest.keyspaces v
                    fits)
                  (λ ks. tt)))
      ]

  -- A validated configuration gives every keyspace a service.
  pub valid-set_up-Returns :
      (sources : Sources Certificate CertPool) (addr : String) (logger : Logger) (levels : Levels)
      (config out : Settings Certificate CertPool) (registry : R)
      → new_metrics own reg ≡ returns registry
      → IsValidated sources addr config out
      → AllStartable out.rest.keyspaces
      → Returns (set_up parse_request_uri register_find_x register own reg logger levels out)
  unfolding validate_device_mapping_config
  valid-set_up-Returns sources addr logger levels config out registry registered v fits =
      set_up-Returns logger levels out registry registered
        (subst AllServiced (sym (ap (λ c. c.keyspaces) v.device_mapping))
          (validated-AllServiced sources.parse_duration config.rest v.keyed v.keyspaces))
        fits
