-- ===== src/Server/Ready.antt =====
-- cmd/xdas: `main` from the command line to the first requests.
use xdas.Prelude.{
  Run, String, [], Bytes, Option, none, some, Bool, true, false, ◌==◌, string_eq, if◌then◌else◌,
  Result, ok, err, ◌>>=◌, >>=-eq-ok, ok-inj, subst, returns, ◌≡◌, refl, sym, ap, ◌∙◌, inl, inr,
  Bool-cases, Result-cases,
}
use xdas.Errors.{Error}
use xdas.Logger.{new_logger, set_level, debug, info, level}
use xdas.Sections.Connected.{validate_h_client-IsApplied}
use xdas.Server.Config.{validate_redis, validate_device_mapping_config}
use xdas.Server.Filled.{validate_keyspace_config-IsFilled}
use xdas.Server.OwnMetrics.{Descriptor}
use xdas.Server.Setup.{
  Exit, Flags, or_fatal, Settings, Sources, override, get_config, parsed, new_settings, Started,
  set_up, main,
}
use xdas.Server.Starting.{or_fatal-eq-ok, IsValidated, get_config-eq-ok}
use xdas.Server.Listens.{IsSetUp, set_up-IsSetUp}
use xdas.Server.Up.{
  AllFresh, IsServing, no_keyspaces-fresh, override-rest, override-verbose, listens_cases,
  redis-key, web-addr, served,
}

module _ {Certificate CertPool : Type 0} (sources : Sources Certificate CertPool)
    (fresh : (b : Bytes) (config : Settings Certificate CertPool)
      → sources.unmarshal b new_settings ≡ ok config
      → AllFresh config.rest.keyspaces) where
  open sources use {open_file, remove, unmarshal}

  from_file :
      (config_file : String)
      → (config_file == "") ≡ false
      → parsed sources config_file ≡ (do
        file ← or_fatal (open_file config_file)
        b ← or_fatal (remove file)
        or_fatal (unmarshal b new_settings))
  from_file config_file e = rw e refl

  from_default :
      (config_file : String)
      → (config_file == "") ≡ true
      → parsed sources config_file ≡ ok new_settings
  from_default config_file e = rw e refl

  parsed-fresh :
      (config_file : String) (config : Settings Certificate CertPool)
      → parsed sources config_file ≡ ok config
      → AllFresh config.rest.keyspaces
  parsed-fresh config_file config e = elim (Bool-cases (config_file == "")) [
    | inl unnamed ↦
        let same = ok-inj (sym (from_default config_file unnamed) ∙ e) in
        subst AllFresh (ap (λ s. s.rest.keyspaces) same) no_keyspaces-fresh
    | inr named ↦
        let (file, e1, r1) =
          >>=-eq-ok (or_fatal (open_file config_file)) _ (sym (from_file config_file named) ∙ e) in
        let (b, e2, r2) = >>=-eq-ok (or_fatal (remove file)) _ r1 in
        fresh b config (or_fatal-eq-ok (unmarshal b new_settings) config r2)
  ]

  module _ {R : Type 0} (parse_request_uri : String → Option Error)
      (register_find_x : String → String → String → Option Error)
      (register : R → String → String → String → Result Error R)
      (own : R → Descriptor → Result Error R) (reg : R) where
    set_up-IsServing :
        (flags : Flags) (config out : Settings Certificate CertPool)
        (st : Started Certificate CertPool)
        → AllFresh config.rest.keyspaces
        → IsValidated sources flags.addr (override flags.verbose config) out
        → IsSetUp parse_request_uri register_find_x register own reg out st
        → level st.logger st.levels ≡ (if out.verbose then debug else info)
        → IsServing flags st
    unfolding validate_device_mapping_config
    set_up-IsServing flags config out st new v u leveled =
        let given = override flags.verbose config in
        let kept =
          validate_keyspace_config-IsFilled sources.parse_duration given.rest v.keyed v.keyspaces in
        let redis_same : out.rest.redis ≡ given.rest.redis =
          ap (λ c. c.redis) v.device_mapping ∙ ap (λ c. c.redis) kept.0 in
        let ks_same : out.rest.keyspaces ≡ v.keyed.keyspaces =
          ap (λ c. c.keyspaces) v.device_mapping in
        let redis_valid : validate_redis out.rest.redis ≡ none = rw redis_same v.redis in
        let (key, bytes, only, size, read, same) =
          redis-key out.rest.redis u.cipher redis_valid u.keyed in
        let (bound, flagged) = web-addr flags.addr given.web out.web v.web in
        subst (IsServing flags)
          (λ i. record {
            settings = sym u.settings i;
            crypto = sym u.crypto i;
            metrics = sym u.metrics i;
            logger = st.logger;
            levels = st.levels;
            listening = sym u.listening i;
          })
          (record {
            addr = bound;
            flag_addr = flagged;
            leveled = leveled;
            flag_verbose = λ b e. v.verbose ∙ override-verbose flags.verbose b config e;
            redis = redis_valid;
            keyed = (key, bytes, only, size, read, ap some same);
            keyspaces = λ k c known. rw ks_same (
                served sources.parse_duration parse_request_uri register_find_x register u.registry
                  given.rest v.keyed u.started k c v.keyspaces
                  (rw (override-rest flags.verbose config) new) (rw ks_same at u.services) known);
            connected = (
              given.h_client.transport,
              (validate_h_client-IsApplied sources.files given.h_client out.h_client v.h_client).1,
            );
            listening = listens_cases out.web.tls;
          })

    level_set :
        (verbose : Bool)
        → let (logger, levels) = new_logger [] in
          level logger (if verbose then set_level logger debug levels else levels)
          ≡ (if verbose then debug else info)
    unfolding new_logger set_level level
    level_set true = refl
    level_set false = refl

    up_from :
        (flags : Flags) (out : Settings Certificate CertPool) (st : Started Certificate CertPool)
        → get_config sources flags ≡ ok out
        → let (logger, levels) = new_logger [] in
          set_up parse_request_uri register_find_x register own reg logger levels out
            ≡ returns (ok st)
          → IsServing flags st
    up_from flags out st configured running =
        let (logger, levels) = new_logger [] in
        let (shown, (config, read, valid)) = get_config-eq-ok sources flags out configured in
        let (u, same_logger, same_levels) =
          set_up-IsSetUp parse_request_uri register_find_x register own reg logger levels out st
            running in
        set_up-IsServing flags config out st (parsed-fresh flags.config_file config read) valid u
          (rw same_logger (rw same_levels (level_set out.verbose)))

    -- A server that listens serves.
    pub main-IsServing :
        (flags : Flags) (st : Started Certificate CertPool)
        → main parse_request_uri register_find_x register own reg sources flags ≡ returns (ok st)
        → IsServing flags st
    unfolding main
    main-IsServing flags st e = elim (Result-cases (get_config sources flags)) [
      | inr (left, failed) ↦ absurd (exited left (rw (failed, main) at e))
      | inl (out, configured) ↦ up_from flags out st configured (rw (configured, main) at e)
    ]
      where
        exited :
            (left : Exit)
            → ◌≡◌ {A = Run (Result Exit (Started Certificate CertPool))}
                (returns (err left))
                (returns (ok st))
            → ⊥
        exited left m = cc
