-- ===== src/Server/Starting.antt =====
-- cmd/xdas: what holds when `main` listens.
use xdas.Prelude.{
  String, Option, none, some, false, string_eq, Result, ok, err, >>=-eq-ok, ok-inj, ◌≡◌, sym, ap,
  ◌∙◌, inl, inr, Bool-cases,
}
use xdas.Sections.{validate_h_client, validate_web}
use xdas.Server.Config.{
  Configuration, validate_redis, validate_keyspace_config, validate_device_mapping_config,
}
use xdas.Server.Setup.{
  Flags, Exit, exits, or_fatal, unless_fatal, Settings, Sources, override, parsed, validated,
  get_config,
}

pub or_fatal-eq-ok : {E A : Type 0} (r : Result E A) (a : A) → or_fatal r ≡ ok a → r ≡ ok a
or_fatal-eq-ok (ok b) a e = cc
or_fatal-eq-ok (err b) a e = cc

unless_fatal-eq-ok :
    {E A : Type 0} (a b : A) (e : Option E)
    → unless_fatal (b, e) ≡ ok a
    → ◌≡◌ {A = A × Option E} (b, e) (a, none)
unless_fatal-eq-ok a b none h = cc
unless_fatal-eq-ok a b (some e) h = cc

module _ {Certificate CertPool : Type 0} (sources : Sources Certificate CertPool) where
  open sources use {open_file, remove, unmarshal, parse_duration, files}

  -- What a configuration has passed.
  pub record IsValidated (addr : String) (config out : Settings Certificate CertPool) : Type 0 where
    pub keyed : Configuration
    pub web : validate_web addr config.web ≡ (out.web, none)
    pub h_client : validate_h_client files config.h_client ≡ (out.h_client, none)
    pub redis : validate_redis config.rest.redis ≡ none
    pub keyspaces : validate_keyspace_config parse_duration config.rest ≡ ok keyed
    pub device_mapping : out.rest ≡ validate_device_mapping_config parse_duration keyed
    pub verbose : out.verbose ≡ config.verbose

  validated-IsValidated :
      (addr : String) (config out : Settings Certificate CertPool)
      → validated sources addr config ≡ ok out
      → IsValidated addr config out
  unfolding validated
  validated-IsValidated addr config out e =
      let (web, e1, r1) = >>=-eq-ok (unless_fatal (validate_web addr config.web)) _ e in
      let (h, e2, r2) = >>=-eq-ok (unless_fatal (validate_h_client files config.h_client)) _ r1 in
      let (c, e3, r3) =
        >>=-eq-ok (unless_fatal (config.rest.redis, validate_redis config.rest.redis)) _ r2 in
      let (keyed, e4, r4) =
        >>=-eq-ok (or_fatal (validate_keyspace_config parse_duration config.rest)) _ r3 in
      let same = ok-inj r4 in
      record {
        keyed = keyed;
        web = unless_fatal-eq-ok web _ _ e1 ∙ ap (λ s. (s.web, none)) same;
        h_client = unless_fatal-eq-ok h _ _ e2 ∙ ap (λ s. (s.h_client, none)) same;
        redis =
            ap (λ p. p.1)
              (unless_fatal-eq-ok c config.rest.redis (validate_redis config.rest.redis) e3);
        keyspaces = or_fatal-eq-ok _ keyed e4;
        device_mapping = ap (λ s. s.rest) (sym same);
        verbose = ap (λ s. s.verbose) (sym same);
      }

  pub get_config-eq-ok :
      (flags : Flags) (out : Settings Certificate CertPool)
      → get_config sources flags ≡ ok out
      → (flags.version ≡ false)
        × ((config : Settings Certificate CertPool) × (parsed sources flags.config_file ≡ ok config)
            × IsValidated flags.addr (override flags.verbose config) out)
  unfolding get_config
  get_config-eq-ok flags out e = elim (Bool-cases flags.version) [
    | inl shown ↦ absurd (left (rw (shown, get_config) at e))
    | inr started ↦
        let (config, e1, r1) =
          >>=-eq-ok (parsed sources flags.config_file) _ (rw (started, get_config) at e) in
        (
          started,
          (config, e1, validated-IsValidated flags.addr (override flags.verbose config) out r1),
        )
  ]
    where
      left : ◌≡◌ {A = Result Exit (Settings Certificate CertPool)} (err (exits 0)) (ok out) → ⊥
      left m = cc
