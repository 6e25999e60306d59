-- ===== src/Server/Listens.antt =====
-- cmd/xdas/xdas.go: what `main` has set up when it listens.
use xdas.Prelude.{
  String, List, [], ◌∷◌, Option, none, some, true, ◌==◌, nat_eq, string_eq, if◌then◌else◌, Result,
  ok, err, Run, returns, and_then-eq-returns, ◌≡◌, refl, sym, ap, inl, inr, arith, Result-cases,
  to_upper, length,
}
use xdas.Errors.{Error}
use xdas.RedisCrypto
use xdas.RedisCrypto.{AesGcm, new_aes_gcm, decode_string}
use xdas.Logger.{Levels, Logger, set_level, debug}
use xdas.Server.Config.{KeyspaceConfig}
use xdas.Server.OwnMetrics.{Descriptor, new_metrics}
use xdas.Server.Lifecycle.{new_convert, start_services}
use xdas.Server.Setup.{Exit, exits, Settings, Started, listens, set_up}

pub init-made :
    (hex_key : List String) (a : AesGcm)
    → new_aes_gcm hex_key ≡ ok a
    → RedisCrypto.init none "AesGCM" hex_key ≡ returns (some a, ok a)
unfolding RedisCrypto.init to_upper
init-made hex_key a e = rw (e, RedisCrypto.init) refl

pub init-refused :
    (hex_key : List String) (wrong : Error)
    → new_aes_gcm hex_key ≡ err wrong
    → RedisCrypto.init none "AesGCM" hex_key ≡ returns (none, err wrong)
unfolding RedisCrypto.init to_upper
init-refused hex_key wrong e = rw (e, RedisCrypto.init) refl

pub one_key : (keys : List String) → (length keys == 1) ≡ true → (key : String) × (keys ≡ key ∷ [])
one_key [] e = absurd (cc)
one_key (key ∷ []) e = (key, refl)
one_key (key ∷ k ∷ keys) e = absurd (ground arith)

module _ {Certificate CertPool R : Type 0} (parse_request_uri : String → Option Error)
    (register_find_x : String → String → String → Option Error)
    (register : R → String → String → String → Result Error R)
    (own : R → Descriptor → Result Error R) (reg : R) where
  -- The state that `main` makes of its configuration.
  pub record IsSetUp (config : Settings Certificate CertPool) (st : Started Certificate CertPool)
      : Type 0 where
    pub cipher : AesGcm
    pub started : List (String × KeyspaceConfig)
    pub keyed : new_aes_gcm config.rest.redis.encryption_key ≡ ok cipher
    pub crypto : st.crypto ≡ some cipher
    pub services :
        start_services parse_request_uri register_find_x config.rest.keyspaces ≡ returns started
    pub settings : st.settings ≡ record config { rest = record config.rest { keyspaces = started } }
    pub registry : R
    pub registered : new_metrics own reg ≡ returns registry
    pub metrics : st.metrics ≡ new_convert register registry config.rest.keyspaces
    pub listening : st.listening ≡ listens config.web.tls

  pub set_up-IsSetUp :
      (logger : Logger) (levels : Levels) (config : Settings Certificate CertPool)
      (st : Started Certificate CertPool)
      → set_up parse_request_uri register_find_x register own reg logger levels config
        ≡ returns (ok st)
      → IsSetUp config st
        × (st.logger ≡ logger)
        × (st.levels ≡ (if config.verbose then set_level logger debug levels else levels))
  unfolding set_up
  set_up-IsSetUp logger levels config st e =
      elim (Result-cases (new_aes_gcm config.rest.redis.encryption_key)) [
        | inr (wrong, refused) ↦
            absurd
              (left (rw (init-refused config.rest.redis.encryption_key wrong refused, set_up) at e))
        | inl (a, made) ↦
            let running = rw (init-made config.rest.redis.encryption_key a made, set_up) at e in
            let (registry, registered, after) =
              and_then-eq-returns (new_metrics own reg) _ running in
            let (started, services, later) =
              and_then-eq-returns
                (start_services parse_request_uri register_find_x config.rest.keyspaces) _ after in
            let same = started-inj later in
            (
              record {
                cipher = a;
                started = started;
                keyed = made;
                crypto = ap (λ s. s.crypto) (sym same);
                services = services;
                registry = registry;
                registered = registered;
                settings = ap (λ s. s.settings) (sym same);
                metrics = ap (λ s. s.metrics) (sym same);
                listening = ap (λ s. s.listening) (sym same);
              },
              ap (λ s. s.logger) (sym same),
              ap (λ s. s.levels) (sym same),
            )
      ]
    where
      left :
          ◌≡◌ {A = Run (Result Exit (Started Certificate CertPool))}
            (returns (err (exits 1)))
            (returns (ok st))
          → ⊥
      left m = cc

      started-inj :
          {a b : Started Certificate CertPool}
          → ◌≡◌ {A = Run (Result Exit (Started Certificate CertPool))}
              (returns (ok a))
              (returns (ok b))
          → a ≡ b
      started-inj m = cc
