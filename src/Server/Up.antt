-- ===== src/Server/Up.antt =====
-- cmd/xdas/xdas.go: the state of the server when it listens.
use xdas.Prelude.{
  ℕ, String, List, [], ◌∷◌, Bytes, Option, none, some, Bool, true, false, ◌==◌, nat_eq, string_eq,
  if◌then◌else◌, Result, ok, returns, lookup, ◌≡◌, refl, sym, ap, ◌∙◌, ◌≢◌, ◌⊎◌, inl, inr, arith,
  Bool-cases, Option-cases,
}
use text.Mathlib.TextEquality.{eq_iff}
use xdas.Errors.{Error}
use xdas.RedisCrypto.{AesGcm, new_aes_gcm, decode_string}
use xdas.RedisCrypto.Keys.{Has64Bytes, filled, new_aes_gcm_iff}
use xdas.Conversion.Counting.{IsCounted}
use xdas.FindX.{FindX, no_metrics}
use xdas.FindX.Soundness.{IsSound}
use xdas.Logger.{debug, info, level}
use xdas.Sections.{missing_addr, WebConfig, validate_web, bound, Tls, Transport}
use xdas.Sections.Connected.{IsApplied}
use xdas.Server.Config.{
  KeyspaceConfig, Configuration, RedisConfig, validate_redis, validate_keyspace_config,
  find_x_or_new,
}
use xdas.Server.Filled.{validate_keyspace_config-IsFilled}
use xdas.Server.Lifecycle.{new_convert, start_services}
use xdas.Server.Running.{new_convert-IsCounted, start_services-Inv}
use xdas.Server.Setup.{
  Flags, Settings, override, Started, listens, listen_and_serve, listen_and_serve_tls,
}
use xdas.Server.Listens.{one_key}

-- The services of a configuration file have the fields that no file can set at their zero values.
abbrev pub AllFresh : List (String × KeyspaceConfig) → Type 0
AllFresh keyspaces =
    (k : String) (c : KeyspaceConfig) (f : FindX)
    → lookup k keyspaces ≡ some c
    → c.find_x ≡ some f
    → (f.metrics ≡ no_metrics) × (f.enabled ≡ false)

bound-addr :
    {Certificate CertPool : Type 0} (addr : String) (w : WebConfig Certificate CertPool)
    → addr ≢ ""
    → bound addr w ≡ addr
bound-addr addr w given = ground (arith, eq_iff addr "")

bound_empty :
    {Certificate CertPool : Type 0} (addr : String) (w : WebConfig Certificate CertPool)
    → (bound addr w == "") ≡ true
    → (validate_web addr w).1 ≡ some missing_addr
unfolding validate_web
bound_empty addr w e = rw (e, validate_web) refl

pub web-addr :
    {Certificate CertPool : Type 0} (addr : String) (w w' : WebConfig Certificate CertPool)
    → validate_web addr w ≡ (w', none)
    → (w'.addr ≢ "") × (addr ≢ "" → w'.addr ≡ addr)
unfolding validate_web
web-addr addr w w' e =
    let same : bound addr w ≡ w'.addr = ap (λ r. r.0.addr) e in
    (
      rw (← same) (λ empty.
          missing
            (sym (bound_empty addr w ((eq_iff (bound addr w) "").1 empty)) ∙ ap (λ r. r.1) e)),
      λ given. sym same ∙ bound-addr addr w given,
    )
  where
    missing : some missing_addr ≡ none → ⊥
    missing m = cc

pub listens_cases :
    {Certificate CertPool : Type 0} (t : Tls Certificate CertPool)
    → ((listens t ≡ listen_and_serve_tls t.cert_file t.key_file)
        × ((t.cert_file ≢ "") × (t.key_file ≢ "")))
      ⊎ ((listens t ≡ listen_and_serve) × ((t.cert_file ≡ "") ⊎ (t.key_file ≡ "")))
unfolding listens
listens_cases t = ground (arith, eq_iff t.cert_file "", eq_iff t.key_file "")

pub redis-key :
    (c : RedisConfig) (cipher : AesGcm)
    → validate_redis c ≡ none
    → new_aes_gcm c.encryption_key ≡ ok cipher
    → (key : String) × (bytes : Bytes) × (c.encryption_key ≡ key ∷ [])
      × Has64Bytes key
      × (decode_string key ≡ some bytes)
      × (cipher ≡ filled bytes)
unfolding validate_redis
redis-key c cipher e made =
    let (key, only) = one_key c.encryption_key (ground arith) in
    let ((size, tt), (bytes, read, same)) = (new_aes_gcm_iff key [] cipher).0.0 (rw only at made) in
    (key, bytes, only, size, read, same)

find_x_or_new-fresh :
    (keyspaces : List (String × KeyspaceConfig)) (k : String) (c : KeyspaceConfig)
    → AllFresh keyspaces
    → lookup k keyspaces ≡ some c
    → let f = find_x_or_new c.find_x in (f.metrics ≡ no_metrics) × (f.enabled ≡ false)
find_x_or_new-fresh keyspaces k c fresh known = elim (Option-cases c.find_x) [
  | inl none_given ↦ rw none_given (refl, refl)
  | inr (f, given) ↦ rw given (fresh k c f known given)
]

pub no_keyspaces-fresh : AllFresh []
unfolding lookup
no_keyspaces-fresh k c f known given = absurd (cc)

pub override-rest :
    {Certificate CertPool : Type 0} (v : Option Bool) (config : Settings Certificate CertPool)
    → (override v config).rest ≡ config.rest
override-rest none config = refl
override-rest (some verbose) config = refl

pub override-verbose :
    {Certificate CertPool : Type 0} (v : Option Bool) (b : Bool)
    (config : Settings Certificate CertPool)
    → v ≡ some b
    → (override v config).verbose ≡ b
override-verbose none b config e = absurd (cc)
override-verbose (some verbose) b config e = cc

module _ {R : Type 0} (parse_duration : String → Option ℕ)
    (parse_request_uri : String → Option Error)
    (register_find_x : String → String → String → Option Error)
    (register : R → String → String → String → Result Error R) (reg : R) where
  pub served :
      (config keyed : Configuration) (started : List (String × KeyspaceConfig)) (k : String)
      (c' : KeyspaceConfig)
      → validate_keyspace_config parse_duration config ≡ ok keyed
      → AllFresh config.keyspaces
      → start_services parse_request_uri register_find_x keyed.keyspaces ≡ returns started
      → lookup k started ≡ some c'
      → IsCounted k (new_convert register reg keyed.keyspaces)
        × ((f : FindX) × (c'.find_x ≡ some f) × IsSound f)
  served config keyed started k c' valid fresh running known =
      let (c, f, f', found, given, same, counts) =
        start_services-Inv parse_request_uri register_find_x keyed.keyspaces started k c' running
          known in
      let (c0, before, filled) =
        (validate_keyspace_config-IsFilled parse_duration config keyed valid).1 k c found in
      let new = find_x_or_new-fresh config.keyspaces k c0 fresh before in
      let taken : find_x_or_new c0.find_x ≡ f = some-inj (sym filled.service ∙ given) in
      (
        new_convert-IsCounted register reg keyed.keyspaces k c found,
        (
          f',
          ap (λ d. d.find_x) same,
          elim (Bool-cases f'.enabled) [
            | inl on ↦ inr (counts (rw taken at new.0) (rw taken at new.1) on).0
            | inr off ↦ inl off
          ],
        ),
      )
    where
      some-inj : {a b : FindX} → ◌≡◌ {A = Option FindX} (some a) (some b) → a ≡ b
      some-inj m = cc

-- The server when it listens, against the flags of the command line.
pub record IsServing {Certificate CertPool : Type 0} (flags : Flags)
    (st : Started Certificate CertPool) : Type 0 where
  -- it has an address, that of the flag if that is given
  pub addr : st.settings.web.addr ≢ ""
  pub flag_addr : flags.addr ≢ "" → st.settings.web.addr ≡ flags.addr
  -- lines of debug are logged exactly if it is verbose, as the flag says if it is given
  pub leveled : level st.logger st.levels ≡ (if st.settings.verbose then debug else info)
  pub flag_verbose : (b : Bool) → flags.verbose ≡ some b → st.settings.verbose ≡ b
  -- the section for Redis is valid, and its one key, of 64 hexadecimal digits, is that of the cipher
  pub redis : validate_redis st.settings.rest.redis ≡ none
  pub keyed :
      (key : String) × (bytes : Bytes) × (st.settings.rest.redis.encryption_key ≡ key ∷ [])
      × Has64Bytes key
      × (decode_string key ≡ some bytes)
      × (st.crypto ≡ some (filled bytes))
  -- each keyspace can be counted, and has a service that is disabled or whose accounting holds
  pub keyspaces :
      (k : String) (c : KeyspaceConfig)
      → lookup k st.settings.rest.keyspaces ≡ some c
      → IsCounted k st.metrics × ((f : FindX) × (c.find_x ≡ some f) × IsSound f)
  -- the requests of its client use the certificate, the CA and the `Insecure` of its section
  pub connected :
      (before : Transport Certificate CertPool) × IsApplied st.settings.h_client.tls before
        st.settings.h_client.transport
  -- it speaks TLS exactly if a certificate and a key are named
  pub listening :
      ((st.listening
          ≡ listen_and_serve_tls st.settings.web.tls.cert_file st.settings.web.tls.key_file)
        × ((st.settings.web.tls.cert_file ≢ "") × (st.settings.web.tls.key_file ≢ "")))
      ⊎ ((st.listening ≡ listen_and_serve)
          × ((st.settings.web.tls.cert_file ≡ "") ⊎ (st.settings.web.tls.key_file ≡ "")))
