-- ===== src/Server/Filled.antt =====
-- cmd/xdas/config.go: what the validation of the keyspaces fills in.
use xdas.Prelude.{
  ℕ, String, List, [], ◌∷◌, Option, some, true, false, lookup, ◌==◌, string_eq, if◌then◌else◌,
  Result, ok, err, ◌≡◌, refl, ◌≢◌, ◌⊎◌, inl, inr, arith, ap, sym, ◌∙◌, >>=-eq-ok, ok-inj, subst,
  All, Option-cases,
}
use text.Mathlib.TextEquality.{eq_iff}
use xdas.Errors.{Error, external}
use xdas.MagicByte.{new}
use xdas.FindX.{FindX}
use xdas.Server.Config.{
  KeyspaceFormat, KeyspaceConfig, Configuration, find_x_or_new, or_else, fill_formats,
  validate_keyspace, validate_keyspaces, validate_keyspace_config,
}

-- A format whose byte is that of its texts.
abbrev pub IsCoded : ℕ → KeyspaceFormat → Type 0
IsCoded encryption f = f.magic_byte ≡ new f.content_encoding f.content_type encryption

-- What the validation makes of a keyspace `c`.
pub record IsFilled (parse_duration : String → Option ℕ) (encryption : ℕ) (c c' : KeyspaceConfig)
    : Type 0 where
  -- only the stored form is encrypted
  pub input_coded : IsCoded 0 c'.input
  pub store_coded : IsCoded encryption c'.store
  pub output_coded : IsCoded 0 c'.output
  -- the stored form defaults to the input form, and the output encoding to the stored one
  pub store_encoding :
      c'.store.content_encoding ≡ or_else c.store.content_encoding c.input.content_encoding
  pub store_type : c'.store.content_type ≡ or_else c.store.content_type c.input.content_type
  pub output_encoding :
      c'.output.content_encoding ≡ or_else c.output.content_encoding c'.store.content_encoding
  -- an output type is only kept where a stored type is known
  pub output_untyped : c'.store.content_type ≡ "" → c'.output.content_type ≡ ""
  pub output_typed :
      c'.store.content_type ≢ ""
      → c'.output.content_type ≡ or_else c.output.content_type c'.store.content_type
  -- the service is the given one, or a new one, and the time to live is read from its text
  pub service : c'.find_x ≡ some (find_x_or_new c.find_x)
  pub timed : parse_duration c.ttl_string ≡ some c'.ttl
  pub same_kind : c'.kind ≡ c.kind

output_untyped_lem : (t o : String) → t ≡ "" → or_else (if t == "" then "" else o) t ≡ ""
output_untyped_lem t o h = ground (arith, eq_iff t "")

output_typed_lem : (t o : String) → t ≢ "" → or_else (if t == "" then "" else o) t ≡ or_else o t
output_typed_lem t o h = ground (arith, eq_iff t "")

pub missing_empty :
    (k : String) (out : List (String × KeyspaceConfig)) (c' : KeyspaceConfig)
    → [] ≡ out
    → lookup k out ≡ some c'
    → ⊥
unfolding lookup
missing_empty k [] c' e h = cc
missing_empty k (x ∷ xs) c' e h = cc

pub lookup_cons :
    (j k : String) (v c : KeyspaceConfig) (rest : List (String × KeyspaceConfig))
    → lookup k ((j, v) ∷ rest) ≡ some c
    → (((j == k) ≡ true) × (v ≡ c)) ⊎ (((j == k) ≡ false) × (lookup k rest ≡ some c))
unfolding lookup
lookup_cons j k v c rest h = ground arith

module _ (parse_duration : String → Option ℕ) (encryption : ℕ) where
  fill_formats-IsFilled :
      (c : KeyspaceConfig) (ttl : ℕ)
      → parse_duration c.ttl_string ≡ some ttl
      → IsFilled parse_duration encryption c (record (fill_formats encryption c) { ttl = ttl })
  unfolding fill_formats
  fill_formats-IsFilled c ttl e = record {
    input_coded = refl;
    store_coded = refl;
    output_coded = refl;
    store_encoding = refl;
    store_type = refl;
    output_encoding = refl;
    output_untyped =
        output_untyped_lem (or_else c.store.content_type c.input.content_type)
          c.output.content_type;
    output_typed =
        output_typed_lem (or_else c.store.content_type c.input.content_type) c.output.content_type;
    service = refl;
    timed = e;
    same_kind = refl;
  }

  validate_keyspace-eq-ok :
      (v v' : KeyspaceConfig)
      → validate_keyspace parse_duration encryption v ≡ ok v'
      → (ttl : ℕ) × (parse_duration v.ttl_string ≡ some ttl)
        × (v' ≡ record (fill_formats encryption v) { ttl = ttl })
  unfolding validate_keyspace
  validate_keyspace-eq-ok v v' e = elim (Option-cases (parse_duration v.ttl_string)) [
    | inl bad ↦ absurd (refused (rw (bad, validate_keyspace) at e))
    | inr (ttl, t) ↦ (ttl, t, taken ttl (rw (t, validate_keyspace) at e))
  ]
    where
      refused : ◌≡◌ {A = Result Error KeyspaceConfig} (err (external 6)) (ok v') → ⊥
      refused m = cc

      taken :
          (ttl : ℕ)
          → ◌≡◌ {A = Result Error KeyspaceConfig}
              (ok (record (fill_formats encryption v) { ttl = ttl }))
              (ok v')
          → v' ≡ record (fill_formats encryption v) { ttl = ttl }
      taken ttl m = cc

  validate_keyspace-IsFilled :
      (v v' : KeyspaceConfig)
      → validate_keyspace parse_duration encryption v ≡ ok v'
      → IsFilled parse_duration encryption v v'
  validate_keyspace-IsFilled v v' e =
      let (ttl, t, same) = validate_keyspace-eq-ok v v' e in rw same (fill_formats-IsFilled v ttl t)

  -- What the loop makes of each keyspace.
  validate_keyspaces-IsFilled :
      (ks out : List (String × KeyspaceConfig)) (k : String) (c' : KeyspaceConfig)
      → validate_keyspaces parse_duration encryption ks ≡ ok out
      → lookup k out ≡ some c'
      → (c : KeyspaceConfig) × (lookup k ks ≡ some c) × IsFilled parse_duration encryption c c'
  unfolding validate_keyspaces validate_keyspace lookup
  validate_keyspaces-IsFilled [] out k c' e h = absurd (missing_empty k out c' (cc e) h)
  validate_keyspaces-IsFilled ((j, v) ∷ rest) out k c' e h =
      let (v', first, e1) = >>=-eq-ok (validate_keyspace parse_duration encryption v) _ e in
      let (rest', others, e2) =
        >>=-eq-ok (validate_keyspaces parse_duration encryption rest) _ e1 in
      let all : ((j, v') ∷ rest') ≡ out = cc e2 in
      elim (lookup_cons j k v' c' rest' (rw (← all) at h)) [
        | inl (hit, same) ↦ (v, rw hit refl, rw (← same) (validate_keyspace-IsFilled v v' first))
        | inr (miss, later) ↦
            let (c, known, filled) = validate_keyspaces-IsFilled rest rest' k c' others later in
            (c, rw (miss, lookup) known, filled)
      ]

  -- Each of them has a service.
  pub validate_keyspaces-All :
      (ks out : List (String × KeyspaceConfig))
      → validate_keyspaces parse_duration encryption ks ≡ ok out
      → All (λ (k, c). (f : FindX) × (c.find_x ≡ some f)) out
  unfolding validate_keyspaces validate_keyspace
  validate_keyspaces-All [] out e =
      subst (All (λ (k, c). (f : FindX) × (c.find_x ≡ some f))) (ok-inj e) tt
  validate_keyspaces-All ((j, v) ∷ rest) out e =
      let (v', first, e1) = >>=-eq-ok (validate_keyspace parse_duration encryption v) _ e in
      let (rest', others, e2) =
        >>=-eq-ok (validate_keyspaces parse_duration encryption rest) _ e1 in
      subst (All (λ (k, c). (f : FindX) × (c.find_x ≡ some f))) (ok-inj e2) (
        (_, (validate_keyspace-IsFilled v v' first).service),
        validate_keyspaces-All rest rest' others,
      )

-- A validated configuration keeps everything but the keyspaces, and each of its keyspaces is one of
-- the given configuration, filled: its bytes are those of its texts, only the stored form has the
-- configured encryption, empty texts have their defaults, and its time to live was read.
pub validate_keyspace_config-IsFilled :
    (parse_duration : String → Option ℕ) (config config' : Configuration)
    → validate_keyspace_config parse_duration config ≡ ok config'
    → (config' ≡ record config { keyspaces = config'.keyspaces })
      × ((k : String) (c' : KeyspaceConfig)
          → lookup k config'.keyspaces ≡ some c'
          → (c : KeyspaceConfig) × (lookup k config.keyspaces ≡ some c)
            × IsFilled parse_duration config.redis.encryption c c')
unfolding validate_keyspace_config
validate_keyspace_config-IsFilled parse_duration config config' e =
    let (out, looped, e1) =
      >>=-eq-ok (validate_keyspaces parse_duration config.redis.encryption config.keyspaces) _ e in
    let same : record config { keyspaces = out } ≡ config' = cc e1 in
    let kept : out ≡ config'.keyspaces = ap (λ c. c.keyspaces) same in
    (
      sym same ∙ ap (λ ks. record config { keyspaces = ks }) kept,
      λ k c' h.
          validate_keyspaces-IsFilled parse_duration config.redis.encryption config.keyspaces out k
            c' looped (rw kept h),
    )
