-- ===== src/Sections/TlsSection.antt =====
-- internal/config/config_tls.go
use xdas.Prelude.{
  String, List, [], ◌∷◌, Bytes, Option, none, some, Bool, true, false, ◌==◌, string_eq,
  if◌then◌else◌, Result, ok, err,
}
use xdas.Errors.{Error}

-- The errors of the sections: a library's, `unable to load CA`, `ErrHClientTransport`, `ErrNoWebAddr`.
pub data SectionError : Type 0 where
  of_library : Error → SectionError
  unable_to_load_ca invalid_http_transport missing_addr : SectionError

-- A certificate with its key, and a pool of certificates.
module _ (Certificate CertPool : Type 0) where
  -- `TLS`; an empty `cert` and a missing `ca` are nil.
  pub record Tls : Type 0 where
    pub cert_file : String
    pub key_file : String
    pub ca_file : String
    pub insecure : Bool
    pub cert : List Certificate
    pub ca : Option CertPool

  -- The fields of `tls.Config` that the sections set.
  pub record TlsConfig : Type 0 where
    pub certificates : List Certificate
    pub root_cas : Option CertPool
    pub insecure_skip_verify : Bool
    pub requires_client_cert : Bool
    pub client_cas : Option CertPool

  -- `tls.LoadX509KeyPair`, `os.ReadFile`, and a new pool with the certificates of a PEM file, if
  -- there is one in it.
  pub record Files : Type 0 where
    pub load_key_pair : String → String → Result Error Certificate
    pub read_file : String → Result Error Bytes
    pub append_certs_from_pem : Bytes → Option CertPool

module _ {Certificate CertPool : Type 0} where
  -- A section that is not set
  abbrev pub no_tls : Tls Certificate CertPool
  no_tls = record {
    cert_file = "";
    key_file = "";
    ca_file = "";
    insecure = false;
    cert = [];
    ca = none;
  }

  -- `&tls.Config{}`
  abbrev pub new_tls_config : TlsConfig Certificate CertPool
  new_tls_config = record {
    certificates = [];
    root_cas = none;
    insecure_skip_verify = false;
    requires_client_cert = false;
    client_cas = none;
  }

  -- `GetClientTLS`
  abbrev pub get_client_tls : Tls Certificate CertPool → TlsConfig Certificate CertPool
  get_client_tls t = record new_tls_config {
    insecure_skip_verify = t.insecure;
    certificates = t.cert;
    root_cas = t.ca;
  }

  abbrev with_ca : Option CertPool → TlsConfig Certificate CertPool → TlsConfig Certificate CertPool
  with_ca none c = c
  with_ca (some ca) c = record c { requires_client_cert = true; client_cas = some ca }

  abbrev certified : List Certificate → Option CertPool → Option (TlsConfig Certificate CertPool)
  certified [] ca = none
  certified (c ∷ cs) ca = some (with_ca ca (record new_tls_config { certificates = c ∷ cs }))

  -- `GetServerTLS`
  unfoldable pub get_server_tls : Tls Certificate CertPool → Option (TlsConfig Certificate CertPool)
  get_server_tls t = certified t.cert t.ca

  -- `Set`
  unfoldable pub set :
      Tls Certificate CertPool → TlsConfig Certificate CertPool → TlsConfig Certificate CertPool
  set t orig = record orig {
    certificates = t.cert;
    root_cas = t.ca;
    insecure_skip_verify = t.insecure;
  }

module _ {Certificate CertPool : Type 0} (files : Files Certificate CertPool) where
  -- The part of `Validate` on `CaFile`
  unfoldable pub validate_ca :
      Tls Certificate CertPool → Tls Certificate CertPool × Option SectionError
  validate_ca t = if t.ca_file == "" then (t, none) else elim (files.read_file t.ca_file) [
    | err e ↦ (t, some (of_library e))
    | ok ca_cert ↦ elim (files.append_certs_from_pem ca_cert) [
      | none ↦ (t, some unable_to_load_ca)
      | some pool ↦ (record t { ca = some pool }, none)
    ]
  ]

  -- `Validate`: the section it leaves, and its error.
  unfoldable pub validate_tls :
      Tls Certificate CertPool → Tls Certificate CertPool × Option SectionError
  unfolding validate_ca
  validate_tls t =
      if t.cert_file == ""
      then validate_ca t
      else elim (files.load_key_pair t.cert_file t.key_file) [
        | err e ↦ (t, some (of_library e))
        | ok cert ↦ validate_ca (record t { cert = cert ∷ [] })
      ]
