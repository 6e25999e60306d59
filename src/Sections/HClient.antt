-- ===== src/Sections/HClient.antt =====
-- internal/config/config_hclient.go
use xdas.Prelude.{Option, none, some}
use xdas.Sections.TlsSection.{
  SectionError, invalid_http_transport, Tls, TlsConfig, Files, no_tls, new_tls_config,
  get_client_tls, set, validate_tls,
}

module _ (Certificate CertPool : Type 0) where
  -- The transport of the client: one of `net/http` by its `TLSClientConfig`, or any other.
  pub data Transport : Type 0 where
    http_transport : Option (TlsConfig Certificate CertPool) → Transport
    other_transport : Transport

  -- `HClientConfig`, of whose client the section reads the transport.
  pub record HClientConfig : Type 0 where
    pub transport : Transport
    pub tls : Tls Certificate CertPool

module _ {Certificate CertPool : Type 0} where
  -- `NewHClient`
  abbrev pub new_h_client : HClientConfig Certificate CertPool
  new_h_client = record { transport = http_transport (some new_tls_config); tls = no_tls }

  unfoldable pub set_transport :
      Tls Certificate CertPool
      → Transport Certificate CertPool
      → Transport Certificate CertPool × Option SectionError
  unfolding set
  set_transport t other_transport = (other_transport, some invalid_http_transport)
  set_transport t (http_transport none) = (http_transport (some (get_client_tls t)), none)
  set_transport t (http_transport (some orig)) = (http_transport (some (set t orig)), none)

module _ {Certificate CertPool : Type 0} (files : Files Certificate CertPool) where
  -- `HClientConfig.Validate`
  unfoldable pub validate_h_client :
      HClientConfig Certificate CertPool → HClientConfig Certificate CertPool × Option SectionError
  unfolding validate_tls set_transport
  validate_h_client h =
      let (t, e) = validate_tls files h.tls in
      elim e [
        | some failed ↦ (record h { tls = t }, some failed)
        | none ↦
            let (transport, wrong) = set_transport t h.transport in
            (record { transport = transport; tls = t }, wrong)
      ]
