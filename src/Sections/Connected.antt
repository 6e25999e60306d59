-- ===== src/Sections/Connected.antt =====
-- internal/config/config_hclient.go: the TLS settings of the client's requests.
use xdas.Prelude.{none, some, ◌≡◌, refl, ◌⊎◌, inl, inr, sym, ap, ◌∙◌, Option-cases}
use xdas.Sections.{
  SectionError, Tls, TlsConfig, Files, validate_tls, set, set_transport, Transport, http_transport,
  other_transport, HClientConfig, validate_h_client,
}
use xdas.Sections.Settled.{IsSettled, validate_tls-IsSettled}

module _ {Certificate CertPool : Type 0} where
  -- The settings of a section at a transport; its other settings are as they were.
  pub record IsApplied (t : Tls Certificate CertPool)
      (before after : Transport Certificate CertPool) : Type 0 where
    pub config : TlsConfig Certificate CertPool
    pub used : after ≡ http_transport (some config)
    pub certificates : config.certificates ≡ t.cert
    pub root_cas : config.root_cas ≡ t.ca
    pub insecure : config.insecure_skip_verify ≡ t.insecure
    pub others :
        (before ≡ http_transport none)
        ⊎ ((orig : TlsConfig Certificate CertPool) × (before ≡ http_transport (some orig))
            × (config.client_cas ≡ orig.client_cas)
            × (config.requires_client_cert ≡ orig.requires_client_cert))

  set_transport-IsApplied :
      (t : Tls Certificate CertPool) (before after : Transport Certificate CertPool)
      → set_transport t before ≡ (after, none)
      → IsApplied t before after
  unfolding set_transport set
  set_transport-IsApplied t other_transport after e = absurd (refused (ap (λ r. r.1) e))
    where
      refused : {e : SectionError} → some e ≡ none → ⊥
      refused m = cc
  set_transport-IsApplied t (http_transport none) after e = record {
    config = _;
    used = sym (ap (λ r. r.0) e);
    certificates = refl;
    root_cas = refl;
    insecure = refl;
    others = inl refl;
  }
  set_transport-IsApplied t (http_transport (some orig)) after e = record {
    config = _;
    used = sym (ap (λ r. r.0) e);
    certificates = refl;
    root_cas = refl;
    insecure = refl;
    others = inr (orig, refl, refl, refl);
  }

module _ {Certificate CertPool : Type 0} (files : Files Certificate CertPool) where
  h_client_refused :
      (h : HClientConfig Certificate CertPool) (wrong : SectionError)
      → (validate_tls files h.tls).1 ≡ some wrong
      → (validate_h_client files h).1 ≡ some wrong
  unfolding validate_h_client
  h_client_refused h wrong e = rw (e, validate_h_client) refl

  h_client_settled :
      (h : HClientConfig Certificate CertPool)
      → (validate_tls files h.tls).1 ≡ none
      → let t = (validate_tls files h.tls).0 in
        validate_h_client files h ≡ (
          record { transport = (set_transport t h.transport).0; tls = t },
          (set_transport t h.transport).1,
        )
  unfolding validate_h_client
  h_client_settled h e = rw (e, validate_h_client) refl

  -- Where `Validate` of the HTTP client succeeds, its transport is one of `net/http`, its TLS section
  -- is settled, and the requests of the client use the certificate, the CA and the `Insecure` of the
  -- section, while what the transport demands of clients is as it was.
  pub validate_h_client-IsApplied :
      (h h' : HClientConfig Certificate CertPool)
      → validate_h_client files h ≡ (h', none)
      → IsSettled files h.tls h'.tls × IsApplied h'.tls h.transport h'.transport
  validate_h_client-IsApplied h h' e = elim (Option-cases (validate_tls files h.tls).1) [
    | inr (wrong, refused) ↦
        absurd (kept wrong (sym (h_client_refused h wrong refused) ∙ ap (λ r. r.1) e))
    | inl fine ↦
        let t = (validate_tls files h.tls).0 in
        let all = sym (h_client_settled h fine) ∙ e in
        let same : t ≡ h'.tls = ap (λ r. r.0.tls) all in
        (
          validate_tls-IsSettled files h.tls h'.tls (λ i. (same i, fine i)),
          rw (← same) (
              set_transport-IsApplied t h.transport h'.transport
                (λ i. ((all i).0.transport, (all i).1))),
        )
  ]
    where
      kept : (wrong : SectionError) → some wrong ≡ none → ⊥
      kept wrong m = cc
