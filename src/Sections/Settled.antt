-- ===== src/Sections/Settled.antt =====
-- internal/config: what a section holds once it is validated.
use xdas.Prelude.{
  [], ◌∷◌, Bytes, none, some, true, false, ◌==◌, string_eq, str_eq→eq, ok, err, ◌≡◌, refl, ◌≢◌, ◌⊎◌,
  ◌↔◌, inl, inr, sym, ◌∙◌, ap, arith, Bool-cases, Option-cases, Result-cases,
}
use text.Mathlib.TextEquality.{eq_iff}
use xdas.Errors.{Error}
use xdas.Sections.{Tls, TlsConfig, Files, validate_ca, validate_tls, new_tls_config, get_server_tls}

module _ {Certificate CertPool : Type 0} (files : Files Certificate CertPool) where
  -- The certificate is that of the files, where they are named.
  abbrev pub HasCert : Tls Certificate CertPool → Tls Certificate CertPool → Type 0
  HasCert t t' =
      ((t.cert_file ≡ "") × (t'.cert ≡ t.cert))
      ⊎ ((t.cert_file ≢ "")
          × ((c : Certificate) × (files.load_key_pair t.cert_file t.key_file ≡ ok c)
              × (t'.cert ≡ c ∷ [])))

  -- The pool is that of the file, where it is named.
  abbrev pub HasCa : Tls Certificate CertPool → Tls Certificate CertPool → Type 0
  HasCa t t' =
      ((t.ca_file ≡ "") × (t'.ca ≡ t.ca))
      ⊎ ((t.ca_file ≢ "")
          × ((pem : Bytes) × (pool : CertPool) × (files.read_file t.ca_file ≡ ok pem)
              × (files.append_certs_from_pem pem ≡ some pool)
              × (t'.ca ≡ some pool)))

  -- What the files make of a section.
  pub record IsSettled (t t' : Tls Certificate CertPool) : Type 0 where
    pub same_names : t' ≡ record t { cert = t'.cert; ca = t'.ca }
    pub has_cert : HasCert t t'
    pub has_ca : HasCa t t'

  ca_unnamed :
      (t : Tls Certificate CertPool) → (t.ca_file == "") ≡ true → validate_ca files t ≡ (t, none)
  unfolding validate_ca
  ca_unnamed t e = rw (e, validate_ca) refl

  ca_unread :
      (t : Tls Certificate CertPool) (e : Error)
      → (t.ca_file == "") ≡ false
      → files.read_file t.ca_file ≡ err e
      → (validate_ca files t).1 ≢ none
  unfolding validate_ca
  ca_unread t e named unread h = ground arith

  ca_empty :
      (t : Tls Certificate CertPool) (pem : Bytes)
      → (t.ca_file == "") ≡ false
      → files.read_file t.ca_file ≡ ok pem
      → files.append_certs_from_pem pem ≡ none
      → (validate_ca files t).1 ≢ none
  unfolding validate_ca
  ca_empty t pem named read empty h = ground arith

  ca_filled :
      (t : Tls Certificate CertPool) (pem : Bytes) (pool : CertPool)
      → (t.ca_file == "") ≡ false
      → files.read_file t.ca_file ≡ ok pem
      → files.append_certs_from_pem pem ≡ some pool
      → validate_ca files t ≡ (record t { ca = some pool }, none)
  unfolding validate_ca
  ca_filled t pem pool named read parsed =
      rw (named, validate_ca) (rw (read, validate_ca) (rw parsed refl))

  validate_ca-HasCa :
      (t t' : Tls Certificate CertPool)
      → validate_ca files t ≡ (t', none)
      → HasCa t t' × (t' ≡ record t { ca = t'.ca })
  validate_ca-HasCa t t' e = elim (Bool-cases (t.ca_file == "")) [
    | inl unnamed ↦
        let same : t ≡ t' = ap (λ r. r.0) (sym (ca_unnamed t unnamed) ∙ e) in
        rw same (inl (rw (← same) (str_eq→eq t.ca_file "" unnamed), refl), refl)
    | inr named ↦ elim (Result-cases (files.read_file t.ca_file)) [
      | inr (missing, unread) ↦ absurd (ca_unread t missing named unread (ap (λ r. r.1) e))
      | inl (pem, read) ↦ elim (Option-cases (files.append_certs_from_pem pem)) [
        | inl empty ↦ absurd (ca_empty t pem named read empty (ap (λ r. r.1) e))
        | inr (pool, parsed) ↦
            let same : record t { ca = some pool } ≡ t' =
              ap (λ r. r.0) (sym (ca_filled t pem pool named read parsed) ∙ e) in
            (
              inr (
                ground (arith, eq_iff t.ca_file ""),
                (pem, pool, read, parsed, ap (λ s. s.ca) (sym same)),
              ),
              sym same ∙ ap (λ x. record t { ca = x }) (ap (λ s. s.ca) same),
            )
      ]
    ]
  ]

  HasCa-validate_ca :
      (t t' : Tls Certificate CertPool)
      → HasCa t t'
      → t' ≡ record t { ca = t'.ca }
      → validate_ca files t ≡ (t', none)
  HasCa-validate_ca t t' (inl (unnamed, same)) e =
      ca_unnamed t ((eq_iff t.ca_file "").1 unnamed)
      ∙ ap (λ s. (s, none)) (sym (e ∙ ap (λ x. record t { ca = x }) same))
  HasCa-validate_ca t t' (inr (named, (pem, pool, read, parsed, filled))) e =
      ca_filled t pem pool (ground (arith, eq_iff t.ca_file "")) read parsed
      ∙ ap (λ s. (s, none)) (sym (e ∙ ap (λ x. record t { ca = x }) filled))

  cert_unnamed :
      (t : Tls Certificate CertPool)
      → (t.cert_file == "") ≡ true
      → validate_tls files t ≡ validate_ca files t
  unfolding validate_tls
  cert_unnamed t e = rw (e, validate_tls) refl

  cert_unread :
      (t : Tls Certificate CertPool) (e : Error)
      → (t.cert_file == "") ≡ false
      → files.load_key_pair t.cert_file t.key_file ≡ err e
      → (validate_tls files t).1 ≢ none
  unfolding validate_tls
  cert_unread t e named unread h = ground arith

  cert_read :
      (t : Tls Certificate CertPool) (c : Certificate)
      → (t.cert_file == "") ≡ false
      → files.load_key_pair t.cert_file t.key_file ≡ ok c
      → validate_tls files t ≡ validate_ca files (record t { cert = c ∷ [] })
  unfolding validate_tls
  cert_read t c named read = rw (named, validate_tls) (rw (read, validate_tls) refl)

  pub validate_tls-IsSettled :
      (t t' : Tls Certificate CertPool) → validate_tls files t ≡ (t', none) → IsSettled t t'
  validate_tls-IsSettled t t' e = elim (Bool-cases (t.cert_file == "")) [
    | inl unnamed ↦
        let (authorised, same) = validate_ca-HasCa t t' (sym (cert_unnamed t unnamed) ∙ e) in
        let kept : t'.cert ≡ t.cert = ap (λ s. s.cert) same in
        record {
          same_names = same ∙ ap (λ x. record t { ca = t'.ca; cert = x }) (sym kept);
          has_cert = inl (str_eq→eq t.cert_file "" unnamed, kept);
          has_ca = authorised;
        }
    | inr named ↦ elim (Result-cases (files.load_key_pair t.cert_file t.key_file)) [
      | inr (missing, unread) ↦ absurd (cert_unread t missing named unread (ap (λ r. r.1) e))
      | inl (c, read) ↦
          let (authorised, same) =
            validate_ca-HasCa (record t { cert = c ∷ [] }) t'
              (sym (cert_read t c named read) ∙ e) in
          let loaded : t'.cert ≡ c ∷ [] = ap (λ s. s.cert) same in
          record {
            same_names = same ∙ ap (λ x. record t { ca = t'.ca; cert = x }) (sym loaded);
            has_cert = inr (ground (arith, eq_iff t.cert_file ""), (c, read, loaded));
            has_ca = authorised;
          }
    ]
  ]

  IsSettled-validate_tls :
      (t t' : Tls Certificate CertPool) → IsSettled t t' → validate_tls files t ≡ (t', none)
  IsSettled-validate_tls t t' v = elim v.has_cert [
    | inl (unnamed, kept) ↦
        cert_unnamed t ((eq_iff t.cert_file "").1 unnamed)
        ∙ HasCa-validate_ca t t' v.has_ca
            (v.same_names ∙ ap (λ x. record t { ca = t'.ca; cert = x }) kept)
    | inr (named, (c, read, loaded)) ↦
        cert_read t c (ground (arith, eq_iff t.cert_file "")) read
        ∙ HasCa-validate_ca (record t { cert = c ∷ [] }) t' v.has_ca
            (v.same_names ∙ ap (λ x. record t { ca = t'.ca; cert = x }) loaded)
  ]

  -- `Validate` of a section succeeds exactly when the certificate and the key can be loaded, if a
  -- certificate is named, and the CA file can be read and holds a certificate, if one is named; and
  -- then the section holds just these, and its names and `Insecure` as they were.
  pub validate_tls_iff :
      (t t' : Tls Certificate CertPool) → (validate_tls files t ≡ (t', none)) ↔ IsSettled t t'
  validate_tls_iff t t' = (validate_tls-IsSettled t t', IsSettled-validate_tls t t')

  -- For a section without a certificate and a pool, which `Validate` accepts: a server gets a
  -- configuration exactly if a certificate is named, and then with the pair that is loaded from that file
  -- and the key's; if a CA file is named too, it demands a certificate of every client and checks it
  -- against the pool that is parsed from the content of the CA file, and otherwise it demands none.
  pub get_server_tls_cases :
      (t t' : Tls Certificate CertPool)
      → t.cert ≡ []
      → t.ca ≡ none
      → validate_tls files t ≡ (t', none)
      → ((get_server_tls t' ≡ none) × (t.cert_file ≡ ""))
        ⊎ ((c : TlsConfig Certificate CertPool) × (get_server_tls t' ≡ some c)
            × (t.cert_file ≢ "")
            × ((k : Certificate) × (files.load_key_pair t.cert_file t.key_file ≡ ok k)
                × (c.certificates ≡ k ∷ []))
            × (((t.ca_file ≡ "") × (c.requires_client_cert ≡ false) × (c.client_cas ≡ none))
                ⊎ ((t.ca_file ≢ "")
                    × (c.requires_client_cert ≡ true)
                    × ((pem : Bytes) × (pool : CertPool) × (files.read_file t.ca_file ≡ ok pem)
                        × (files.append_certs_from_pem pem ≡ some pool)
                        × (c.client_cas ≡ some pool)))))
  unfolding get_server_tls
  get_server_tls_cases t t' empty fresh e =
      let v = validate_tls-IsSettled t t' e in
      elim v.has_cert [
        | inl (unnamed, kept) ↦ inl (rw (kept ∙ empty) refl, unnamed)
        | inr (named, (k, read, loaded)) ↦ elim v.has_ca [
          | inl (open_to_all, same) ↦ inr (
            record new_tls_config { certificates = k ∷ [] },
            rw loaded (rw (same ∙ fresh) refl),
            named,
            (k, read, refl),
            inl (open_to_all, refl, refl),
          )
          | inr (demanding, (pem, pool, found, parsed, filled)) ↦ inr (
            record new_tls_config {
              certificates = k ∷ [];
              requires_client_cert = true;
              client_cas = some pool;
            },
            rw loaded (rw filled refl),
            named,
            (k, read, refl),
            inr (demanding, refl, (pem, pool, found, parsed, refl)),
          )
        ]
      ]
