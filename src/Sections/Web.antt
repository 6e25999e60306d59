-- ===== src/Sections/Web.antt =====
-- internal/config/config_web.go
use xdas.Prelude.{String, Option, none, some, ◌==◌, string_eq, if◌then◌else◌}
use xdas.Sections.TlsSection.{SectionError, missing_addr, Tls, no_tls}

-- `WebConfig`, of whose server the section reads the address.
pub record WebConfig (Certificate CertPool : Type 0) : Type 0 where
  pub addr : String
  pub tls : Tls Certificate CertPool

-- `NewWeb`
abbrev pub new_web : {Certificate CertPool : Type 0} → WebConfig Certificate CertPool
new_web = record { addr = ":8080"; tls = no_tls }

-- The address that the flag `addr`, or the environment, overrides.
abbrev pub bound :
    {Certificate CertPool : Type 0} → String → WebConfig Certificate CertPool → String
bound web_addr w = if web_addr == "" then w.addr else web_addr

-- `WebConfig.Validate`
unfoldable pub validate_web :
    {Certificate CertPool : Type 0}
    → String
    → WebConfig Certificate CertPool
    → WebConfig Certificate CertPool × Option SectionError
validate_web web_addr w =
    let w' = record w { addr = bound web_addr w } in
    (w', if w'.addr == "" then some missing_addr else none)
