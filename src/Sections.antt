-- ===== src/Sections.antt =====
-- internal/config: the sections of the configuration for TLS, the HTTP client and the web server.
mod TlsSection
mod HClient
mod Web
pub mod Settled
pub mod Connected
unfoldable pub use TlsSection.*
unfoldable pub use HClient.*
unfoldable pub use Web.*
