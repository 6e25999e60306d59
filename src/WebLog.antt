-- ===== src/WebLog.antt =====
-- internal/logger/weblog/weblog.go: the middleware that logs requests.
mod Writer
mod Body
mod Middleware
pub mod Passing
pub mod Refusing
unfoldable pub use Writer.*
unfoldable pub use Body.*
unfoldable pub use Middleware.*
