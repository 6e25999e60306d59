-- ===== src/RedisCrypto.antt =====
-- internal/rediscrypto/crypto.go: the encryption of stored values, over the cipher of the Go library.
mod Hex
mod Cipher
mod Gcm
mod Globals
pub mod Keys
pub mod Laws
unfoldable pub use Hex.*
unfoldable pub use Cipher.*
unfoldable pub use Gcm.*
unfoldable pub use Globals.*
