-- ===== src/Conversion.antt =====
-- internal/conversion: the conversion of a value from one stored form into another.
mod Metrics
mod Externals
mod Codec
mod Convert
pub mod Branches
pub mod Layers
pub mod Counting
pub mod Outcome
pub mod Preservation
pub mod Totality
pub mod Keeping
unfoldable pub use Metrics.*
unfoldable pub use Externals.*
unfoldable pub use Codec.*
unfoldable pub use Convert.*
