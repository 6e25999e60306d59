-- ===== src/Server.antt =====
-- cmd/xdas: the HTTP server.
mod Http
mod Store
mod Util
mod Config
mod State
mod Get
mod Put
mod Multi
mod Atomic
mod RequestMetrics
mod Routes
mod Lifecycle
mod OwnMetrics
mod Shutdown
mod Setup
pub mod Keys
pub mod Storing
pub mod RoundTrip
pub mod Counters
pub mod Refusals
pub mod Writes
pub mod Guarded
pub mod Filled
pub mod Reads
pub mod Parts
pub mod Running
pub mod Ending
pub mod Instruments
pub mod Registered
pub mod Tame
pub mod Untouched
pub mod MultiTame
pub mod Serving
pub mod System
pub mod Health
pub mod MultiTotality
pub mod Served
pub mod Bounded
pub mod Labelled
pub mod Starting
pub mod Listens
pub mod Returning
pub mod Up
pub mod Ready
pub mod Answering
pub mod Lasting
pub mod Answers
pub mod Totality
pub mod Durations
unfoldable pub use Http.*
unfoldable pub use Store.*
unfoldable pub use Util.*
unfoldable pub use Config.*
unfoldable pub use State.*
unfoldable pub use Get.*
unfoldable pub use Put.*
unfoldable pub use Multi.*
unfoldable pub use Atomic.*
unfoldable pub use RequestMetrics.*
unfoldable pub use Routes.*
unfoldable pub use Lifecycle.*
unfoldable pub use OwnMetrics.*
unfoldable pub use Shutdown.*
unfoldable pub use Setup.*
