-- ===== src/FindX.antt =====
-- internal/findx: the background look-up of missing ids, a bounded queue with worker threads.
mod Metrics
mod Requests
mod Service
mod Workers
pub mod Threads
pub mod Soundness
pub mod Panics
pub mod Draining
pub mod Fifo
pub mod Progress
pub mod Fairness
unfoldable pub use Metrics.*
unfoldable pub use Requests.*
unfoldable pub use Service.*
unfoldable pub use Workers.*
