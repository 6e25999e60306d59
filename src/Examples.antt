-- ===== src/Examples.antt =====
-- The development at concrete inputs: tests of the definitions, and applications of the theorems.
mod Fixtures
mod Bytes
mod Conversions
mod Counting
mod FindX
mod Serving
mod Handlers
mod Lifecycle
mod Scheduling
mod Setup
mod Logging
mod Sections
mod Routing
mod Running
