-- ===== src/Tests.antt =====
-- Runs at concrete inputs, and the theorems at inputs where their hypotheses hold.
mod Web
mod Booting
mod Commands
mod Metadata
mod Igniting
mod Scripts
mod Running
mod Runs
mod Routing
mod Together
mod Fixtures
mod Samples
mod Groups
mod Files
mod Serving
