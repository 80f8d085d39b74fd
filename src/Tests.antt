-- ===== src/Tests.antt =====
-- Runs of the model on small databases, and the theorems at concrete inputs.
pub mod Fixtures
mod Lifecycle
mod Claims
mod Owners
mod Workspaces
pub mod Brokers
mod Jobs
mod Pages
mod Replays
