-- ===== src/Tests.antt =====
-- Runs of the definitions on concrete inputs, and the theorems applied to them.
mod Access
pub mod Api
pub mod Auth
pub mod Cache
mod Grant
pub mod Health
mod Loops
mod Docs
pub mod Stores
pub mod Watcher
mod Hub
pub mod Memory
mod Probe
pub mod Samples
pub mod Static
mod Startup
mod Notices
