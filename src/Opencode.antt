-- ===== src/Opencode.antt =====
-- internal/opencode: the adapter of the OpenCode runtime.
pub mod Tracker
pub mod Events
pub mod Pending
pub mod Parts
pub mod Said
pub mod Turn
pub mod Handlers
pub mod Sound
