-- ===== src/App.antt =====
-- internal/app: the wiring of the server.
pub mod Dispatcher
pub mod Paths
pub mod Routes
