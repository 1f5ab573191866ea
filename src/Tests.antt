-- ===== src/Tests.antt =====
-- Concrete runs: a device of one user with a session, a tool call in it, and the service's registry.
mod Store
mod Agent
mod DeviceGate
mod Tunnel
mod Wire
