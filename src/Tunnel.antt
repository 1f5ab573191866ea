-- ===== src/Tunnel.antt =====
-- internal/tunnel: the connections of the devices.
pub mod Manager
pub mod Owned
pub mod Shutdown
pub mod Newest
pub mod Detach
pub mod Ssh
