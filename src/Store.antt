-- ===== src/Store.antt =====
-- internal/store: the SQLite persistence of users, devices, pairing codes, agent sessions and
-- tool calls. `Data` has the rows and the predicates, `Driver` the statements and transactions.
pub mod Data
pub mod Driver
pub mod Sessions
pub mod Tools
pub mod Devices
pub mod Pairing
pub mod Requests
pub mod Lifecycle
pub mod Replies
pub mod Snapshots
pub mod Ownership
pub mod Revocation
