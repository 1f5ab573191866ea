-- ===== src/Agent.antt =====
-- internal/agent: the agent service. `Settle` has the durable end of a tool call, `Output` the limits
-- on what a tool call returns, `History` the conversation that is handed to a provider, `Registry`
-- what the service keeps in memory, and `Hub` the subscribers of events. `Service`, `Turns` and `Runs`
-- are the operations that use the store and the registry, and `Target` is the profile of a device.
pub mod Settle
pub mod Output
pub mod History
pub mod Registry
pub mod Target
pub mod Service
pub mod Turns
pub mod Runs
pub mod Hub
