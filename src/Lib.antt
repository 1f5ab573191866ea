-- ===== src/Lib.antt =====
-- AISummoner: a server through which users pair devices, talk to an agent about a device, and approve
-- the commands that the agent wants to run on it.
--
-- The parts modelled here are the store (internal/store), the agent service (internal/agent), the tunnels
-- of the devices (internal/tunnel, internal/devicegate, internal/device), pairing (internal/pairing), the
-- control protocol (internal/protocol), the dispatcher (internal/app) and the events of the OpenCode
-- runtime (internal/opencode).
-- The service keeps in memory what is going on, and calls the store for all that lasts; the store is
-- SQL on one connection. A tool call is a command that waits for the user's decision.
--
-- Store, from internal/store:
-- - Store/Data: the rows of the tables as records, and the predicates of the statements
--   (`agentSessionOwnerPredicate` is `owner_sees`).
-- - Store/Driver: database/sql. A `World` is the database with a script that says, for each
--   statement, which other requests run before it and whether the driver does the statement, refuses
--   it, or does it and loses the reply. `transaction` rolls back. Driver/Keeps and Driver/Gives are
--   the rules for what computations in a world keep and return.
-- - Store/Sessions, Store/Tools, Store/Devices, Store/Pairing, Store/Snapshots: one function for
--   each method of `Store`, in agent.go, devices.go and pairing.go.
-- - Store/Requests: the methods that write, as requests, and `history`, a sequence of requests under
--   a script. Requests/Steps and Requests/Histories carry a relation that each statement keeps to
--   histories.
-- - Store/Lifecycle: the stages of a tool call. Lifecycle/Moves has the moves of the statements,
--   Lifecycle/Histories those of histories, Lifecycle/Approval what follows for approval.
-- - Store/Ownership, Store/Revocation: who owns a device, and which sessions are revoked, over histories.
-- - Store/Replies: what the replies of the calls on tool calls say of the database.
--
-- Agent, from internal/agent:
-- - Agent/Settle: `resolvePendingAbort` and `finishTool` (service.go). Each loop has its two attempts
--   as the fuel of a recursion, which is the number the code writes; out of attempts is a result of
--   the code, not of the model.
-- - Agent/Registry: the maps that the service's mutex guards, one function for each critical section;
--   Registry/Requests has their sequences, and Registry/Held what their callers hold.
-- - Agent/Service, Agent/Turns, Agent/Runs: the operations that bring the store and the registry
--   together (`SetSessionArchived`, `DeleteSession`, `Decide`, `StartTurn`, `runTurn`).
-- - Agent/Hub: hub.go, the subscribers of events. Agent/Target: target.go.
-- - Agent/History: `conversationHistory`. Agent/Output: `truncateOutput` and `outputExcerpt`.
--
-- Devices:
-- - DeviceGate: gate.go of internal/devicegate, as steps of any calls of `LockDevice` and their unlocks on
--   one gate. DeviceGate/Order has the invariant, DeviceGate/Exclusion what callers rely on.
-- - Tunnel/Manager: internal/tunnel/manager.go, a heap of connections and the maps of the manager; its
--   goroutines are steps. Tunnel/Owned, Tunnel/Shutdown, Tunnel/Newest and Tunnel/Detach are about it, and
--   Tunnel/Ssh is `OpenSSH`.
-- - Device: internal/device/service.go, which takes the gate, the store, the agent service and the tunnels in
--   turn when a user unpairs a device; Device/Unpairing says what that leaves behind.
-- - Pairing: internal/pairing/service.go; Pairing/Codes and Pairing/RoundTrip are about its codes,
--   and Pairing/Claims about claims.
--
-- The wire:
-- - Protocol: internal/protocol/control.go. Protocol/Writing is about `writeFull`, a loop on fuel, of which
--   as much as there are bytes is enough; Protocol/RoundTrip and Protocol/Reading are about frames and messages.
-- - App/Dispatcher: internal/app/dispatcher.go, with App/Paths on the routes of paths and App/Routes
--   on who answers which path.
-- - Opencode/Tracker, Opencode/Events: the `eventTracker` of internal/opencode/sse.go, what it emits and its
--   handlers. Opencode/Parts and Opencode/Said are about the texts of parts, Opencode/Pending about the
--   counters, Opencode/Turn about the messages of the turn, Opencode/Handlers about each handler, and Opencode/Sound about any events.
--
-- Prelude has the names that all share; Tests has concrete runs.
--
-- Identifiers and times are native numbers, with 0 for the empty identifier; texts are lists of
-- bytes. Clocks, new identifiers, adapters and tests of texts such as utf8.Valid are arguments. Sums of
-- sizes do not wrap: the code bounds them far below 2 ^ 63.
--
-- encoding/json, unicode, the digest of a code, the streams below a connection and the sink of a turn are
-- arguments too.
--
-- Not modelled: the handshake and the heartbeats of a tunnel (internal/tunnel/server.go, client.go), SSH, HTTP
-- handlers and WebSockets, the clients, authentication, the providers other than the events of OpenCode,
-- terminals, the audit log, and the publication of events. They are I/O over external libraries, or left for
-- later. The line scanner of internal/opencode/sse.go, `parseProviderState` and `classifySessionError` are left
-- out; their results are part of an event.
pub mod Prelude
pub mod Store
pub mod Agent
pub mod DeviceGate
pub mod Tunnel
pub mod Device
pub mod Pairing
pub mod Protocol
pub mod App
pub mod Opencode
mod Tests
