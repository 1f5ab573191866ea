-- ===== src/Store/Requests.antt =====
-- The operations of internal/store that change the database, as requests that any number of
-- handlers make in any order.
pub mod Histories
pub mod Steps
use aisummoner.Prelude.{ℕ, Bool, Option, List, [], ◌∷◌, map}
use aisummoner.Store.Data.{
  RowId, Time, Bytes, ApprovalMode, SessionState, ToolStatus, Decision, Device, PairingCode,
  AgentSession, AgentMessage, ToolCall, Db,
}
use aisummoner.Store.Driver.{Exec, Slot, Outcome, World, quiet, pure, ◌>>=◌}
use aisummoner.Store.Sessions.{
  create_agent_session, update_agent_session_approval_mode, set_agent_session_archived,
  delete_agent_session_by_owner, update_agent_session_state, begin_agent_turn,
  update_agent_external_session_id, create_agent_message,
}
use aisummoner.Store.Tools.{
  create_agent_tool_call, decide_agent_tool_call, fail_pending_agent_tool_call,
  start_agent_tool_call, finish_agent_tool_call,
}
use aisummoner.Store.Devices.{register_device, update_device_last_seen, unpair_device}
use aisummoner.Store.Pairing.{create_pairing_code, claim_pairing}

pub data Request : Type 0 where
  creates_session : AgentSession → Request
  sets_mode : RowId → RowId → ApprovalMode → Time → Request
  archives : RowId → RowId → Bool → Time → Request
  deletes_session : RowId → RowId → Request
  sets_state : RowId → RowId → SessionState → Time → Request
  begins_turn : RowId → RowId → Time → Request
  sets_external : RowId → RowId → Bytes → Time → Request
  creates_message : RowId → AgentMessage → Request
  creates_tool : RowId → ToolCall → Request
  decides : RowId → RowId → Decision → Time → Request
  fails_pending : RowId → RowId → Bytes → Time → Request
  starts_tool : RowId → RowId → Request
  finishes_tool : RowId → RowId → ToolStatus → Option ℕ → Option Bytes → Time → Request
  registers : Device → Request
  sees_device : RowId → Time → Request
  unpairs : Bytes → RowId → RowId → Time → Request
  offers_code : PairingCode → Time → Request
  claims : RowId → Bytes → Time → Request

abbrev discard : {A : Type 0} → Exec A → Exec (Unit {0})
discard m = m >>= λ _. pure tt

unfoldable pub request : Request → Exec (Unit {0})
request (creates_session s) = create_agent_session s
request (sets_mode u s m now) = discard (update_agent_session_approval_mode u s m now)
request (archives u s a now) = discard (set_agent_session_archived u s a now)
request (deletes_session u s) = discard (delete_agent_session_by_owner u s)
request (sets_state u s st now) = update_agent_session_state u s st now
request (begins_turn u s now) = begin_agent_turn u s now
request (sets_external u s e now) = update_agent_external_session_id u s e now
request (creates_message u m) = create_agent_message u m
request (creates_tool u t) = create_agent_tool_call u t
request (decides u t d now) = discard (decide_agent_tool_call u t d now)
request (fails_pending u t e now) = discard (fail_pending_agent_tool_call u t e now)
request (starts_tool u t) = start_agent_tool_call u t
request (finishes_tool u t s c e now) = finish_agent_tool_call u t s c e now
request (registers d) = discard (register_device d)
request (sees_device d at) = update_device_last_seen d at
request (unpairs text u d now) = discard (unpair_device text u d now)
request (offers_code c now) = create_pairing_code c now
request (claims u c now) = discard (claim_pairing u c now)

-- Requests one after the other; a failed one does not stop the rest.
unfoldable pub serve : List Request → World → World
serve [] w = w
serve (r ∷ rest) w = serve rest (request r w).1

-- A script whose other requests are requests of the program too.
abbrev pub slot_of : List Request × Outcome → Slot
slot_of (rs, outcome) = record { others = λ db. (serve rs (quiet db)).db; outcome = outcome }

-- The database after a history: requests, each statement of which may fail, with the requests that
-- run between the statements.
unfoldable pub history : List Request → List (List Request × Outcome) → Db → Db
unfolding serve
history rs script db = (serve rs (record { db = db; script = map slot_of script })).db
