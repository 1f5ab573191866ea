-- ===== src/Tests/Store.antt =====
-- Histories of one tool call.
use aisummoner.Prelude.{◌≡◌, refl, none, some, List, [], ◌∷◌, true, first, any, count, update}
use aisummoner.Prelude.Keyed.{Distinct}
use aisummoner.Store.Data.{
  RowId, Device, AgentSession, ToolCall, Db, per_command, running, revoked, pending, started,
  denied, approve_once, deny, ownership, owner_sees, owner_sees_tool, is_approval,
}
use aisummoner.Store.Driver.{works, loses_reply, Outcome, statement, transaction, require_one_row}
use aisummoner.Store.Sessions.{conflict_unless_one}
use aisummoner.Store.Tools.{
  agent_tool_call_by_owner, agent_tool_call_by_owner_query, decide_agent_tool_call,
  start_agent_tool_call, finish_agent_tool_call,
}
use aisummoner.Store.Requests.{
  Request, unpairs, registers, sets_state, begins_turn, decides, starts_tool, finishes_tool,
  request, serve, history,
}
use aisummoner.Store.Ownership.{owns, history-keeps_owner}
use aisummoner.Store.Revocation.{revoked_there, history-keeps_revoked}
use aisummoner.Store.Lifecycle.{find_tool, LaterRow}
use aisummoner.Store.Lifecycle.Histories.{history-LaterRow}
use aisummoner.Store.Lifecycle.Approval.{HasRun, run-needs-approval, denied-never-runs}

abbrev owner : RowId
owner = 1

abbrev the_tool : RowId
the_tool = 30

abbrev laptop : Device
laptop = record {
  id = 10;
  public_key = 7 ∷ [];
  owner_user_id = some owner;
  name = 76 ∷ [];
  platform = 108 ∷ [];
  arch = 97 ∷ [];
  client_version = 49 ∷ [];
  created_at = 1;
  paired_at = some 1;
  last_seen_at = none;
}

abbrev chat : AgentSession
chat = record {
  id = 20;
  user_id = owner;
  device_id = 10;
  approval_mode = per_command;
  provider = 3;
  external_session_id = none;
  state = running;
  created_at = 2;
  updated_at = 2;
  archived_at = none;
}

-- The call, waiting for a decision.
abbrev pub waiting : ToolCall
waiting = record {
  id = the_tool;
  session_id = 20;
  name = 4;
  arguments_json = 123 ∷ 125 ∷ [];
  status = pending;
  decision = none;
  exit_code = none;
  output_excerpt = none;
  created_at = 3;
  completed_at = none;
}

abbrev pub with_tool : ToolCall → Db
with_tool t = record {
  users = owner ∷ [];
  devices = laptop ∷ [];
  pairing_codes = [];
  sessions = chat ∷ [];
  messages = [];
  tools = t ∷ [];
}

abbrev denied_call : ToolCall
denied_call = record waiting { decision = some deny }

-- The call after an approval, and a start.
abbrev running_call : ToolCall
running_call = record waiting { status = started; decision = some approve_once }

-- The decision comes between the two statements of a first start, which finds nothing to start.
abbrev requests : List Request
requests = starts_tool owner the_tool ∷ starts_tool owner the_tool ∷ []

abbrev interruptions : List (List Request × Outcome)
interruptions =
    ([], works) ∷ (decides owner the_tool approve_once 5 ∷ [], works) ∷ ([], loses_reply) ∷ []

started_later :
    find_tool the_tool ((history requests interruptions (with_tool waiting)).tools)
    ≡ some running_call
unfolding history serve request start_agent_tool_call decide_agent_tool_call statement transaction
    first any count update agent_tool_call_by_owner agent_tool_call_by_owner_query ownership
    owner_sees owner_sees_tool conflict_unless_one require_one_row
started_later = refl

one_call : (t : ToolCall) → Distinct ToolCall.id (with_tool t).tools
unfolding any
one_call t = (refl, tt)

found : find_tool the_tool (with_tool waiting).tools ≡ some waiting
unfolding first
found = refl

found_denied : find_tool the_tool (with_tool denied_call).tools ≡ some denied_call
unfolding first
found_denied = refl

run-needs-approval_example : is_approval (some approve_once) ≡ true
run-needs-approval_example =
    run-needs-approval the_tool requests interruptions (with_tool waiting) waiting running_call
      (tt, (tt, tt)) (tt, ((tt, tt), (tt, tt))) (one_call waiting) found started_later refl refl tt

history-LaterRow_example :
    LaterRow
      (find_tool the_tool (with_tool waiting).tools)
      (find_tool the_tool (history requests interruptions (with_tool waiting)).tools)
history-LaterRow_example =
    history-LaterRow the_tool requests interruptions (with_tool waiting) (tt, (tt, tt))
      (tt, ((tt, tt), (tt, tt))) (one_call waiting)

-- A start of a denied call fails, and the call is closed as denied.
abbrev closing_requests : List Request
closing_requests =
    starts_tool owner the_tool ∷ finishes_tool owner the_tool denied none (some (110 ∷ [])) 9 ∷ []

abbrev closed_call : ToolCall
closed_call = record denied_call {
  status = denied;
  output_excerpt = some (110 ∷ []);
  completed_at = some 9;
}

closed_later :
    find_tool the_tool ((history closing_requests [] (with_tool denied_call)).tools)
    ≡ some closed_call
unfolding history serve request start_agent_tool_call finish_agent_tool_call statement transaction
    first any count update agent_tool_call_by_owner agent_tool_call_by_owner_query ownership
    owner_sees owner_sees_tool conflict_unless_one require_one_row
closed_later = refl

denied-never-runs_example : ¬ HasRun denied
denied-never-runs_example =
    denied-never-runs the_tool closing_requests [] (with_tool denied_call) denied_call closed_call
      (tt, (tt, tt)) tt (one_call denied_call) found_denied closed_later refl refl

-- Another user tries to unpair the device, and its client registers again.
abbrev intruders : List Request
intruders = unpairs [] 2 10 6 ∷ registers laptop ∷ []

laptop_is_owned : owns owner 10 (laptop ∷ []) ≡ true
unfolding first
laptop_is_owned = refl

history-keeps_owner_example :
    owns owner 10 ((history intruders [] (with_tool waiting)).devices) ≡ true
history-keeps_owner_example =
    history-keeps_owner owner 10 intruders [] (with_tool waiting) (refl, (tt, tt)) tt
      laptop_is_owned

-- The owner tries to revive a session that was revoked.
abbrev revoked_chat : Db
revoked_chat = record (with_tool waiting) { sessions = record chat { state = revoked } ∷ [] }

abbrev revivals : List Request
revivals = sets_state owner 20 running 7 ∷ begins_turn owner 20 8 ∷ []

is_revoked_chat : revoked_there 20 revoked_chat.sessions ≡ true
unfolding first
is_revoked_chat = refl

history-keeps_revoked_example :
    revoked_there 20 ((history revivals [] revoked_chat).sessions) ≡ true
history-keeps_revoked_example = history-keeps_revoked 20 revivals [] revoked_chat is_revoked_chat
