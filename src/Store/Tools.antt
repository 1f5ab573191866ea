-- ===== src/Store/Tools.antt =====
-- internal/store/agent.go: the tool calls. A call is pending until a decision is recorded, then
-- started, and ends completed, denied or failed.
use aisummoner.Prelude.{
  ℕ, Bool, true, not, ◌&&◌, ◌||◌, Option, none, some, [], ◌∷◌, ◌++◌, ◌==◌, leb, ltb, if◌then◌else◌,
  length, first, any, count, update, is_some,
}
use aisummoner.Store.Data.{
  RowId, Time, Bytes, ToolStatus, Decision, AgentSession, ToolCall, Db, full_access, started,
  denied, failed, approve_session, is_pending, is_started, is_open, is_none, is_approval, is_denial,
  valid_decision, owner_sees, owner_sees_tool,
}
use aisummoner.Store.Driver.{
  Exec, Result, ok, err, invalid_argument, driver_fault, Queryer, on_db, on_tx, pure, ◌>>=◌, ◌>>◌,
  statement, query, exec, transaction, scan_row, require_one_row, check,
}
use aisummoner.Store.Sessions.{agent_session_by_owner_query, conflict_unless_one, update_sessions}

-- `agentToolCallByOwnerQuery`
unfoldable pub agent_tool_call_by_owner_query : Queryer → RowId → RowId → Exec ToolCall
agent_tool_call_by_owner_query q owner tool_call_id = do
  row ← query q (λ db. first (λ t. t.id == tool_call_id && owner_sees_tool db owner t) db.tools)
  scan_row row

unfoldable pub agent_tool_call_by_owner : RowId → RowId → Exec ToolCall
unfolding agent_tool_call_by_owner_query
agent_tool_call_by_owner = agent_tool_call_by_owner_query on_db

abbrev pub update_tools : (Db → ToolCall → Bool) → (ToolCall → ToolCall) → Db → ℕ × Db
update_tools p f db = (count (p db) db.tools, record db { tools = update (p db) f db.tools })

-- The row that the `INSERT` makes of a call.
abbrev pub new_tool : ToolCall → ToolCall
new_tool t = record t {
  decision = none;
  exit_code = none;
  output_excerpt = none;
  completed_at = none;
}

unfoldable pub insert_tool : RowId → ToolCall → Db → Result ℕ × Db
insert_tool owner t db =
    if any (λ s. s.id == t.session_id && owner_sees db.devices owner s) db.sessions
    then if any (λ r. r.id == t.id) db.tools
      then (err driver_fault, db)
      else (ok 1, record db { tools = db.tools ++ new_tool t ∷ [] })
    else (ok 0, db)

unfoldable pub create_agent_tool_call : RowId → ToolCall → Exec (Unit {0})
unfolding insert_tool
create_agent_tool_call owner t = do
  check
      (not (t.id == 0)
        && not (t.session_id == 0)
        && not (t.name == 0)
        && ltb 0 (length t.arguments_json)
        && is_open t.status)
      invalid_argument
  affected ← statement on_db (insert_tool owner t)
  require_one_row affected

abbrev pub record_decision : RowId → RowId → Decision → Db → ℕ × Db
record_decision owner tool_call_id decision =
    update_tools
      (λ db t.
        t.id == tool_call_id
        && is_pending t.status
        && is_none t.decision
        && owner_sees_tool db owner t)
      (λ t. record t { decision = some decision })

abbrev pub set_full_access : RowId → RowId → Time → Db → ℕ × Db
set_full_access owner session_id now =
    update_sessions (λ db s. s.id == session_id && owner_sees db.devices owner s)
      (λ s. record s { approval_mode = full_access; updated_at = now })

-- The second statement of an `approve_session` decision.
abbrev pub upgrade_session : RowId → RowId → Decision → Time → Exec (Unit {0})
upgrade_session owner session_id approve_session now = do
  affected ← exec on_tx (set_full_access owner session_id now)
  require_one_row affected
upgrade_session owner session_id _ now = pure tt

unfoldable pub decide_agent_tool_call :
    RowId → RowId → Decision → Time → Exec (ToolCall × AgentSession)
unfolding agent_tool_call_by_owner_query agent_session_by_owner_query conflict_unless_one
decide_agent_tool_call owner tool_call_id decision now = do
  check (valid_decision decision) invalid_argument
  transaction do
    affected ← exec on_tx (record_decision owner tool_call_id decision)
    conflict_unless_one affected (agent_tool_call_by_owner_query on_tx owner tool_call_id)
    tool_call ← agent_tool_call_by_owner_query on_tx owner tool_call_id
    upgrade_session owner tool_call.session_id decision now
    decided ← agent_tool_call_by_owner_query on_tx owner tool_call_id
    session ← agent_session_by_owner_query on_tx owner decided.session_id
    pure (decided, session)

-- What `FailPendingAgentToolCall` returns with no other error: the row that it failed, or the row
-- that was there, with `ErrConflict`.
pub data FailReply : Type 0 where
  failed_now conflicting : ToolCall → FailReply

abbrev pub fail_pending : RowId → RowId → Bytes → Time → Db → ℕ × Db
fail_pending owner tool_call_id excerpt now =
    update_tools
      (λ db t.
        t.id == tool_call_id
        && is_pending t.status
        && is_none t.decision
        && owner_sees_tool db owner t)
      (λ t. record t { status = failed; output_excerpt = some excerpt; completed_at = some now })

unfoldable pub fail_pending_agent_tool_call : RowId → RowId → Bytes → Time → Exec FailReply
unfolding agent_tool_call_by_owner
fail_pending_agent_tool_call owner tool_call_id excerpt now = do
  check (leb (length excerpt) 8192) invalid_argument
  affected ← exec on_db (fail_pending owner tool_call_id excerpt now)
  row ← agent_tool_call_by_owner owner tool_call_id
  pure (if affected == 1 then FailReply.failed_now row else FailReply.conflicting row)

abbrev pub start_tool : RowId → RowId → Db → ℕ × Db
start_tool owner tool_call_id =
    update_tools
      (λ db t.
        t.id == tool_call_id
        && is_pending t.status
        && is_approval t.decision
        && owner_sees_tool db owner t)
      (λ t. record t { status = started })

unfoldable pub start_agent_tool_call : RowId → RowId → Exec (Unit {0})
unfolding agent_tool_call_by_owner conflict_unless_one
start_agent_tool_call owner tool_call_id = do
  affected ← exec on_db (start_tool owner tool_call_id)
  conflict_unless_one affected (agent_tool_call_by_owner owner tool_call_id)

-- `fromPredicate`: the rows that may be finished with a status.
abbrev pub from_predicate : ToolStatus → ToolCall → Bool
from_predicate denied t = is_pending t.status && is_denial t.decision
from_predicate failed t = is_started t.status || is_pending t.status && is_some t.decision
from_predicate _ t = is_started t.status

abbrev pub is_terminal : ToolStatus → Bool
is_terminal s = not (is_open s)

abbrev excerpt_fits : Option Bytes → Bool
excerpt_fits none = true
excerpt_fits (some excerpt) = leb (length excerpt) 8192

abbrev pub finish_tool : RowId → RowId → ToolStatus → Option ℕ → Option Bytes → Time → Db → ℕ × Db
finish_tool owner tool_call_id status exit_code excerpt now =
    update_tools
      (λ db t. t.id == tool_call_id && from_predicate status t && owner_sees_tool db owner t)
      (λ t. record t {
        status = status;
        exit_code = exit_code;
        output_excerpt = excerpt;
        completed_at = some now;
      })

unfoldable pub finish_agent_tool_call :
    RowId → RowId → ToolStatus → Option ℕ → Option Bytes → Time → Exec (Unit {0})
unfolding agent_tool_call_by_owner conflict_unless_one
finish_agent_tool_call owner tool_call_id status exit_code excerpt now = do
  check (is_terminal status && excerpt_fits excerpt) invalid_argument
  affected ← exec on_db (finish_tool owner tool_call_id status exit_code excerpt now)
  conflict_unless_one affected (agent_tool_call_by_owner owner tool_call_id)
