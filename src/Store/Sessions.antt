-- ===== src/Store/Sessions.antt =====
-- internal/store/agent.go: the agent sessions, their settings of approval and their messages.
use aisummoner.Prelude.{
  ℕ, Bool, true, false, not, ◌&&◌, ◌||◌, Option, none, some, List, [], ◌∷◌, ◌++◌, ◌==◌, leb, ltb,
  if◌then◌else◌, length, first, any, count, update, delete,
}
use aisummoner.Store.Data.{
  RowId, Time, Bytes, ApprovalMode, SessionState, Role, AgentSession, AgentMessage, Db, running,
  other_role, is_resting, same_id, valid_approval_mode, valid_agent_session_state, bytes_eq,
  ownership, owner_sees,
}
use aisummoner.Store.Driver.{
  Exec, Result, ok, err, conflict, invalid_argument, driver_fault, Queryer, on_db, on_tx, pure,
  raise, ◌>>=◌, ◌>>◌, statement, query, exec, transaction, scan_row, require_one_row, check,
}

-- `agentSessionByOwnerQuery`
unfoldable pub agent_session_by_owner_query : Queryer → RowId → RowId → Exec AgentSession
agent_session_by_owner_query q owner session_id = do
  row ← query q (λ db. first (λ s. s.id == session_id && owner_sees db.devices owner s) db.sessions)
  scan_row row

-- `agentSessionByManagingOwnerQuery`: archived sessions too.
unfoldable pub agent_session_by_managing_owner_query : Queryer → RowId → RowId → Exec AgentSession
agent_session_by_managing_owner_query q owner session_id = do
  row ← query q (λ db. first (λ s. s.id == session_id && ownership db.devices owner s) db.sessions)
  scan_row row

unfoldable pub agent_session_by_owner : RowId → RowId → Exec AgentSession
unfolding agent_session_by_owner_query
agent_session_by_owner = agent_session_by_owner_query on_db

-- One row affected, or the error of the lookup, or else `ErrConflict`.
unfoldable pub conflict_unless_one : {A : Type 0} → ℕ → Exec A → Exec (Unit {0})
conflict_unless_one affected lookup =
    if affected == 1 then pure tt else (lookup >>= λ _. raise conflict)

abbrev pub update_sessions :
    (Db → AgentSession → Bool) → (AgentSession → AgentSession) → Db → ℕ × Db
update_sessions p f db =
    (count (p db) db.sessions, record db { sessions = update (p db) f db.sessions })

-- The constraints of the table: the primary key and the unique external identifier.
abbrev session_clashes : List AgentSession → AgentSession → Bool
session_clashes rows s = any (λ r. r.id == s.id) rows || elim s.external_session_id [
  | none ↦ false
  | some e ↦ any (λ r. elim r.external_session_id [ none ↦ false | some e' ↦ bytes_eq e' e ]) rows
]

-- The insertion leaves `archived_at` NULL.
unfoldable pub insert_session : AgentSession → Db → Result ℕ × Db
insert_session s db =
    if any (λ d. d.id == s.device_id && same_id d.owner_user_id s.user_id) db.devices
    then if session_clashes db.sessions s
      then (err driver_fault, db)
      else (ok 1, record db { sessions = db.sessions ++ record s { archived_at = none } ∷ [] })
    else (ok 0, db)

unfoldable pub create_agent_session : AgentSession → Exec (Unit {0})
unfolding insert_session
create_agent_session s = do
  check
      (not (s.id == 0)
        && not (s.user_id == 0)
        && not (s.device_id == 0)
        && not (s.provider == 0)
        && valid_approval_mode s.approval_mode
        && valid_agent_session_state s.state)
      invalid_argument
  affected ← statement on_db (insert_session s)
  require_one_row affected

abbrev pub set_mode : RowId → RowId → ApprovalMode → Time → Db → ℕ × Db
set_mode owner session_id mode now =
    update_sessions
      (λ db s. s.id == session_id && is_resting s.state && owner_sees db.devices owner s)
      (λ s. record s { approval_mode = mode; updated_at = now })

unfoldable pub update_agent_session_approval_mode :
    RowId → RowId → ApprovalMode → Time → Exec AgentSession
unfolding agent_session_by_owner conflict_unless_one
update_agent_session_approval_mode owner session_id mode now = do
  check (valid_approval_mode mode) invalid_argument
  affected ← exec on_db (set_mode owner session_id mode now)
  conflict_unless_one affected (agent_session_by_owner owner session_id)
  agent_session_by_owner owner session_id

abbrev pub set_archived : RowId → RowId → Option Time → Time → Db → ℕ × Db
set_archived owner session_id archived_at now =
    update_sessions
      (λ db s. s.id == session_id && is_resting s.state && ownership db.devices owner s)
      (λ s. record s { archived_at = archived_at; updated_at = now })

unfoldable pub set_agent_session_archived : RowId → RowId → Bool → Time → Exec AgentSession
unfolding agent_session_by_managing_owner_query conflict_unless_one
set_agent_session_archived owner session_id archived now = do
  let archived_at : Option Time = if archived then some now else none
  affected ← exec on_db (set_archived owner session_id archived_at now)
  conflict_unless_one affected (agent_session_by_managing_owner_query on_db owner session_id)
  agent_session_by_managing_owner_query on_db owner session_id

-- `DELETE FROM agent_sessions` with the cascade of the schema to messages and tool calls.
abbrev pub delete_sessions : (Db → AgentSession → Bool) → Db → ℕ × Db
delete_sessions p db = (
  count (p db) db.sessions,
  record db {
    sessions = delete (p db) db.sessions;
    messages = delete (λ m. any (λ s. s.id == m.session_id && p db s) db.sessions) db.messages;
    tools = delete (λ t. any (λ s. s.id == t.session_id && p db s) db.sessions) db.tools;
  },
)

abbrev pub delete_session : RowId → RowId → Db → ℕ × Db
delete_session owner session_id =
    delete_sessions
      (λ db s. s.id == session_id && is_resting s.state && ownership db.devices owner s)

unfoldable pub delete_agent_session_by_owner : RowId → RowId → Exec AgentSession
unfolding agent_session_by_managing_owner_query
delete_agent_session_by_owner owner session_id = transaction do
  session ← agent_session_by_managing_owner_query on_tx owner session_id
  affected ← exec on_tx (delete_session owner session_id)
  check (affected == 1) conflict
  pure session

abbrev pub set_state : RowId → RowId → SessionState → Time → Db → ℕ × Db
set_state owner session_id state now =
    update_sessions (λ db s. s.id == session_id && owner_sees db.devices owner s)
      (λ s. record s { state = state; updated_at = now })

unfoldable pub update_agent_session_state : RowId → RowId → SessionState → Time → Exec (Unit {0})
update_agent_session_state owner session_id state now = do
  check (valid_agent_session_state state) invalid_argument
  affected ← exec on_db (set_state owner session_id state now)
  require_one_row affected

abbrev pub begin_turn : RowId → RowId → Time → Db → ℕ × Db
begin_turn owner session_id now =
    update_sessions
      (λ db s. s.id == session_id && is_resting s.state && owner_sees db.devices owner s)
      (λ s. record s { state = running; updated_at = now })

unfoldable pub begin_agent_turn : RowId → RowId → Time → Exec (Unit {0})
unfolding agent_session_by_owner conflict_unless_one
begin_agent_turn owner session_id now = do
  affected ← exec on_db (begin_turn owner session_id now)
  conflict_unless_one affected (agent_session_by_owner owner session_id)

-- The unique index refuses an external identifier that another row has.
unfoldable pub set_external : RowId → RowId → Bytes → Time → Db → Result ℕ × Db
set_external owner session_id external now db =
    if hit db.sessions && taken db.sessions then (err driver_fault, db) else (
      ok (count chosen db.sessions),
      record db {
        sessions =
            update chosen (λ s. record s { external_session_id = some external; updated_at = now })
              db.sessions;
      },
    )
  where
    chosen : AgentSession → Bool
    chosen s = s.id == session_id && owner_sees db.devices owner s

    hit : List AgentSession → Bool
    hit = any chosen

    taken : List AgentSession → Bool
    taken = any λ s.
        not (s.id == session_id)
        && elim s.external_session_id [ none ↦ false | some e ↦ bytes_eq e external ]

unfoldable pub update_agent_external_session_id : RowId → RowId → Bytes → Time → Exec (Unit {0})
unfolding set_external
update_agent_external_session_id owner session_id external now = do
  check (ltb 0 (length external) && leb (length external) 512) invalid_argument
  affected ← statement on_db (set_external owner session_id external now)
  require_one_row affected

abbrev known_role : Role → Bool
known_role other_role = false
known_role _ = true

unfoldable pub insert_message : RowId → AgentMessage → Db → Result ℕ × Db
insert_message owner m db =
    if any (λ s. s.id == m.session_id && owner_sees db.devices owner s) db.sessions
    then if any (λ r. r.id == m.id) db.messages
      then (err driver_fault, db)
      else (ok 1, record db { messages = db.messages ++ m ∷ [] })
    else (ok 0, db)

unfoldable pub create_agent_message : RowId → AgentMessage → Exec (Unit {0})
unfolding insert_message
create_agent_message owner m = do
  check
      (not (m.id == 0) && not (m.session_id == 0) && known_role m.role && ltb 0 (length m.content))
      invalid_argument
  affected ← statement on_db (insert_message owner m)
  require_one_row affected
