-- ===== src/Store/Snapshots.antt =====
-- internal/store/agent.go, devices.go: the reads of a session with its messages and tool calls, and of
-- the devices of a user. The order of identifiers stands for the order of the texts.
use aisummoner.Prelude.{
  ℕ, Bool, true, not, ◌&&◌, ◌||◌, Option, List, [], ◌∷◌, ◌==◌, ltb, if◌then◌else◌, first, any,
  delete,
}
use aisummoner.Store.Data.{
  RowId, Device, AgentSession, AgentMessage, ToolCall, Db, same_id, owner_sees, owner_sees_tool,
}
use aisummoner.Store.Driver.{Exec, Queryer, on_db, on_tx, pure, ◌>>=◌, query, transaction, scan_row}
use aisummoner.Store.Sessions.{agent_session_by_owner_query}

module _ {A : Type 0} where
  -- `ORDER BY`: a row goes before the first one that is after it.
  abbrev pub insert_row : (A → A → Bool) → A → List A → List A
  insert_row after x [] = x ∷ []
  insert_row after x (y ∷ ys) =
      let rest = insert_row after x ys in if after y x then x ∷ y ∷ ys else y ∷ rest

  unfoldable pub sort_rows : (A → A → Bool) → List A → List A
  sort_rows after [] = []
  sort_rows after (x ∷ xs) = insert_row after x (sort_rows after xs)

  -- `SELECT … WHERE p`
  abbrev pub select : (A → Bool) → List A → List A
  select p rows = delete (λ x. not (p x)) rows

-- `ORDER BY created_at, id`
abbrev pub later_row : {A : Type 0} → (A → ℕ) → (A → ℕ) → A → A → Bool
later_row created key a b =
    ltb (created b) (created a) || (created a == created b) && ltb (key b) (key a)

unfoldable pub agent_messages_by_owner_query : Queryer → RowId → RowId → Exec (List AgentMessage)
agent_messages_by_owner_query q owner session_id = query q (λ db.
    sort_rows (later_row AgentMessage.created_at AgentMessage.id) (
      select
        (λ m.
          m.session_id == session_id
          && any (λ s. s.id == m.session_id && owner_sees db.devices owner s) db.sessions)
        db.messages))

unfoldable pub agent_tool_calls_by_owner_query : Queryer → RowId → RowId → Exec (List ToolCall)
agent_tool_calls_by_owner_query q owner session_id = query q (λ db.
    sort_rows (later_row ToolCall.created_at ToolCall.id)
      (select (λ t. t.session_id == session_id && owner_sees_tool db owner t) db.tools))

pub record AgentSnapshot : Type 0 where
  pub session : AgentSession
  pub messages : List AgentMessage
  pub tool_calls : List ToolCall

unfoldable pub agent_snapshot_by_owner : RowId → RowId → Exec AgentSnapshot
agent_snapshot_by_owner owner session_id = transaction (do
  session ← agent_session_by_owner_query on_tx owner session_id
  messages ← agent_messages_by_owner_query on_tx owner session_id
  tool_calls ← agent_tool_calls_by_owner_query on_tx owner session_id
  pure (record { session = session; messages = messages; tool_calls = tool_calls }))

-- `ORDER BY created_at DESC, id DESC LIMIT 1`
abbrev pub newest_session : Db → RowId → RowId → Option AgentSession
newest_session db owner device_id =
    first (λ s. true)
      (sort_rows (λ a b. later_row AgentSession.created_at AgentSession.id b a)
        (select
          (λ s. s.user_id == owner && s.device_id == device_id && owner_sees db.devices owner s)
          db.sessions))

unfoldable pub latest_agent_snapshot_by_device_owner : RowId → RowId → Exec AgentSnapshot
latest_agent_snapshot_by_device_owner owner device_id = transaction (do
  row ← query on_tx (λ db. newest_session db owner device_id)
  session ← scan_row row
  messages ← agent_messages_by_owner_query on_tx owner session.id
  tool_calls ← agent_tool_calls_by_owner_query on_tx owner session.id
  pure (record { session = session; messages = messages; tool_calls = tool_calls }))

unfoldable pub devices_by_owner : RowId → Exec (List Device)
devices_by_owner owner = query on_db (λ db.
    sort_rows (λ a b. ltb b.created_at a.created_at)
      (select (λ d. same_id d.owner_user_id owner) db.devices))
