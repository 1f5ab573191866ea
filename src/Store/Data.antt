-- ===== src/Store/Data.antt =====
-- internal/store/agent.go, devices.go, store.go: the rows, the tables and the predicates that the
-- statements share. An identifier is an opaque text that the code only compares: here a number, 0
-- for the empty text. A time is the number of nanoseconds that `encodeTime` stores.
use aisummoner.Prelude.{
  ℕ, Bool, true, false, not, Option, none, some, List, [], ◌∷◌, ◌==◌, ◌&&◌, ◌||◌, is_some, any,
}

abbrev pub RowId : Type 0
RowId = ℕ

abbrev pub Time : Type 0
Time = ℕ

-- A text is the list of its bytes.
abbrev pub Bytes : Type 0
Bytes = List ℕ

-- `no_mode` is the empty text, `other_mode` any other text that is no mode.
pub data ApprovalMode : Type 0 where
  per_command full_access no_mode other_mode : ApprovalMode

pub data SessionState : Type 0 where
  idle running waiting_approval failed revoked : SessionState

pub data ToolStatus : Type 0 where
  pending started completed denied failed : ToolStatus

-- `other_decision` is any text that is none of the three decisions.
pub data Decision : Type 0 where
  approve_once approve_session deny other_decision : Decision

pub data Role : Type 0 where
  user assistant reasoning other_role : Role

pub record Device : Type 0 where
  pub id : RowId
  pub public_key : Bytes
  pub owner_user_id : Option RowId
  pub name : Bytes
  pub platform : Bytes
  pub arch : Bytes
  pub client_version : Bytes
  pub created_at : Time
  pub paired_at : Option Time
  pub last_seen_at : Option Time

pub record PairingCode : Type 0 where
  pub id : RowId
  pub device_id : RowId
  pub code_digest : Bytes
  pub expires_at : Time
  pub consumed_at : Option Time
  pub created_at : Time

pub record AgentSession : Type 0 where
  pub id : RowId
  pub user_id : RowId
  pub device_id : RowId
  pub approval_mode : ApprovalMode
  pub provider : RowId
  pub external_session_id : Option Bytes
  pub state : SessionState
  pub created_at : Time
  pub updated_at : Time
  pub archived_at : Option Time

pub record AgentMessage : Type 0 where
  pub id : RowId
  pub session_id : RowId
  pub role : Role
  pub content : Bytes
  pub created_at : Time

pub record ToolCall : Type 0 where
  pub id : RowId
  pub session_id : RowId
  pub name : RowId
  pub arguments_json : Bytes
  pub status : ToolStatus
  pub decision : Option Decision
  pub exit_code : Option ℕ
  pub output_excerpt : Option Bytes
  pub created_at : Time
  pub completed_at : Option Time

-- The tables.
pub record Db : Type 0 where
  pub users : List RowId
  pub devices : List Device
  pub pairing_codes : List PairingCode
  pub sessions : List AgentSession
  pub messages : List AgentMessage
  pub tools : List ToolCall

abbrev pub is_pending : ToolStatus → Bool
is_pending pending = true
is_pending _ = false

abbrev pub is_started : ToolStatus → Bool
is_started started = true
is_started _ = false

-- `status IN ('pending', 'started')`
abbrev pub is_open : ToolStatus → Bool
is_open s = is_pending s || is_started s

-- `state IN ('idle', 'failed')`
abbrev pub is_resting : SessionState → Bool
is_resting idle = true
is_resting failed = true
is_resting _ = false

abbrev pub is_revoked : SessionState → Bool
is_revoked revoked = true
is_revoked _ = false

-- `decision IN ('approve_once', 'approve_session')`
abbrev pub is_approval : Option Decision → Bool
is_approval (some approve_once) = true
is_approval (some approve_session) = true
is_approval _ = false

abbrev pub is_denial : Option Decision → Bool
is_denial (some deny) = true
is_denial _ = false

abbrev pub is_none {ℓ} : {A : Type ℓ} → Option A → Bool
is_none o = not (is_some o)

abbrev pub same_id : Option RowId → RowId → Bool
same_id none i = false
same_id (some j) i = j == i

abbrev pub valid_approval_mode : ApprovalMode → Bool
valid_approval_mode per_command = true
valid_approval_mode full_access = true
valid_approval_mode _ = false

abbrev pub valid_agent_session_state : SessionState → Bool
valid_agent_session_state revoked = false
valid_agent_session_state _ = true

abbrev pub valid_decision : Decision → Bool
valid_decision other_decision = false
valid_decision _ = true

unfoldable pub bytes_eq : Bytes → Bytes → Bool
bytes_eq [] [] = true
bytes_eq (x ∷ xs) (y ∷ ys) = x == y && bytes_eq xs ys
bytes_eq _ _ = false

-- `agentSessionOwnershipPredicate`
unfoldable pub ownership : List Device → RowId → AgentSession → Bool
ownership devices owner s =
    s.user_id == owner
    && not (is_revoked s.state)
    && any (λ d. d.id == s.device_id && same_id d.owner_user_id s.user_id) devices

-- `agentSessionOwnerPredicate`
unfoldable pub owner_sees : List Device → RowId → AgentSession → Bool
owner_sees devices owner s = ownership devices owner s && is_none s.archived_at

-- `agentToolOwnerPredicate`
unfoldable pub owner_sees_tool : Db → RowId → ToolCall → Bool
owner_sees_tool db owner t =
    any (λ s. s.id == t.session_id && owner_sees db.devices owner s) db.sessions
