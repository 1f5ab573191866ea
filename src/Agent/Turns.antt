-- ===== src/Agent/Turns.antt =====
-- internal/agent/service.go: `StartTurn` and `runTurn`. What an adapter does is an argument, as are
-- the clock, new identifiers and the tests of texts (`utf8.ValidString`, `strings.TrimSpace`).
pub mod Balance
use aisummoner.Prelude.{ℕ, Bool, not, ◌&&◌, Option, none, some, [], leb, if◌then◌else◌, length}
use aisummoner.Store.Data.{RowId, Time, Bytes, AgentSession, AgentMessage, user, bytes_eq}
use aisummoner.Store.Driver.{Exec, Result, ok, err, World, conflict}
use aisummoner.Store.Sessions.{
  agent_session_by_owner, begin_agent_turn, update_agent_external_session_id, create_agent_message,
}
use aisummoner.Store.Devices.{device_by_owner}
use aisummoner.Agent.Target.{ExecutionTarget, execution_target}
use aisummoner.Agent.Registry.{turn_in_progress, reserve_turn, release_turn}
use aisummoner.Agent.Service.{
  Failure, invalid_request, invalid_state, provider_unavailable, runtime_failed, Server, Answer,
  gives, fails, Serve, give, fail, ◌>>=◌, ◌>>◌, require, found, map_store_not_found, stored,
  admitted, unless_given, mutation, mark_failed, max_message_bytes,
}

-- The optional capabilities of an adapter: `prepares` is given the runtime's session and returns
-- one, `preflights` says whether a turn may start.
pub record Adapter : Type 0 where
  pub prepares : Option (Bytes → ExecutionTarget → Option Bytes)
  pub preflights : Option (Bytes → Bytes → ExecutionTarget → Bool)

-- What a turn is started with.
pub record TurnRequest : Type 0 where
  pub owner : RowId
  pub session_id : RowId
  pub content : Bytes
  pub message_id : RowId
  pub prepared_at : Time
  pub now : Time
  pub failed_at : ℕ → Time

module _ (valid_text is_blank : Bytes → Bool) where
  unfoldable pub validate_message : Bytes → Bool
  validate_message content =
      valid_text content
      && not (leb (length content) 0)
      && leb (length content) max_message_bytes
      && not (is_blank content)

abbrev pub external_id : AgentSession → Bytes
external_id s = elim s.external_session_id [ none ↦ [] | some e ↦ e ]

-- A runtime that answers with an identifier that is empty breaks its protocol; a new identifier is
-- stored.
abbrev pub store_external : RowId → RowId → Time → Bytes → Option Bytes → Serve Bytes
store_external owner session_id now old none = fail runtime_failed
store_external owner session_id now old (some prepared) =
    if leb (length prepared) 0
    then fail runtime_failed
    else if bytes_eq prepared old
    then give prepared
    else stored map_store_not_found (update_agent_external_session_id owner session_id prepared now)
      >> give prepared

unfoldable pub prepare_session :
    Adapter → RowId → AgentSession → ExecutionTarget → Time → Serve Bytes
prepare_session a owner s target now = elim a.prepares [
  | none ↦ give (external_id s)
  | some f ↦ store_external owner s.id now (external_id s) (f (external_id s) target)
]

abbrev pub preflight : Adapter → Bytes → Bytes → ExecutionTarget → Serve (Unit {0})
preflight a external content target = elim a.preflights [
  | none ↦ give tt
  | some f ↦ require (f external content target) runtime_failed
]

-- A store's error in the start of a turn, other than a conflict, marks the session as failed.
abbrev pub or_mark_failed :
    {A : Type 0} → RowId → RowId → (ℕ → Time) → Result A × World → Server → Answer A × Server
or_mark_failed owner session_id now (ok a, w) s = (gives a, record s { world = w })
or_mark_failed owner session_id now (err e, w) s =
    (mark_failed owner session_id now >> fail (map_store_not_found e)) (record s { world = w })

abbrev pub begun :
    RowId → RowId → (ℕ → Time) → Result (Unit {0}) × World → Server → Answer (Unit {0}) × Server
begun owner session_id now (err conflict, w) s =
    (fails (Failure.refused turn_in_progress), record s { world = w })
begun owner session_id now r s = or_mark_failed owner session_id now r s

abbrev pub marking : {A : Type 0} → RowId → RowId → (ℕ → Time) → Exec A → Serve A
marking owner session_id now m s = or_mark_failed owner session_id now (m s.world) s

abbrev pub user_message : TurnRequest → AgentSession → AgentMessage
user_message q s = record {
  id = q.message_id;
  session_id = s.id;
  role = user;
  content = q.content;
  created_at = q.now;
}

-- What follows the reservation.
unfoldable pub begin_turn_of :
    Adapter → TurnRequest → AgentSession → ExecutionTarget → Serve AgentMessage
begin_turn_of a q session target = do
  external ← prepare_session a q.owner session target q.prepared_at
  _ ← preflight a external q.content target
  _ ← λ s.
      begun q.owner session.id q.failed_at (begin_agent_turn q.owner session.id q.now s.world) s
  session' ← marking q.owner q.session_id q.failed_at (agent_session_by_owner q.owner session.id)
  _ ←
      marking q.owner session'.id q.failed_at
        (create_agent_message q.owner (user_message q session'))
  give (user_message q session')

-- A reservation is given back unless the turn was handed over to its goroutine.
unfoldable pub start_turn :
    (Bytes → Bool) → (Bytes → Bool) → (RowId → Option Adapter) → TurnRequest → Serve AgentMessage
start_turn valid_text is_blank adapters q = mutation (do
  require (validate_message valid_text is_blank q.content) invalid_request
  session ← stored map_store_not_found (agent_session_by_owner q.owner q.session_id)
  adapter ← found (adapters session.provider) provider_unavailable
  device ← stored map_store_not_found (device_by_owner q.owner session.device_id)
  target ← found (execution_target device.platform device.arch) invalid_state
  _ ← admitted (reserve_turn session.id session.device_id q.owner)
  λ s. unless_given (release_turn session.id) (begin_turn_of adapter q session target s))
