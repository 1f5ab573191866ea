-- ===== src/Agent/Service.antt =====
-- internal/agent/service.go: the operations of `Service` on sessions, turns and decisions, which bring
-- the store and the registry together. Their calls of the audit log and of the event hub are left out;
-- the clock and new identifiers are arguments.
use aisummoner.Prelude.{ℕ, zero, suc, ◌*◌, Bool, true, false, Option, none, some, if◌then◌else◌}
use aisummoner.Store.Data.{
  RowId, Time, ApprovalMode, SessionState, Decision, AgentSession, ToolCall, failed,
  valid_approval_mode, valid_decision,
}
use aisummoner.Store.Driver.{Exec, Error, Result, ok, err, World, not_found, conflict}
use aisummoner.Store.Sessions.{
  agent_session_by_owner, update_agent_session_approval_mode, set_agent_session_archived,
  delete_agent_session_by_owner, update_agent_session_state,
}
use aisummoner.Store.Tools.{decide_agent_tool_call}
use aisummoner.Store.Snapshots.{
  AgentSnapshot, agent_snapshot_by_owner, latest_agent_snapshot_by_device_owner,
}
use aisummoner.Agent.Registry.{
  Registry, Refusal, is_revoked_session, is_archived, begin_mutation, end_mutation, note_archived,
  note_deleted, deliver_decision,
}

abbrev pub max_message_bytes : ℕ
max_message_bytes = 32 * 1024

-- `store_failed` passes an error of the store on, `runtime_failed` one of an adapter; `panicked` is a
-- wait group below zero.
pub data Failure : Type 0 where
  refused : Refusal → Failure
  invalid_request invalid_state provider_unavailable runtime_failed panicked : Failure
  store_failed : Error → Failure

pub record Server : Type 0 where
  pub world : World
  pub registry : Registry

pub data Answer (A : Type 0) : Type 0 where
  gives : A → Answer A
  fails : Failure → Answer A

abbrev pub Serve : Type 0 → Type 0
Serve A = Server → Answer A × Server

abbrev pub give : {A : Type 0} → A → Serve A
give a s = (gives a, s)

abbrev pub fail : {A : Type 0} → Failure → Serve A
fail e s = (fails e, s)

abbrev pub bind_answer : {A B : Type 0} → Answer A × Server → (A → Serve B) → Answer B × Server
bind_answer (gives a, s) f = f a s
bind_answer (fails e, s) f = (fails e, s)

infixl 5 ◌>>=◌ ◌>>◌
abbrev pub ◌>>=◌ : {A B : Type 0} → Serve A → (A → Serve B) → Serve B
◌>>=◌ m f s = bind_answer (m s) f

abbrev pub ◌>>◌ : {A B : Type 0} → Serve A → Serve B → Serve B
m >> k = m >>= λ _. k

abbrev pub require : Bool → Failure → Serve (Unit {0})
require true e = give tt
require false e = fail e

abbrev pub found : {A : Type 0} → Option A → Failure → Serve A
found none e = fail e
found (some a) e = give a

-- `mapStoreNotFound`
abbrev pub map_store_not_found : Error → Failure
map_store_not_found not_found = refused Refusal.not_found
map_store_not_found e = store_failed e

-- A store's conflict is that of a turn, or of a decision.
abbrev pub conflict_is : Failure → Error → Failure
conflict_is f conflict = f
conflict_is f e = map_store_not_found e

abbrev pub turn_conflict : Error → Failure
turn_conflict = conflict_is (refused Refusal.turn_in_progress)

abbrev pub stored_answer :
    {A : Type 0} → (Error → Failure) → Result A × World → Registry → Answer A × Server
stored_answer f (ok a, w) r = (gives a, record { world = w; registry = r })
stored_answer f (err e, w) r = (fails (f e), record { world = w; registry = r })

-- A call of the store.
abbrev pub stored : {A : Type 0} → (Error → Failure) → Exec A → Serve A
stored f m s = stored_answer f (m s.world) s.registry

-- A call of the store whose error is dropped.
abbrev pub attempted : {A : Type 0} → Exec A → Serve (Unit {0})
attempted m s = (gives tt, record { world = (m s.world).1; registry = s.registry })

abbrev pub admitted_answer : Option Refusal × Registry → World → Answer (Unit {0}) × Server
admitted_answer (none, r) w = (gives tt, record { world = w; registry = r })
admitted_answer (some e, r) w = (fails (refused e), record { world = w; registry = r })

-- A critical section that may refuse, and one that does not.
abbrev pub admitted : (Registry → Option Refusal × Registry) → Serve (Unit {0})
admitted f s = admitted_answer (f s.registry) s.world

abbrev pub registered : (Registry → Registry) → Serve (Unit {0})
registered f s = (gives tt, record s { registry = f s.registry })

abbrev pub released :
    {A : Type 0} → Answer A → World → Option Registry → Registry → Answer A × Server
released a w none r = (fails panicked, record { world = w; registry = r })
released a w (some r') r = (a, record { world = w; registry = r' })

-- `defer`
abbrev pub finally :
    {A : Type 0} → (Registry → Option Registry) → Answer A × Server → Answer A × Server
finally f (a, s) = released a s.world (f s.registry) s.registry

-- A `defer` that is called off on success.
abbrev pub unless_given :
    {A : Type 0} → (Registry → Option Registry) → Answer A × Server → Answer A × Server
unless_given f (gives a, s) = (gives a, s)
unless_given f (fails e, s) = finally f (fails e, s)

-- `beginMutation` with its deferred `endMutation`.
unfoldable pub mutation : {A : Type 0} → Serve A → Serve A
mutation body = admitted begin_mutation >> λ s. finally end_mutation (body s)

unfoldable pub update_session_approval_mode :
    RowId → RowId → ApprovalMode → Time → Serve AgentSession
update_session_approval_mode owner session_id mode now = mutation (do
  require (valid_approval_mode mode) invalid_request
  stored turn_conflict (update_agent_session_approval_mode owner session_id mode now))

unfoldable pub set_session_archived : RowId → RowId → Bool → Time → Serve AgentSession
set_session_archived owner session_id archived now = mutation (do
  session ← stored turn_conflict (set_agent_session_archived owner session_id archived now)
  registered (note_archived session.id session.device_id archived)
  give session)

unfoldable pub delete_session : RowId → RowId → Serve (Unit {0})
delete_session owner session_id = mutation (do
  session ← stored turn_conflict (delete_agent_session_by_owner owner session_id)
  registered (note_deleted session.id session.device_id))

-- The session is read once more for the audit log.
unfoldable pub decide : RowId → RowId → Decision → Time → Serve ToolCall
decide owner tool_call_id decision now = mutation (do
  require (valid_decision decision) invalid_request
  decided ←
      stored (conflict_is invalid_state) (decide_agent_tool_call owner tool_call_id decision now)
  admitted (deliver_decision owner tool_call_id decided.0.session_id decision)
  attempted (agent_session_by_owner owner decided.0.session_id)
  give decided.0)

unfoldable pub snapshot : RowId → RowId → Serve AgentSnapshot
snapshot owner session_id = stored map_store_not_found (agent_snapshot_by_owner owner session_id)

unfoldable pub latest_snapshot : RowId → RowId → Serve AgentSnapshot
latest_snapshot owner device_id =
    stored map_store_not_found (latest_agent_snapshot_by_device_owner owner device_id)

-- The guards of `Subscribe` before the hub takes the subscriber.
unfoldable pub subscribe_refusal : RowId → Registry → Option Refusal
subscribe_refusal i r =
    if r.closed
    then some Refusal.service_closed
    else if is_revoked_session i r
    then some Refusal.not_found
    else if is_archived i r
    then some Refusal.not_found
    else none

unfoldable pub subscribe : RowId → RowId → Serve (Unit {0})
subscribe owner session_id = do
  _ ← stored map_store_not_found (agent_session_by_owner owner session_id)
  admitted (λ r. (subscribe_refusal session_id r, r))

-- A session that is not there ends the attempts.
abbrev state_reply :
    Result (Unit {0}) × World
    → (Error → World → Result (Unit {0}) × World)
    → Result (Unit {0}) × World
state_reply (ok a, w) retry = (ok a, w)
state_reply (err not_found, w) retry = (err not_found, w)
state_reply (err e, w) retry = retry e w

-- The attempts that are left, after an attempt with the error `last`.
unfoldable pub persist_attempts :
    ℕ → Error → RowId → RowId → SessionState → (ℕ → Time) → World → Result (Unit {0}) × World
persist_attempts zero last owner session_id state now w = (err last, w)
persist_attempts (suc n) last owner session_id state now w =
    state_reply (update_agent_session_state owner session_id state (now n) w)
      (λ e w'. persist_attempts n e owner session_id state now w')

-- The first error is never read.
unfoldable pub persist_session_state : RowId → RowId → SessionState → (ℕ → Time) → Exec (Unit {0})
persist_session_state = persist_attempts 2 not_found

-- What `StartTurn` does when the turn cannot begin.
abbrev pub mark_failed : RowId → RowId → (ℕ → Time) → Serve (Unit {0})
mark_failed owner session_id now s =
    if is_revoked_session session_id s.registry
    then (gives tt, s)
    else attempted (persist_session_state owner session_id failed now) s
