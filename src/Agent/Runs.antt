-- ===== src/Agent/Runs.antt =====
-- internal/agent/service.go: `runTurn` with its transcript and its end. The run of the adapter is an
-- argument; events are not modelled.
use aisummoner.Prelude.{ℕ, Option, none, some, List, ◌==◌, leb, if◌then◌else◌, length}
use aisummoner.Store.Data.{
  RowId, Time, Bytes, Role, AgentSession, idle, failed, assistant, reasoning,
}
use aisummoner.Store.Driver.{Exec, Result, ok, err, World, not_found}
use aisummoner.Store.Sessions.{create_agent_message}
use aisummoner.Store.Snapshots.{AgentSnapshot, agent_snapshot_by_owner}
use aisummoner.Agent.History.{ConversationMessage, conversation_history}
use aisummoner.Agent.Registry.{is_revoked_session, release_turn}
use aisummoner.Agent.Service.{Server, gives, Serve, finally, persist_session_state}

-- What the sink of a turn has at its end. `reasoning_started_at` is 0 for the zero time.
pub record Transcript : Type 0 where
  pub reasoning_text : Bytes
  pub reasoning_started_at : Time
  pub text : Bytes

-- How the adapter's run ended, the context's error included.
pub data Ending : Type 0 where
  completes breaks_off : Ending

-- The times and the identifiers that the end of a turn takes.
pub record TurnEnd : Type 0 where
  pub completed_at : Time
  pub now : Time
  pub reasoning_id : RowId
  pub message_id : RowId
  pub failed_at : ℕ → Time
  pub idle_at : ℕ → Time

-- An empty text is not stored.
abbrev pub store_text :
    AgentSession → RowId → Role → Bytes → Time → World → Result (Unit {0}) × World
store_text session id role content created w =
    if leb (length content) 0
    then (ok tt, w)
    else create_agent_message session.user_id
        (record {
          id = id;
          session_id = session.id;
          role = role;
          content = content;
          created_at = created;
        })
        w

abbrev pub then_text : Result (Unit {0}) × World → Exec (Unit {0}) → Result (Unit {0}) × World
then_text (ok _, w) next = next w
then_text (err e, w) next = (err e, w)

unfoldable pub persist_turn_transcript : AgentSession → Transcript → TurnEnd → Exec (Unit {0})
persist_turn_transcript session t e w =
    then_text
      (store_text session e.reasoning_id reasoning t.reasoning_text
        (if t.reasoning_started_at == 0 then e.now else t.reasoning_started_at) w)
      (store_text session e.message_id assistant t.text e.completed_at)

-- A revoked session is left as it is.
unfoldable pub fail_turn : AgentSession → TurnEnd → Server → Server
fail_turn session e s = if is_revoked_session session.id s.registry then s else record s {
  world = (persist_session_state session.user_id session.id failed e.failed_at s.world).1;
}

abbrev pub settle_idle : AgentSession → TurnEnd → Server → Result (Unit {0}) × World → Server
settle_idle session e s (ok _, w) = record s { world = w }
settle_idle session e s (err not_found, w) = record s { world = w }
settle_idle session e s (err x, w) = fail_turn session e (record s { world = w })

abbrev pub settle_ending : AgentSession → TurnEnd → Ending → Server → Server
settle_ending session e breaks_off s = fail_turn session e s
settle_ending session e completes s =
    settle_idle session e s
      (persist_session_state session.user_id session.id idle e.idle_at s.world)

abbrev pub settle_transcript :
    AgentSession → TurnEnd → Ending → Server → Result (Unit {0}) × World → Server
settle_transcript session e ending s (ok _, w) =
    settle_ending session e ending (record s { world = w })
settle_transcript session e ending s (err x, w) = fail_turn session e (record s { world = w })

-- A run takes the conversation, and gives its ending and its transcript.
abbrev pub Run : Type 0
Run = List ConversationMessage → Server → (Ending × Transcript) × Server

abbrev pub settle_run : AgentSession → TurnEnd → (Ending × Transcript) × Server → Server
settle_run session e ((ending, t), s) =
    settle_transcript session e ending s (persist_turn_transcript session t e s.world)

abbrev pub run_snapshot :
    AgentSession → TurnEnd → Run → Server → Result AgentSnapshot × World → Server
run_snapshot session e run s (ok snap, w) =
    settle_run session e (run (conversation_history snap.messages) (record s { world = w }))
run_snapshot session e run s (err x, w) = fail_turn session e (record s { world = w })

abbrev pub run_adapter : Option Run → AgentSession → TurnEnd → Server → Server
run_adapter none session e s = fail_turn session e s
run_adapter (some run) session e s =
    run_snapshot session e run s (agent_snapshot_by_owner session.user_id session.id s.world)

unfoldable pub run_turn : (RowId → Option Run) → AgentSession → TurnEnd → Serve (Unit {0})
run_turn adapters session e s =
    finally (release_turn session.id)
      (gives tt, run_adapter (adapters session.provider) session e s)
