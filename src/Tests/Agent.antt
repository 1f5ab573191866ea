-- ===== src/Tests/Agent.antt =====
-- Concrete runs of internal/agent.
use aisummoner.Prelude.{
  ◌≡◌, refl, ◌==◌, arith, none, some, [], ◌∷◌, true, false, Bool, any, delete, length, leb,
}
use aisummoner.Prelude.Text.{codes}
use aisummoner.Store.Data.{RowId, Bytes, completed, AgentMessage, user, assistant}
use aisummoner.Store.Driver.{quiet}
use aisummoner.Agent.Settle.{resolve_pending_abort, finish_tool_call}
use aisummoner.Agent.Settle.Sound.{
  ResolutionSays, FinishedSays, resolve_pending_abort_sound, finish_tool_call_sound,
}
use aisummoner.Agent.Output.{truncate_output}
use aisummoner.Agent.Output.Bounds.{TruncationSays, truncate_output_sound}
use aisummoner.Agent.History.{conversation_history}
use aisummoner.Agent.History.Bounds.{HistorySays, conversation_history_sound}
use aisummoner.Agent.Registry.{
  Registry, put, session_refusal, reserve_turn, add_turn, new_turn, mark_device_revoked,
  mark_session_revoked, begin_mutation, release_turn,
}
use aisummoner.Agent.Registry.Requests.{
  reserving_turn, releasing_turn, beginning_mutation, serve, Reaches, here, next,
}
use aisummoner.Agent.Registry.Tombstones.{ShutOut, mark_device_revoked-ShutOut}
use aisummoner.Agent.Registry.Exclusive.{IsOrderly, Reaches-IsOrderly}
use aisummoner.Agent.Registry.Held.{
  Held, held_after, Holds, Works, Accounted, IsBalanced, Works-IsBalanced,
}
use aisummoner.Agent.Hub.{Event, EventHub}
use aisummoner.Agent.Hub.Channels.{publishing, serve_hub, ClosedOnce, serve_hub-ClosedOnce}
use aisummoner.Agent.Service.{Server}
use aisummoner.Agent.Turns.{Adapter, TurnRequest, start_turn}
use aisummoner.Agent.Turns.Balance.{Balanced, start_turn-Balanced}
use aisummoner.Tests.Store.{waiting, with_tool}

resolve_pending_abort_sound_example :
    ResolutionSays 30
      (resolve_pending_abort 1 30 (λ n. 8) (quiet (with_tool waiting))).0
      (resolve_pending_abort 1 30 (λ n. 8) (quiet (with_tool waiting))).1.db
unfolding any
resolve_pending_abort_sound_example =
    resolve_pending_abort_sound 30 1 (λ n. 8) (quiet (with_tool waiting)) (refl, tt) tt

finish_tool_call_sound_example :
    FinishedSays 30 completed
      (finish_tool_call 1 30 completed (some 0) [] (λ k n. 8) (quiet (with_tool waiting))).0
      (finish_tool_call 1 30 completed (some 0) [] (λ k n. 8) (quiet (with_tool waiting))).1.db
unfolding any
finish_tool_call_sound_example =
    finish_tool_call_sound 30 1 completed (some 0) [] (λ k n. 8) (quiet (with_tool waiting))
      (refl, tt) tt

truncate_output_sound_example :
    TruncationSays
      (codes "standard output")
      (codes "error")
      4
      (truncate_output (codes "standard output") (codes "error") 4)
truncate_output_sound_example = truncate_output_sound (codes "standard output") (codes "error") 4

abbrev ascii : Bytes → Bool
ascii bytes = leb (length bytes) 20000

abbrev greeting : AgentMessage
greeting = record { id = 1; session_id = 20; role = user; content = codes "hello"; created_at = 1 }

abbrev answer : AgentMessage
answer = record { id = 2; session_id = 20; role = assistant; content = codes "hi"; created_at = 2 }

conversation_history_sound_example :
    HistorySays
      (answer ∷ greeting ∷ answer ∷ [])
      (conversation_history (answer ∷ greeting ∷ answer ∷ []))
conversation_history_sound_example = conversation_history_sound (answer ∷ greeting ∷ answer ∷ [])

abbrev pub empty_registry : Registry
empty_registry = record {
  running = [];
  configuring = [];
  pending = [];
  revoked = [];
  archived = [];
  closed = false;
  mutations = 0;
  turns = 0;
}

abbrev the_turn : Registry
the_turn = add_turn (new_turn 20 10 1) empty_registry

-- A turn is reserved.
reserved_first : serve (reserving_turn 20 10 1) empty_registry ≡ some the_turn
unfolding serve reserve_turn session_refusal any
reserved_first = refl

empty-IsOrderly : IsOrderly empty_registry
unfolding any
empty-IsOrderly = (tt, λ i. refl, refl, λ c. refl)

path : Reaches empty_registry the_turn
path =
    next (reserving_turn 20 10 1) empty_registry the_turn the_turn tt reserved_first (here the_turn)

Reaches-IsOrderly_example : IsOrderly the_turn
Reaches-IsOrderly_example = Reaches-IsOrderly path empty-IsOrderly

abbrev nothing_held : Held
nothing_held = record { turns = []; mutations = 0 }

empty-Accounted : Accounted nothing_held empty_registry
empty-Accounted = (refl, refl)

-- A turn is reserved, a mutation begins, and the turn is released.
abbrev mutating : Registry
mutating = record the_turn { mutations = 1 }

abbrev mutating_only : Registry
mutating_only = record empty_registry { mutations = 1 }

begun : serve beginning_mutation the_turn ≡ some mutating
unfolding serve begin_mutation
begun = refl

reserved_20 : Holds (releasing_turn 20) (
    held_after beginning_mutation the_turn
      (held_after (reserving_turn 20 10 1) empty_registry nothing_held))
unfolding held_after reserve_turn begin_mutation session_refusal any
reserved_20 = refl

released : serve (releasing_turn 20) mutating ≡ some mutating_only
unfolding serve release_turn delete put
released = refl

abbrev held_at_end : Held
held_at_end = held_after (releasing_turn 20) mutating (
    held_after beginning_mutation the_turn
      (held_after (reserving_turn 20 10 1) empty_registry nothing_held))

work : Works empty_registry nothing_held mutating_only held_at_end
work =
    Works.next (reserving_turn 20 10 1) empty_registry the_turn mutating_only nothing_held
      held_at_end tt reserved_first
      (Works.next beginning_mutation the_turn mutating mutating_only _ held_at_end tt begun (
        Works.next (releasing_turn 20) mutating mutating_only mutating_only _ held_at_end
          reserved_20 released (Works.here mutating_only held_at_end)))

Works-IsBalanced_example : IsBalanced mutating_only held_at_end
Works-IsBalanced_example = Works-IsBalanced work empty-IsOrderly empty-Accounted

abbrev cut_off : Registry
cut_off = mark_device_revoked 10 (20 ∷ []) the_turn

refused_turn : serve (reserving_turn 20 10 1) cut_off ≡ some cut_off
unfolding serve reserve_turn session_refusal any mark_device_revoked mark_session_revoked put
refused_turn = refl

listed : any (λ (j : RowId). j == 20) (20 ∷ []) ≡ true
unfolding any
listed = refl

mark_device_revoked-ShutOut_example : ShutOut 20 cut_off
mark_device_revoked-ShutOut_example =
    mark_device_revoked-ShutOut 20 10 (20 ∷ []) the_turn cut_off (λ e. omega (arith, e)) listed
      (next (reserving_turn 20 10 1) cut_off cut_off cut_off tt refused_turn (here cut_off))

-- A user starts a turn with an adapter that has neither a runtime nor a check of its own.
abbrev plain_adapter : Adapter
plain_adapter = record { prepares = none; preflights = none }

abbrev hello : TurnRequest
hello = record {
  owner = 1;
  session_id = 20;
  content = codes "hello";
  message_id = 40;
  prepared_at = 6;
  now = 7;
  failed_at = λ n. 8;
}

abbrev server : Server
server = record { world = quiet (with_tool waiting); registry = empty_registry }

start_turn-Balanced_example :
    Balanced empty_registry
      (start_turn ascii (λ text. false) (λ provider. some plain_adapter) hello server)
start_turn-Balanced_example =
    start_turn-Balanced ascii (λ text. false) (λ provider. some plain_adapter) hello server

-- A hub with one slow subscriber, whose buffer is full, and one that was ended before.
abbrev ping : Event
ping = record { session_id = 20; name = codes "ping"; payload = [] }

abbrev busy_hub : EventHub
busy_hub = record {
  subscribers = record { id = 50; session_id = 20; events = ping ∷ [] } ∷ [];
  buffer_size = 1;
  closed = false;
  ended = 51 ∷ [];
}

busy-ClosedOnce : ClosedOnce busy_hub
unfolding any
busy-ClosedOnce = ((refl, tt), (refl, tt), λ i. ground arith)

serve_hub-ClosedOnce_example : ClosedOnce (serve_hub (publishing ping) busy_hub)
serve_hub-ClosedOnce_example = serve_hub-ClosedOnce (publishing ping) busy_hub tt busy-ClosedOnce
