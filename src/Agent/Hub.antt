-- ===== src/Agent/Hub.antt =====
-- internal/agent/hub.go: the subscribers of a session's events. The two maps of the hub are one list of
-- subscribers, with distinct identifiers; a channel is its buffer, and `ended` holds the subscribers
-- whose channel was closed, the last one first.
pub mod Channels
use aisummoner.Prelude.{
  ℕ, Bool, true, false, not, ◌&&◌, Option, none, some, List, [], ◌∷◌, ◌++◌, ◌==◌, ltb,
  if◌then◌else◌, length, count, update, delete, map,
}
use aisummoner.Store.Data.{RowId, Bytes}
use aisummoner.Agent.Registry.{Refusal, service_closed}

pub record Event : Type 0 where
  pub session_id : RowId
  pub name : Bytes
  pub payload : Bytes

pub record Subscriber : Type 0 where
  pub id : RowId
  pub session_id : RowId
  pub events : List Event

pub record EventHub : Type 0 where
  pub subscribers : List Subscriber
  pub buffer_size : ℕ
  pub closed : Bool
  pub ended : List RowId

abbrev pub default_subscriber_buffer : ℕ
default_subscriber_buffer = 32

-- A size that is not positive is 0 here.
unfoldable pub new_event_hub : ℕ → EventHub
new_event_hub size = record {
  subscribers = [];
  buffer_size = if size == 0 then default_subscriber_buffer else size;
  closed = false;
  ended = [];
}

unfoldable pub subscribe : RowId → RowId → EventHub → Option Refusal × EventHub
subscribe session_id id hub = if hub.closed then (some service_closed, hub) else (
  none,
  record hub {
    subscribers = record { id = id; session_id = session_id; events = [] } ∷ hub.subscribers;
  },
)

abbrev pub has_room : EventHub → Subscriber → Bool
has_room hub s = ltb (length s.events) hub.buffer_size

-- Closing the channels of the subscribers that pass the test, and taking these out.
unfoldable pub end_where : (Subscriber → Bool) → EventHub → EventHub
end_where p hub = record hub {
  subscribers = delete p hub.subscribers;
  ended = map Subscriber.id (delete (λ s. not (p s)) hub.subscribers) ++ hub.ended;
}

-- A subscriber whose buffer is full is ended, and does not get the event.
unfoldable pub publish : Event → EventHub → EventHub
publish e hub =
    let open_hub = end_where (λ s. s.session_id == e.session_id && not (has_room hub s)) hub in
    if hub.closed then hub else record open_hub {
      subscribers =
          update (λ s. s.session_id == e.session_id) (λ s. record s { events = s.events ++ e ∷ [] })
            open_hub.subscribers;
    }

unfoldable pub remove : RowId → RowId → EventHub → EventHub
remove session_id id hub = end_where (λ s. s.session_id == session_id && s.id == id) hub

unfoldable pub count_session : RowId → EventHub → ℕ
count_session session_id hub = count (λ s. s.session_id == session_id) hub.subscribers

unfoldable pub count_all : EventHub → ℕ
count_all hub = length hub.subscribers

unfoldable pub close_session : RowId → EventHub → EventHub
close_session session_id hub = end_where (λ s. s.session_id == session_id) hub

unfoldable pub close_hub : EventHub → EventHub
close_hub hub = if hub.closed then hub else end_where (λ s. true) (record hub { closed = true })

-- What the reader of a channel takes: its first event.
unfoldable pub receive : RowId → EventHub → EventHub
receive id hub = record hub {
  subscribers = update (λ s. s.id == id) (λ s. record s { events = rest s.events }) hub.subscribers;
}
  where
    rest : List Event → List Event
    rest [] = []
    rest (e ∷ es) = es
