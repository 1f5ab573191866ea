-- ===== src/Agent/Hub/Channels.antt =====
-- The channels of the subscribers: closing a closed channel would panic.
use aisummoner.Prelude.{
  ◌≡◌, refl, ◌∙◌, Bool, true, false, not, ◌&&◌, ◌||◌, List, [], ◌∷◌, ◌++◌, map, arith, any, update,
  delete, Bool-cases, inl, inr,
}
use aisummoner.Prelude.Keyed.{
  has_key, Distinct, Distinct-delete, Distinct-update, any-update_key, any-delete,
}
use aisummoner.Store.Data.{RowId}
use aisummoner.Prelude.Deletion.{same_key}
use aisummoner.Agent.Hub.{
  Event, Subscriber, EventHub, subscribe, publish, remove, close_session, close_hub, receive,
  end_where,
}

pub data HubRequest : Type 0 where
  subscribing removing : RowId → RowId → HubRequest
  publishing : Event → HubRequest
  ending receiving : RowId → HubRequest
  closing_all : HubRequest

unfoldable pub serve_hub : HubRequest → EventHub → EventHub
serve_hub (subscribing session_id id) hub = (subscribe session_id id hub).1
serve_hub (removing session_id id) hub = remove session_id id hub
serve_hub (publishing e) hub = publish e hub
serve_hub (ending session_id) hub = close_session session_id hub
serve_hub (receiving id) hub = receive id hub
serve_hub closing_all hub = close_hub hub

abbrev pub is_ended : RowId → List RowId → Bool
is_ended i ended = any (has_key (λ (j : RowId). j) i) ended

abbrev pub is_subscribed : RowId → List Subscriber → Bool
is_subscribed i subscribers = any (has_key Subscriber.id i) subscribers

abbrev pub ClosedOnceIn : List Subscriber → List RowId → Type 0
ClosedOnceIn subscribers ended =
    Distinct Subscriber.id subscribers
    × Distinct (λ (j : RowId). j) ended
    × ((i : RowId) → (is_subscribed i subscribers && is_ended i ended) ≡ false)

-- No channel was closed twice, and none that is still subscribed was closed.
abbrev pub ClosedOnce : EventHub → Type 0
ClosedOnce hub = ClosedOnceIn hub.subscribers hub.ended

is_ended-append :
    (i : RowId) (xs : List Subscriber) (ended : List RowId)
    → is_ended i (map Subscriber.id xs ++ ended) ≡ (is_subscribed i xs || is_ended i ended)
unfolding any
is_ended-append i [] ended = refl
is_ended-append i (x ∷ xs) ended = ground (arith, is_ended-append i xs ended)

apart_parts :
    (p : Subscriber → Bool) (i : RowId) (xs : List Subscriber)
    → Distinct Subscriber.id xs
    → (is_subscribed i (delete p xs) && is_subscribed i (delete (λ s. not (p s)) xs)) ≡ false
unfolding any delete
apart_parts p i [] d = refl
apart_parts p i (x ∷ xs) d = ground (
  arith,
  apart_parts p i xs d.1,
  any-delete Subscriber.id p x.id xs d.0,
  any-delete Subscriber.id (λ s. not (p s)) x.id xs d.0,
)

tail_apart :
    (x : Subscriber) (xs : List Subscriber) (ended : List RowId)
    → ((i : RowId) → (is_subscribed i (x ∷ xs) && is_ended i ended) ≡ false)
    → (i : RowId) → (is_subscribed i xs && is_ended i ended) ≡ false
unfolding any
tail_apart x xs ended apart i = ground (arith, apart i)

not_ended :
    (p : Subscriber → Bool) (x : Subscriber) (xs : List Subscriber) (ended : List RowId)
    → is_subscribed x.id xs ≡ false
    → ((i : RowId) → (is_subscribed i (x ∷ xs) && is_ended i ended) ≡ false)
    → is_ended x.id (map Subscriber.id (delete p xs) ++ ended) ≡ false
unfolding any
not_ended p x xs ended new apart =
    is_ended-append x.id (delete p xs) ended
    ∙ ground (arith, any-delete Subscriber.id p x.id xs new, apart x.id)

parts_apart :
    (p : Subscriber → Bool) (xs : List Subscriber) (ended : List RowId)
    → Distinct Subscriber.id xs
    → ((i : RowId) → (is_subscribed i xs && is_ended i ended) ≡ false)
    → (i : RowId)
    → (is_subscribed i (delete p xs)
        && is_ended i (map Subscriber.id (delete (λ s. not (p s)) xs) ++ ended))
      ≡ false
parts_apart p xs ended d apart i =
    rw (is_ended-append i (delete (λ s. not (p s)) xs) ended)
      (ground (arith, apart_parts p i xs d, apart i, any-delete Subscriber.id p i xs))

Distinct-ended :
    (p : Subscriber → Bool) (xs : List Subscriber) (ended : List RowId)
    → ClosedOnceIn xs ended
    → Distinct (λ (j : RowId). j) (map Subscriber.id (delete p xs) ++ ended)
unfolding delete any
Distinct-ended p [] ended (d, e, apart) = e
Distinct-ended p (x ∷ xs) ended (d, e, apart) = elim (Bool-cases (p x)) [
  | inl h ↦ rw h (Distinct-ended p xs ended (d.1, e, tail_apart x xs ended apart))
  | inr h ↦ rw h (
    not_ended p x xs ended d.0 apart,
    Distinct-ended p xs ended (d.1, e, tail_apart x xs ended apart),
  )
]

end_where-ClosedOnce :
    (p : Subscriber → Bool) (hub : EventHub) → ClosedOnce hub → ClosedOnce (end_where p hub)
unfolding end_where
end_where-ClosedOnce p hub (d, e, apart) = (
  Distinct-delete Subscriber.id p hub.subscribers d,
  Distinct-ended (λ s. not (p s)) hub.subscribers hub.ended (d, e, apart),
  parts_apart p hub.subscribers hub.ended d apart,
)

update-ClosedOnce :
    (p : Subscriber → Bool) (f : Subscriber → Subscriber) (xs : List Subscriber)
    (ended : List RowId)
    → ((s : Subscriber) → Subscriber.id (f s) ≡ Subscriber.id s)
    → ClosedOnceIn xs ended
    → ClosedOnceIn (update p f xs) ended
update-ClosedOnce p f xs ended same (d, e, apart) = (
  Distinct-update Subscriber.id p f same xs d,
  e,
  λ i. rw (any-update_key Subscriber.id p f same i xs) (apart i),
)

-- A new subscriber has an identifier that no subscriber has or had.
abbrev pub IsFresh : HubRequest → EventHub → Type 0
IsFresh (subscribing session_id id) hub =
    (is_subscribed id hub.subscribers ≡ false) × (is_ended id hub.ended ≡ false)
IsFresh _ hub = Unit {0}

subscribe-ClosedOnce :
    (session_id id : RowId) (hub : EventHub)
    → IsFresh (subscribing session_id id) hub
    → ClosedOnce hub
    → ClosedOnce (subscribe session_id id hub).1
unfolding subscribe any
subscribe-ClosedOnce session_id id hub (new, unused) (d, e, apart) = elim (Bool-cases hub.closed) [
  | inl c ↦ rw c (d, e, apart)
  | inr c ↦
      rw c ((new, d), e, λ i. ground (arith, apart i, same_key (λ (j : RowId). j) id i hub.ended))
]

publish-ClosedOnce : (ev : Event) (hub : EventHub) → ClosedOnce hub → ClosedOnce (publish ev hub)
unfolding publish end_where
publish-ClosedOnce ev hub ok = elim (Bool-cases hub.closed) [
  | inl c ↦ rw c ok
  | inr c ↦ rw c (update-ClosedOnce _ _ _ _ (λ s. refl) (end_where-ClosedOnce _ hub ok))
]

close-ClosedOnce : (hub : EventHub) → ClosedOnce hub → ClosedOnce (close_hub hub)
unfolding close_hub
close-ClosedOnce hub ok = elim (Bool-cases hub.closed) [
  | inl c ↦ rw c ok
  | inr c ↦ rw c (end_where-ClosedOnce (λ s. true) (record hub { closed = true }) ok)
]

-- When no channel was closed twice and none of a subscriber was closed, this holds after every request
-- to the hub too, if a new subscriber has an identifier that none has or had.
pub serve_hub-ClosedOnce :
    (q : HubRequest) (hub : EventHub)
    → IsFresh q hub
    → ClosedOnce hub
    → ClosedOnce (serve_hub q hub)
unfolding serve_hub remove close_session receive
serve_hub-ClosedOnce (subscribing session_id id) hub new ok =
    subscribe-ClosedOnce session_id id hub new ok
serve_hub-ClosedOnce (removing session_id id) hub new ok = end_where-ClosedOnce _ hub ok
serve_hub-ClosedOnce (publishing ev) hub new ok = publish-ClosedOnce ev hub ok
serve_hub-ClosedOnce (ending session_id) hub new ok = end_where-ClosedOnce _ hub ok
serve_hub-ClosedOnce (receiving id) hub new ok = update-ClosedOnce _ _ _ _ (λ s. refl) ok
serve_hub-ClosedOnce closing_all hub new ok = close-ClosedOnce hub ok
