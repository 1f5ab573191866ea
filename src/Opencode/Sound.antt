-- ===== src/Opencode/Sound.antt =====
-- internal/opencode/sse.go: what holds of a tracker after any events.
use aisummoner.Prelude.{
  ◌==◌, ◌≡◌, refl, Bool, true, false, not, ◌||◌, Option, none, some, List, [], ◌∷◌, if◌then◌else◌,
  any, length, leb, arith,
}
use aisummoner.Store.Data.{RowId, Bytes}
use aisummoner.Opencode.Tracker.{Tracker, Outcome, Emission}
use aisummoner.Opencode.Events.{
  EventBody, Event, consistent_session_id, Consumed, finished, accept_event, consume, go_on_with,
  consume_events, maximum_event_ids,
}
use aisummoner.Opencode.Handlers.{IsSound, Sound, flagged, handle_event-Sound}

module _ (accepts : List Emission → Emission → Bool) (valid_id : RowId → Bool)
    (valid_utf8 : Bytes → Bool) (to_lower : Bytes → Bytes) where
  finished-Sound : (body : EventBody) (o : Outcome) → Sound o → IsSound (finished body o).2
  finished-Sound body (some e, t) h = h.is_sound
  finished-Sound body (none, t) h = h.is_sound

  chosen :
      (b : Bool) (x y : Consumed)
      → (b ≡ true → IsSound (x.2))
      → (b ≡ false → IsSound (y.2))
      → IsSound (if b then x else y).2
  chosen true x y f g = f refl
  chosen false x y f g = g refl

  seen-IsSound :
      (i : RowId) (t : Tracker)
      → IsSound t
      → leb maximum_event_ids (length (t.seen_ids)) ≡ false
      → IsSound (record t { seen_ids = i ∷ t.seen_ids })
  seen-IsSound i t h room = record {
    says = record {
      told = h.says.told;
      ours = h.says.ours;
      owned = h.says.owned;
      ordered = h.says.ordered;
      parts_bound = h.says.parts_bound;
    };
    turn = h.turn;
    counted = record {
      records = h.counted.records;
      bytes = h.counted.bytes;
      records_bound = h.counted.records_bound;
      bytes_bound = h.counted.bytes_bound;
      seen_bound = ground (arith, room);
      messages_distinct = h.counted.messages_distinct;
      messages_bound = h.counted.messages_bound;
    };
  }

  accept_event-IsSound :
      (e : Event) (o : Option RowId) (t : Tracker)
      → IsSound t
      → IsSound (accept_event accepts valid_id valid_utf8 to_lower e o t).2
  accept_event-IsSound e none t h = h
  accept_event-IsSound e (some session) t h =
      chosen
        (not (session == t.external_session_id)
          || not (t.armed)
          || any (λ i. i == e.id) (t.seen_ids))
        _ _ (λ x. h)
        (λ x.
          chosen (leb maximum_event_ids (length (t.seen_ids))) _ _ (λ y. h)
            (λ room. finished-Sound (e.body) _ (
              handle_event-Sound accepts valid_id valid_utf8 to_lower (e.body) _
                (seen-IsSound (e.id) t h room))))

  -- Any event, also one that is refused, leaves a tracker sound.
  consume-IsSound :
      (valid_session : RowId → Bool) (dispatched : Bool) (e : Event) (t : Tracker)
      → IsSound t
      → IsSound (consume accepts valid_id valid_utf8 to_lower valid_session dispatched e t).2
  unfolding consume
  consume-IsSound valid_session dispatched e t h =
      chosen (not (e.decoded)) _ _ (λ x. flagged t _ _ _ _ _ h)
        (λ x.
          accept_event-IsSound e (consistent_session_id valid_session (e.session_ids) 0) _
            (flagged t _ _ _ _ _ h))

  go_on_IsSound :
      (rest : Tracker → Consumed) (c : Consumed)
      → IsSound (c.2)
      → ((t : Tracker) → IsSound t → IsSound (rest t).2)
      → IsSound (go_on_with rest c).2
  go_on_IsSound rest (some e, over, t) h k = h
  go_on_IsSound rest (none, true, t) h k = h
  go_on_IsSound rest (none, false, t) h k = k t h

  -- After any events, from a tracker for which this holds: the deltas that the sink was given for a part are
  -- together the text that the tracker has of it; every call of the sink was for a message of this turn,
  -- and each message of this turn is known as an assistant's, with the prompt as its parent, and the
  -- prompt has an identifier. A call for a part's text is for a part of the message-part family; a call
  -- for a named compatibility text is for one of the compatibility family or of a message that fell
  -- back to it; one for an unnamed text is for a message that fell back to it; and no call for a part's text
  -- follows one for an unnamed text of the same message. The counters of waiting texts and of their
  -- bytes are right; and there are at most 512 parts, 512 messages, 512 waiting texts, 32768 waiting
  -- bytes and 2048 identifiers of events.
  pub consume_events-IsSound :
      (valid_session : RowId → Bool) (es : List (Bool × Event)) (t : Tracker)
      → IsSound t
      → IsSound (consume_events accepts valid_id valid_utf8 to_lower valid_session es t).2
  unfolding consume_events
  consume_events-IsSound valid_session [] t h = h
  consume_events-IsSound valid_session ((dispatched, e) ∷ es) t h =
      go_on_IsSound (consume_events accepts valid_id valid_utf8 to_lower valid_session es) _
        (consume-IsSound valid_session dispatched e t h) (consume_events-IsSound valid_session es)
