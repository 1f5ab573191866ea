-- ===== src/Opencode/Handlers.antt =====
-- internal/opencode/sse.go: every handler of an event keeps a tracker sound.
use aisummoner.Prelude.{
  ◌==◌, ◌≡◌, refl, sym, Bool, true, false, not, ◌&&◌, ◌||◌, Option, none, some, List, [], ◌∷◌,
  if◌then◌else◌, length, leb, arith, inl, inr, Bool-cases,
}
use mathlib.Core.Path.{subst}
use aisummoner.Prelude.Counting.{All-map}
use aisummoner.Store.Data.{RowId, Bytes, bytes_eq}
use aisummoner.Prelude.Text.{codes}
use aisummoner.Opencode.Tracker.{
  Role, assistant, user, system, PendingText, PendingContent, full_text, part_delta,
  compatibility_delta, PartKind, Tracker, Outcome, Emission, with_part,
}
use aisummoner.Opencode.Parts.{SaysParts, Books, books_of, either}
use aisummoner.Opencode.Said.{
  Emits, emit_full-Emits, emit_delta-Emits, emit_compatibility-Emits, with_part-Emits,
}
use aisummoner.Opencode.Turn.{IsTurn, listed, listed-IsTurn, note_prompt-IsTurn, answer-IsTurn}
use aisummoner.Opencode.Pending.{IsCounted, queue-IsCounted, clear_pending-IsCounted, put_bound}
use aisummoner.Opencode.Events.{
  MessageInfo, PartInfo, EventBody, queue, clear_pending, is_known, is_foreign, not_ours_yet,
  has_changed, message_row, note_role, note_message, note_finish, cleared, note_idle,
  final_assistant_finish, emit_content, emit_pending, settle_current, update_message, with_role,
  handle_updated, handle_delta, handle_text, handle_part, handle_compatibility, handle_event,
  over_limit, maximum_message_roles, message_updated, message_part_delta, message_part_updated,
  session_next_text_delta, session_status, session_idle, session_failed, other_event,
}

-- The sink was told the text of each part, only for messages of this turn, which answer the prompt; the counters
-- are right and the limits hold.
pub record IsSound (t : Tracker) : Type 0 where
  pub says : SaysParts t
  pub counted : IsCounted (books_of t)
  pub turn : IsTurn (books_of t)

-- A record, so that an outcome is read off the type.
pub record Sound (o : Outcome) : Type 0 where
  pub is_sound : IsSound o.1

sound : {o : Outcome} → IsSound o.1 → Sound o
sound h = record { is_sound = h }

pick : (b : Bool) (t u : Tracker) → IsSound t → IsSound u → IsSound (if b then t else u)
pick true t u h k = h
pick false t u h k = k

picked :
    (b : Bool) (t u : Tracker)
    → (b ≡ true → IsSound t)
    → (b ≡ false → IsSound u)
    → IsSound (if b then t else u)
picked true t u h k = h refl
picked false t u h k = k refl

-- Changes of the flags.
pub flagged :
    (t : Tracker) (armed seen activity final idle : Bool)
    → IsSound t
    → IsSound (record t {
      armed = armed;
      prompt_seen = seen;
      assistant_activity = activity;
      assistant_final = final;
      idle_observed = idle;
    })
flagged t armed seen activity final idle h = record {
  says = record {
    told = h.says.told;
    ours = h.says.ours;
    owned = h.says.owned;
    ordered = h.says.ordered;
    parts_bound = h.says.parts_bound;
  };
  counted = h.counted;
  turn = h.turn;
}

note_message-IsSound :
    (m : RowId) (role : Role) (parent : RowId) (t : Tracker)
    → IsSound t
    → (leb maximum_message_roles (length (t.messages)) && not (is_known m t)) ≡ false
    → has_changed (message_row m t) role parent ≡ false
    → IsSound (note_message m role parent t)
unfolding note_message
note_message-IsSound m role parent t h room same = by_role role same
  where
    counted_listed : (r : Role) → IsCounted (books_of (listed m r parent t))
    counted_listed r =
        let (d, n) =
          put_bound (record { id = m; role = r; parent = parent }) (t.messages)
            (h.counted.messages_distinct) (h.counted.messages_bound) room in
        record {
          records = h.counted.records;
          bytes = h.counted.bytes;
          records_bound = h.counted.records_bound;
          bytes_bound = h.counted.bytes_bound;
          seen_bound = h.counted.seen_bound;
          messages_distinct = d;
          messages_bound = n;
        }

    listed_sound :
        (r : Role) → has_changed (message_row m t) r parent ≡ false → IsSound (listed m r parent t)
    listed_sound r kept = record {
      says = record {
        told = h.says.told;
        ours = h.says.ours;
        owned = h.says.owned;
        ordered = h.says.ordered;
        parts_bound = h.says.parts_bound;
      };
      counted = counted_listed r;
      turn = listed-IsTurn m r parent t (h.turn) kept;
    }

    by_role :
        (r : Role)
        → has_changed (message_row m t) r parent ≡ false
        → IsSound (note_role m r parent (listed m r parent t))
    by_role user kept = record {
      says = record {
        told = h.says.told;
        ours = h.says.ours;
        owned = h.says.owned;
        ordered = h.says.ordered;
        parts_bound = h.says.parts_bound;
      };
      counted = record {
        records = h.counted.records;
        bytes = h.counted.bytes;
        records_bound = h.counted.records_bound;
        bytes_bound = h.counted.bytes_bound;
        seen_bound = h.counted.seen_bound;
        messages_distinct = (counted_listed user).messages_distinct;
        messages_bound = (counted_listed user).messages_bound;
      };
      turn =
          note_prompt-IsTurn m (listed m user parent t)
            (listed-IsTurn m user parent t (h.turn) kept);
    }
    by_role system kept = listed_sound system kept
    by_role assistant kept =
        picked (not (t.prompt_message_id == 0) && parent == t.prompt_message_id) _ _
          (λ answers. record {
            says = record {
              told = h.says.told;
              ours = All-map (t.out) (λ e c. ground (arith, c)) (h.says.ours);
              owned = h.says.owned;
              ordered = h.says.ordered;
              parts_bound = h.says.parts_bound;
            };
            counted = record {
              records = h.counted.records;
              bytes = h.counted.bytes;
              records_bound = h.counted.records_bound;
              bytes_bound = h.counted.bytes_bound;
              seen_bound = h.counted.seen_bound;
              messages_distinct = (counted_listed assistant).messages_distinct;
              messages_bound = (counted_listed assistant).messages_bound;
            };
            turn =
                answer-IsTurn m parent t (listed-IsTurn m assistant parent t (h.turn) kept) answers;
          })
          (λ x. listed_sound assistant kept)

queue_says : (p : PendingText) (t : Tracker) → SaysParts t → SaysParts (queue p t).1
unfolding queue
queue_says p t h = elim (Bool-cases (p.message == 0)) [
  | inl empty ↦ rw (empty, queue) h
  | inr named ↦ elim (Bool-cases (over_limit p t)) [
    | inl over ↦ rw (named, over, queue) h
    | inr room ↦
        rw (named, room, queue)
          (record {
            told = h.told;
            ours = h.ours;
            owned = h.owned;
            ordered = h.ordered;
            parts_bound = h.parts_bound;
          })
  ]
]

queue-IsTurn :
    (p : PendingText) (t : Tracker) → IsTurn (books_of t) → IsTurn (books_of (queue p t).1)
unfolding queue
queue-IsTurn p t h =
    either (λ o. IsTurn (books_of o.1)) (p.message == 0) _ _ (λ x. h)
      (λ x. either (λ o. IsTurn (books_of o.1)) (over_limit p t) _ _ (λ y. h) (λ y. h))

queue-Sound : (p : PendingText) (t : Tracker) → IsSound t → Sound (queue p t)
unfolding queue
queue-Sound p t h = sound (record {
  says = queue_says p t (h.says);
  counted = queue-IsCounted p t h.counted;
  turn = queue-IsTurn p t h.turn;
})

clear-Sound : (m : RowId) (o : Outcome) → Sound o → Sound (cleared m o)
unfolding clear_pending
clear-Sound m (some e, t) h = sound (h.is_sound)
clear-Sound m (none, t) h = sound (record {
  says = record {
    told = h.is_sound.says.told;
    ours = h.is_sound.says.ours;
    owned = h.is_sound.says.owned;
    ordered = h.is_sound.says.ordered;
    parts_bound = h.is_sound.says.parts_bound;
  };
  counted = clear_pending-IsCounted m t (h.is_sound.counted);
  turn = h.is_sound.turn;
})

module _ (accepts : List Emission → Emission → Bool) (valid_id : RowId → Bool)
    (valid_utf8 : Bytes → Bool) (to_lower : Bytes → Bytes) where
  emit_content-Emits :
      (b : Books) (m part : RowId) (c : PendingContent) (t : Tracker)
      → Emits b m t
      → Emits b m (emit_content accepts valid_id valid_utf8 to_lower m part c t).1
  emit_content-Emits b m part (full_text kind text) t h =
      emit_full-Emits b accepts (record { message = m; part = part }) kind text t h
  emit_content-Emits b m part (part_delta delta) t h =
      emit_delta-Emits b accepts (record { message = m; part = part }) delta t h
  emit_content-Emits b m part (compatibility_delta delta) t h =
      emit_compatibility-Emits b accepts m part delta t h

  emit_pending-Emits :
      (b : Books) (m : RowId) (ps : List PendingText) (t : Tracker)
      → Emits b m t
      → Emits b m (emit_pending accepts valid_id valid_utf8 to_lower m ps t).1
  unfolding emit_pending
  emit_pending-Emits b m [] t h = h
  emit_pending-Emits b m (p ∷ ps) t h =
      either (λ o. Emits b m (o.1)) (p.message == m) _ _
        (λ x.
          with_part-Emits b accepts m
            (emit_content accepts valid_id valid_utf8 to_lower m (p.part) (p.content) t) _
            (emit_content-Emits b m (p.part) (p.content) t h)
            (λ ok. emit_pending-Emits b m ps _ (emit_content-Emits b m (p.part) (p.content) t h)))
        (λ x. emit_pending-Emits b m ps t h)

  -- Emission of texts of a message of this turn.
  emitted :
      (m : RowId) (t : Tracker) (o : Outcome)
      → IsSound t
      → (Emits (books_of t) m t → Emits (books_of t) m (o.1))
      → t.current_assistants m ≡ true
      → Sound o
  emitted m t o h f cur =
      let after : Emits (books_of t) m (o.1) =
        f (record { says = h.says; current = cur; books = refl }) in
      sound (record {
        says = after.says;
        counted = subst IsCounted (sym (after.books)) (h.counted);
        turn = subst IsTurn (sym (after.books)) (h.turn);
      })

  note_finish-Sound :
      (info : MessageInfo) (o : Option Bool) (t : Tracker)
      → IsSound t
      → t.current_assistants (info.id) ≡ true
      → Sound (
          with_part
            (note_finish o t)
            (λ u. emit_pending accepts valid_id valid_utf8 to_lower (info.id) (u.pending) u))
  note_finish-Sound info none t h cur = sound h
  note_finish-Sound info (some final) t h cur =
      let u : Tracker = record t { assistant_final = t.assistant_final || final } in
      emitted (info.id) u _ (flagged t _ _ _ _ _ h)
        (emit_pending-Emits (books_of u) (info.id) (t.pending) u) cur

  settle_current-Sound :
      (info : MessageInfo) (t : Tracker)
      → IsSound t
      → Sound (settle_current accepts valid_id valid_utf8 to_lower info t)
  settle_current-Sound info t h =
      either Sound (not (t.current_assistants (info.id))) _ _ (λ x. sound h)
        (λ cur.
          either Sound (info.error) _ _ (λ x. sound h)
            (λ x.
              note_finish-Sound info
                (final_assistant_finish accepts valid_id valid_utf8 to_lower (info.finish)) t h
                (ground (arith, cur))))

  update_message-Sound :
      (info : MessageInfo) (role : Role) (t : Tracker)
      → IsSound t
      → Sound (update_message accepts valid_id valid_utf8 to_lower info role t)
  unfolding update_message
  update_message-Sound info role t h =
      either Sound (leb maximum_message_roles (length (t.messages)) && not (is_known (info.id) t)) _
        _ (λ x. sound h)
        (λ room.
          either Sound (has_changed (message_row (info.id) t) role (info.parent)) _ _ (λ x. sound h)
            (λ same. clear-Sound (info.id) _ (
              settle_current-Sound info _
                (note_message-IsSound (info.id) role (info.parent) t h room same))))

  handle_updated-Sound :
      (o : Option MessageInfo) (t : Tracker)
      → IsSound t
      → Sound (handle_updated accepts valid_id valid_utf8 to_lower o t)
  unfolding handle_updated
  handle_updated-Sound none t h = sound h
  handle_updated-Sound (some info) t h =
      either Sound
        (not (valid_id (info.id)) || (not (info.parent == 0) && not (valid_id (info.parent)))) _ _
        (λ x. sound h) (λ x. by_role (info.role))
    where
      by_role : (r : Option Role) → Sound (with_role accepts valid_id valid_utf8 to_lower info r t)
      by_role none = sound h
      by_role (some role) = update_message-Sound info role t h

  -- A text of a message that is not of this turn yet waits, and one of this turn is passed on.
  waits_or_Emits :
      (waits : Bool) (m : RowId) (p : PendingText) (o : Outcome) (t : Tracker)
      → (waits ≡ false → t.current_assistants m ≡ true)
      → IsSound t
      → (Emits (books_of t) m t → Emits (books_of t) m (o.1))
      → Sound (if waits then queue p t else o)
  waits_or_Emits waits m p o t cur h f =
      either Sound waits _ _ (λ x. queue-Sound p t h) (λ x. emitted m t o h f (cur x))

  handle_delta-Sound :
      (m part : RowId) (field_text : Bool) (delta : Bytes) (t : Tracker)
      → IsSound t
      → Sound (handle_delta accepts valid_id valid_utf8 to_lower m part field_text delta t)
  unfolding handle_delta
  handle_delta-Sound m part field_text delta t h =
      either Sound (not field_text || length delta == 0 || not (valid_utf8 delta)) _ _
        (λ x. sound h)
        (λ x.
          either Sound (not (valid_id m) || not (valid_id part)) _ _ (λ y. sound h)
            (λ y.
              either Sound (is_foreign m t) _ _ (λ z. sound h)
                (λ z.
                  waits_or_Emits (not_ours_yet m t) m _ _ t (λ w. ground (arith, w)) h
                    (emit_delta-Emits (books_of t) accepts (record { message = m; part = part })
                      delta t))))

  handle_part-Sound :
      (o : Option PartInfo) (t : Tracker)
      → IsSound t
      → Sound (handle_part accepts valid_id valid_utf8 to_lower o t)
  unfolding handle_part
  handle_part-Sound none t h = sound h
  handle_part-Sound (some p) t h = of_kind (p.kind)
    where
      of_kind :
          (k : Option PartKind) → Sound (handle_text accepts valid_id valid_utf8 to_lower p k t)
      of_kind none = sound h
      of_kind (some kind) =
          either Sound (not (valid_utf8 (p.text))) _ _ (λ x. sound h)
            (λ x.
              either Sound (not (valid_id (p.message)) || not (valid_id (p.id))) _ _ (λ y. sound h)
                (λ y.
                  either Sound (p.other_role || is_foreign (p.message) t) _ _ (λ z. sound h)
                    (λ z.
                      waits_or_Emits (not_ours_yet (p.message) t) (p.message) _ _ t
                        (λ w. ground (arith, w)) h
                        (emit_full-Emits (books_of t) accepts
                          (record { message = p.message; part = p.id }) kind (p.text) t))))

  handle_compatibility-Sound :
      (m text_id : RowId) (delta : Bytes) (t : Tracker)
      → IsSound t
      → Sound (handle_compatibility accepts valid_id valid_utf8 to_lower m text_id delta t)
  unfolding handle_compatibility
  handle_compatibility-Sound m text_id delta t h =
      either Sound (length delta == 0 || not (valid_utf8 delta) || m == 0) _ _ (λ x. sound h)
        (λ x.
          either Sound (not (valid_id m) || (not (text_id == 0) && not (valid_id text_id))) _ _
            (λ y. sound h)
            (λ y.
              either Sound (is_foreign m t) _ _ (λ z. sound h)
                (λ z.
                  waits_or_Emits (not (t.current_assistants m)) m _ _ t (λ w. ground (arith, w)) h
                    (emit_compatibility-Emits (books_of t) accepts m text_id delta t))))

  pub handle_event-Sound :
      (body : EventBody) (t : Tracker)
      → IsSound t
      → Sound (handle_event accepts valid_id valid_utf8 to_lower body t)
  unfolding handle_event
  handle_event-Sound (message_updated o) t h = handle_updated-Sound o t h
  handle_event-Sound (message_part_delta m part f delta) t h = handle_delta-Sound m part f delta t h
  handle_event-Sound (message_part_updated o) t h = handle_part-Sound o t h
  handle_event-Sound (session_next_text_delta m i delta) t h =
      handle_compatibility-Sound m i delta t h
  handle_event-Sound (session_status none accepted) t h = sound h
  handle_event-Sound (session_status (some state) accepted) t h =
      either Sound (not accepted) _ _ (λ x. sound h)
        (λ x.
          sound (pick (bytes_eq state (codes "idle")) (note_idle t) t (flagged t _ _ _ _ _ h) h))
  handle_event-Sound session_idle t h = sound (flagged t _ _ _ _ _ h)
  handle_event-Sound session_failed t h =
      either Sound (not (t.prompt_seen) && not (t.assistant_activity)) _ _ (λ x. sound h)
        (λ x. sound h)
  handle_event-Sound (other_event tool m) t h = sound (flagged t _ _ _ _ _ h)
