-- ===== src/Opencode/Events.antt =====
-- internal/opencode/sse.go: `consume` and the handlers of the events.
-- An event is what `encoding/json` decodes; the tests of texts by the packages unicode/utf8 and strings, and
-- whether the sink returns no error, are arguments. An identifier that is not empty is valid when `valid_id`
-- says so, and a role or a type that the code does not name is `none`.
use aisummoner.Prelude.{
  ℕ, suc, ◌+◌, ◌-◌, ◌==◌, Bool, true, false, not, ◌&&◌, ◌||◌, Option, none, some, List, [], ◌∷◌,
  ◌++◌, if◌then◌else◌, first, any, delete, length, ltb, leb, is_some,
}
use aisummoner.Prelude.Keyed.{has_key}
use aisummoner.Prelude.Text.{codes}
use aisummoner.Store.Data.{RowId, Bytes, bytes_eq}
use aisummoner.DeviceGate.{assign}
use aisummoner.Agent.Registry.{put}
use aisummoner.Opencode.Tracker.{
  PartKind, Role, assistant, user, system, Emission, MessageRow, PendingContent, full_text,
  part_delta, compatibility_delta, PendingText, Tracker, TrackerError, protocol_error, sink_error,
  session_error, Outcome, emit_compatibility, emit_delta, emit_full, with_part,
}

abbrev pub maximum_message_roles : ℕ
maximum_message_roles = 512

abbrev pub maximum_pending_parts : ℕ
maximum_pending_parts = 512

abbrev pub maximum_event_ids : ℕ
maximum_event_ids = 2048

abbrev pub max_message_bytes : ℕ
max_message_bytes = 32768

pub record MessageInfo : Type 0 where
  pub id : RowId
  pub role : Option Role
  pub parent : RowId
  pub finish : Bytes
  pub error : Bool

pub record PartInfo : Type 0 where
  pub id : RowId
  pub message : RowId
  pub kind : Option PartKind
  pub text : Bytes
  pub other_role : Bool

pub data EventBody : Type 0 where
  message_updated : Option MessageInfo → EventBody
  message_part_delta : (message part : RowId) (field_text : Bool) (delta : Bytes) → EventBody
  message_part_updated : Option PartInfo → EventBody
  session_next_text_delta : (message text_id : RowId) (delta : Bytes) → EventBody
  session_status : (state : Option Bytes) (accepted : Bool) → EventBody
  session_idle : EventBody
  session_failed : EventBody
  other_event : (tool : Bool) (message : RowId) → EventBody

-- `decoded` says whether the event has an identifier, a type and properties in their bounds.
pub record Event : Type 0 where
  pub id : RowId
  pub decoded : Bool
  pub session_ids : List RowId
  pub body : EventBody

abbrev pub content_size : PendingContent → ℕ
content_size (full_text k text) = length text
content_size (part_delta delta) = length delta
content_size (compatibility_delta delta) = length delta

abbrev pub add_pending : PendingText → Tracker → Tracker
add_pending p t = record t {
  pending = t.pending ++ p ∷ [];
  pending_records = suc (t.pending_records);
  pending_bytes = t.pending_bytes + content_size (p.content);
}

-- `MaxMessageBytes - size` is not negative where it is read.
abbrev pub over_limit : PendingText → Tracker → Bool
over_limit p t =
    leb maximum_pending_parts (t.pending_records)
    || ltb max_message_bytes (content_size (p.content))
    || ltb (max_message_bytes - content_size (p.content)) (t.pending_bytes)

unfoldable pub queue : PendingText → Tracker → Outcome
queue p t =
    if p.message == 0
    then (none, t)
    else if over_limit p t
    then (some protocol_error, t)
    else (none, add_pending p t)

-- The counters go down by what is cleared. They are signed, and stay at least 0 (`Opencode.Pending`).
abbrev pub cleared_records : RowId → List PendingText → ℕ
cleared_records m [] = 0
cleared_records m (p ∷ ps) =
    let rest = cleared_records m ps in if p.message == m then suc rest else rest

abbrev pub cleared_bytes : RowId → List PendingText → ℕ
cleared_bytes m [] = 0
cleared_bytes m (p ∷ ps) =
    let rest = cleared_bytes m ps in
    if p.message == m then content_size (p.content) + rest else rest

unfoldable pub clear_pending : RowId → Tracker → Tracker
clear_pending m t = record t {
  pending = delete (λ p. p.message == m) (t.pending);
  pending_records = t.pending_records - cleared_records m (t.pending);
  pending_bytes = t.pending_bytes - cleared_bytes m (t.pending);
}

abbrev pub is_role : Role → Role → Bool
is_role assistant assistant = true
is_role user user = true
is_role system system = true
is_role _ _ = false

abbrev pub message_row : RowId → Tracker → Option MessageRow
message_row m t = first (has_key MessageRow.id m) (t.messages)

abbrev pub is_known : RowId → Tracker → Bool
is_known m t = any (has_key MessageRow.id m) (t.messages)

-- A message that is known and not of this turn.
abbrev pub is_foreign : RowId → Tracker → Bool
is_foreign m t = is_known m t && not (t.current_assistants m)

abbrev pub is_assistant : Option MessageRow → Bool
is_assistant none = false
is_assistant (some row) = is_role (row.role) assistant

-- A message that is not known as an assistant's of this turn.
abbrev pub not_ours_yet : RowId → Tracker → Bool
not_ours_yet m t = not (is_assistant (message_row m t)) || not (t.current_assistants m)

abbrev pub has_changed : Option MessageRow → Role → RowId → Bool
has_changed none role parent = false
has_changed (some row) role parent = not (is_role (row.role) role) || not (row.parent == parent)

-- The first user message after the dispatch is the prompt, if the prompt has no identifier yet.
abbrev pub note_prompt : RowId → Tracker → Tracker
note_prompt m t =
    let prompt = if t.prompt_message_id == 0 then m else t.prompt_message_id in
    record t { prompt_message_id = prompt; prompt_seen = t.prompt_seen || prompt == m }

abbrev pub note_role : RowId → Role → RowId → Tracker → Tracker
note_role m user parent t = note_prompt m t
note_role m system parent t = t
note_role m assistant parent t =
    if not (t.prompt_message_id == 0) && parent == t.prompt_message_id
    then record t {
      current_assistants = assign (t.current_assistants) m true;
      assistant_activity = true;
    }
    else t

unfoldable pub note_message : RowId → Role → RowId → Tracker → Tracker
note_message m role parent t = note_role m role parent (record t {
  messages = put MessageRow.id (record { id = m; role = role; parent = parent }) (t.messages);
})

abbrev pub is_over : Tracker → Bool
is_over t = t.idle_observed && t.assistant_final

abbrev pub note_finish : Option Bool → Tracker → Outcome
note_finish none t = (some protocol_error, t)
note_finish (some final) t = (none, record t { assistant_final = t.assistant_final || final })

abbrev pub cleared : RowId → Outcome → Outcome
cleared m (some e, t) = (some e, t)
cleared m (none, t) = (none, clear_pending m t)

abbrev pub note_idle : Tracker → Tracker
note_idle t = record t { idle_observed = t.idle_observed || t.assistant_activity }

abbrev pub handle_status : Option Bytes → Bool → Tracker → Outcome
handle_status none accepted t = (some protocol_error, t)
handle_status (some state) accepted t =
    if not accepted
    then (some sink_error, t)
    else (none, if bytes_eq state (codes "idle") then note_idle t else t)

-- The events after which the turn may be over.
abbrev pub may_end : EventBody → Bool
may_end (message_updated (some info)) = is_some (info.role)
may_end (session_status state accepted) = true
may_end session_idle = true
may_end _ = false

-- `consistentSessionID`: the identifiers that are not empty are valid and the same. `none` is the error.
unfoldable pub consistent_session_id : (RowId → Bool) → List RowId → RowId → Option RowId
consistent_session_id valid [] found = some found
consistent_session_id valid (v ∷ vs) found =
    let skipped = consistent_session_id valid vs found in
    let taken = consistent_session_id valid vs v in
    if v == 0
    then skipped
    else if not (valid v) || (not (found == 0) && not (found == v))
    then none
    else taken

-- What `consume` returns: the error, whether the turn is over, and the tracker.
abbrev pub Consumed : Type 0
Consumed = Option TrackerError × Bool × Tracker

abbrev pub finished : EventBody → Outcome → Consumed
finished body (some e, t) = (some e, false, t)
finished body (none, t) = (none, may_end body && is_over t, t)

abbrev pub go_on_with : (Tracker → Consumed) → Consumed → Consumed
go_on_with rest (some e, over, t) = (some e, over, t)
go_on_with rest (none, true, t) = (none, true, t)
go_on_with rest (none, false, t) = rest t

module _ (accepts : List Emission → Emission → Bool) (valid_id : RowId → Bool)
    (valid_utf8 : Bytes → Bool) (to_lower : Bytes → Bytes) where
  -- `none` is the error.
  unfoldable pub final_assistant_finish : Bytes → Option Bool
  final_assistant_finish value =
      if length value == 0
      then some false
      else if ltb 128 (length value) || not (valid_utf8 value)
      then none
      else some (
          not (bytes_eq (to_lower value) (codes "tool-calls"))
          && not (bytes_eq (to_lower value) (codes "tool_calls")))

  abbrev pub emit_content : RowId → RowId → PendingContent → Tracker → Outcome
  emit_content m part (full_text kind text) t =
      emit_full accepts (record { message = m; part = part }) kind text t
  emit_content m part (part_delta delta) t =
      emit_delta accepts (record { message = m; part = part }) delta t
  emit_content m part (compatibility_delta delta) t = emit_compatibility accepts m part delta t

  -- The loop over `tracker.pending[info.ID]`.
  unfoldable pub emit_pending : RowId → List PendingText → Tracker → Outcome
  emit_pending m [] t = (none, t)
  emit_pending m (p ∷ ps) t =
      let rest = emit_pending m ps in
      if p.message == m then with_part (emit_content m (p.part) (p.content) t) rest else rest t

  abbrev pub settle_current : MessageInfo → Tracker → Outcome
  settle_current info t =
      if not (t.current_assistants (info.id))
      then (none, t)
      else if info.error
      then (some session_error, t)
      else with_part (note_finish (final_assistant_finish (info.finish)) t)
          (λ u. emit_pending (info.id) (u.pending) u)

  unfoldable pub update_message : MessageInfo → Role → Tracker → Outcome
  update_message info role t =
      if leb maximum_message_roles (length (t.messages)) && not (is_known (info.id) t)
      then (some protocol_error, t)
      else if has_changed (message_row (info.id) t) role (info.parent)
      then (some protocol_error, t)
      else cleared (info.id) (settle_current info (note_message (info.id) role (info.parent) t))

  abbrev pub with_role : MessageInfo → Option Role → Tracker → Outcome
  with_role info none t = (none, t)
  with_role info (some role) t = update_message info role t

  unfoldable pub handle_updated : Option MessageInfo → Tracker → Outcome
  handle_updated none t = (none, t)
  handle_updated (some info) t =
      if not (valid_id (info.id)) || (not (info.parent == 0) && not (valid_id (info.parent)))
      then (some protocol_error, t)
      else with_role info (info.role) t

  unfoldable pub handle_delta : RowId → RowId → Bool → Bytes → Tracker → Outcome
  handle_delta m part field_text delta t =
      if not field_text || length delta == 0 || not (valid_utf8 delta)
      then (none, t)
      else if not (valid_id m) || not (valid_id part)
      then (some protocol_error, t)
      else if is_foreign m t
      then (none, t)
      else if not_ours_yet m t
      then queue (record { message = m; part = part; content = part_delta delta }) t
      else emit_delta accepts (record { message = m; part = part }) delta t

  abbrev pub handle_text : PartInfo → Option PartKind → Tracker → Outcome
  handle_text p none t = (none, t)
  handle_text p (some kind) t =
      if not (valid_utf8 (p.text))
      then (none, t)
      else if not (valid_id (p.message)) || not (valid_id (p.id))
      then (some protocol_error, t)
      else if p.other_role || is_foreign (p.message) t
      then (none, t)
      else if not_ours_yet (p.message) t
      then queue (record { message = p.message; part = p.id; content = full_text kind (p.text) }) t
      else emit_full accepts (record { message = p.message; part = p.id }) kind (p.text) t

  unfoldable pub handle_part : Option PartInfo → Tracker → Outcome
  handle_part none t = (none, t)
  handle_part (some p) t = handle_text p (p.kind) t

  unfoldable pub handle_compatibility : RowId → RowId → Bytes → Tracker → Outcome
  handle_compatibility m text_id delta t =
      if length delta == 0 || not (valid_utf8 delta) || m == 0
      then (none, t)
      else if not (valid_id m) || (not (text_id == 0) && not (valid_id text_id))
      then (some protocol_error, t)
      else if is_foreign m t
      then (none, t)
      else if not (t.current_assistants m)
      then queue (record { message = m; part = text_id; content = compatibility_delta delta }) t
      else emit_compatibility accepts m text_id delta t

  unfoldable pub handle_event : EventBody → Tracker → Outcome
  handle_event (message_updated info) t = handle_updated info t
  handle_event (message_part_delta m part field_text delta) t =
      handle_delta m part field_text delta t
  handle_event (message_part_updated p) t = handle_part p t
  handle_event (session_next_text_delta m text_id delta) t = handle_compatibility m text_id delta t
  handle_event (session_status state accepted) t = handle_status state accepted t
  handle_event session_idle t = (none, note_idle t)
  handle_event session_failed t =
      if not (t.prompt_seen) && not (t.assistant_activity)
      then (none, t)
      else (some session_error, t)
  handle_event (other_event tool m) t = (
    none,
    record t { assistant_activity = t.assistant_activity || (tool && t.current_assistants m) },
  )

  abbrev pub accept_event : Event → Option RowId → Tracker → Consumed
  accept_event e none t = (some protocol_error, false, t)
  accept_event e (some session) t =
      if not (session == t.external_session_id)
        || not (t.armed)
        || any (λ i. i == e.id) (t.seen_ids)
      then (none, false, t)
      else if leb maximum_event_ids (length (t.seen_ids))
      then (some protocol_error, false, t)
      else finished (e.body) (handle_event (e.body) (record t { seen_ids = e.id ∷ (t.seen_ids) }))

  -- `dispatched` is whether the prompt was dispatched by now; a tracker that is armed stays so.
  unfoldable pub consume : (RowId → Bool) → Bool → Event → Tracker → Consumed
  consume valid_session dispatched e t =
      if not (e.decoded)
      then (some protocol_error, false, record t { armed = t.armed || dispatched })
      else accept_event e (consistent_session_id valid_session (e.session_ids) 0)
          (record t { armed = t.armed || dispatched })

  -- The loop of `consumeEvents` over the records of the stream, each with whether the prompt was dispatched
  -- when it was read. A stream that ends before the turn is over is an error.
  unfoldable pub consume_events : (RowId → Bool) → List (Bool × Event) → Tracker → Consumed
  consume_events valid_session [] t = (some protocol_error, false, t)
  consume_events valid_session ((dispatched, e) ∷ es) t =
      go_on_with (consume_events valid_session es) (consume valid_session dispatched e t)
