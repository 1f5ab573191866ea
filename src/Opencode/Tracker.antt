-- ===== src/Opencode/Tracker.antt =====
-- internal/opencode/sse.go: the text that `eventTracker` passes on.
-- An identifier is a number, and 0 is the empty one. The key of a part is the pair of the identifiers of its
-- message and its part, which `partKey` joins by a byte that neither has. `out` are the calls of the sink
-- so far, each with its origin, and `accepts` is whether the sink returns no error.
use aisummoner.Prelude.{
  ℕ, ◌==◌, Bool, true, false, not, ◌&&◌, ◌||◌, Option, none, some, List, [], ◌∷◌, ◌++◌,
  if◌then◌else◌, first, update, length, leb,
}
use aisummoner.Store.Data.{RowId, Bytes}
use aisummoner.DeviceGate.{assign}

pub data Family : Type 0 where
  message_part compatibility : Family

pub data PartKind : Type 0 where
  text_part reasoning_part : PartKind

pub data Role : Type 0 where
  assistant user system : Role

pub record PartKey : Type 0 where
  pub message : RowId
  pub part : RowId

pub record TextPart : Type 0 where
  pub key : PartKey
  pub text : Bytes
  pub kind : PartKind

-- Why the sink is called: for the text of a part, or for a text of the compatibility events, which may have a
-- name of its own.
pub data Origin : Type 0 where
  from_part named : PartKey → Origin
  unnamed : Origin

-- The call of the sink for a delta, with its message and its origin.
pub record Emission : Type 0 where
  pub message : RowId
  pub origin : Origin
  pub kind : PartKind
  pub delta : Bytes

pub record MessageRow : Type 0 where
  pub id : RowId
  pub role : Role
  pub parent : RowId

pub data PendingContent : Type 0 where
  full_text : PartKind → Bytes → PendingContent
  part_delta : Bytes → PendingContent
  compatibility_delta : Bytes → PendingContent

pub record PendingText : Type 0 where
  pub message : RowId
  pub part : RowId
  pub content : PendingContent

pub record Tracker : Type 0 where
  pub external_session_id : RowId
  pub prompt_message_id : RowId
  pub armed : Bool
  pub prompt_seen : Bool
  pub assistant_activity : Bool
  pub assistant_final : Bool
  pub idle_observed : Bool
  pub seen_ids : List RowId
  pub messages : List MessageRow
  pub current_assistants : RowId → Bool
  pub first_text_family : RowId → Option Family
  pub fallback_family : RowId → Option Family
  pub families : RowId → RowId → Option Family
  pub parts : List TextPart
  pub pending : List PendingText
  pub pending_records : ℕ
  pub pending_bytes : ℕ
  pub out : List Emission

pub data TrackerError : Type 0 where
  protocol_error sink_error session_error : TrackerError

abbrev pub maximum_text_parts : ℕ
maximum_text_parts = 512

abbrev pub Outcome : Type 0
Outcome = Option TrackerError × Tracker

abbrev pub key_eq : PartKey → PartKey → Bool
key_eq a b = a.message == b.message && a.part == b.part

abbrev pub has_part_key : PartKey → TextPart → Bool
has_part_key k p = key_eq (p.key) k

abbrev pub is_family : Family → Family → Bool
is_family message_part message_part = true
is_family compatibility compatibility = true
is_family _ _ = false

-- Another family has it.
abbrev pub taken_from : Family → Option Family → Bool
taken_from f none = false
taken_from f (some g) = not (is_family g f)

abbrev pub same_kind : PartKind → PartKind → Bool
same_kind text_part text_part = true
same_kind reasoning_part reasoning_part = true
same_kind _ _ = false

abbrev pub or_else {ℓ} : {A : Type ℓ} → Option A → A → A
or_else none a = a
or_else (some b) a = b

unfoldable pub record_first_family : RowId → Family → Tracker → Tracker
record_first_family m f t = record t {
  first_text_family = assign (t.first_text_family) m (some (or_else (t.first_text_family m) f));
}

abbrev pub note_activity : RowId → Family → Tracker → Tracker
note_activity m f t = record (record_first_family m f t) { assistant_activity = true }

unfoldable pub set_family : PartKey → Family → Tracker → Tracker
set_family k f t = record t {
  families = λ m p. if key_eq (record { message = m; part = p }) k then some f else t.families m p;
}

-- Whether a part of the kind may have the text; an empty kind goes with any.
abbrev pub kind_agrees : Option PartKind → PartKind → Bool
kind_agrees none k = true
kind_agrees (some j) k = same_kind k j

abbrev pub add_part : PartKey → Option PartKind → Tracker → Tracker
add_part k kind t = record t {
  parts = t.parts ++ record { key = k; text = []; kind = or_else kind text_part } ∷ [];
}

-- What `getPart` makes of the tracker: an error, or the tracker with the part in its map.
abbrev pub part_of : PartKey → Option PartKind → Option TextPart → Tracker → Outcome
part_of k kind (some p) t =
    if kind_agrees kind (p.kind) then (none, t) else (some protocol_error, t)
part_of k kind none t =
    if leb maximum_text_parts (length (t.parts))
    then (some protocol_error, t)
    else (none, add_part k kind t)

unfoldable pub get_part : PartKey → Option PartKind → Tracker → Outcome
get_part k kind t =
    if k.message == 0 || k.part == 0
    then (some protocol_error, t)
    else part_of k kind (first (has_part_key k) (t.parts)) t

abbrev pub text_of : PartKey → List TextPart → Bytes
text_of k ps = elim (first (has_part_key k) ps) [ none ↦ [] | some p ↦ p.text ]

abbrev pub kind_of : PartKey → List TextPart → PartKind
kind_of k ps = elim (first (has_part_key k) ps) [ none ↦ text_part | some p ↦ p.kind ]

unfoldable pub set_text : PartKey → Bytes → Tracker → Tracker
set_text k text t = record t {
  parts = update (has_part_key k) (λ p. record p { text = text }) (t.parts);
}

-- The first text goes on the second, and this is what it adds.
unfoldable pub text_after : Bytes → Bytes → Option Bytes
text_after cs [] = some cs
text_after [] (d ∷ ds) = none
text_after (c ∷ cs) (d ∷ ds) = let rest = text_after cs ds in if c == d then rest else none

-- What a full text means for the text of a part: nothing new, a delta, or a change.
pub data Growth : Type 0 where
  nothing_new changed : Growth
  grows_by : Bytes → Growth

abbrev pub growth_of : Option Bytes → Option Bytes → Growth
growth_of (some older) newer = nothing_new
growth_of none none = changed
growth_of none (some []) = nothing_new
growth_of none (some (c ∷ cs)) = grows_by (c ∷ cs)

unfoldable pub growth : Bytes → Bytes → Growth
growth text old = growth_of (text_after old text) (text_after text old)

abbrev pub fall_back : RowId → Tracker → Tracker
fall_back m t = record t {
  fallback_family =
      assign (t.fallback_family) m
        (some (or_else (t.fallback_family m) (or_else (t.first_text_family m) compatibility)));
}

abbrev pub not_ours : PartKey → Tracker → Bool
not_ours k t =
    taken_from message_part (t.fallback_family (k.message))
    || taken_from message_part (t.families (k.message) (k.part))

abbrev pub with_part : Outcome → (Tracker → Outcome) → Outcome
with_part (some e, t) f = (some e, t)
with_part (none, t) f = f t

module _ (accepts : List Emission → Emission → Bool) where
  unfoldable pub call_sink : Emission → Tracker → Outcome
  call_sink e t =
      (if accepts (t.out) e then none else some sink_error, record t { out = t.out ++ e ∷ [] })

  abbrev pub compatibility_text : RowId → Origin → Bytes → Tracker → Outcome
  compatibility_text m origin delta t =
      call_sink (record { message = m; origin = origin; kind = text_part; delta = delta })
        (note_activity m compatibility t)

  abbrev pub emit_unnamed : RowId → Bytes → Tracker → Outcome
  emit_unnamed m delta t =
      if taken_from compatibility (t.fallback_family m)
      then (none, t)
      else compatibility_text m unnamed delta t

  abbrev pub emit_named : PartKey → Option Family → Bytes → Tracker → Outcome
  emit_named k (some f) delta t =
      if is_family f compatibility
      then compatibility_text (k.message) (named k) delta t
      else (none, t)
  emit_named k none delta t =
      if taken_from compatibility (t.families (k.message) (k.part))
      then (none, t)
      else compatibility_text (k.message) (named k) delta (set_family k compatibility t)

  unfoldable pub emit_compatibility : RowId → RowId → Bytes → Tracker → Outcome
  emit_compatibility m text_id delta t =
      if text_id == 0
      then emit_unnamed m delta (fall_back m t)
      else emit_named (record { message = m; part = text_id }) (t.fallback_family m) delta t

  -- The part's new text, and the delta that is passed on.
  unfoldable pub extend_part : PartKey → Bytes → Bytes → Tracker → Outcome
  extend_part k text delta t =
      call_sink
        (record {
          message = k.message;
          origin = from_part k;
          kind = kind_of k (t.parts);
          delta = delta;
        })
        (set_text k text (note_activity (k.message) message_part (set_family k message_part t)))

  unfoldable pub emit_delta : PartKey → Bytes → Tracker → Outcome
  emit_delta k delta t =
      if not_ours k t
      then (none, t)
      else with_part (get_part k none t) (λ u. extend_part k (text_of k (u.parts) ++ delta) delta u)

  abbrev pub grow : PartKey → Bytes → Growth → Tracker → Outcome
  grow k text nothing_new t = (none, t)
  grow k text changed t = (some protocol_error, t)
  grow k text (grows_by delta) t = extend_part k text delta t

  unfoldable pub emit_full : PartKey → PartKind → Bytes → Tracker → Outcome
  emit_full k kind text t =
      if not_ours k t
      then (none, t)
      else with_part (get_part k (some kind) t)
          (λ u. grow k text (growth text (text_of k (u.parts))) u)
