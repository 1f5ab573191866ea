-- ===== src/Tests/Wire.antt =====
-- Concrete runs of internal/pairing, internal/protocol, internal/app and internal/opencode.
use aisummoner.Prelude.{
  ℕ, ◌-◌, ◌<◌, ◌==◌, ◌≡◌, refl, Bool, true, false, ◌&&◌, Option, none, some, List, [], ◌∷◌, ◌++◌,
  if◌then◌else◌, leb, any, first, length, arith,
}
use aisummoner.Prelude.Text.{codes}
use aisummoner.Store.Data.{Bytes, bytes_eq, Device, PairingCode, Db}
use aisummoner.Prelude.Keyed.{Distinct}
use aisummoner.Store.Driver.{quiet}
use aisummoner.Tests.Store.{waiting, with_tool}
use aisummoner.App.Dispatcher.{
  classify_path, route_terminal, is_terminal_path, one_segment_between, has_prefix, after_prefix,
  has_suffix, trim_suffix, trim_prefix,
}
use aisummoner.Protocol.Writing.{WriteSays, IsHonest, write_full_sound}
use aisummoner.Protocol.RoundTrip.{message_of, read_message-write_message}
use aisummoner.Protocol.Reading.{MessageSays, read_message_sound}
use aisummoner.App.Routes.{Serves, serve_http_sound}
use aisummoner.Opencode.Tracker.{Tracker, Emission, assistant, user}
use aisummoner.Opencode.Events.{Event, message_updated, message_part_delta, consume_events}
use aisummoner.Opencode.Handlers.{IsSound}
use aisummoner.Opencode.Sound.{consume_events-IsSound}
use aisummoner.Pairing.{
  Unicode, normalize, generate_code, shown_code, claim, checked_code, remove_dashes, trim_space,
  drop_spaces_end, drop_spaces, every, in_alphabet, code_alphabet,
}
use aisummoner.Pairing.RoundTrip.{IsCode, normalize-generate_code, normalize_sound}
use aisummoner.Pairing.Claims.{ClaimSays, claim-Once}
use aisummoner.Protocol.{
  Writer, Written, write_full, write_loop, after_write, refused, malformed_frame, Message, read,
  read_message, write_message, write_json, write_frame, put_uint32, uint32, known_message_type,
  validate_request_id, is_null, read_json, read_body, read_full, message_error,
}

abbrev ascii_upper : ℕ → ℕ
ascii_upper c = if leb 97 c && leb c 122 then c - 32 else c

space_law : (c : ℕ) → 32 < c → c < 127 → (c == 32) ≡ false
space_law c h k = ground arith

lower_law : (c : ℕ) → 96 < c → c < 123 → ascii_upper c ≡ c - 32
lower_law c h k = ground arith

other_law : (c : ℕ) → c < 97 → ascii_upper c ≡ c
other_law c h = ground arith

len_law : (c : ℕ) → c < 128 → ◌≡◌ {A = ℕ} 1 1
len_law c h = refl

abbrev ascii_unicode : Unicode
ascii_unicode = record {
  is_space = λ c. c == 32;
  to_upper = ascii_upper;
  rune_len = λ c. 1;
  ascii_space = space_law;
  upper_lower = lower_law;
  upper_other = other_law;
  ascii_len = len_law;
}

abbrev eight_bytes : List ℕ
eight_bytes = 7 ∷ 255 ∷ 32 ∷ 0 ∷ 100 ∷ 31 ∷ 64 ∷ 9 ∷ []

normalize-generate_code_example :
    (code : List ℕ) × (generate_code (some eight_bytes) ≡ some code)
    × (normalize ascii_unicode ((32 ∷ []) ++ (shown_code code ++ [])) ≡ some code)
normalize-generate_code_example =
    normalize-generate_code ascii_unicode eight_bytes (32 ∷ []) [] refl (refl, tt) tt

normal : normalize ascii_unicode (codes " abcd-efgh ") ≡ some (codes "ABCDEFGH")
unfolding normalize checked_code remove_dashes trim_space drop_spaces_end drop_spaces every
    in_alphabet any code_alphabet
normal = refl

normalize_sound_example :
    IsCode (codes "ABCDEFGH")
    × (normalize ascii_unicode (codes "ABCDEFGH") ≡ some (codes "ABCDEFGH"))
normalize_sound_example =
    normalize_sound ascii_unicode (codes " abcd-efgh ") (codes "ABCDEFGH") normal

-- A device without an owner, and its code.
abbrev offered : Db
offered = record (with_tool waiting) {
  devices =
      (record {
        id = 10;
        public_key = codes "key";
        owner_user_id = none;
        name = codes "pc";
        platform = codes "linux";
        arch = codes "amd64";
        client_version = codes "1";
        created_at = 1;
        paired_at = none;
        last_seen_at = none;
      })
      ∷ [];
  pairing_codes =
      (record {
        id = 60;
        device_id = 10;
        code_digest = codes "ABCDEFGH";
        expires_at = 100;
        consumed_at = none;
        created_at = 1;
      })
      ∷ [];
}

offered_keys :
    (Distinct Device.id offered.devices) × (Distinct PairingCode.id offered.pairing_codes)
unfolding any
offered_keys = ((refl, tt), (refl, tt))

claim-Once_example :
    ClaimSays ascii_unicode
      (λ code. code)
      1
      (codes "abcd-efgh")
      5
      offered
      (claim ascii_unicode (λ code. code) 1 (codes "abcd-efgh") 5 (quiet offered))
claim-Once_example =
    claim-Once ascii_unicode (λ code. code) 1 (codes "abcd-efgh") 5 offered (offered_keys.0)
      (offered_keys.1)

-- A writer that takes at most two bytes in a call.
abbrev slow : Writer
slow calls contents = record { written = if leb 2 (length contents) then 2 else 1; failed = false }

write_full_sound_example :
    WriteSays slow 0 (codes "abc") (write_full slow 0 (codes "abc"))
    × (IsHonest slow → (write_full slow 0 (codes "abc")).error ≡ none)
write_full_sound_example = write_full_sound slow 0 (codes "abc")

-- A codec that writes only the payload, of heartbeats of one request.
abbrev heartbeat : Bytes → Message
heartbeat payload = record {
  version = 1;
  kind = codes "device.heartbeat";
  request_id = codes "req_a1";
  payload = payload;
}

encode_one : Message → Option Bytes
encode_one m = some (codes "{}")

decode_one : Bytes → Option Message
decode_one bytes = some (heartbeat (codes "{}"))

encoded_again :
    (encoded : Bytes)
    → encode_one (heartbeat (codes "{}")) ≡ some encoded
    → decode_one encoded ≡ some (heartbeat (codes "{}"))
unfolding decode_one
encoded_again encoded e = refl

abbrev brisk : Writer
brisk calls contents = record { written = length contents; failed = false }

sent : Written
sent =
    write_message encode_one brisk 0 (codes "device.heartbeat") (codes "req_a1") (some (codes "{}"))

written_lem : sent.error ≡ none
unfolding sent encode_one write_message write_json write_frame write_full write_loop after_write
    put_uint32 known_message_type validate_request_id bytes_eq every
written_lem = refl

read_message-write_message_example :
    read_message decode_one (
      (write_message encode_one brisk 0
        (codes "device.heartbeat")
        (codes "req_a1")
        (some (codes "{}"))).bytes
      ++ [])
    ≡ (if is_null (codes "{}")
        then refused malformed_frame
        else read (message_of (codes "device.heartbeat") (codes "req_a1") (codes "{}")) [])
unfolding sent
read_message-write_message_example =
    read_message-write_message encode_one decode_one brisk 0 (codes "device.heartbeat")
      (codes "req_a1") (codes "{}") [] encoded_again written_lem

abbrev wire : Bytes
wire = 0 ∷ 0 ∷ 0 ∷ 2 ∷ codes "{}"

received : read_message decode_one wire ≡ read (heartbeat (codes "{}")) []
unfolding decode_one read_message read_json read_body read_full uint32 message_error
    known_message_type validate_request_id bytes_eq every is_null
received = refl

read_message_sound_example : MessageSays decode_one wire (heartbeat (codes "{}")) []
read_message_sound_example = read_message_sound decode_one wire [] (heartbeat (codes "{}")) received

-- Both parts of the pattern of a path share a slash: the path has no device, and is a terminal's.
overlap : classify_path (codes "/api/v1/devices/terminal") ≡ route_terminal
unfolding classify_path is_terminal_path one_segment_between has_prefix after_prefix has_suffix
    trim_suffix trim_prefix bytes_eq any
overlap = refl

serve_http_sound_example : Serves (codes "/api/v1/devices/7/terminal")
serve_http_sound_example = serve_http_sound (codes "/api/v1/devices/7/terminal")

-- A turn: the prompt, the answer's first delta before its message, and the message.
abbrev fresh : Tracker
fresh = record {
  external_session_id = 3;
  prompt_message_id = 0;
  armed = false;
  prompt_seen = false;
  assistant_activity = false;
  assistant_final = false;
  idle_observed = false;
  seen_ids = [];
  messages = [];
  current_assistants = λ m. false;
  first_text_family = λ m. none;
  fallback_family = λ m. none;
  families = λ m p. none;
  parts = [];
  pending = [];
  pending_records = 0;
  pending_bytes = 0;
  out = [];
}

fresh-IsSound : IsSound fresh
unfolding first
fresh-IsSound = record {
  says = record {
    told = λ k. refl;
    ours = tt;
    owned = tt;
    ordered = tt;
    parts_bound = omega arith;
  };
  turn = λ m cur. absurd (cc cur);
  counted = record {
    records = refl;
    bytes = refl;
    records_bound = omega arith;
    bytes_bound = omega arith;
    seen_bound = omega arith;
    messages_distinct = tt;
    messages_bound = omega arith;
  };
}

abbrev prompt : Event
prompt = record {
  id = 1;
  decoded = true;
  session_ids = 3 ∷ [];
  body =
      message_updated
        (some (record { id = 11; role = some user; parent = 0; finish = []; error = false }));
}

abbrev early : Event
early = record {
  id = 2;
  decoded = true;
  session_ids = 3 ∷ [];
  body = message_part_delta 12 21 true (codes "hi");
}

abbrev answered : Event
answered = record {
  id = 3;
  decoded = true;
  session_ids = 3 ∷ [];
  body =
      message_updated
        (some (record { id = 12; role = some assistant; parent = 11; finish = []; error = false }));
}

abbrev turn : List (Bool × Event)
turn = (true, prompt) ∷ (false, early) ∷ (false, answered) ∷ []

abbrev all_ids : ℕ → Bool
all_ids i = true

abbrev all_texts : Bytes → Bool
all_texts text = true

abbrev as_it_is : Bytes → Bytes
as_it_is text = text

abbrev takes_all : List Emission → Emission → Bool
takes_all es e = true

consume_events-IsSound_example :
    IsSound (consume_events takes_all all_ids all_texts as_it_is all_ids turn fresh).2
consume_events-IsSound_example =
    consume_events-IsSound takes_all all_ids all_texts as_it_is all_ids turn fresh fresh-IsSound
