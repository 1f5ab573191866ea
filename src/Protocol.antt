-- ===== src/Protocol.antt =====
-- internal/protocol/control.go: the control messages, as JSON in frames with their length in front.
-- The package encoding/json is a parameter: `encode` is `json.Marshal`, and `decode` is the strict decoder
-- with the test that nothing follows. A writer is a function of the number of the call and of the bytes it is
-- given to a count and an error. A reader is the list of the bytes that it still gives.
-- `writeMu` makes the two writes of a frame one step.
pub mod Writing
pub mod RoundTrip
pub mod Reading
use aisummoner.Prelude.{
  ℕ, zero, suc, ◌+◌, ◌*◌, ◌-◌, ◌==◌, Bool, true, false, not, ◌&&◌, ◌||◌, Option, none, some, List,
  [], ◌∷◌, ◌++◌, if◌then◌else◌, length, take, ltb, leb, is_some,
}
use Prim.Native.Nat.{◌/◌, ◌%◌}
use aisummoner.Prelude.Text.{codes}
use aisummoner.Store.Data.{Bytes, bytes_eq}
use aisummoner.Pairing.{drop, every}

abbrev pub protocol_version : ℕ
protocol_version = 1

abbrev pub max_control_frame_bytes : ℕ
max_control_frame_bytes = 65536

abbrev pub max_request_id_bytes : ℕ
max_request_id_bytes = 128

pub record StreamHeader : Type 0 where
  pub version : ℕ
  pub kind : Bytes
  pub request_id : Bytes

pub record Message : Type 0 where
  pub version : ℕ
  pub kind : Bytes
  pub request_id : Bytes
  pub payload : Bytes

pub data ProtocolError : Type 0 where
  frame_too_large malformed_frame unsupported invalid_request_id encode_failed decode_failed
        write_failed short_write slice_panic out_of_fuel read_failed :
      ProtocolError

unfoldable pub supported_platform : Bytes → Bool
supported_platform value = bytes_eq value (codes "linux") || bytes_eq value (codes "windows")

unfoldable pub known_message_type : Bytes → Bool
known_message_type kind =
    bytes_eq kind (codes "client.hello")
    || bytes_eq kind (codes "server.challenge")
    || bytes_eq kind (codes "device.proof")
    || bytes_eq kind (codes "server.authenticated")
    || bytes_eq kind (codes "pairing.offered")
    || bytes_eq kind (codes "device.heartbeat")
    || bytes_eq kind (codes "server.heartbeat_ack")

abbrev pub is_id_byte : ℕ → Bool
is_id_byte c = (leb b'a' c && leb c b'z') || (leb b'0' c && leb c b'9')

-- The bytes of a rune that is not ASCII are no letters and digits either.
unfoldable pub validate_request_id : Bytes → Option ProtocolError
validate_request_id id =
    if ltb (length id) 5
      || ltb max_request_id_bytes (length id)
      || not (bytes_eq (take 4 id) (codes "req_"))
    then some invalid_request_id
    else if every is_id_byte (drop 4 id)
    then none
    else some invalid_request_id

unfoldable pub known_kind : Bytes → Bool
known_kind kind = bytes_eq kind (codes "control") || bytes_eq kind (codes "ssh")

-- What a call of `Write` gives: a count of bytes taken, and whether it comes with an error.
pub record WriteAnswer : Type 0 where
  pub written : ℕ
  pub failed : Bool

-- The answer of a writer to the bytes given in one of its calls, which are counted.
abbrev pub Writer : Type 0
Writer = ℕ → Bytes → WriteAnswer

pub record Written : Type 0 where
  pub error : Option ProtocolError
  pub bytes : Bytes
  pub calls : ℕ

abbrev pub more : Bytes → Written → Written
more first w = record w { bytes = first ++ w.bytes }

-- What follows a call with this answer; `rest` is the loop on what is left of the contents. The slice
-- `contents[written:]` panics behind the end.
unfoldable pub after_write : WriteAnswer → Bytes → ℕ → Written → Written
after_write a contents calls rest =
    if a.failed
    then record { error = some write_failed; bytes = take a.written contents; calls = calls }
    else if a.written == 0
    then record { error = some short_write; bytes = []; calls = calls }
    else if ltb (length contents) a.written
    then record { error = some slice_panic; bytes = contents; calls = calls }
    else more (take a.written contents) rest

-- The loop, on fuel; `calls` is the number of calls of the writer before.
unfoldable pub write_loop : ℕ → Writer → ℕ → Bytes → Written
write_loop fuel writer calls [] = record { error = none; bytes = []; calls = calls }
write_loop zero writer calls (c ∷ cs) = record {
  error = some out_of_fuel;
  bytes = [];
  calls = calls;
}
write_loop (suc fuel) writer calls (c ∷ cs) =
    let a = writer calls (c ∷ cs) in
    after_write a (c ∷ cs) (suc calls)
      (write_loop fuel writer (suc calls) (drop a.written (c ∷ cs)))

unfoldable pub write_full : Writer → ℕ → Bytes → Written
write_full writer calls contents = write_loop (length contents) writer calls contents

-- `binary.BigEndian.PutUint32` and `Uint32`.
unfoldable pub put_uint32 : ℕ → Bytes
put_uint32 n = (n / 16777216 % 256) ∷ (n / 65536 % 256) ∷ (n / 256 % 256) ∷ (n % 256) ∷ []

unfoldable pub uint32 : Bytes → ℕ
uint32 (a ∷ b ∷ c ∷ d ∷ rest) = a * 16777216 + b * 65536 + c * 256 + d
uint32 bytes = 0

-- The second write follows the first when that gave no error.
abbrev pub after_first : Option ProtocolError → Writer → Bytes → Written → Written
after_first none writer second w = more (w.bytes) (write_full writer (w.calls) second)
after_first (some e) writer second w = w

abbrev pub then_write : Writer → Bytes → Written → Written
then_write writer second w = after_first (w.error) writer second w

abbrev pub unwritten : ℕ → ProtocolError → Written
unwritten calls e = record { error = some e; bytes = []; calls = calls }

unfoldable pub write_frame : Writer → ℕ → Bytes → Written
write_frame writer calls encoded =
    if length encoded == 0
    then unwritten calls malformed_frame
    else if ltb max_control_frame_bytes (length encoded)
    then unwritten calls frame_too_large
    else then_write writer encoded (write_full writer calls (put_uint32 (length encoded)))

-- `io.ReadFull`: the bytes and the rest, or an error when there are too few.
unfoldable pub read_full : ℕ → Bytes → Option (Bytes × Bytes)
read_full n stream = if leb n (length stream) then some (take n stream, drop n stream) else none

pub data ReadResult {ℓ} (A : Type ℓ) : Type ℓ where
  read : A → Bytes → ReadResult A
  refused : ProtocolError → ReadResult A

module _ {A : Type 0} where
  abbrev pub decoded : Option A → Bytes → ReadResult A
  decoded none rest = refused decode_failed
  decoded (some a) rest = read a rest

  unfoldable pub read_body : (Bytes → Option A) → ℕ → Bytes → ReadResult A
  read_body decode size stream =
      if size == 0
      then refused malformed_frame
      else if ltb max_control_frame_bytes size
      then refused frame_too_large
      else elim (read_full size stream) [
        | none ↦ refused read_failed
        | some (encoded, rest) ↦ decoded (decode encoded) rest
      ]

  unfoldable pub read_json : (Bytes → Option A) → Bytes → ReadResult A
  read_json decode stream = elim (read_full 4 stream) [
    | none ↦ refused read_failed
    | some (size, rest) ↦ read_body decode (uint32 size) rest
  ]

  unfoldable pub write_json : (A → Option Bytes) → Writer → ℕ → A → Written
  write_json encode writer calls a = elim (encode a) [
    | none ↦ unwritten calls encode_failed
    | some encoded ↦ write_frame writer calls encoded
  ]

  -- A value that was read is tested.
  abbrev pub tested : (A → Option ProtocolError) → ReadResult A → ReadResult A
  tested test (refused e) = refused e
  tested test (read a rest) = elim (test a) [ none ↦ read a rest | some e ↦ refused e ]

unfoldable pub header_error : StreamHeader → Option ProtocolError
header_error h = elim (validate_request_id (h.request_id)) [
  | some e ↦ some e
  | none ↦ if h.version == protocol_version && known_kind (h.kind) then none else some unsupported
]

unfoldable pub write_header : (StreamHeader → Option Bytes) → Writer → ℕ → StreamHeader → Written
write_header encode writer calls h = elim (header_error h) [
  | some e ↦ unwritten calls e
  | none ↦ write_json encode writer calls h
]

unfoldable pub read_header : (Bytes → Option StreamHeader) → Bytes → ReadResult StreamHeader
read_header decode stream = tested header_error (read_json decode stream)

unfoldable pub is_null : Bytes → Bool
is_null payload = length payload == 0 || bytes_eq payload (codes "null")

unfoldable pub message_error : Message → Option ProtocolError
message_error m =
    if m.version == protocol_version && known_message_type (m.kind)
    then elim (validate_request_id (m.request_id)) [
      | some e ↦ some e
      | none ↦ if is_null (m.payload) then some malformed_frame else none
    ]
    else some unsupported

unfoldable pub read_message : (Bytes → Option Message) → Bytes → ReadResult Message
read_message decode stream = tested message_error (read_json decode stream)

-- `payload` is what `json.Marshal` gives for the payload, or `none` for its error.
unfoldable pub write_message :
    (Message → Option Bytes) → Writer → ℕ → Bytes → Bytes → Option Bytes → Written
write_message encode writer calls kind id payload =
    if known_message_type kind
    then elim (validate_request_id id) [
      | some e ↦ unwritten calls e
      | none ↦ elim payload [
        | none ↦ unwritten calls encode_failed
        | some p ↦
            write_json encode writer calls
              (record { version = protocol_version; kind = kind; request_id = id; payload = p })
      ]
    ]
    else unwritten calls unsupported
