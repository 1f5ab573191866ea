-- ===== src/Protocol/Reading.antt =====
-- internal/protocol/control.go: what is read is valid.
use aisummoner.Prelude.{
  ℕ, ◌≤◌, ◌<◌, ◌==◌, ◌≡◌, ap, ◌∙◌, sym, true, false, Option, none, some, ◌++◌, length, take, ltb,
  leb, arith, inl, inr, Bool-cases, Option-cases, length-take,
}
use Prim.Native.Nat.{min}
use aisummoner.Store.Data.{Bytes}
use aisummoner.Pairing.{drop}
use aisummoner.Pairing.Codes.{take-append-drop}
use aisummoner.Protocol.{
  ProtocolError, Message, uint32, read_full, ReadResult, read, refused, decoded, read_body,
  read_json, tested, message_error, read_message, is_null, max_control_frame_bytes,
  protocol_version, known_message_type, validate_request_id,
}

-- A frame at the start of a stream: its length in four bytes, and between 1 and 65536 bytes.
pub record FrameOf (stream frame rest : Bytes) : Type 0 where
  head : Bytes
  head_length : length head ≡ 4
  size : uint32 head ≡ length frame
  not_empty : 0 < length frame
  fits : length frame ≤ max_control_frame_bytes
  parts : stream ≡ head ++ (frame ++ rest)

-- What a message that was read says: it is what a frame decodes to, and its version, type, request id and
-- payload are ones that the protocol knows.
pub record MessageSays (decode : Bytes → Option Message) (stream : Bytes) (m : Message)
    (rest : Bytes) : Type 0 where
  frame : Bytes
  framed : FrameOf stream frame rest
  decodes : decode frame ≡ some m
  version : m.version ≡ protocol_version
  known : known_message_type (m.kind) ≡ true
  id_valid : validate_request_id (m.request_id) ≡ none
  payload_there : is_null (m.payload) ≡ false

read_full_sound :
    (n : ℕ) (s xs ys : Bytes) → read_full n s ≡ some (xs, ys) → (length xs ≡ n) × (s ≡ xs ++ ys)
unfolding read_full
read_full_sound n s xs ys e = elim (Bool-cases (leb n (length s))) [
  | inr short ↦ absurd (ground (arith, e, short))
  | inl enough ↦
      let first : take n s ≡ xs = ground (arith, e, enough) in
      let second : drop n s ≡ ys = ground (arith, e, enough) in
      (
        sym (ap length first) ∙ length-take n s ∙ min_left enough,
        sym (take-append-drop n s) ∙ ap (λ zs. zs ++ drop n s) first ∙ ap (λ zs. xs ++ zs) second,
      )
]
  where
    min_left : leb n (length s) ≡ true → min n (length s) ≡ n
    min_left h = ground (arith, h)

module _ {A : Type 0} (decode : Bytes → Option A) where
  decoded_sound :
      (o : Option A) (rest after : Bytes) (a : A)
      → decoded o rest ≡ read a after
      → (o ≡ some a) × (rest ≡ after)
  decoded_sound none rest after a e = absurd (cc e)
  decoded_sound (some b) rest after a e = (cc e, cc e)

  read_body_sound :
      (size : ℕ) (s after : Bytes) (a : A)
      → read_body decode size s ≡ read a after
      → (frame : Bytes) × (length frame ≡ size)
        × (s ≡ frame ++ after)
        × (decode frame ≡ some a)
        × (0 < size)
        × (size ≤ max_control_frame_bytes)
  unfolding read_body
  read_body_sound size s after a e = elim (Bool-cases (size == 0)) [
    | inl empty ↦ absurd (cc (rw (empty, read_body) at e))
    | inr full ↦ elim (Bool-cases (ltb max_control_frame_bytes size)) [
      | inl large ↦ absurd (cc (rw (full, large, read_body) at e))
      | inr fits ↦ elim (Option-cases (read_full size s)) [
        | inl short ↦ absurd (cc (rw (full, fits, short, read_body) at e))
        | inr ((frame, rest), got) ↦
            let (n, parts) = read_full_sound size s frame rest got in
            let (ok, same) =
              decoded_sound (decode frame) rest after a (rw (full, fits, got, read_body) at e) in
            (
              frame,
              n,
              parts ∙ ap (λ zs. frame ++ zs) same,
              ok,
              ground (arith, full),
              ground (arith, fits),
            )
      ]
    ]
  ]

  read_json_sound :
      (s after : Bytes) (a : A)
      → read_json decode s ≡ read a after
      → (frame : Bytes) × FrameOf s frame after × (decode frame ≡ some a)
  unfolding read_json
  read_json_sound s after a e = elim (Option-cases (read_full 4 s)) [
    | inl short ↦ absurd (cc (rw (short, read_json) at e))
    | inr ((head, rest), got) ↦
        let (n, parts) = read_full_sound 4 s head rest got in
        let (frame, k, whole, ok, pos, le) =
          read_body_sound (uint32 head) rest after a (rw (got, read_json) at e) in
        (
          frame,
          record {
            head = head;
            head_length = n;
            size = sym k;
            not_empty = omega (arith, k, pos);
            fits = omega (arith, k, le);
            parts = parts ∙ ap (λ zs. head ++ zs) whole;
          },
          ok,
        )
  ]

  tested_sound :
      (test : A → Option ProtocolError) (r : ReadResult A) (a : A) (rest : Bytes)
      → tested test r ≡ read a rest
      → (r ≡ read a rest) × (test a ≡ none)
  tested_sound test (refused x) a rest e = absurd (cc e)
  tested_sound test (read b s) a rest e = elim (Option-cases (test b)) [
    | inr (x, bad) ↦ absurd (cc (rw (bad, tested) at e))
    | inl good ↦
        let same : read b s ≡ read a rest = rw (good, tested) at e in
        (same, ap test (sym (value same)) ∙ good)
  ]
    where
      value : {b' a' : A} {s' r' : Bytes} → read b' s' ≡ read a' r' → b' ≡ a'
      value e' = cc e'

message_error_sound :
    (m : Message)
    → message_error m ≡ none
    → (m.version ≡ protocol_version)
      × (known_message_type (m.kind) ≡ true)
      × (validate_request_id (m.request_id) ≡ none)
      × (is_null (m.payload) ≡ false)
unfolding message_error
message_error_sound m e = ground (arith, e)

-- A message that `ReadMessage` returns is what a frame of between 1 and 65536 bytes at the start of the stream
-- decodes to; the frame's length stands before it, and the stream is left after it. The message has version
-- 1, a type that is known, a valid request id and a payload that is not null.
pub read_message_sound :
    (decode : Bytes → Option Message) (stream rest : Bytes) (m : Message)
    → read_message decode stream ≡ read m rest
    → MessageSays decode stream m rest
unfolding read_message
read_message_sound decode stream rest m e =
    let (got, valid) = tested_sound decode message_error (read_json decode stream) m rest e in
    let (frame, framed, ok) = read_json_sound decode stream rest m got in
    let (v, k, i, p) = message_error_sound m valid in
    record {
      frame = frame;
      framed = framed;
      decodes = ok;
      version = v;
      known = k;
      id_valid = i;
      payload_there = p;
    }
