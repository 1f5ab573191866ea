-- ===== src/Protocol/RoundTrip.antt =====
-- internal/protocol/control.go: what was written is read, and what is read is valid.
use aisummoner.Prelude.{
  ℕ, ◌≤◌, ◌<◌, ◌==◌, ◌≡◌, refl, ap, ◌∙◌, sym, Bool, true, false, if◌then◌else◌, Option, none, some,
  [], ◌∷◌, ◌++◌, length, take, ltb, arith, inl, inr, Option-cases, length-append,
}
use mathlib.Core.List.{append_assoc}
use mathlib.Core.Path.{subst}
use aisummoner.Store.Data.{Bytes}
use aisummoner.Pairing.{drop}
use aisummoner.Protocol.{
  ProtocolError, Writer, Written, Message, put_uint32, uint32, read_full, ReadResult, read, refused,
  malformed_frame, read_body, read_json, write_json, tested, message_error, read_message,
  write_message, is_null, max_control_frame_bytes, protocol_version, known_message_type,
  validate_request_id, encode_failed,
}
use aisummoner.Protocol.Writing.{write_frame_sound}

read_full-append : (xs ys : Bytes) → read_full (length xs) (xs ++ ys) ≡ some (xs, ys)
unfolding read_full
read_full-append xs ys = ground (arith, length-append xs ys, take_first xs ys, drop_first xs ys)
  where
    take_first : (as' bs : Bytes) → take (length as') (as' ++ bs) ≡ as'
    take_first [] bs = refl
    take_first (a ∷ as') bs = ap (λ zs. a ∷ zs) (take_first as' bs)

    drop_first : (as' bs : Bytes) → drop (length as') (as' ++ bs) ≡ bs
    drop_first [] bs = refl
    drop_first (a ∷ as') bs = drop_first as' bs

read_full-append_of :
    (n : ℕ) (xs ys : Bytes) → length xs ≡ n → read_full n (xs ++ ys) ≡ some (xs, ys)
read_full-append_of n xs ys e =
    subst (λ k. read_full k (xs ++ ys) ≡ some (xs, ys)) e (read_full-append xs ys)

uint32-put_uint32 : (n : ℕ) → n ≤ max_control_frame_bytes → uint32 (put_uint32 n) ≡ n
unfolding uint32 put_uint32
uint32-put_uint32 n h = omega (arith, h)

length-put_uint32 : (n : ℕ) → length (put_uint32 n) ≡ 4
unfolding put_uint32
length-put_uint32 n = refl

module _ {A : Type 0} (encode : A → Option Bytes) (decode : Bytes → Option A) where
  read_body-append :
      (encoded rest : Bytes) (a : A)
      → decode encoded ≡ some a
      → 0 < length encoded
      → length encoded ≤ max_control_frame_bytes
      → read_body decode (length encoded) (encoded ++ rest) ≡ read a rest
  unfolding read_body
  read_body-append encoded rest a e p m =
      rw (not_empty, fits, read_full-append encoded rest, e) refl
    where
      not_empty : (length encoded == 0) ≡ false
      not_empty = ground (arith, p)

      fits : ltb max_control_frame_bytes (length encoded) ≡ false
      fits = ground (arith, m)

  read_json-frame :
      (encoded rest : Bytes) (a : A)
      → decode encoded ≡ some a
      → 0 < length encoded
      → length encoded ≤ max_control_frame_bytes
      → read_json decode ((put_uint32 (length encoded) ++ encoded) ++ rest) ≡ read a rest
  unfolding read_json
  read_json-frame encoded rest a e p m =
      rw
        (
          append_assoc (put_uint32 (length encoded)) encoded rest,
          read_full-append_of 4 (put_uint32 (length encoded)) (encoded ++ rest)
              (length-put_uint32 (length encoded)),
          read_json,
        )
        (ap (λ n. read_body decode n (encoded ++ rest)) (uint32-put_uint32 (length encoded) m)
          ∙ read_body-append encoded rest a e p m)

  -- A value that was written is read again, whatever follows on the stream.
  read_json-write_json :
      (writer : Writer) (calls : ℕ) (a : A) (rest : Bytes)
      → ((encoded : Bytes) → encode a ≡ some encoded → decode encoded ≡ some a)
      → (write_json encode writer calls a).error ≡ none
      → read_json decode ((write_json encode writer calls a).bytes ++ rest) ≡ read a rest
  unfolding write_json
  read_json-write_json writer calls a rest codec e = elim (Option-cases (encode a)) [
    | inl bad ↦ absurd (never (rw (bad, write_json) at e))
    | inr (encoded, ok) ↦
        let (frame, p, m) = write_frame_sound writer calls encoded (rw (ok, write_json) at e) in
        rw (ok, write_json) (rw frame (read_json-frame encoded rest a (codec encoded ok) p m))
  ]
    where
      never : some encode_failed ≡ none → ⊥
      never x = cc x

module _ {A : Type 0} where
  tested_null :
      (b : Bool) (test : A → Option ProtocolError) (r : ReadResult A) (a : A) (rest : Bytes)
      → r ≡ read a rest
      → test a ≡ (if b then some malformed_frame else none)
      → tested test r ≡ (if b then refused malformed_frame else read a rest)
  tested_null true test r a rest e t = rw e (rw (t, tested) refl)
  tested_null false test r a rest e t = rw e (rw (t, tested) refl)

abbrev pub message_of : Bytes → Bytes → Bytes → Message
message_of kind id payload = record {
  version = protocol_version;
  kind = kind;
  request_id = id;
  payload = payload;
}

module _ (encode : Message → Option Bytes) (writer : Writer) (calls : ℕ)
    (kind id payload : Bytes) where
  write_message_valid :
      (write_message encode writer calls kind id (some payload)).error ≡ none
      → (known_message_type kind ≡ true) × (validate_request_id id ≡ none)
  unfolding write_message
  write_message_valid e = ground (arith, e)

  write_message_lem :
      known_message_type kind ≡ true
      → validate_request_id id ≡ none
      → write_message encode writer calls kind id (some payload)
        ≡ write_json encode writer calls (message_of kind id payload)
  unfolding write_message
  write_message_lem known good = rw (known, good) refl

  message_of_error :
      known_message_type kind ≡ true
      → validate_request_id id ≡ none
      → message_error (message_of kind id payload)
        ≡ (if is_null payload then some malformed_frame else none)
  unfolding message_error
  message_of_error known good = rw (known, good) refl

-- A message that `WriteMessage` has written without an error is read by `ReadMessage`, whatever follows on the
-- stream, when the decoder gives this message back for what the encoder made of it. A payload that is
-- encoded as null or nothing, which is written like any other, is refused as malformed; with any other
-- payload the message itself is read, with the rest of the stream left.
pub read_message-write_message :
    (encode : Message → Option Bytes) (decode : Bytes → Option Message) (writer : Writer)
    (calls : ℕ) (kind id payload rest : Bytes)
    → ((encoded : Bytes)
        → encode (message_of kind id payload) ≡ some encoded
        → decode encoded ≡ some (message_of kind id payload))
    → (write_message encode writer calls kind id (some payload)).error ≡ none
    → read_message decode ((write_message encode writer calls kind id (some payload)).bytes ++ rest)
      ≡ (if is_null payload
          then refused malformed_frame
          else read
              (record {
                version = protocol_version;
                kind = kind;
                request_id = id;
                payload = payload;
              })
              rest)
unfolding read_message
read_message-write_message encode decode writer calls kind id payload rest codec e =
    let (known, good) = write_message_valid encode writer calls kind id payload e in
    let same = write_message_lem encode writer calls kind id payload known good in
    tested_null (is_null payload) message_error _ (message_of kind id payload) rest
      (ap (λ (w : Written). read_json decode (w.bytes ++ rest)) same
        ∙ read_json-write_json encode decode writer calls (message_of kind id payload) rest codec
            (sym (ap Written.error same) ∙ e))
      (message_of_error encode writer calls kind id payload known good)
