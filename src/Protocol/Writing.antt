-- ===== src/Protocol/Writing.antt =====
-- internal/protocol/control.go: `writeFull` and the frames that are written.
use aisummoner.Prelude.{
  ℕ, zero, suc, ◌-◌, ◌≤◌, ◌<◌, ◌==◌, ◌≡◌, ◌≢◌, refl, ap, ◌∙◌, sym, true, false, Option, none, some,
  [], ◌∷◌, ◌++◌, length, take, ltb, arith, inl, inr, Bool-cases,
}
use mathlib.Core.List.{append-nil, append_assoc}
use aisummoner.Store.Data.{Bytes}
use aisummoner.Pairing.{drop}
use aisummoner.Pairing.Codes.{take-append-drop}
use aisummoner.Protocol.{
  ProtocolError, write_failed, short_write, slice_panic, out_of_fuel, WriteAnswer, Writer, Written,
  more, after_write, write_loop, write_full, after_first, then_write, write_frame, put_uint32,
  max_control_frame_bytes,
}

-- The answer of a call to which `io.Writer` gives no error: it takes some of the bytes, and at least one.
abbrev pub TakesSome : WriteAnswer → Bytes → Type 0
TakesSome a contents = (a.failed ≡ false) × (0 < a.written) × (a.written ≤ length contents)

-- From the call with this number on, the writer takes the contents in calls that all succeed.
pub data Completes (writer : Writer) : ℕ → Bytes → Type 0 where
  nothing_left : (calls : ℕ) → Completes writer calls []
  takes :
      (calls : ℕ) (contents : Bytes)
      → TakesSome (writer calls contents) contents
      → Completes writer (suc calls) (drop (writer calls contents).written contents)
      → Completes writer calls contents

-- A writer that takes some of all bytes it is given.
abbrev pub IsHonest : Writer → Type 0
IsHonest writer =
    (calls : ℕ) (contents : Bytes) → contents ≢ [] → TakesSome (writer calls contents) contents

-- What is promised of writing the contents, where the writer had this number of calls before.
pub record WriteSays (writer : Writer) (calls : ℕ) (contents : Bytes) (w : Written) : Type 0 where
  ends : w.error ≢ some out_of_fuel
  prefix : (rest : Bytes) × (w.bytes ++ rest ≡ contents) × (w.error ≡ none → rest ≡ [])
  sound : w.error ≡ none → Completes writer calls contents
  complete : Completes writer calls contents → w.error ≡ none

length-drop : (n : ℕ) (xs : Bytes) → length (drop n xs) ≡ length xs - n
length-drop zero xs = omega arith
length-drop (suc n) [] = omega arith
length-drop (suc n) (x ∷ xs) = omega (arith, length-drop n xs)

after_write_gives :
    (P : Written → Type 0) (a : WriteAnswer) (contents : Bytes) (calls : ℕ) (rest : Written)
    → (a.failed ≡ true
        → P (record { error = some write_failed; bytes = take a.written contents; calls = calls }))
    → (a.written ≡ 0 → P (record { error = some short_write; bytes = []; calls = calls }))
    → (length contents < a.written
        → P (record { error = some slice_panic; bytes = contents; calls = calls }))
    → (TakesSome a contents → P (more (take a.written contents) rest))
    → P (after_write a contents calls rest)
unfolding after_write
after_write_gives P a contents calls rest failed empty panics goes_on = elim (Bool-cases a.failed) [
  | inl bad ↦ rw bad (failed bad)
  | inr good ↦ elim (Bool-cases (a.written == 0)) [
    | inl nothing ↦ rw (good, nothing) (empty (ground (arith, nothing)))
    | inr something ↦ elim (Bool-cases (ltb (length contents) a.written)) [
      | inl large ↦ rw (good, something, large) (panics (ground (arith, large)))
      | inr fits ↦
          rw (good, something, fits)
            (goes_on (good, ground (arith, something), ground (arith, fits)))
    ]
  ]
]

Completes_takes :
    (writer : Writer) (calls : ℕ) (contents : Bytes)
    → Completes writer calls contents
    → contents ≢ []
    → TakesSome (writer calls contents) contents
      × Completes writer (suc calls) (drop (writer calls contents).written contents)
Completes_takes writer i xs (nothing_left calls) n = absurd (n refl)
Completes_takes writer i xs (takes calls contents some_bytes then) n = (some_bytes, then)

take-drop_prefix :
    (n : ℕ) (contents bytes rest : Bytes)
    → bytes ++ rest ≡ drop n contents
    → (take n contents ++ bytes) ++ rest ≡ contents
take-drop_prefix n contents bytes rest e =
    append_assoc (take n contents) bytes rest
    ∙ ap (λ zs. take n contents ++ zs) e
    ∙ take-append-drop n contents

-- A loop with as much fuel as bytes.
write_loop_says :
    (writer : Writer) (fuel calls : ℕ) (contents : Bytes)
    → length contents ≤ fuel
    → WriteSays writer calls contents (write_loop fuel writer calls contents)
unfolding write_loop
write_loop_says writer fuel calls [] h = record {
  ends = λ e. cc e;
  prefix = ([], refl, λ e. refl);
  sound = λ e. nothing_left calls;
  complete = λ c. refl;
}
write_loop_says writer zero calls (c ∷ cs) h = absurd (omega (arith, h))
write_loop_says writer (suc fuel) calls (c ∷ cs) h =
    let contents : Bytes = c ∷ cs in
    let a : WriteAnswer = writer calls contents in
    after_write_gives (WriteSays writer calls contents) a contents (suc calls)
      (write_loop fuel writer (suc calls) (drop a.written contents))
      (λ bad. record {
        ends = λ e. cc e;
        prefix = (drop a.written contents, take-append-drop a.written contents, λ e. absurd (cc e));
        sound = λ e. absurd (cc e);
        complete = λ done.
            let (some_bytes, then) = Completes_takes writer calls contents done (λ e. cc e) in
            absurd (cc (bad, some_bytes.0));
      })
      (λ nothing. record {
        ends = λ e. cc e;
        prefix = (contents, refl, λ e. absurd (cc e));
        sound = λ e. absurd (cc e);
        complete = λ done.
            let (some_bytes, then) = Completes_takes writer calls contents done (λ e. cc e) in
            absurd (omega (arith, nothing, some_bytes.1));
      })
      (λ large. record {
        ends = λ e. cc e;
        prefix = ([], append-nil contents, λ e. refl);
        sound = λ e. absurd (cc e);
        complete = λ done.
            let (some_bytes, then) = Completes_takes writer calls contents done (λ e. cc e) in
            absurd (omega (arith, large, some_bytes.2));
      })
      (λ some_bytes.
        let later =
          write_loop_says writer fuel (suc calls) (drop a.written contents)
            (omega (arith, h, some_bytes.1, length-drop a.written contents)) in
        let (rest, e, whole) = later.prefix in
        record {
          ends = later.ends;
          prefix = (rest, take-drop_prefix a.written contents _ rest e, whole);
          sound = λ n. takes calls contents some_bytes (later.sound n);
          complete =
              λ done. later.complete (Completes_takes writer calls contents done (λ x. cc x)).1;
        })

IsHonest-Completes :
    (writer : Writer) (fuel calls : ℕ) (contents : Bytes)
    → IsHonest writer
    → length contents ≤ fuel
    → Completes writer calls contents
IsHonest-Completes writer fuel calls [] honest h = nothing_left calls
IsHonest-Completes writer zero calls (c ∷ cs) honest h = absurd (omega (arith, h))
IsHonest-Completes writer (suc fuel) calls (c ∷ cs) honest h =
    let some_bytes = honest calls (c ∷ cs) (λ e. cc e) in
    takes calls (c ∷ cs) some_bytes (
      IsHonest-Completes writer fuel (suc calls) _ honest
        (omega (arith, h, some_bytes.1, length-drop (writer calls (c ∷ cs)).written (c ∷ cs))))

-- For any writer, also one that takes nothing, fails, or counts more than it was given, the loop ends within as
-- many calls as there are bytes. What the writer has, bytes of a call that fails included, is a prefix of
-- the contents, and all of them if there is no error. There is no error exactly when every call takes at
-- least one byte, not more than it is given, and does not fail, until nothing is left; so there is none for
-- a writer whose calls all do.
pub write_full_sound :
    (writer : Writer) (calls : ℕ) (contents : Bytes)
    → WriteSays writer calls contents (write_full writer calls contents)
      × (IsHonest writer → (write_full writer calls contents).error ≡ none)
unfolding write_full
write_full_sound writer calls contents =
    let says = write_loop_says writer (length contents) calls contents (omega arith) in
    (
      says,
      λ honest.
          says.complete
            (IsHonest-Completes writer (length contents) calls contents honest (omega arith)),
    )

pub write_full_complete :
    (writer : Writer) (calls : ℕ) (contents : Bytes)
    → (write_full writer calls contents).error ≡ none
    → (write_full writer calls contents).bytes ≡ contents
write_full_complete writer calls contents e =
    let w : Written = write_full writer calls contents in
    let (rest, p, whole) = (write_full_sound writer calls contents).0.prefix in
    sym (append-nil w.bytes) ∙ ap (λ zs. w.bytes ++ zs) (sym (whole e)) ∙ p

after_first_lem :
    (o : Option ProtocolError) (writer : Writer) (second : Bytes) (w : Written)
    → w.error ≡ o
    → (after_first o writer second w).error ≡ none
    → (w.error ≡ none)
      × ((write_full writer w.calls second).error ≡ none)
      × ((after_first o writer second w).bytes
          ≡ w.bytes ++ (write_full writer w.calls second).bytes)
after_first_lem none writer second w same e = (same, e, refl)
after_first_lem (some x) writer second w same e = absurd (cc (same, e))

then_write_complete :
    (writer : Writer) (calls : ℕ) (first second : Bytes)
    → (then_write writer second (write_full writer calls first)).error ≡ none
    → (then_write writer second (write_full writer calls first)).bytes ≡ first ++ second
then_write_complete writer calls first second e =
    let w : Written = write_full writer calls first in
    let (one, two, both) = after_first_lem (w.error) writer second w refl e in
    both
    ∙ ap (λ zs. zs ++ (write_full writer w.calls second).bytes)
        (write_full_complete writer calls first one)
    ∙ ap (λ zs. first ++ zs) (write_full_complete writer (w.calls) second two)

pub write_frame_sound :
    (writer : Writer) (calls : ℕ) (encoded : Bytes)
    → (write_frame writer calls encoded).error ≡ none
    → ((write_frame writer calls encoded).bytes ≡ put_uint32 (length encoded) ++ encoded)
      × (0 < length encoded)
      × (length encoded ≤ max_control_frame_bytes)
unfolding write_frame
write_frame_sound writer calls encoded e = elim (Bool-cases (length encoded == 0)) [
  | inl empty ↦ absurd (ground (arith, rw empty at e))
  | inr full ↦ elim (Bool-cases (ltb max_control_frame_bytes (length encoded))) [
    | inl large ↦ absurd (cc (rw (full, large) at e))
    | inr fits ↦ (
      rw (full, fits)
          (then_write_complete writer calls (put_uint32 (length encoded)) encoded
            (rw (full, fits) at e)),
      ground (arith, full),
      ground (arith, fits),
    )
  ]
]
