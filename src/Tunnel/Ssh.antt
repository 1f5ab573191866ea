-- ===== src/Tunnel/Ssh.antt =====
-- internal/tunnel/manager.go: `OpenSSH`, which takes a stream of the session of a connection with its signer.
-- The answers of the session, the context, the random source and the stream are a record of the run.
use aisummoner.Prelude.{
  ℕ, ◌≡◌, ◌≢◌, refl, Bool, true, not, ◌&&◌, Option, none, some, if◌then◌else◌, arith, Option-cases,
  inl, inr, Bool-cases, false, sym, ap, ◌∙◌, ◌⊎◌,
}
use mathlib.Core.Path.{subst}
use aisummoner.Store.Data.{RowId}
use aisummoner.Tunnel.Manager.{Manager, closed_at, is_online, get}

pub data SshError : Type 0 where
  context_ended device_offline connection_replaced setup_failed : SshError

-- Which case a `select` takes: the one to go on, `ctx.Done()`, or `connection.Done()`.
pub data Choice : Type 0 where
  go_on ended replaced : Choice

-- `session.OpenStream` gives a stream or an error, or the context ends before.
pub data StreamChoice : Type 0 where
  stream_opened stream_refused stream_ended : StreamChoice

pub record SshAnswers : Type 0 where
  pub ended_before : Bool
  pub slot : Choice
  pub stream : StreamChoice
  pub set_deadline : Bool
  pub new_id : Bool
  pub write_header : Bool
  pub clear_deadline : Bool
  pub last : Choice

-- Where the stream is in the end: there was none, the caller has it with the signer of connection `p`, it is
-- closed, or it will be closed if it comes.
pub data Stream : Type 0 where
  no_stream : Stream
  handed_over : ℕ → Stream
  stream_closed : Stream
  closed_when_opened : Stream

pub record SshResult : Type 0 where
  pub error : Option SshError
  pub stream : Stream

abbrev failed : SshError → Stream → SshResult
failed e s = record { error = some e; stream = s }

unfoldable pub ssh_credentials : ℕ → Manager → Bool
ssh_credentials p m = not (closed_at p m) && (m.heap p).has_credentials

abbrev choice_error : Choice → Option SshError
choice_error go_on = none
choice_error ended = some context_ended
choice_error replaced = some connection_replaced

-- The statements after the stream is there, up to the first that fails.
unfoldable pub setup_error : SshAnswers → Option SshError
setup_error a =
    if a.set_deadline && a.new_id && a.write_header && a.clear_deadline
    then choice_error (a.last)
    else some setup_failed

-- `closeOnError` is true until the last statement.
unfoldable pub with_stream : ℕ → SshAnswers → SshResult
with_stream p a = elim (setup_error a) [
  | none ↦ record { error = none; stream = handed_over p }
  | some e ↦ failed e stream_closed
]

unfoldable pub open_stream : ℕ → StreamChoice → SshAnswers → SshResult
open_stream p stream_opened a = with_stream p a
open_stream p stream_refused a = failed device_offline no_stream
open_stream p stream_ended a = failed context_ended closed_when_opened

unfoldable pub enter_setup : ℕ → Choice → SshAnswers → SshResult
enter_setup p go_on a = open_stream p (a.stream) a
enter_setup p ended a = failed context_ended no_stream
enter_setup p replaced a = failed connection_replaced no_stream

unfoldable pub open_ssh : SshAnswers → RowId → Manager → SshResult
open_ssh a d m = if a.ended_before then failed context_ended no_stream else elim (m.connections d) [
  | none ↦ failed device_offline no_stream
  | some p ↦
      if ssh_credentials p m then enter_setup p (a.slot) a else failed device_offline no_stream
]

-- The call comes to `session.OpenStream`, on this connection.
abbrev pub Reached : SshAnswers → RowId → Manager → ℕ → Type 0
Reached a d m p =
    (a.ended_before ≡ false)
    × (m.connections d ≡ some p)
    × (closed_at p m ≡ false)
    × ((m.heap p).has_credentials ≡ true)
    × (a.slot ≡ go_on)

-- The stream's deadline, its header and the last test of the context and the connection have no error.
abbrev pub IsReady : SshAnswers → Type 0
IsReady a =
    (a.set_deadline ≡ true)
    × (a.new_id ≡ true)
    × (a.write_header ≡ true)
    × (a.clear_deadline ≡ true)
    × (a.last ≡ go_on)

-- What is promised of a call that came to `OpenStream` on connection `p`.
pub record OpensOn (a : SshAnswers) (p : ℕ) (r : SshResult) : Type 0 where
  success :
      a.stream ≡ stream_opened → IsReady a → r ≡ record { error = none; stream = handed_over p }
  unready : a.stream ≡ stream_opened → ¬ IsReady a → (r.error ≢ none) × (r.stream ≡ stream_closed)
  refused : a.stream ≡ stream_refused → r ≡ failed device_offline no_stream
  late : a.stream ≡ stream_ended → r ≡ failed context_ended closed_when_opened
  only : r.error ≡ none → (a.stream ≡ stream_opened) × IsReady a

pub record SshSays (a : SshAnswers) (d : RowId) (m : Manager) (r : SshResult) : Type 0 where
  reached : (p : ℕ) → Reached a d m p → OpensOn a p r
  unreached : ((p : ℕ) → ¬ Reached a d m p) → (r.error ≢ none) × (r.stream ≡ no_stream)
  only :
      r.error ≡ none
      → (p : ℕ) × (r.stream ≡ handed_over p)
        × Reached a d m p
        × (get d m ≡ some p)
        × (is_online d m ≡ true)

-- The conditions of `IsReady`, of which the code takes the first that fails.
setup_of :
    (deadline id header clear : Bool) (last : Choice)
    → ((if deadline && id && header && clear then choice_error last else some setup_failed) ≡ none)
    → (deadline ≡ true) × (id ≡ true) × (header ≡ true) × (clear ≡ true) × (last ≡ go_on)
setup_of false id header clear last e = absurd (cc e)
setup_of true false header clear last e = absurd (cc e)
setup_of true true false clear last e = absurd (cc e)
setup_of true true true false last e = absurd (cc e)
setup_of true true true true go_on e = (refl, refl, refl, refl, refl)
setup_of true true true true ended e = absurd (cc e)
setup_of true true true true replaced e = absurd (cc e)

setup_error-IsReady : (a : SshAnswers) → setup_error a ≡ none → IsReady a
unfolding setup_error
setup_error-IsReady a e = setup_of a.set_deadline a.new_id a.write_header a.clear_deadline a.last e

IsReady-setup_error : (a : SshAnswers) → IsReady a → setup_error a ≡ none
unfolding setup_error
IsReady-setup_error a (deadline, id, header, clear, last) =
    rw (deadline, id, header, clear, last) refl

with_stream_says :
    (p : ℕ) (a : SshAnswers) → a.stream ≡ stream_opened → OpensOn a p (with_stream p a)
unfolding with_stream
with_stream_says p a opened = elim (Option-cases (setup_error a)) [
  | inl ok ↦
      rw (ok, with_stream)
        (record {
          success = λ s ready. refl;
          unready = λ s n. absurd (n (setup_error-IsReady a ok));
          refused = λ s. absurd (cc (opened, s));
          late = λ s. absurd (cc (opened, s));
          only = λ e. (opened, setup_error-IsReady a ok);
        })
  | inr (x, bad) ↦
      rw (bad, with_stream)
        (record {
          success = λ s ready. absurd (cc (bad, IsReady-setup_error a ready));
          unready = λ s n. ((λ e. cc e), refl);
          refused = λ s. absurd (cc (opened, s));
          late = λ s. absurd (cc (opened, s));
          only = λ e. absurd (cc e);
        })
]

open_stream_says :
    (p : ℕ) (c : StreamChoice) (a : SshAnswers) → a.stream ≡ c → OpensOn a p (open_stream p c a)
unfolding open_stream
open_stream_says p stream_opened a is = with_stream_says p a is
open_stream_says p stream_refused a is = record {
  success = λ s ready. absurd (cc (is, s));
  unready = λ s n. absurd (cc (is, s));
  refused = λ s. refl;
  late = λ s. absurd (cc (is, s));
  only = λ e. absurd (cc e);
}
open_stream_says p stream_ended a is = record {
  success = λ s ready. absurd (cc (is, s));
  unready = λ s n. absurd (cc (is, s));
  refused = λ s. absurd (cc (is, s));
  late = λ s. refl;
  only = λ e. absurd (cc e);
}

if_true : (b : Bool) (x y : SshResult) → b ≡ true → (if b then x else y) ≡ x
if_true true x y e = refl
if_true false x y e = absurd (cc e)

if_false : (b : Bool) (x y : SshResult) → b ≡ false → (if b then x else y) ≡ y
if_false false x y e = refl
if_false true x y e = absurd (cc e)

open_ssh-Reached :
    (a : SshAnswers) (d : RowId) (m : Manager) (p : ℕ)
    → Reached a d m p
    → open_ssh a d m ≡ open_stream p a.stream a
unfolding open_ssh ssh_credentials enter_setup
open_ssh-Reached a d m p (live, at, opened, signer, slot) =
    if_false _ _ _ live
    ∙ ap
        (λ (o : Option ℕ). elim o [
          | none ↦ failed device_offline no_stream
          | some q ↦
              if ssh_credentials q m
              then enter_setup q a.slot a
              else failed device_offline no_stream
        ])
        at
    ∙ if_true (ssh_credentials p m) _ _ (ground (arith, opened, signer))
    ∙ ap (λ (c : Choice). enter_setup p c a) slot

-- An error without a stream.
abbrev GivesNothing : SshResult → Type 0
GivesNothing r = (r.error ≢ none) × (r.stream ≡ no_stream)

entered : (p : ℕ) (c : Choice) (a : SshAnswers) → (c ≡ go_on) ⊎ GivesNothing (enter_setup p c a)
unfolding enter_setup
entered p go_on a = inl refl
entered p ended a = inr ((λ e. cc e), refl)
entered p replaced a = inr ((λ e. cc e), refl)

-- A call that does not come to `OpenStream` has an error and no stream.
open_ssh_cases :
    (a : SshAnswers) (d : RowId) (m : Manager)
    → ((p : ℕ) × Reached a d m p) ⊎ GivesNothing (open_ssh a d m)
unfolding open_ssh ssh_credentials
open_ssh_cases a d m = elim (Bool-cases a.ended_before) [
  | inl over ↦ inr (rw over ((λ e. cc e), refl))
  | inr live ↦ elim (Option-cases (m.connections d)) [
    | inl off ↦ inr (rw (live, off) ((λ e. cc e), refl))
    | inr (p, at) ↦ elim (Bool-cases (ssh_credentials p m)) [
      | inl good ↦ elim (entered p a.slot a) [
        | inl slot ↦ inl (p, (live, at, ground (arith, good), ground (arith, good), slot))
        | inr nothing ↦ inr (rw (live, at, good) nothing)
      ]
      | inr bad ↦ inr (rw (live, at, bad) ((λ e. cc e), refl))
    ]
  ]
]

-- A call of `OpenSSH` comes to `OpenStream` exactly when the context has not ended, the map has a connection for
-- the device that is not closed and has its signer, and the setup slot is taken before the context or the
-- connection ends. Otherwise it has an error and there is no stream. Then it has no error exactly when the
-- stream is opened, its deadline, the request's id, the header and the clearing of the deadline succeed,
-- and neither the context nor the connection has ended at the last test; the stream is then handed over
-- with this connection, which was online. When one of these fails, the opened stream is closed. A stream
-- that was not there when the context ended is closed when it comes, and a refused one is an error.
pub open_ssh_sound : (a : SshAnswers) (d : RowId) (m : Manager) → SshSays a d m (open_ssh a d m)
unfolding get is_online
open_ssh_sound a d m = elim (open_ssh_cases a d m) [
  | inl (p, reached) ↦
      let same = open_ssh-Reached a d m p reached in
      let says = open_stream_says p a.stream a refl in
      let (live, at, opened, signer, slot) = reached in
      record {
        reached = λ q again.
            subst (OpensOn a q) (sym (open_ssh-Reached a d m q again))
              (open_stream_says q a.stream a refl);
        unreached = λ none. absurd (none p reached);
        only = λ e.
            let ready = says.only (sym (ap SshResult.error same) ∙ e) in
            (
              p,
              ap SshResult.stream same ∙ ap SshResult.stream (says.success (ready.0) (ready.1)),
              reached,
              at,
              rw (is_online, get, at) (ground (arith, opened)),
            );
      }
  | inr nothing ↦ record {
    reached = λ p reached.
        subst (OpensOn a p) (sym (open_ssh-Reached a d m p reached))
          (open_stream_says p a.stream a refl);
    unreached = λ n. nothing;
    only = λ e. absurd (nothing.0 e);
  }
]
