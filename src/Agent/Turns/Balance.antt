-- ===== src/Agent/Turns/Balance.antt =====
-- `start_turn` and the registry: what is reserved is held by a turn or given back.
use mathlib.Core.Path.{subst}
use aisummoner.Prelude.{
  ℕ, suc, ◌≡◌, refl, sym, ap, ◌∙◌, Bool, true, false, Option, none, some, delete, leb, Bool-cases,
  Option-cases, ==_self, ◌==◌, inl, inr, length,
}
use aisummoner.Store.Data.{RowId, Time, Bytes, AgentSession, bytes_eq}
use aisummoner.Store.Driver.{Exec, Error, Result, ok, err, World, conflict}
use aisummoner.Store.Sessions.{
  begin_agent_turn, agent_session_by_owner, create_agent_message, update_agent_external_session_id,
}
use aisummoner.Agent.Target.{ExecutionTarget, execution_target}
use aisummoner.Store.Devices.{device_by_owner}
use aisummoner.Agent.Registry.Exclusive.{passed}
use aisummoner.Prelude.Keyed.{has_key}
use aisummoner.Agent.Registry.{
  Registry, is_revoked_session, RunningTurn, Refusal, is_running, put, new_turn, add_turn,
  release_turn, reserve_turn, begin_mutation, end_mutation, session_refusal, closed_refusal, admit,
}
use aisummoner.Prelude.Deletion.{delete_absent}
use aisummoner.Agent.Service.{
  Failure, invalid_request, invalid_state, provider_unavailable, runtime_failed, Server, Answer,
  gives, fails, Serve, give, fail, ◌>>=◌, require, found, map_store_not_found, stored, admitted,
  finally, unless_given, mutation, mark_failed, bind_answer, stored_answer, released,
  admitted_answer,
}
use aisummoner.Agent.Turns.{
  Adapter, TurnRequest, prepare_session, preflight, store_external, or_mark_failed, begun, marking,
  begin_turn_of, start_turn, validate_message, user_message, external_id,
}

-- The registry is as before.
abbrev Apart : {A : Type 0} → Serve A → Type 0
Apart m = (s : Server) → (m s).1.registry ≡ s.registry

-- The same as a record, so that the computation can be read off a goal.
record Still {A : Type 0} (m : Serve A) : Type 0 where
  at : Apart m

module _ {A B : Type 0} where
  bind-Apart : (m : Serve A) (f : A → Serve B) → Apart m → ((a : A) → Apart (f a)) → Apart (m >>= f)
  bind-Apart m f h k s = bound (m s) (h s)
    where
      bound :
          (r : Answer A × Server)
          → r.1.registry ≡ s.registry
          → (bind_answer r f).1.registry ≡ s.registry
      bound (gives a, t) e = k a t ∙ e
      bound (fails x, t) e = e

  bind-Still : (m : Serve A) (f : A → Serve B) → Still m → ((a : A) → Still (f a)) → Still (m >>= f)
  bind-Still m f h k = record { at = bind-Apart m f h.at (λ a. (k a).at) }

module _ {A : Type 0} where
  stored-Apart : (f : Error → Failure) (m : Exec A) → Apart (stored f m)
  stored-Apart f m s = answered (m s.world)
    where
      answered : (r : Result A × World) → (stored_answer f r s.registry).1.registry ≡ s.registry
      answered (ok a, w) = refl
      answered (err e, w) = refl

mark_failed-Apart : (u i : RowId) (now : ℕ → Time) → Apart (mark_failed u i now)
mark_failed-Apart u i now s = elim (Bool-cases (is_revoked_session i s.registry)) [
  | inl h ↦ rw h refl
  | inr h ↦ rw h refl
]

or_mark_failed-Apart :
    {A : Type 0} (u i : RowId) (now : ℕ → Time) (r : Result A × World) (s : Server)
    → (or_mark_failed u i now r s).1.registry ≡ s.registry
or_mark_failed-Apart u i now (ok a, w) s = refl
or_mark_failed-Apart u i now (err e, w) s =
    bind-Apart (mark_failed u i now) (λ _. fail (map_store_not_found e)) (mark_failed-Apart u i now)
      (λ a t. refl) (record s { world = w })

begun-Apart :
    (u i : RowId) (now : ℕ → Time) (r : Result (Unit {0}) × World) (s : Server)
    → (begun u i now r s).1.registry ≡ s.registry
begun-Apart u i now (err conflict, w) s = refl
begun-Apart u i now r s = or_mark_failed-Apart u i now r s

store_external-Apart :
    (u i : RowId) (now : Time) (old : Bytes) (p : Option Bytes)
    → Apart (store_external u i now old p)
store_external-Apart u i now old none s = refl
store_external-Apart u i now old (some p) s = elim (Bool-cases (leb (length p) 0)) [
  | inl e ↦ rw e refl
  | inr e ↦ elim (Bool-cases (bytes_eq p old)) [
    | inl h ↦ rw (e, h) refl
    | inr h ↦
        rw (e, h)
          (bind-Apart (stored map_store_not_found (update_agent_external_session_id u i p now))
            (λ _. give p)
            (stored-Apart map_store_not_found (update_agent_external_session_id u i p now))
            (λ x t. refl) s)
  ]
]

prepare-Apart :
    (a : Adapter) (u : RowId) (s : AgentSession) (t : ExecutionTarget) (now : Time)
    → Apart (prepare_session a u s t now)
unfolding prepare_session
prepare-Apart a u s t now = elim (Option-cases a.prepares) [
  | inl e ↦ rw e (λ r. refl)
  | inr (f, e) ↦ rw e (store_external-Apart u s.id now (external_id s) (f (external_id s) t))
]

require-Apart : (b : Bool) (e : Failure) → Apart (require b e)
require-Apart true e s = refl
require-Apart false e s = refl

preflight-Apart : (a : Adapter) (x c : Bytes) (t : ExecutionTarget) → Apart (preflight a x c t)
preflight-Apart a x c t = elim (Option-cases a.preflights) [
  | inl e ↦ rw e (λ r. refl)
  | inr (f, e) ↦ rw e (require-Apart (f x c t) runtime_failed)
]

-- The three statements of the start.
abbrev begins : Adapter → TurnRequest → AgentSession → Serve (Unit {0})
begins a q s r = begun q.owner s.id q.failed_at (begin_agent_turn q.owner s.id q.now r.world) r

abbrev rereads : TurnRequest → AgentSession → Serve AgentSession
rereads q s = marking q.owner q.session_id q.failed_at (agent_session_by_owner q.owner s.id)

abbrev writes : TurnRequest → AgentSession → Serve (Unit {0})
writes q s = marking q.owner s.id q.failed_at (create_agent_message q.owner (user_message q s))

begins-Apart : (a : Adapter) (q : TurnRequest) (s : AgentSession) → Apart (begins a q s)
begins-Apart a q s r =
    begun-Apart q.owner s.id q.failed_at (begin_agent_turn q.owner s.id q.now r.world) r

rereads-Apart : (q : TurnRequest) (s : AgentSession) → Apart (rereads q s)
rereads-Apart q s r =
    or_mark_failed-Apart q.owner q.session_id q.failed_at
      (agent_session_by_owner q.owner s.id r.world) r

writes-Apart : (q : TurnRequest) (s : AgentSession) → Apart (writes q s)
writes-Apart q s r =
    or_mark_failed-Apart q.owner s.id q.failed_at
      (create_agent_message q.owner (user_message q s) r.world) r

begin_turn_of-Still :
    (a : Adapter) (q : TurnRequest) (s : AgentSession) (t : ExecutionTarget)
    → Still (begin_turn_of a q s t)
unfolding begin_turn_of
begin_turn_of-Still a q s t =
    bind-Still (prepare_session a q.owner s t q.prepared_at) _
      (record { at = prepare-Apart a q.owner s t q.prepared_at })
      (λ x.
        bind-Still (preflight a x q.content t) _ (record { at = preflight-Apart a x q.content t })
          (λ _.
            bind-Still (begins a q s) _ (record { at = begins-Apart a q s })
              (λ _.
                bind-Still (rereads q s) _ (record { at = rereads-Apart q s })
                  (λ s'.
                    bind-Still (writes q s') (λ _. give (user_message q s'))
                      (record { at = writes-Apart q s' }) (λ _. record { at = λ r. refl })))))

-- What an answer says of the registry before and after.
abbrev pub Balanced : {A : Type 0} → Registry → Answer A × Server → Type 0
Balanced r (gives a, s) =
    (s.registry.turns ≡ suc r.turns)
    × (s.registry.mutations ≡ r.mutations)
    × (length s.registry.running ≡ suc (length r.running))
Balanced r (fails e, s) =
    (s.registry.turns ≡ r.turns)
    × (s.registry.mutations ≡ r.mutations)
    × (s.registry.running ≡ r.running)
    × (s.registry.configuring ≡ r.configuring)

record Fair {A : Type 0} (m : Serve A) : Type 0 where
  at : (s : Server) → Balanced s.registry (m s)

bind-Fair :
    {A B : Type 0} (m : Serve A) (f : A → Serve B)
    → Still m
    → ((a : A) → Fair (f a))
    → Fair (m >>= f)
bind-Fair {A} {B} m f h k = record { at = λ s. bound s.registry (m s) (h.at s) }
  where
    bound :
        (reg : Registry) (r : Answer A × Server)
        → r.1.registry ≡ reg
        → Balanced reg (bind_answer r f)
    bound reg (gives a, t) e = subst (λ g. Balanced g (f a t)) e ((k a).at t)
    bound reg (fails x, t) e = (
      ap Registry.turns e,
      ap Registry.mutations e,
      ap Registry.running e,
      ap Registry.configuring e,
    )

released-Balanced :
    {A : Type 0} (r : Registry) (a : Answer A) (w : World) (o : Option Registry)
    (reg next : Registry)
    → o ≡ some next
    → Balanced r (a, record { world = w; registry = next })
    → Balanced r (released a w o reg)
released-Balanced r a w o reg next e h = subst (λ k. Balanced r (released a w k reg)) (sym e) h

entered :
    {A : Type 0} (o : Option Refusal) (after : Registry) (s : Server) (f : Unit {0} → Serve A)
    → (o ≡ none → Balanced s.registry (f tt (record { world = s.world; registry = after })))
    → Balanced s.registry (bind_answer (admitted_answer (admit o after s.registry) s.world) f)
entered none after s f h = h refl
entered (some e) after s f h = (refl, refl, refl, refl)

module _ (i device user : RowId) where
  put_back :
      (r : Registry)
      → is_running i r ≡ false
      → delete
          (has_key RunningTurn.session_id i)
          (put RunningTurn.session_id (new_turn i device user) r.running)
        ≡ r.running
  unfolding put delete
  put_back r idle =
      rw (==_self i, delete_absent RunningTurn.session_id i r.running idle)
        (delete_absent RunningTurn.session_id i r.running idle)

  added :
      (r : Registry)
      → is_running i r ≡ false
      → length (put RunningTurn.session_id (new_turn i device user) r.running)
        ≡ suc (length r.running)
  unfolding put
  added r idle = ap (λ k. suc (length k)) (delete_absent RunningTurn.session_id i r.running idle)

  -- The registry once the turn is given back.
  abbrev given_back : Registry → Registry
  given_back r = record r {
    running =
        delete (has_key RunningTurn.session_id i)
          (put RunningTurn.session_id (new_turn i device user) r.running);
    pending = delete (λ p. p.session_id == i) r.pending;
  }

  held-Balanced :
      {A : Type 0} (r : Registry) (x : Answer A × Server)
      → is_running i r ≡ false
      → x.1.registry ≡ add_turn (new_turn i device user) r
      → Balanced r (unless_given (release_turn i) x)
  unfolding release_turn
  held-Balanced r (gives a, t) idle e = (
    ap Registry.turns e,
    ap Registry.mutations e,
    ap (λ g. length (Registry.running g)) e ∙ added r idle,
  )
  held-Balanced r (fails x, t) idle e =
      released-Balanced r (fails x) t.world (release_turn i t.registry) t.registry (given_back r)
        (ap (release_turn i) e) (refl, refl, put_back r idle, refl)

  reserve-Fair :
      {A : Type 0} (body : Serve A)
      → Still body
      → Fair
          (admitted (reserve_turn i device user) >>= λ _ s. unless_given (release_turn i) (body s))
  unfolding reserve_turn
  reserve-Fair body still = record {
    at = λ s.
        entered (session_refusal i s.registry) (add_turn (new_turn i device user) s.registry) s _
          (λ is.
            held-Balanced s.registry
              (body (record {
                world = s.world;
                registry = add_turn (new_turn i device user) s.registry;
              }))
              (passed i s.registry is).1 (still.at _));
  }

mutated-Balanced :
    {A : Type 0} (r : Registry) (x : Answer A × Server)
    → Balanced (record r { mutations = suc r.mutations }) x
    → Balanced r (finally end_mutation x)
unfolding end_mutation
mutated-Balanced r (gives a, t) (turns, mutations, more) =
    released-Balanced r (gives a) t.world (end_mutation t.registry) t.registry
      (record t.registry { mutations = r.mutations }) (rw mutations refl) (turns, refl, more)
mutated-Balanced r (fails x, t) (turns, mutations, running, configuring) =
    released-Balanced r (fails x) t.world (end_mutation t.registry) t.registry
      (record t.registry { mutations = r.mutations }) (rw mutations refl)
      (turns, refl, running, configuring)

mutation-Fair : {A : Type 0} (m : Serve A) → Fair m → Fair (mutation m)
unfolding mutation begin_mutation
mutation-Fair m h = record {
  at = λ s.
      entered (closed_refusal s.registry)
        (record s.registry { mutations = suc s.registry.mutations }) s _
        (λ _.
          mutated-Balanced s.registry
            (m (record {
              world = s.world;
              registry = record s.registry { mutations = suc s.registry.mutations };
            }))
            (h.at _));
}

found-Apart : {A : Type 0} (o : Option A) (e : Failure) → Apart (found o e)
found-Apart none e s = refl
found-Apart (some a) e s = refl

-- A start that succeeds adds one turn to the registry and to the wait group of turns. One that fails, at
-- whichever step and whatever the store and the adapter do, leaves the turns, the counts of both
-- wait groups and the configurations as they were before.
pub start_turn-Balanced :
    (valid_text is_blank : Bytes → Bool) (adapters : RowId → Option Adapter) (q : TurnRequest)
    (s : Server)
    → Balanced s.registry (start_turn valid_text is_blank adapters q s)
unfolding start_turn
start_turn-Balanced valid_text is_blank adapters q s =
    (mutation-Fair _ (
        bind-Fair (require (validate_message valid_text is_blank q.content) invalid_request) _
          (record {
            at = require-Apart (validate_message valid_text is_blank q.content) invalid_request;
          })
          (λ _.
            bind-Fair (stored map_store_not_found (agent_session_by_owner q.owner q.session_id)) _
              (record {
                at = stored-Apart map_store_not_found (agent_session_by_owner q.owner q.session_id);
              })
              (λ session.
                bind-Fair (found (adapters session.provider) provider_unavailable) _
                  (record { at = found-Apart (adapters session.provider) provider_unavailable })
                  (λ adapter.
                    bind-Fair
                      (stored map_store_not_found (device_by_owner q.owner session.device_id)) _
                      (record {
                        at =
                            stored-Apart map_store_not_found
                              (device_by_owner q.owner session.device_id);
                      })
                      (λ device.
                        bind-Fair
                          (found (execution_target device.platform device.arch) invalid_state) _
                          (record {
                            at =
                                found-Apart (execution_target device.platform device.arch)
                                  invalid_state;
                          })
                          (λ target.
                            reserve-Fair session.id session.device_id q.owner
                              (begin_turn_of adapter q session target)
                              (begin_turn_of-Still adapter q session target)))))))).at
      s
