-- ===== src/Agent/Registry.antt =====
-- internal/agent/service.go: the maps that `Service` guards with its mutex, and one function for each
-- critical section. A map is a list of rows with distinct keys. A turn's context is its flag `cancelled`,
-- a `chan string` of capacity 1 is an `Option`, and a wait group is its counter.
pub mod Requests
pub mod Maps
pub mod Cases
pub mod Tombstones
pub mod Exclusive
pub mod Held
use aisummoner.Prelude.{
  ℕ, zero, suc, ◌==◌, Bool, true, false, ◌&&◌, Option, none, some, List, [], ◌∷◌, if◌then◌else◌,
  first, any, update, delete,
}
use aisummoner.Prelude.Keyed.{has_key}
use aisummoner.Store.Data.{RowId, Decision}

pub record RunningTurn : Type 0 where
  pub session_id : RowId
  pub device_id : RowId
  pub user_id : RowId
  pub cancelled : Bool

pub record PendingDecision : Type 0 where
  pub tool_call_id : RowId
  pub session_id : RowId
  pub device_id : RowId
  pub user_id : RowId
  pub decision : Option Decision

-- An entry of `revoked` or `archived`.
pub record Mark : Type 0 where
  pub session_id : RowId
  pub device_id : RowId

pub record Registry : Type 0 where
  pub running : List RunningTurn
  pub configuring : List RowId
  pub pending : List PendingDecision
  pub revoked : List Mark
  pub archived : List Mark
  pub closed : Bool
  pub mutations : ℕ
  pub turns : ℕ

pub data Refusal : Type 0 where
  service_closed not_found turn_in_progress : Refusal

-- `m[k] = x` for a map whose rows hold their key.
unfoldable pub put {ℓ} : {A : Type ℓ} → (A → ℕ) → A → List A → List A
put key x xs = x ∷ delete (has_key key (key x)) xs

abbrev pub is_running : RowId → Registry → Bool
is_running i r = any (has_key RunningTurn.session_id i) (r.running)

abbrev pub is_configuring : RowId → Registry → Bool
is_configuring i r = any (has_key (λ (j : RowId). j) i) (r.configuring)

abbrev pub is_revoked_session : RowId → Registry → Bool
is_revoked_session i r = any (has_key Mark.session_id i) (r.revoked)

abbrev pub is_archived : RowId → Registry → Bool
is_archived i r = any (has_key Mark.session_id i) (r.archived)

abbrev pub cancel_turn : RunningTurn → RunningTurn
cancel_turn t = record t { cancelled = true }

abbrev pub closed_refusal : Registry → Option Refusal
closed_refusal r = if r.closed then some service_closed else none

abbrev pub revoked_refusal : RowId → Registry → Option Refusal
revoked_refusal i r = if is_revoked_session i r then some not_found else none

-- An operation that is refused leaves the registry as it is.
abbrev pub admit : Option Refusal → Registry → Registry → Option Refusal × Registry
admit none after before = (none, after)
admit (some e) after before = (some e, before)

-- `Done` of a wait group, which panics when the counter is 0.
abbrev pub done : ℕ → (ℕ → Registry) → Option Registry
done zero after = none
done (suc n) after = some (after n)

-- The guards that `reserveTurn` and `reserveSessionConfiguration` share.
unfoldable pub session_refusal : RowId → Registry → Option Refusal
session_refusal i r =
    if r.closed
    then some service_closed
    else if is_revoked_session i r
    then some not_found
    else if is_archived i r
    then some not_found
    else if is_running i r
    then some turn_in_progress
    else if is_configuring i r
    then some turn_in_progress
    else none

abbrev pub new_turn : RowId → RowId → RowId → RunningTurn
new_turn i device user = record {
  session_id = i;
  device_id = device;
  user_id = user;
  cancelled = false;
}

abbrev pub add_turn : RunningTurn → Registry → Registry
add_turn t r = record r {
  turns = suc (r.turns);
  running = put RunningTurn.session_id t (r.running);
}

unfoldable pub reserve_turn : RowId → RowId → RowId → Registry → Option Refusal × Registry
reserve_turn i device user r = admit (session_refusal i r) (add_turn (new_turn i device user) r) r

unfoldable pub release_turn : RowId → Registry → Option Registry
release_turn i r = done (r.turns) (λ n. record r {
  turns = n;
  running = delete (has_key RunningTurn.session_id i) (r.running);
  pending = delete (λ p. p.session_id == i) (r.pending);
})

unfoldable pub reserve_session_configuration : RowId → Registry → Option Refusal × Registry
reserve_session_configuration i r =
    admit (session_refusal i r)
      (record r { configuring = put (λ (j : RowId). j) i (r.configuring) }) r

unfoldable pub release_session_configuration : RowId → Registry → Registry
release_session_configuration i r = record r {
  configuring = delete (has_key (λ (j : RowId). j) i) (r.configuring);
}

unfoldable pub begin_mutation : Registry → Option Refusal × Registry
begin_mutation r = admit (closed_refusal r) (record r { mutations = suc (r.mutations) }) r

unfoldable pub end_mutation : Registry → Option Registry
end_mutation r = done (r.mutations) (λ n. record r { mutations = n })

-- The part of `Close` under the mutex; the wait that follows is for `mutations` and `turns` to be 0.
unfoldable pub close : Registry → Registry
close r =
    if r.closed
    then r
    else record r { closed = true; running = update (λ t. true) cancel_turn (r.running) }

-- The cancellations follow the unlocking, in the same call.
unfoldable pub mark_session_revoked : RowId → RowId → Registry → Registry
mark_session_revoked device i r = if i == 0 then r else record r {
  revoked = put Mark.session_id (record { session_id = i; device_id = device }) (r.revoked);
  running = update (has_key RunningTurn.session_id i) cancel_turn (r.running);
}

unfoldable pub mark_device_revoked : RowId → List RowId → Registry → Registry
mark_device_revoked device [] r = r
mark_device_revoked device (i ∷ is) r =
    mark_device_revoked device is (mark_session_revoked device i r)

unfoldable pub cancel_device : RowId → Registry → Registry
cancel_device device r = record r {
  running = update (λ t. t.device_id == device) cancel_turn (r.running);
}

-- The end of `SetSessionArchived`, once the store has the change.
unfoldable pub note_archived : RowId → RowId → Bool → Registry → Registry
note_archived i device archived r =
    if archived
    then record r {
      archived = put Mark.session_id (record { session_id = i; device_id = device }) (r.archived);
    }
    else record r { archived = delete (has_key Mark.session_id i) (r.archived) }

-- The end of `DeleteSession`, once the store has the change.
unfoldable pub note_deleted : RowId → RowId → Registry → Registry
note_deleted i device r = record r {
  archived = delete (has_key Mark.session_id i) (r.archived);
  revoked = put Mark.session_id (record { session_id = i; device_id = device }) (r.revoked);
}

-- A decision is sent when the channel has room.
abbrev pub send_decision : Decision → PendingDecision → PendingDecision
send_decision d p = record p { decision = elim (p.decision) [ none ↦ some d | some e ↦ some e ] }

-- The end of `Decide`, once the store has the decision for a call of session `i`.
unfoldable pub deliver_decision :
    RowId → RowId → RowId → Decision → Registry → Option Refusal × Registry
deliver_decision owner tool i d r =
    admit (revoked_refusal i r)
      (record r {
        pending =
            update (λ p. p.tool_call_id == tool && p.user_id == owner) (send_decision d)
              (r.pending);
      })
      r

-- The first critical section of `installPending`.
unfoldable pub install_pending : PendingDecision → Registry → Option Refusal × Registry
install_pending p r =
    admit (if r.closed then some service_closed else revoked_refusal (p.session_id) r)
      (record r { pending = put PendingDecision.tool_call_id p (r.pending) }) r

unfoldable pub remove_pending : RowId → Registry → Registry
remove_pending tool r = record r {
  pending = delete (has_key PendingDecision.tool_call_id tool) (r.pending);
}
