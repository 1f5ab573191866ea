-- ===== src/Agent/Registry/Requests.antt =====
-- The critical sections of the service as requests, served one at a time in any order.
use aisummoner.Prelude.{◌≢◌, ◌≡◌, Bool, true, Option, some, List}
use aisummoner.Store.Data.{RowId, Decision}
use aisummoner.Agent.Registry.{
  PendingDecision, Registry, is_running, reserve_turn, release_turn, reserve_session_configuration,
  release_session_configuration, begin_mutation, end_mutation, close, mark_device_revoked,
  cancel_device, note_archived, note_deleted, deliver_decision, install_pending, remove_pending,
}

pub data Request : Type 0 where
  reserving_turn : RowId → RowId → RowId → Request
  releasing_turn : RowId → Request
  reserving_configuration releasing_configuration : RowId → Request
  beginning_mutation ending_mutation closing : Request
  revoking : RowId → List RowId → Request
  cancelling : RowId → Request
  archiving : RowId → RowId → Bool → Request
  deleting : RowId → RowId → Request
  delivering : RowId → RowId → RowId → Decision → Request
  installing : PendingDecision → Request
  removing : RowId → Request

unfoldable pub serve : Request → Registry → Option Registry
serve (reserving_turn i device user) r = some ((reserve_turn i device user r).1)
serve (releasing_turn i) r = release_turn i r
serve (reserving_configuration i) r = some ((reserve_session_configuration i r).1)
serve (releasing_configuration i) r = some (release_session_configuration i r)
serve beginning_mutation r = some ((begin_mutation r).1)
serve ending_mutation r = end_mutation r
serve closing r = some (close r)
serve (revoking device is) r = some (mark_device_revoked device is r)
serve (cancelling device) r = some (cancel_device device r)
serve (archiving i device b) r = some (note_archived i device b r)
serve (deleting i device) r = some (note_deleted i device r)
serve (delivering owner tool i d) r = some ((deliver_decision owner tool i d r).1)
serve (installing p) r = some ((install_pending p r).1)
serve (removing tool) r = some (remove_pending tool r)

-- The discipline of the callers: what is released was reserved.
abbrev pub Allowed : Request → Registry → Type 0
Allowed q r = elim q [
  | releasing_turn i ↦ is_running i r ≡ true
  | ending_mutation ↦ r.mutations ≢ 0
  | _ ↦ Unit
]

-- The registries that requests lead to.
pub data Reaches : Registry → Registry → Type 0 where
  here : (r : Registry) → Reaches r r
  next :
      (q : Request) (a b c : Registry)
      → Allowed q a
      → serve q a ≡ some b
      → Reaches b c
      → Reaches a c

module _ {ℓ} (P : Registry → Type ℓ) where
  pub Reaches-keeps :
      ((q : Request) (r s : Registry) → Allowed q r → serve q r ≡ some s → P r → P s)
      → {a b : Registry} → Reaches a b
      → P a
      → P b
  Reaches-keeps keeps (here r) p = p
  Reaches-keeps keeps (next q a b c ok e more) p = Reaches-keeps keeps more (keeps q a b ok e p)
