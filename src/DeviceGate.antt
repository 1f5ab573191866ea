-- ===== src/DeviceGate.antt =====
-- internal/devicegate/gate.go: a mutex for each device.
-- A pointer to an `entry` is its number in `heap`, which stands for the memory, and `calls` are the
-- calls of `LockDevice` under way, each with the point that it has reached. A channel of capacity 1 is
-- whether it holds its token. `beforeWait` is a hook of the tests and left out.
pub mod Order
pub mod Exclusion
use aisummoner.Prelude.{
  ℕ, suc, ◌-◌, ◌<◌, ◌==◌, ◌≡◌, ◌||◌, Bool, true, false, ◌&&◌, Option, none, some, List, [], ◌∷◌,
  if◌then◌else◌, first, any, update, delete,
}
use aisummoner.Prelude.Keyed.{has_key}
use aisummoner.Store.Data.{RowId}

pub record Entry : Type 0 where
  pub token : Bool
  pub refs : ℕ

-- A call waits at the `select`, has taken the token and will look at its context again, has returned the
-- unlocking function to its caller, or has put the token back or given up and will drop its reference.
pub data Phase : Type 0 where
  waiting received holding leaving : Phase

pub record Call : Type 0 where
  pub id : RowId
  pub device : RowId
  pub entry : ℕ
  pub phase : Phase

pub record Gate : Type 0 where
  pub entries : RowId → Option ℕ
  pub heap : ℕ → Entry
  pub next : ℕ
  pub calls : List Call

pub data GateError : Type 0 where
  invalid_device_id context_done : GateError

abbrev pub new_gate : Gate
new_gate = record {
  entries = λ d. none;
  heap = λ p. record { token = false; refs = 0 };
  next = 0;
  calls = [];
}

abbrev pub assign {ℓ} : {A : Type ℓ} → (ℕ → A) → ℕ → A → ℕ → A
assign m k v j = if j == k then v else m j

-- `value := &entry{…}; value.token <- struct{}{}; g.entries[deviceID] = value`.
unfoldable pub add_entry : RowId → Gate → Gate
add_entry device g = record g {
  entries = assign (g.entries) device (some (g.next));
  heap = assign (g.heap) (g.next) (record { token = true; refs = 0 });
  next = suc (g.next);
}

-- `value.refs++`, after which the call waits.
unfoldable pub join_entry : RowId → RowId → ℕ → Gate → Gate
join_entry i device p g = record g {
  heap = assign (g.heap) p (record (g.heap p) { refs = suc ((g.heap p).refs) });
  calls = record { id = i; device = device; entry = p; phase = waiting } ∷ (g.calls);
}

-- The critical section of `LockDevice`.
unfoldable pub register : RowId → RowId → Gate → Gate
register i device g = elim (g.entries device) [
  | none ↦ join_entry i device (g.next) (add_entry device g)
  | some p ↦ join_entry i device p g
]

-- The call up to the `select`. A context that has ended, or an empty id, ends it at once.
unfoldable pub lock_device : RowId → RowId → Bool → Gate → Option GateError × Gate
lock_device i device ended g =
    if device == 0
    then (some invalid_device_id, g)
    else if ended
    then (some context_done, g)
    else (none, register i device g)

abbrev pub enter : Phase → Call → Call
enter ph c = record c { phase = ph }

unfoldable pub advance : Phase → Call → Gate → Gate
advance ph c g = record g { calls = update (has_key Call.id (c.id)) (enter ph) (g.calls) }

unfoldable pub set_token : Bool → ℕ → Gate → Gate
set_token b p g = record g { heap = assign (g.heap) p (record (g.heap p) { token = b }) }

-- `<-value.token`, which waits for a token.
unfoldable pub receive_token : Call → Gate → Option Gate
receive_token c g =
    if (g.heap (c.entry)).token
    then some (advance received c (set_token false (c.entry) g))
    else none

-- `value.token <- struct{}{}`, which waits for room. What follows is `dropReference`.
unfoldable pub return_token : Call → Gate → Option Gate
return_token c g =
    if (g.heap (c.entry)).token then none else some (advance leaving c (set_token true (c.entry) g))

-- The second look at the context.
unfoldable pub recheck : Bool → Call → Gate → Option Gate
recheck ended c g = if ended then return_token c g else some (advance holding c g)

-- The function that `LockDevice` returns runs once.
unfoldable pub unlock : Call → Gate → Option Gate
unlock c g = elim (c.phase) [ holding ↦ return_token c g | _ ↦ some g ]

abbrev pub points_to : Option ℕ → ℕ → Bool
points_to none p = false
points_to (some q) p = q == p

-- `refs` is a signed integer, and it is at least 1 here (`DeviceGate.Order`).
unfoldable pub drop_reference : Call → Gate → Gate
drop_reference c g = record g {
  heap =
      assign (g.heap) (c.entry) (record (g.heap (c.entry)) { refs = (g.heap (c.entry)).refs - 1 });
  entries =
      if (g.heap (c.entry)).refs == 1 && points_to (g.entries (c.device)) (c.entry)
      then assign (g.entries) (c.device) none
      else g.entries;
  calls = delete (has_key Call.id (c.id)) (g.calls);
}

-- The call is under way and has come to that point.
abbrev pub IsAt : Phase → Call → Gate → Type 0
IsAt ph c g = (first (has_key Call.id (c.id)) (g.calls) ≡ some c) × (c.phase ≡ ph)

-- A step of any call, and the gate after it.
pub data Step (g : Gate) : Gate → Type 0 where
  locking :
      (i device : RowId) (ended : Bool)
      → any (has_key Call.id i) (g.calls) ≡ false
      → Step g (lock_device i device ended g).1
  giving_up : (c : Call) → IsAt waiting c g → Step g (advance leaving c g)
  receiving : (c : Call) (h : Gate) → IsAt waiting c g → receive_token c g ≡ some h → Step g h
  rechecking :
      (c : Call) (ended : Bool) (h : Gate)
      → IsAt received c g
      → recheck ended c g ≡ some h
      → Step g h
  unlocking : (c : Call) (h : Gate) → IsAt holding c g → unlock c g ≡ some h → Step g h
  dropping : (c : Call) → IsAt leaving c g → Step g (drop_reference c g)

pub data Reaches (g : Gate) : Gate → Type 0 where
  here : Reaches g g
  next : {h k : Gate} → Reaches g h → Step h k → Reaches g k
