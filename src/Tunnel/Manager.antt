-- ===== src/Tunnel/Manager.antt =====
-- internal/tunnel/manager.go: the registry of the devices that are online.
-- A `*Connection` is its number in `heap`, which stands for the memory; a pointer that may be nil is an
-- `Option`. `closeOnce` has run exactly when `closed` is set, since nothing else sets it. The goroutines are
-- steps of their own: `finish_cleanup` ends the one that `beginClose` starts, and `reap` is the end of the
-- one that `ownLocked` starts. The control stream, the session and the transport are not modelled but for
-- whether a session, a signer and the channel of setups are there.
use aisummoner.Prelude.{
  ℕ, zero, suc, ◌==◌, ◌≡◌, Bool, true, false, not, Option, none, some, List, [], ◌∷◌, if◌then◌else◌,
  any, delete,
}
use aisummoner.Prelude.Keyed.{has_key}
use aisummoner.Store.Data.{RowId, Time}
use aisummoner.DeviceGate.{assign}

pub record Connection : Type 0 where
  pub device_id : RowId
  pub last_seen : Time
  pub closed : Bool
  pub cleanup_done : Bool
  pub has_credentials : Bool

pub record Manager : Type 0 where
  pub heap : ℕ → Connection
  pub connections : RowId → Option ℕ
  pub owned : List ℕ
  pub closing : Bool
  pub cleanup_wg : ℕ

unfoldable pub new_connection : RowId → Bool → Time → Connection
new_connection device credentials now = record {
  device_id = device;
  last_seen = now;
  closed = false;
  cleanup_done = false;
  has_credentials = credentials;
}

abbrev pub new_manager : (ℕ → Connection) → Manager
new_manager heap = record {
  heap = heap;
  connections = λ d. none;
  owned = [];
  closing = false;
  cleanup_wg = 0;
}

abbrev pub is_pointer : ℕ → Option ℕ → Bool
is_pointer p none = false
is_pointer p (some q) = q == p

abbrev pub owns : ℕ → Manager → Bool
owns p m = any (has_key (λ (q : ℕ). q) p) (m.owned)

abbrev pub closed_at : ℕ → Manager → Bool
closed_at p m = (m.heap p).closed

-- The part of `beginClose` that its caller waits for.
unfoldable pub begin_close : ℕ → Manager → Manager
begin_close p m = record m { heap = assign (m.heap) p (record (m.heap p) { closed = true }) }

abbrev pub begin_close_all : List ℕ → Manager → Manager
begin_close_all [] m = m
begin_close_all (p ∷ ps) m = begin_close_all ps (begin_close p m)

-- The goroutine that closes the streams has done so, and closes `cleanupDone`.
unfoldable pub finish_cleanup : ℕ → Manager → Manager
finish_cleanup p m = record m {
  heap = assign (m.heap) p (record (m.heap p) { cleanup_done = true });
}

unfoldable pub touch : ℕ → Time → Manager → Manager
touch p at m = record m {
  heap = if closed_at p m then m.heap else assign (m.heap) p (record (m.heap p) { last_seen = at });
}

-- `delete(m.connections, d)` when the map has this connection for `d`.
abbrev pub without : ℕ → Manager → RowId → Option ℕ
without p m =
    if is_pointer p (m.connections (m.heap p).device_id)
    then assign (m.connections) ((m.heap p).device_id) none
    else m.connections

unfoldable pub own_locked : ℕ → Manager → Manager
own_locked p m =
    if owns p m then m else record m { owned = p ∷ (m.owned); cleanup_wg = suc (m.cleanup_wg) }

-- The connection that was replaced is closed, unless it is the same one.
unfoldable pub close_replaced : Option ℕ → ℕ → Manager → Manager
close_replaced none p m = m
close_replaced (some old) p m = if old == p then m else begin_close old m

abbrev pub install : ℕ → Manager → Manager
install p m = record m { connections = assign (m.connections) ((m.heap p).device_id) (some p) }

unfoldable pub register : Option ℕ → Manager → (Option ℕ × Bool) × Manager
register none m = ((none, false), m)
register (some p) m = if m.closing then ((none, false), begin_close p m) else (
  (m.connections ((m.heap p).device_id), true),
  close_replaced (m.connections ((m.heap p).device_id)) p (install p (own_locked p m)),
)

-- The end of the goroutine of `ownLocked`: `none` is the panic of a wait group at 0.
unfoldable pub reap : ℕ → Manager → Option Manager
reap p m = elim (m.cleanup_wg) [
  | zero ↦ none
  | suc n ↦ some (record m {
    connections = without p m;
    owned = delete (has_key (λ (q : ℕ). q) p) (m.owned);
    cleanup_wg = n;
  })
]

unfoldable pub remove : Option ℕ → Manager → Manager
remove none m = m
remove (some p) m = record m { connections = without p m }

-- The join function that it returns waits for the cleanup of this connection only.
unfoldable pub detach_device : RowId → Manager → Option ℕ × Manager
detach_device d m = elim (m.connections d) [
  | none ↦ (none, m)
  | some p ↦ (some p, begin_close p (record m { connections = assign (m.connections) d none }))
]

unfoldable pub get : RowId → Manager → Option ℕ
get d m = m.connections d

unfoldable pub is_online : RowId → Manager → Bool
is_online d m = elim (get d m) [ none ↦ false | some p ↦ not (closed_at p m) ]

-- The critical section of `CloseAll`, with the connections to close.
unfoldable pub begin_close_all_owned : Manager → List ℕ × Manager
begin_close_all_owned m =
    if m.closing then ([], m) else (m.owned, record m { closing = true; connections = λ d. none })

-- `CloseAll` up to its wait for `cleanupWG`, when no other call comes between.
unfoldable pub close_all : Manager → Manager
close_all m = let (ps, n) = begin_close_all_owned m in begin_close_all ps n

-- A step of a call or a goroutine. A goroutine that closes streams runs once the connection is closed, and
-- one that reaps runs for a connection that was owned, once its cleanup is done.
pub data Step (m : Manager) : Manager → Type 0 where
  registering : (p : Option ℕ) → Step m (register p m).1
  closing_connection : (p : ℕ) → Step m (begin_close p m)
  cleaning : (p : ℕ) → closed_at p m ≡ true → Step m (finish_cleanup p m)
  touching : (p : ℕ) (at : Time) → Step m (touch p at m)
  reaping :
      (p : ℕ) (n : Manager)
      → owns p m ≡ true
      → (m.heap p).cleanup_done ≡ true
      → reap p m ≡ some n
      → Step m n
  removing : (p : Option ℕ) → Step m (remove p m)
  detaching : (d : RowId) → Step m (detach_device d m).1
  closing_all : Step m (begin_close_all_owned m).1

pub data Reaches (m : Manager) : Manager → Type 0 where
  here : Reaches m m
  next : {n k : Manager} → Reaches m n → Step n k → Reaches m k
