-- ===== src/Device.antt =====
-- internal/device/service.go: what users see of their devices, and unpairing, which takes the device's gate,
-- the store, the agent service and the tunnels in turn.
-- The state has each of these parts. Between the parts of one call the registry and the tunnels may be changed
-- by other calls; the theorems hold for any registry and any tunnels at the start, and say what holds later.
pub mod Unpairing
use aisummoner.Prelude.{
  ℕ, zero, suc, Bool, true, false, Option, none, some, List, [], ◌∷◌, if◌then◌else◌, map, ◌||◌, not,
}
use aisummoner.Store.Data.{RowId, Time, Bytes, Device}
use aisummoner.Store.Driver.{Error, Result, ok, err, World, Exec, ◌>>=◌, pure}
use aisummoner.Store.Devices.{device_by_owner, unpair_device}
use aisummoner.Store.Snapshots.{devices_by_owner}
use aisummoner.Agent.Registry.{Registry, mark_device_revoked}
use aisummoner.DeviceGate.{GateError}
use aisummoner.Tunnel.Manager.{Manager, is_online, detach_device}

pub record View : Type 0 where
  pub device : Device
  pub online : Bool

-- The gate's part is whether this call holds the device, and how often it has let it go.
pub record Devices : Type 0 where
  pub world : World
  pub registry : Registry
  pub tunnels : Manager
  pub held : Bool
  pub unlocks : ℕ

pub data UnpairError : Type 0 where
  lifecycle_unavailable : UnpairError
  gate_failed : GateError → UnpairError
  store_failed : Error → UnpairError

abbrev pub view : Manager → Device → View
view m d = record { device = d; online = is_online (d.id) m }

unfoldable pub list : RowId → Manager → Exec (List View)
list owner m = do devices ← devices_by_owner owner; pure (map (view m) devices)

unfoldable pub get_view : RowId → RowId → Manager → Exec View
get_view owner device m = do item ← device_by_owner owner device; pure (view m item)

unfoldable pub lock : Devices → Devices
lock s = record s { held = true }

unfoldable pub unlock : Devices → Devices
unlock s = record s { held = false; unlocks = suc (s.unlocks) }

-- What follows the store: on an error only the gate is let go.
unfoldable pub after_store :
    RowId → Result (List RowId) × World → Devices → Option UnpairError × Devices
after_store device (err e, w) s = (some (store_failed e), unlock (record s { world = w }))
after_store device (ok ids, w) s = (
  none,
  unlock (record s {
    world = w;
    registry = mark_device_revoked device ids (s.registry);
    tunnels = (detach_device device (s.tunnels)).1;
  }),
)

-- `Unpair` up to the cleanup after it. `configured` says whether the service was built with
-- `NewLifecycleService`, and `gate` is the answer of `LockDevice`.
unfoldable pub unpair :
    Bytes → Bool → Option GateError → RowId → RowId → Time → Devices → Option UnpairError × Devices
unpair excerpt false gate owner device now s = (some lifecycle_unavailable, s)
unpair excerpt true (some e) owner device now s = (some (gate_failed e), s)
unpair excerpt true none owner device now s =
    after_store device (unpair_device excerpt owner device now (s.world)) (lock s)

-- The options of `NewLifecycleService` that are required, as whether each is there.
pub record LifecycleOptions : Type 0 where
  pub store : Bool
  pub gate : Bool
  pub tunnel : Bool
  pub terminal : Bool
  pub agent : Bool
  pub cleanup_timeout : Time

-- In milliseconds; a duration that is not positive is 0 here.
unfoldable pub new_lifecycle_service : LifecycleOptions → Option LifecycleOptions
new_lifecycle_service o =
    if not (o.store) || not (o.gate) || not (o.tunnel) || not (o.terminal) || not (o.agent)
    then none
    else some
        (record o { cleanup_timeout = elim (o.cleanup_timeout) [ zero ↦ 5000 | suc n ↦ suc n ] })

pub data CleanupError : Type 0 where
  deadline_exceeded canceled other_failure : CleanupError

pub data SafeText : Type 0 where
  timeout_text canceled_text cleanup_failed_text : SafeText

unfoldable pub safe_cleanup_error : CleanupError → SafeText
safe_cleanup_error deadline_exceeded = timeout_text
safe_cleanup_error canceled = canceled_text
safe_cleanup_error other_failure = cleanup_failed_text

-- What the loop of `runPostCommitCleanup` receives: the result of a worker, or the end of its context.
pub data CleanupEvent : Type 0 where
  worker_done : Option CleanupError → CleanupEvent
  cleanup_over : CleanupEvent

pub data Warning : Type 0 where
  incomplete : SafeText → Warning
  timed_out : Warning

abbrev pub warn : Option CleanupError → List Warning → List Warning
warn none ws = ws
warn (some e) ws = incomplete (safe_cleanup_error e) ∷ ws

-- The loop has three rounds, the number of the workers.
unfoldable pub collect_cleanup : ℕ → List CleanupEvent → List Warning
collect_cleanup zero es = []
collect_cleanup (suc n) [] = []
collect_cleanup (suc n) (cleanup_over ∷ es) = timed_out ∷ []
collect_cleanup (suc n) (worker_done e ∷ es) = warn e (collect_cleanup n es)
