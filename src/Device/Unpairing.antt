-- ===== src/Device/Unpairing.antt =====
-- internal/device/service.go: what unpairing leaves behind, over the agent service and the tunnels.
use aisummoner.Prelude.{suc, ◌==◌, ◌≡◌, ◌≢◌, refl, Bool, true, false, Option, none, some, List, any}
use aisummoner.Store.Data.{RowId, Time, Bytes}
use aisummoner.Store.Driver.{Result, ok, err, World}
use aisummoner.Store.Devices.{unpair_device}
use aisummoner.Agent.Registry.{Registry}
use aisummoner.Agent.Registry.Requests.{Reaches}
use aisummoner.Agent.Registry.Tombstones.{ShutOut, mark_device_revoked-ShutOut}
use aisummoner.DeviceGate.{GateError}
use aisummoner.Tunnel.Owned.{IsOwned}
use aisummoner.Tunnel.Detach.{Detached, detach_device-Detached}
use aisummoner.Device.{
  Devices, UnpairError, lifecycle_unavailable, gate_failed, store_failed, lock, unlock, after_store,
  unpair,
}

-- The sessions of these identifiers are shut out of every registry that is reached from here.
abbrev pub ShutsOut : List RowId → Registry → Type 0
ShutsOut ids r =
    (i : RowId) (later : Registry)
    → i ≢ 0
    → any (λ j. j == i) ids ≡ true
    → Reaches r later
    → ShutOut i later

-- What a reply of `Unpair` says of the state after it.
abbrev pub UnpairSays :
    RowId → Result (List RowId) × World → Devices → Option UnpairError × Devices → Type 0
UnpairSays device reply before (none, after) =
    (ids : List RowId) × (reply.0 ≡ ok ids)
    × (after.world ≡ reply.1)
    × ShutsOut ids (after.registry)
    × Detached device (before.tunnels) (after.tunnels)
    × (after.held ≡ false)
    × (after.unlocks ≡ suc (before.unlocks))
UnpairSays device reply before (some lifecycle_unavailable, after) = after ≡ before
UnpairSays device reply before (some (gate_failed e), after) = after ≡ before
UnpairSays device reply before (some (store_failed e), after) =
    (reply.0 ≡ err e)
    × (after.world ≡ reply.1)
    × (after.registry ≡ before.registry)
    × (after.tunnels ≡ before.tunnels)
    × (after.held ≡ false)
    × (after.unlocks ≡ suc (before.unlocks))

after_store_sound :
    (device : RowId) (reply : Result (List RowId) × World) (s : Devices)
    → IsOwned (s.tunnels)
    → UnpairSays device reply s (after_store device reply (lock s))
unfolding after_store lock unlock
after_store_sound device (err e, w) s o = (refl, refl, refl, refl, refl, refl)
after_store_sound device (ok ids, w) s o = (
  ids,
  refl,
  refl,
  λ i later n h path. mark_device_revoked-ShutOut i device ids (s.registry) later n h path,
  detach_device-Detached device (s.tunnels) o,
  refl,
  refl,
)

-- When the connections have their goroutines, `Unpair` says the following. When it succeeds, the store has
-- committed; every session that the store revoked is shut out of all that follows in the agent service, the
-- device's connection is closed and gone and no other device's is, and the gate was let go once. When the
-- store fails, its world is all that changes and the gate was let go once. Without the parts of a
-- lifecycle, or without the gate, nothing changes.
pub unpair_sound :
    (excerpt : Bytes) (configured : Bool) (gate : Option GateError) (owner device : RowId)
    (now : Time) (s : Devices)
    → IsOwned (s.tunnels)
    → UnpairSays device
        (unpair_device excerpt owner device now (s.world))
        s
        (unpair excerpt configured gate owner device now s)
unfolding unpair
unpair_sound excerpt false gate owner device now s o = refl
unpair_sound excerpt true (some e) owner device now s o = refl
unpair_sound excerpt true none owner device now s o =
    after_store_sound device (unpair_device excerpt owner device now (s.world)) s o
