-- ===== src/Tests/Tunnel.antt =====
-- Concrete runs of internal/tunnel and internal/device.
use aisummoner.Prelude.{ℕ, ◌≡◌, refl, none, some, true, false, any}
use aisummoner.Prelude.Text.{codes}
use aisummoner.Store.Driver.{quiet}
use aisummoner.Store.Devices.{unpair_device}
use aisummoner.Tunnel.Manager.{
  Connection, Manager, new_manager, register, close_replaced, own_locked, get, is_online, owns,
  closed_at, close_all, Reaches, here, next, registering,
}
use aisummoner.Tunnel.Owned.{IsOwned, Reaches-IsOwned}
use aisummoner.Tunnel.Newest.{NewestWins, register-NewestWins}
use aisummoner.Tunnel.Shutdown.{close_all-offline}
use aisummoner.Tunnel.Ssh.{SshAnswers, go_on, stream_opened, SshSays, open_ssh, open_ssh_sound}
use aisummoner.Device.{Devices, unpair}
use aisummoner.Device.Unpairing.{UnpairSays, unpair_sound}
use aisummoner.Tests.Store.{waiting, with_tool}
use aisummoner.Tests.Agent.{empty_registry}

-- Connection 5 of device 10 registers, and connection 6 replaces it.
abbrev idle_heap : ℕ → Connection
idle_heap p = record {
  device_id = 10;
  last_seen = 1;
  closed = false;
  cleanup_done = false;
  has_credentials = true;
}

abbrev empty_manager : Manager
empty_manager = new_manager idle_heap

abbrev one_online : Manager
one_online = (register (some 5) empty_manager).1

empty-IsOwned : IsOwned empty_manager
empty-IsOwned = record {
  distinct = tt;
  balanced = refl;
  registered = λ d p e. absurd (cc e);
  stopped = λ c. absurd (cc c);
}

goes_online : Reaches empty_manager one_online
goes_online = next here (registering (some 5))

Reaches-IsOwned_example : IsOwned one_online
Reaches-IsOwned_example = Reaches-IsOwned goes_online empty-IsOwned

still_running : one_online.closing ≡ false
unfolding register close_replaced own_locked any
still_running = refl

register-NewestWins_example :
    ((register (some 6) one_online).0 ≡ (get ((one_online.heap 6).device_id) one_online, true))
    × NewestWins 6 one_online (register (some 6) one_online).1
register-NewestWins_example =
    register-NewestWins 6 one_online (Reaches-IsOwned goes_online empty-IsOwned) still_running

close_all-offline_example :
    (is_online 10 (close_all one_online) ≡ false)
    × (get 10 (close_all one_online) ≡ none)
    × ((register (some 6) (close_all one_online)).0 ≡ (none, false))
    × (owns 6 one_online ≡ true → closed_at 6 (close_all one_online) ≡ true)
close_all-offline_example =
    close_all-offline one_online (close_all one_online) still_running here 6 10

abbrev ready_answers : SshAnswers
ready_answers = record {
  ended_before = false;
  slot = go_on;
  stream = stream_opened;
  set_deadline = true;
  new_id = true;
  write_header = true;
  clear_deadline = true;
  last = go_on;
}

open_ssh_sound_example : SshSays ready_answers 10 one_online (open_ssh ready_answers 10 one_online)
open_ssh_sound_example = open_ssh_sound ready_answers 10 one_online

-- The user unpairs the device while it is online.
abbrev devices : Devices
devices = record {
  world = quiet (with_tool waiting);
  registry = empty_registry;
  tunnels = one_online;
  held = false;
  unlocks = 0;
}

unpair_sound_example :
    UnpairSays 10
      (unpair_device (codes "device unpaired") 1 10 9 (devices.world))
      devices
      (unpair (codes "device unpaired") true none 1 10 9 devices)
unpair_sound_example =
    unpair_sound (codes "device unpaired") true none 1 10 9 devices
      (Reaches-IsOwned goes_online empty-IsOwned)
