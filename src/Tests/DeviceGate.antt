-- ===== src/Tests/DeviceGate.antt =====
-- Concrete runs of internal/devicegate.
use aisummoner.Prelude.{◌≡◌, refl, some, true, false, any, first, ◌&&◌, ◌==◌, update}
use aisummoner.DeviceGate.{
  Call, Gate, new_gate, waiting, received, holding, Reaches, here, next, locking, receiving,
  rechecking, lock_device, register, add_entry, join_entry, receive_token, recheck, advance,
  set_token, return_token, leaving, IsAt,
}
use aisummoner.DeviceGate.Order.{has_token}
use aisummoner.DeviceGate.Exclusion.{one_holder, no_leaked_entry, no_stuck_call}

-- Call 1 locks device 10, and call 2 waits for it.
abbrev gate_asked : Gate
gate_asked = (lock_device 1 10 false new_gate).1

abbrev call_at_start : Call
call_at_start = record { id = 1; device = 10; entry = 0; phase = waiting }

abbrev gate_received : Gate
gate_received = advance received call_at_start (set_token false 0 gate_asked)

abbrev call_received : Call
call_received = record { id = 1; device = 10; entry = 0; phase = received }

abbrev call_holding : Call
call_holding = record { id = 1; device = 10; entry = 0; phase = holding }

abbrev gate_held : Gate
gate_held = advance holding call_received gate_received

asks : Reaches new_gate gate_asked
unfolding any
asks = next here (locking 1 10 false refl)

holds : Reaches new_gate gate_held
unfolding any first update lock_device register add_entry join_entry receive_token recheck advance
    set_token
holds =
    next (next asks (receiving call_at_start gate_received (refl, refl) refl))
      (rechecking call_received false gate_held (refl, refl) refl)

IsAt-holding : IsAt holding call_holding gate_held
unfolding first lock_device register add_entry join_entry advance set_token update
IsAt-holding = (refl, refl)

one_holder_example : call_holding.id ≡ call_holding.id
one_holder_example = one_holder holds call_holding call_holding IsAt-holding IsAt-holding refl

in_map : gate_held.entries 10 ≡ some 0
unfolding lock_device register add_entry join_entry advance set_token update
in_map = refl

no_leaked_entry_example : any (λ c. c.device == 10) (gate_held.calls) ≡ true
no_leaked_entry_example = no_leaked_entry holds 10 0 in_map

at_start : first (λ c. c.id == 1) (gate_asked.calls) ≡ some call_at_start
unfolding first lock_device register add_entry join_entry
at_start = refl

no_stuck_call_example :
    (any (λ d. d.device == 10 && has_token (d.phase)) (gate_asked.calls) ≡ false
      → receive_token call_at_start gate_asked
        ≡ some (advance received call_at_start (set_token false 0 gate_asked)))
    × (has_token waiting ≡ true
        → return_token call_at_start gate_asked
          ≡ some (advance leaving call_at_start (set_token true 0 gate_asked)))
no_stuck_call_example = no_stuck_call asks call_at_start at_start
