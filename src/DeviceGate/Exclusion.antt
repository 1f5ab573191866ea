-- ===== src/DeviceGate/Exclusion.antt =====
-- internal/devicegate/gate.go: what the gate promises its callers.
use aisummoner.Prelude.{
  refl, ℕ, ◌==◌, ◌≡◌, true, false, ◌&&◌, some, first, any, arith, inl, inr, Bool-cases, ==_iff,
}
use aisummoner.Prelude.Keyed.{has_key}
use aisummoner.Prelude.Counting.{count_two, All-first, All-map, any_of_count, count_of_none}
use aisummoner.Store.Data.{RowId}
use aisummoner.DeviceGate.{
  Call, Gate, new_gate, holding, IsAt, Reaches, receive_token, return_token, advance, set_token,
  leaving, received,
}
use aisummoner.DeviceGate.Order.{
  IsOrderly, Placed, takes, refers, has_token, token_out, Reaches-IsOrderly, new_gate-IsOrderly,
}

module _ {g : Gate} (r : Reaches new_gate g) where
  orderly : IsOrderly g
  orderly = Reaches-IsOrderly new_gate-IsOrderly r

  place :
      (c : Call) → first (has_key Call.id (c.id)) (g.calls) ≡ some c → Placed (g.entries) (g.next) c
  place c at =
      All-first (Placed (g.entries) (g.next)) (has_key Call.id (c.id)) (g.calls) c (orderly.placed)
        at

  -- In every state that the steps of any calls lead to from an empty gate, two calls that hold the lock
  -- of one device are the same call.
  pub one_holder :
      (c d : Call) → IsAt holding c g → IsAt holding d g → c.device ≡ d.device → c.id ≡ d.id
  one_holder c d at bt same = elim (Bool-cases (c.id == d.id)) [
    | inl e ↦ (==_iff (c.id) (d.id)).0 e
    | inr n ↦ absurd (
        ground (
          arith,
          place c (at.0),
          place d (bt.0),
          at.1,
          bt.1,
          orderly.tokens (c.entry) ((place c (at.0)).1),
          count_two Call.id (takes (c.entry)) (c.id) (d.id) (g.calls) c d n (at.0) (bt.0),
        ))
  ]

  -- In every such state, a device that has an entry in the map has a call under way.
  pub no_leaked_entry :
      (device : RowId) (p : ℕ)
      → g.entries device ≡ some p
      → any (λ c. c.device == device) (g.calls) ≡ true
  no_leaked_entry device p e =
      any_of_count (refers p) (λ c. c.device == device) (g.calls)
        (All-map (g.calls) (λ c h f. ground (arith, h, f, e, orderly.separate (c.device) device p))
          (orderly.placed))
        (ground (arith, orderly.slots device p e, orderly.counted p))

  -- In every such state, a call that waits can take the token if no call of its device has it, and a call
  -- that has the token never waits to put it back.
  pub no_stuck_call :
      (c : Call)
      → first (has_key Call.id (c.id)) (g.calls) ≡ some c
      → (any (λ d. d.device == c.device && has_token (d.phase)) (g.calls) ≡ false
          → receive_token c g ≡ some (advance received c (set_token false (c.entry) g)))
        × (has_token (c.phase) ≡ true
            → return_token c g ≡ some (advance leaving c (set_token true (c.entry) g)))
  unfolding receive_token return_token
  no_stuck_call c at = (
    λ free. ground (arith, token_in free),
    λ t. ground (arith, token_out g orderly c (at, refl) t),
  )
    where
      token_in :
          any (λ d. d.device == c.device && has_token (d.phase)) (g.calls) ≡ false
          → (g.heap (c.entry)).token ≡ true
      token_in free = ground (
        arith,
        orderly.tokens (c.entry) ((place c at).1),
        count_of_none (takes (c.entry)) (λ d. d.device == c.device && has_token (d.phase)) (g.calls)
            (All-map (g.calls)
              (λ d h t.
                ground (arith, h, t, place c at, orderly.separate (d.device) (c.device) (c.entry)))
              (orderly.placed))
            free,
      )
