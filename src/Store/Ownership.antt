-- ===== src/Store/Ownership.antt =====
-- internal/store/devices.go, pairing.go: who owns a device, over histories of requests.
use aisummoner.Prelude.{
  ◌==◌, Bool-cases, inl, inr, ◌≡◌, refl, Bool, true, false, ◌&&◌, Option, none, some, List, [], ◌∷◌,
  ◌++◌, arith, All, first, any, update,
}
use aisummoner.Store.Data.{RowId, Device, Db, same_id, is_none, bytes_eq}
use aisummoner.Store.Driver.{Outcome}
use aisummoner.Store.Driver.Keeps.{IsOrder}
use aisummoner.Store.Sessions.{insert_session, set_external, insert_message}
use aisummoner.Store.Tools.{insert_tool}
use aisummoner.Store.Devices.{upsert_device}
use aisummoner.Store.Pairing.{insert_code}
use aisummoner.Store.Requests.{
  Request, creates_session, sets_mode, archives, deletes_session, sets_state, begins_turn,
  sets_external, creates_message, creates_tool, decides, fails_pending, starts_tool, finishes_tool,
  registers, sees_device, unpairs, offers_code, claims, history,
}
use aisummoner.Store.Requests.Steps.{Steps, request-Keeps}
use aisummoner.Store.Requests.Histories.{history-keeps}

module _ (u i : RowId) where
  -- The device `i` is there, and its owner is `u`.
  abbrev pub owns : List Device → Bool
  owns ds = elim (first (λ d. d.id == i) ds) [ none ↦ false | some d ↦ same_id d.owner_user_id u ]

  -- The owner does not unpair the device.
  abbrev pub Stays : Request → Type 0
  Stays (unpairs text v d now) = (d == i && v == u) ≡ false
  Stays _ = Unit {0}

  abbrev KeepsOwner : Db → Db → Type 0
  KeepsOwner a b = owns a.devices ≡ true → owns b.devices ≡ true

  KeepsOwner-IsOrder : IsOrder KeepsOwner
  KeepsOwner-IsOrder = record { same = λ a h. h; then_ = λ a b c f g h. g (f h) }

  owns-update :
      (p : Device → Bool) (f : Device → Device)
      → ((d : Device) → Device.id (f d) ≡ Device.id d)
      → ((d : Device)
          → p d ≡ true
          → (d.id == i) ≡ true
          → same_id d.owner_user_id u ≡ true
          → same_id (Device.owner_user_id (f d)) u ≡ true)
      → (ds : List Device) → owns ds ≡ true
      → owns (update p f ds) ≡ true
  unfolding first update
  owns-update p f same keeps [] h = h
  owns-update p f same keeps (d ∷ ds) h =
      ground (arith, same d, keeps d, owns-update p f same keeps ds)

  owns-append : (ds : List Device) (d : Device) → owns ds ≡ true → owns (ds ++ d ∷ []) ≡ true
  unfolding first
  owns-append [] d h = cc
  owns-append (e ∷ ds) d h = ground (arith, owns-append ds d)

  upsert-KeepsOwner : (d : Device) (db : Db) → KeepsOwner db (upsert_device d db).1
  unfolding upsert_device
  upsert-KeepsOwner d db h = elim (Bool-cases (any (λ e. e.id == d.id) db.devices)) [
    | inl a ↦ rw a (owns-update _ _ (λ x. refl) (λ x p e o. o) db.devices h)
    | inr a ↦ elim (Bool-cases (any (λ e. bytes_eq e.public_key d.public_key) db.devices)) [
      | inl b ↦ rw (a, b) h
      | inr b ↦ rw (a, b) (owns-append db.devices d h)
    ]
  ]

  disown-keeps :
      (v j : RowId) (d : Device)
      → (j == i && v == u) ≡ false
      → (d.id == j && same_id d.owner_user_id v) ≡ true
      → (d.id == i) ≡ true
      → same_id d.owner_user_id u ≡ false
  disown-keeps v j d h p e = owned_by d.owner_user_id (ground arith) (ground arith)
    where
      owned_by : (o : Option RowId) → (j == i) ≡ true → same_id o v ≡ true → same_id o u ≡ false
      owned_by none a b = refl
      owned_by (some w) a b = ground arith

  bind-keeps :
      (j : RowId) (d : Device)
      → (d.id == j && is_none d.owner_user_id) ≡ true
      → same_id d.owner_user_id u ≡ false
  bind-keeps j d p = unowned d.owner_user_id (ground arith)
    where
      unowned : (o : Option RowId) → is_none o ≡ true → same_id o u ≡ false
      unowned none h = refl
      unowned (some w) h = cc

  owner-Steps : (r : Request) → Stays r → Steps KeepsOwner r
  unfolding insert_session set_external insert_message insert_code insert_tool
  owner-Steps (creates_session s) h = λ db. ground arith
  owner-Steps (sets_mode v s m now) h = λ x db k. k
  owner-Steps (archives v s a now) h = λ at db k. k
  owner-Steps (deletes_session v s) h = λ db k. k
  owner-Steps (sets_state v s st now) h = λ x db k. k
  owner-Steps (begins_turn v s now) h = λ db k. k
  owner-Steps (sets_external v s e now) h = λ db. ground arith
  owner-Steps (creates_message v m) h = λ db. ground arith
  owner-Steps (creates_tool v t) h = λ x db. ground arith
  owner-Steps (decides v k d now) h = (λ x db o. o, λ s db o. o)
  owner-Steps (fails_pending v k e now) h = λ db o. o
  owner-Steps (starts_tool v k) h = λ db o. o
  owner-Steps (finishes_tool v k s c e now) h = λ x db o. o
  owner-Steps (registers d) h = upsert-KeepsOwner d
  owner-Steps (sees_device d at) h = λ db. owns-update _ _ (λ x. refl) (λ x p e o. o) db.devices
  owner-Steps (unpairs text v d now) h = (
    λ db o. o,
    λ db o. o,
    λ db o. o,
    λ db.
        owns-update _ _ (λ x. refl) (λ x p e o. absurd (ground (arith, disown-keeps v d x h p e)))
          db.devices,
  )
  owner-Steps (offers_code c now) h = (λ db o. o, λ db. ground arith)
  owner-Steps (claims v c now) h = (
    λ d db.
        owns-update _ _ (λ x. refl) (λ x p e o. absurd (ground (arith, bind-keeps d x p)))
          db.devices,
    λ k db o. o,
  )

-- A device that a user owns is the user's after every history in which that user does not unpair it,
-- whatever else is requested, pairing of the same device by others and its registration included,
-- and whichever statements the driver refuses or loses the reply of.
pub history-keeps_owner :
    (u i : RowId) (rs : List Request) (script : List (List Request × Outcome)) (db : Db)
    → All (Stays u i) rs
    → All (λ x. All (Stays u i) x.0) script
    → owns u i db.devices ≡ true
    → owns u i (history rs script db).devices ≡ true
history-keeps_owner u i rs script db h hs owned =
    history-keeps (KeepsOwner-IsOrder u i) (Stays u i)
      (λ r k. request-Keeps (KeepsOwner-IsOrder u i) r (owner-Steps u i r k)) rs script db h hs
      owned
