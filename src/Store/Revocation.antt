-- ===== src/Store/Revocation.antt =====
-- internal/store/agent.go, devices.go: a revoked session, over histories of requests.
use aisummoner.Prelude.{
  ℕ, ◌==◌, ◌≡◌, refl, Bool, true, false, ◌&&◌, none, some, List, [], ◌∷◌, ◌++◌, arith, All, first,
  update, delete,
}
use aisummoner.Store.Data.{
  RowId, Bytes, Device, AgentSession, SessionState, Db, is_revoked, is_resting, ownership,
  owner_sees,
}
use aisummoner.Store.Driver.{Outcome}
use aisummoner.Store.Driver.Keeps.{IsOrder}
use aisummoner.Store.Sessions.{insert_session, set_external, insert_message}
use aisummoner.Store.Tools.{insert_tool}
use aisummoner.Store.Devices.{upsert_device}
use aisummoner.Store.Pairing.{insert_code}
use aisummoner.Store.Requests.{
  Request, creates_session, sets_mode, archives, deletes_session, sets_state, begins_turn,
  sets_external, creates_message, creates_tool, decides, fails_pending, starts_tool, finishes_tool,
  registers, sees_device, unpairs, offers_code, claims, history,
}
use aisummoner.Store.Requests.Steps.{Steps, request-Keeps}
use aisummoner.Store.Requests.Histories.{history-keeps}

module _ (i : RowId) where
  -- The session `i` is there and is revoked.
  abbrev pub revoked_there : List AgentSession → Bool
  revoked_there ss = elim (first (λ s. s.id == i) ss) [ none ↦ false | some s ↦ is_revoked s.state ]

  abbrev KeepsRevoked : Db → Db → Type 0
  KeepsRevoked a b = revoked_there a.sessions ≡ true → revoked_there b.sessions ≡ true

  KeepsRevoked-IsOrder : IsOrder KeepsRevoked
  KeepsRevoked-IsOrder = record { same = λ a h. h; then_ = λ a b c f g h. g (f h) }

  revoked-update :
      (p : AgentSession → Bool) (f : AgentSession → AgentSession)
      → ((s : AgentSession) → AgentSession.id (f s) ≡ AgentSession.id s)
      → ((s : AgentSession)
          → p s ≡ true
          → is_revoked s.state ≡ true
          → is_revoked (AgentSession.state (f s)) ≡ true)
      → (ss : List AgentSession) → revoked_there ss ≡ true
      → revoked_there (update p f ss) ≡ true
  unfolding first update
  revoked-update p f same keeps [] h = h
  revoked-update p f same keeps (s ∷ ss) h =
      ground (arith, same s, keeps s, revoked-update p f same keeps ss)

  revoked-delete :
      (p : AgentSession → Bool)
      → ((s : AgentSession) → p s ≡ true → is_revoked s.state ≡ false)
      → (ss : List AgentSession) → revoked_there ss ≡ true
      → revoked_there (delete p ss) ≡ true
  unfolding first delete
  revoked-delete p spares [] h = h
  revoked-delete p spares (s ∷ ss) h = ground (arith, spares s, revoked-delete p spares ss)

  revoked-append :
      (ss : List AgentSession) (s : AgentSession)
      → revoked_there ss ≡ true
      → revoked_there (ss ++ s ∷ []) ≡ true
  unfolding first
  revoked-append [] s h = cc
  revoked-append (t ∷ ss) s h = ground (arith, revoked-append ss s)

  insert-KeepsRevoked : (s : AgentSession) (db : Db) → KeepsRevoked db (insert_session s db).1
  unfolding insert_session
  insert-KeepsRevoked s db h =
      ground (arith, revoked-append db.sessions (record s { archived_at = none }) h)

  external-KeepsRevoked :
      (v s : RowId) (e : Bytes) (now : ℕ) (db : Db) → KeepsRevoked db (set_external v s e now db).1
  unfolding set_external
  external-KeepsRevoked v s e now db h = ground (
    arith,
    revoked-update (λ t. t.id == s && owner_sees db.devices v t)
        (λ t. record t { external_session_id = some e; updated_at = now }) (λ t. refl) (λ t p k. k)
        db.sessions h,
  )

  resting-not_revoked : (s : SessionState) → is_resting s ≡ true → is_revoked s ≡ false
  resting-not_revoked s h = ground arith

  seen-not_revoked :
      (ds : List Device) (v : RowId) (s : AgentSession)
      → owner_sees ds v s ≡ true
      → is_revoked s.state ≡ false
  unfolding owner_sees ownership
  seen-not_revoked ds v s h = ground arith

  revoked-Steps : (r : Request) → Steps KeepsRevoked r
  unfolding insert_message insert_code insert_tool upsert_device
  revoked-Steps (creates_session s) = insert-KeepsRevoked s
  revoked-Steps (sets_mode v s m now) =
      λ x db. revoked-update _ _ (λ t. refl) (λ t p k. k) db.sessions
  revoked-Steps (archives v s a now) =
      λ at db. revoked-update _ _ (λ t. refl) (λ t p k. k) db.sessions
  revoked-Steps (deletes_session v s) =
      λ db. revoked-delete _ (λ t p. resting-not_revoked t.state (ground arith)) db.sessions
  revoked-Steps (sets_state v s st now) = λ x db.
      revoked-update _ _ (λ t. refl)
        (λ t p k. absurd (ground (arith, k, p, seen-not_revoked db.devices v t))) db.sessions
  revoked-Steps (begins_turn v s now) = λ db.
      revoked-update _ _ (λ t. refl)
        (λ t p k. absurd (ground (arith, k, p, resting-not_revoked t.state))) db.sessions
  revoked-Steps (sets_external v s e now) = external-KeepsRevoked v s e now
  revoked-Steps (creates_message v m) = λ db. ground arith
  revoked-Steps (creates_tool v t) = λ x db. ground arith
  revoked-Steps (decides v k d now) =
      (λ x db o. o, λ s db. revoked-update _ _ (λ t. refl) (λ t p k. k) db.sessions)
  revoked-Steps (fails_pending v k e now) = λ db o. o
  revoked-Steps (starts_tool v k) = λ db o. o
  revoked-Steps (finishes_tool v k s c e now) = λ x db o. o
  revoked-Steps (registers d) = λ db. ground arith
  revoked-Steps (sees_device d at) = λ db o. o
  revoked-Steps (unpairs text v d now) = (
    λ db o. o,
    λ db. revoked-update _ _ (λ t. refl) (λ t p k. refl) db.sessions,
    λ db o. o,
    λ db o. o,
  )
  revoked-Steps (offers_code c now) = (λ db o. o, λ db. ground arith)
  revoked-Steps (claims v c now) = (λ d db o. o, λ k db o. o)

-- The property holds of all requests.
All-requests : (rs : List Request) → All (λ r. Unit {0}) rs
All-requests [] = tt
All-requests (r ∷ rs) = (tt, All-requests rs)

All-scripts : (script : List (List Request × Outcome)) → All (λ x. All (λ r. Unit {0}) x.0) script
All-scripts [] = tt
All-scripts ((rs, o) ∷ rest) = (All-requests rs, All-scripts rest)

-- A session that is revoked is there and revoked after every history of requests, whatever they are,
-- whichever statements the driver refuses or loses the reply of, and whatever runs between them.
pub history-keeps_revoked :
    (i : RowId) (rs : List Request) (script : List (List Request × Outcome)) (db : Db)
    → revoked_there i db.sessions ≡ true
    → revoked_there i (history rs script db).sessions ≡ true
history-keeps_revoked i rs script db revoked =
    history-keeps (KeepsRevoked-IsOrder i) (λ r. Unit {0})
      (λ r k. request-Keeps (KeepsRevoked-IsOrder i) r (revoked-Steps i r)) rs script db
      (All-requests rs) (All-scripts script) revoked
