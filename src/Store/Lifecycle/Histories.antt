-- ===== src/Store/Lifecycle/Histories.antt =====
-- Every request moves every tool call along the diagram of its life, or leaves it alone.
use aisummoner.Prelude.{
  ℕ, ◌≡◌, ◌≢◌, ◌⊎◌, refl, Bool, true, Option, none, some, List, [], ◌∷◌, ◌&&◌, ◌==◌, arith, updated,
  update, delete, first, first-update, first-append, inl, inr, All, if◌then◌else◌, Bool-cases, any,
}
use aisummoner.Prelude.Keyed.{
  Distinct, Distinct-update, Distinct-delete, Distinct-append, first-delete,
}
use aisummoner.Store.Data.{
  RowId, Time, Bytes, ToolStatus, Decision, ToolCall, Db, pending, started, completed, denied,
  failed, is_open, is_pending, is_none, is_approval, valid_decision, owner_sees, owner_sees_tool,
}
use aisummoner.Store.Driver.{Outcome}
use aisummoner.Store.Driver.Keeps.{IsOrder}
use aisummoner.Store.Sessions.{insert_session, set_external, insert_message}
use aisummoner.Store.Tools.{from_predicate, is_terminal, insert_tool, new_tool}
use aisummoner.Store.Devices.{upsert_device}
use aisummoner.Store.Pairing.{insert_code}
use aisummoner.Store.Requests.{
  Request, creates_session, sets_mode, archives, deletes_session, sets_state, begins_turn,
  sets_external, creates_message, creates_tool, decides, fails_pending, starts_tool, finishes_tool,
  registers, sees_device, unpairs, offers_code, claims, history,
}
use aisummoner.Store.Requests.Histories.{history-keeps}
use aisummoner.Store.Requests.Steps.{Steps, request-Keeps}
use aisummoner.Store.Lifecycle.{
  Later, LaterRow, LaterRow-refl, LaterRow-trans, LaterRow-map, find_tool, EvolvesIn, Evolves,
}
use aisummoner.Store.Lifecycle.Moves.{
  updated-Later, decide_path, expire_path, start_path, fail_path, finish_path, Later-open,
}

Evolves-IsOrder : (i : RowId) → IsOrder (Evolves i)
Evolves-IsOrder i = record {
  same = λ a d. (d, LaterRow-refl (find_tool i a.tools));
  then_ = λ a b c f g d.
      let (db, fb) = f d in
      let (dc, gc) = g db in
      (dc, LaterRow-trans (find_tool i a.tools) (find_tool i b.tools) (find_tool i c.tools) fb gc);
}

module _ (i : RowId) where
  -- An operation on other tables.
  same_tools : (xs ys : List ToolCall) → ys ≡ xs → EvolvesIn i xs ys
  same_tools xs ys e d = rw e (d, LaterRow-refl (find_tool i xs))

  update-Evolves :
      (p : ToolCall → Bool) (f : ToolCall → ToolCall) (xs : List ToolCall)
      → ((t : ToolCall) → (f t).id ≡ t.id)
      → ((t : ToolCall) → p t ≡ true → Later t (f t))
      → EvolvesIn i xs (update p f xs)
  update-Evolves p f xs same later d = (
    Distinct-update ToolCall.id p f same xs d,
    rw (first-update (λ t. t.id == i) p f xs (λ t. rw (same t)))
        (LaterRow-map (updated p f) (find_tool i xs) (λ t. updated-Later p f t (later t))),
  )

  kept_or_gone : (o q : Option ToolCall) → (q ≡ none) ⊎ (q ≡ o) → LaterRow o q
  kept_or_gone o q (inl e) = rw e (gone o)
    where
      gone : (o : Option ToolCall) → LaterRow o none
      gone none = tt
      gone (some t) = tt
  kept_or_gone o q (inr e) = rw e (LaterRow-refl o)

  delete-Evolves : (p : ToolCall → Bool) (xs : List ToolCall) → EvolvesIn i xs (delete p xs)
  delete-Evolves p xs d =
      (Distinct-delete ToolCall.id p xs d, kept_or_gone _ _ (first-delete ToolCall.id p i xs d))

  -- Stages of a row under the conditions of the statements.
  decides_Later :
      (u k : RowId) (d : Decision) (db : Db) (t : ToolCall)
      → valid_decision d ≡ true
      → (t.id == k && is_pending t.status && is_none t.decision && owner_sees_tool db u t) ≡ true
      → Later t (record t { decision = some d })
  decides_Later u k d db t v h =
      Later-open t (record t { decision = some d }) refl refl refl (ground arith)
        (decide_path t.status t.decision d v (ground arith)) (λ d' e. ground arith)

  expires_Later :
      (u k : RowId) (e : Option Bytes) (at : Option Time) (db : Db) (t : ToolCall)
      → (t.id == k && is_pending t.status && is_none t.decision && owner_sees_tool db u t) ≡ true
      → Later t (record t { status = failed; output_excerpt = e; completed_at = at })
  expires_Later u k e at db t h =
      Later-open t (record t { status = failed; output_excerpt = e; completed_at = at }) refl refl
        refl (ground arith) (expire_path t.status t.decision (ground arith)) (λ d e. e)

  starts_Later :
      (u k : RowId) (db : Db) (t : ToolCall)
      → (t.id == k && is_pending t.status && is_approval t.decision && owner_sees_tool db u t)
        ≡ true
      → Later t (record t { status = started })
  starts_Later u k db t h =
      Later-open t (record t { status = started }) refl refl refl (ground arith)
        (start_path t.status t.decision (ground arith)) (λ d e. e)

  finishes_Later :
      (u k : RowId) (s : ToolStatus) (c : Option ℕ) (e : Option Bytes) (at : Option Time) (db : Db)
      (t : ToolCall)
      → is_terminal s ≡ true
      → (t.id == k && from_predicate s t && owner_sees_tool db u t) ≡ true
      → Later t (record t { status = s; exit_code = c; output_excerpt = e; completed_at = at })
  finishes_Later u k s c e at db t v h =
      Later-open t (record t { status = s; exit_code = c; output_excerpt = e; completed_at = at })
        refl refl refl (open_before s v (ground arith)) (finish_path s t v (ground arith))
        (λ d e. e)
    where
      open_before :
          (s : ToolStatus)
          → is_terminal s ≡ true
          → from_predicate s t ≡ true
          → is_open t.status ≡ true
      open_before completed v h = ground arith
      open_before denied v h = ground arith
      open_before failed v h = ground arith
      open_before pending v h = cc
      open_before started v h = cc

  unpairs_Later :
      (b : Bool) (e : Option Bytes) (at : Option Time) (t : ToolCall)
      → (is_open t.status && is_none t.completed_at && b) ≡ true
      → Later t
          (record t { status = failed; exit_code = none; output_excerpt = e; completed_at = at })
  unpairs_Later b e at t h =
      Later-open t
        (record t { status = failed; exit_code = none; output_excerpt = e; completed_at = at }) refl
        refl refl (ground arith) (fail_path t.status t.decision (ground arith)) (λ d e. e)

  -- The request does not create the call `i`.
  abbrev pub Spares : Request → Type 0
  Spares (creates_tool u t) = t.id ≢ i
  Spares _ = Unit {0}

  insert-Evolves :
      (u : RowId) (t : ToolCall) (db : Db) → t.id ≢ i → Evolves i db (insert_tool u t db).1
  unfolding insert_tool first
  insert-Evolves u t db ne d =
      elim (Bool-cases (any (λ s. s.id == t.session_id && owner_sees db.devices u s) db.sessions)) [
        | inl seen ↦ elim (Bool-cases (any (λ r. r.id == t.id) db.tools)) [
          | inl clash ↦ rw (seen, clash) (d, LaterRow-refl (find_tool i db.tools))
          | inr fresh ↦
              rw (seen, fresh)
                (
                  Distinct-append ToolCall.id db.tools (new_tool t) fresh d,
                  rw (first-append (λ r. r.id == i) db.tools (new_tool t ∷ []))
                      (old_row (find_tool i db.tools) _ (other_row t.id ne)),
                )
        ]
        | inr hidden ↦ rw hidden (d, LaterRow-refl (find_tool i db.tools))
      ]
    where
      other_row : (k : RowId) → k ≢ i → (if k == i then some (new_tool t) else none) ≡ none
      other_row k n = ground arith

      old_row :
          (o q : Option ToolCall) → q ≡ none → LaterRow o (elim o [ none ↦ q | some x ↦ some x ])
      old_row none q e = rw e tt
      old_row (some x) q e = LaterRow-refl (some x)

  -- Every statement of a request that does not create the call moves it forward.
  evolving-Steps : (r : Request) → Spares r → Steps (Evolves i) r
  unfolding insert_session set_external insert_message upsert_device insert_code
  evolving-Steps (creates_session s) h = λ db. same_tools _ _ (ground arith)
  evolving-Steps (sets_mode u s m now) h = λ v db. same_tools _ _ refl
  evolving-Steps (archives u s a now) h = λ at db. same_tools _ _ refl
  evolving-Steps (deletes_session u s) h = λ db. delete-Evolves _ _
  evolving-Steps (sets_state u s st now) h = λ v db. same_tools _ _ refl
  evolving-Steps (begins_turn u s now) h = λ db. same_tools _ _ refl
  evolving-Steps (sets_external u s e now) h = λ db. same_tools _ _ (ground arith)
  evolving-Steps (creates_message u m) h = λ db. same_tools _ _ (ground arith)
  evolving-Steps (creates_tool u t) h = λ v db. insert-Evolves u t db h
  evolving-Steps (decides u k d now) h = (
    λ v db. update-Evolves _ _ _ (λ t. refl) (λ t p. decides_Later u k d db t v p),
    λ s db. same_tools _ _ refl,
  )
  evolving-Steps (fails_pending u k e now) h =
      λ db. update-Evolves _ _ _ (λ t. refl) (λ t p. expires_Later u k (some e) (some now) db t p)
  evolving-Steps (starts_tool u k) h =
      λ db. update-Evolves _ _ _ (λ t. refl) (λ t p. starts_Later u k db t p)
  evolving-Steps (finishes_tool u k s c e now) h =
      λ v db. update-Evolves _ _ _ (λ t. refl) (λ t p. finishes_Later u k s c e (some now) db t v p)
  evolving-Steps (registers d) h = λ db. same_tools _ _ (ground arith)
  evolving-Steps (sees_device d at) h = λ db. same_tools _ _ refl
  evolving-Steps (unpairs text u d now) h = (
    λ db. same_tools _ _ refl,
    λ db. same_tools _ _ refl,
    λ db.
        update-Evolves _ _ _ (λ t. refl)
          (λ t p. unpairs_Later (any _ db.sessions) (some text) (some now) t p),
    λ db. same_tools _ _ refl,
  )
  evolving-Steps (offers_code c now) h =
      (λ db. same_tools _ _ refl, λ db. same_tools _ _ (ground arith))
  evolving-Steps (claims u c now) h = (λ d db. same_tools _ _ refl, λ k db. same_tools _ _ refl)

-- Over any history that does not create the call `i`, whatever statements the driver refuses or
-- loses the reply of, and whatever other requests run between the statements: in a table whose
-- keys are distinct the call is not there if it was not, and otherwise it is gone or is a later
-- state of what it was.
pub history-LaterRow :
    (i : RowId) (rs : List Request) (script : List (List Request × Outcome)) (db : Db)
    → All (Spares i) rs
    → All (λ x. All (Spares i) x.0) script
    → Distinct ToolCall.id db.tools
    → LaterRow (find_tool i db.tools) (find_tool i (history rs script db).tools)
history-LaterRow i rs script db h hs d =
    (history-keeps (Evolves-IsOrder i) (Spares i)
      (λ r k. request-Keeps (Evolves-IsOrder i) r (evolving-Steps i r k)) rs script db h hs d).1
