-- ===== src/Store/Replies.antt =====
-- What the replies of the store on a tool call say of the row, at the moment of the reply, whatever
-- the driver does and whatever other requests run between the statements.
use aisummoner.Prelude.{
  ℕ, ◌≡◌, refl, Bool, true, false, Option, none, some, List, ◌&&◌, ◌==◌, arith, first, count,
  update, if◌then◌else◌, Bool-cases, inl, inr,
}
use aisummoner.Prelude.Keyed.{Distinct, Distinct-update, first_of_guarded, first-update_hit}
use aisummoner.Store.Data.{
  RowId, Time, Bytes, ToolStatus, ToolCall, Db, failed, is_open, owner_sees_tool,
}
use aisummoner.Store.Driver.{Result, ok, err, Error, on_db, raise, ◌>>=◌, scan_row}
use aisummoner.Store.Driver.Gives.{
  Gives, IsStable, Gives-pure, Gives-raise, Gives-bind, Gives-statement, Gives-check,
}
use aisummoner.Store.Sessions.{conflict_unless_one}
use aisummoner.Store.Tools.{
  FailReply, fail_pending, finish_tool, agent_tool_call_by_owner_query, agent_tool_call_by_owner,
  fail_pending_agent_tool_call, finish_agent_tool_call,
}
use aisummoner.Store.Lifecycle.{LaterRow, find_tool, Evolves}

abbrev pub HasKeys : Db → Type 0
HasKeys d = Distinct ToolCall.id d.tools

-- The row, if it is there, has the status.
abbrev pub RowIf : ToolStatus → Option ToolCall → Type 0
RowIf s none = Unit {0}
RowIf s (some t) = t.status ≡ s

RowIf-LaterRow :
    (s : ToolStatus) (o p : Option ToolCall)
    → is_open s ≡ false
    → LaterRow o p
    → RowIf s o
    → RowIf s p
RowIf-LaterRow s none none h l r = tt
RowIf-LaterRow s none (some u) h l r = absurd l
RowIf-LaterRow s (some t) none h l r = tt
RowIf-LaterRow s (some t) (some u) h l r = let e : u ≡ t = l.frozen (rw r h) in rw e r

module _ (i : RowId) where
  pub HasKeys-stable : IsStable (Evolves i) HasKeys
  HasKeys-stable a b r k = (r k).0

  -- The keys are distinct, and if the statement before affected a row, the row has the status.
  abbrev Reached : ToolStatus → ℕ → Db → Type 0
  Reached s n d = HasKeys d × (n ≡ 1 → RowIf s (find_tool i d.tools))

  Reached-stable : (s : ToolStatus) (n : ℕ) → is_open s ≡ false → IsStable (Evolves i) (Reached s n)
  Reached-stable s n h a b r k = ((r k.0).0, λ e. RowIf-LaterRow s _ _ h (r k.0).1 (k.1 e))

  abbrev pub LookupSays : (Db → Type 0) → Result ToolCall → Db → Type 0
  LookupSays P (ok row) d = P d × (find_tool i d.tools ≡ some row)
  LookupSays P (err e) d = P d

  abbrev FoundSays : (Db → Type 0) → RowId → Result (Option ToolCall) → Db → Type 0
  FoundSays P u (ok o) d = P d × (first (λ t. t.id == i && owner_sees_tool d u t) d.tools ≡ o)
  FoundSays P u (err e) d = P d

  -- A lookup that succeeds returns the row that is there.
  pub lookup-Gives :
      (P : Db → Type 0) (u : RowId)
      → IsStable (Evolves i) P
      → ((d : Db) → P d → HasKeys d)
      → Gives (Evolves i) P (agent_tool_call_by_owner u i) (LookupSays P)
  unfolding agent_tool_call_by_owner agent_tool_call_by_owner_query
  lookup-Gives P u stable keys =
      Gives-bind (Evolves i) P (LookupSays P) (FoundSays P u) _ scan_row
        (Gives-statement (Evolves i) P (FoundSays P u) _ (λ d p. (p, refl)) (λ d p. p) (λ d p. p)
          on_db stable)
        scan (λ e d p. p)
    where
      scan :
          (o : Option ToolCall)
          → Gives (Evolves i) (FoundSays P u (ok o)) (scan_row o) (LookupSays P)
      scan none = Gives-raise (Evolves i) Error.not_found (λ d p. p.0)
      scan (some row) = Gives-pure (Evolves i) row λ d p.
          (p.0, first_of_guarded ToolCall.id i (owner_sees_tool d u) d.tools row (keys d p.0) p.1)

  -- After an update of the row of a call that gives it a status.
  update-hits :
      (s : ToolStatus) (p : ToolCall → Bool) (f : ToolCall → ToolCall) (xs : List ToolCall)
      → ((t : ToolCall) → (f t).id ≡ t.id)
      → ((t : ToolCall) → (f t).status ≡ s)
      → ((t : ToolCall) → p t ≡ true → (t.id == i) ≡ true)
      → Distinct ToolCall.id xs
      → Distinct ToolCall.id (update p f xs)
        × (count p xs ≡ 1
            → (row : ToolCall) × (find_tool i (update p f xs) ≡ some row) × (row.status ≡ s))
  update-hits s p f xs same status keyed d = (
    Distinct-update ToolCall.id p f same xs d,
    λ e.
        let (x, _, found) = first-update_hit ToolCall.id i p f xs same keyed d (omega (arith, e)) in
        (f x, found, status x),
  )

  RowIf-of_hit :
      (s : ToolStatus) (o : Option ToolCall)
      → (row : ToolCall) × (o ≡ some row) × (row.status ≡ s)
      → RowIf s o
  RowIf-of_hit s o (row, found, e) = rw found e

  abbrev HitSays : ToolStatus → Result ℕ → Db → Type 0
  HitSays s (ok n) d =
      HasKeys d × (n ≡ 1 → (row : ToolCall) × (find_tool i d.tools ≡ some row) × (row.status ≡ s))
  HitSays s (err e) d = HasKeys d

  abbrev ReachedSays : ToolStatus → Result ℕ → Db → Type 0
  ReachedSays s (ok n) d = Reached s n d
  ReachedSays s (err e) d = HasKeys d

  -- What `FailPendingAgentToolCall` replies: a row that it failed is failed, and a row that it
  -- returns with a conflict is there.
  abbrev pub FailSays : Result FailReply → Db → Type 0
  FailSays (ok (FailReply.failed_now row)) d =
      HasKeys d × (find_tool i d.tools ≡ some row) × (row.status ≡ failed)
  FailSays (ok (FailReply.conflicting row)) d = HasKeys d × (find_tool i d.tools ≡ some row)
  FailSays (err e) d = HasKeys d

  fail_reply :
      (n : ℕ) (row : ToolCall) (d : Db)
      → LookupSays (Reached failed n) (ok row) d
      → FailSays (ok (if n == 1 then FailReply.failed_now row else FailReply.conflicting row)) d
  fail_reply n row d h = elim (Bool-cases (n == 1)) [
    | inl e ↦ rw e (h.0.0, h.1, rw h.1 at (h.0.1 (ground arith)))
    | inr e ↦ rw e (h.0.0, h.1)
  ]

  pub fail_pending-Gives :
      (u : RowId) (e : Bytes) (now : Time)
      → Gives (Evolves i) HasKeys (fail_pending_agent_tool_call u i e now) FailSays
  unfolding fail_pending_agent_tool_call
  fail_pending-Gives u e now =
      Gives-check (Evolves i) _ _ _
        (Gives-bind (Evolves i) HasKeys FailSays (ReachedSays failed) _ _
          (Gives-statement (Evolves i) HasKeys (ReachedSays failed) _ (λ d k. failing d k)
            (λ d k. k) (λ d k. (failing d k).0) on_db HasKeys-stable)
          (λ n.
            Gives-bind (Evolves i) (Reached failed n) FailSays (LookupSays (Reached failed n)) _ _
              (lookup-Gives (Reached failed n) u (Reached-stable failed n refl) (λ d k. k.0))
              (λ row. Gives-pure (Evolves i) _ (fail_reply n row)) (λ x d k. k.0))
          (λ x d k. k))
        (λ d k. k)
    where
      hit :
          (d : Db)
          → HasKeys d
          → HitSays failed (ok (fail_pending u i e now d).0) (fail_pending u i e now d).1
      hit d k = update-hits failed _ _ d.tools (λ t. refl) (λ t. refl) (λ t h. ground arith) k

      failing :
          (d : Db)
          → HasKeys d
          → Reached failed (fail_pending u i e now d).0 (fail_pending u i e now d).1
      failing d k = ((hit d k).0, λ n. RowIf-of_hit failed _ ((hit d k).1 n))

  -- What `FinishAgentToolCall` replies: the row has the status that it was finished with.
  abbrev pub FinishSays : ToolStatus → Result (Unit {0}) → Db → Type 0
  FinishSays s (ok _) d =
      HasKeys d × ((row : ToolCall) × (find_tool i d.tools ≡ some row) × (row.status ≡ s))
  FinishSays s (err e) d = HasKeys d

  finish_reply :
      (u : RowId) (s : ToolStatus) (n : ℕ)
      → Gives
          (Evolves i)
          (HitSays s (ok n))
          (conflict_unless_one n (agent_tool_call_by_owner u i))
          (FinishSays s)
  unfolding conflict_unless_one
  finish_reply u s n = elim (Bool-cases (n == 1)) [
    | inl e ↦ rw e (Gives-pure (Evolves i) tt (λ d h. (h.0, h.1 (ground arith))))
    | inr e ↦ rw e (record { at = λ w r h. refused.at w r h.0 })
  ]
    where
      refused :
          Gives
            (Evolves i)
            HasKeys
            (agent_tool_call_by_owner u i >>= λ _. raise Error.conflict)
            (FinishSays s)
      refused =
          Gives-bind (Evolves i) HasKeys (FinishSays s) (LookupSays HasKeys) _ _
            (lookup-Gives HasKeys u HasKeys-stable (λ d k. k))
            (λ row. Gives-raise (Evolves i) Error.conflict (λ d k. k.0)) (λ e d k. k)

  pub finish-Gives :
      (u : RowId) (s : ToolStatus) (c : Option ℕ) (e : Option Bytes) (now : Time)
      → Gives (Evolves i) HasKeys (finish_agent_tool_call u i s c e now) (FinishSays s)
  unfolding finish_agent_tool_call
  finish-Gives u s c e now =
      Gives-check (Evolves i) _ _ _
        (Gives-bind (Evolves i) HasKeys (FinishSays s) (HitSays s) _ _
          (Gives-statement (Evolves i) HasKeys (HitSays s) _ (λ d k. finishing d k) (λ d k. k)
            (λ d k. (finishing d k).0) on_db HasKeys-stable)
          (finish_reply u s) (λ x d k. k))
        (λ d k. k)
    where
      finishing :
          (d : Db)
          → HasKeys d
          → HitSays s (ok (finish_tool u i s c e now d).0) (finish_tool u i s c e now d).1
      finishing d k = update-hits s _ _ d.tools (λ t. refl) (λ t. refl) (λ t h. ground arith) k
