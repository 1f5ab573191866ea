-- ===== src/Agent/Settle/Sound.antt =====
-- What `resolvePendingAbort` and `finishTool` return is what the database holds, under any driver
-- faults and beside any other requests that do not create the same call.
use aisummoner.Prelude.{
  ℕ, zero, suc, ◌≡◌, refl, true, Option, none, some, arith, Bool-cases, inl, inr, not, ◌&&◌, ◌||◌,
}
use aisummoner.Store.Data.{
  RowId, Time, Bytes, ToolStatus, Decision, ToolCall, Db, pending, started, completed, denied,
  failed, is_pending, is_started, is_none,
}
use aisummoner.Store.Driver.{Result, ok, err, World}
use aisummoner.Store.Driver.Keeps.{Rely}
use aisummoner.Store.Tools.{
  FailReply, is_terminal, agent_tool_call_by_owner, finish_agent_tool_call,
}
use aisummoner.Store.Lifecycle.{find_tool, Evolves}
use aisummoner.Store.Replies.{
  HasKeys, HasKeys-stable, FailSays, FinishSays, LookupSays, lookup-Gives, fail_pending-Gives,
  finish-Gives,
}
use aisummoner.Agent.Settle.{
  Resolution, resumed, aborted, resolve_conflict, resolve_reply, resolve_attempts,
  resolve_pending_abort, abort_excerpt, FinishError, compensated, reconciled, Finished, Attempt,
  returns, goes_on, fail_row, fail_reply_of, fail_attempts, undecided_row, reconcile, finish_reply,
  finish_attempts, then_attempt, finished, same_status, fail_first, compensate, finish_tool_call,
}

module _ (i : RowId) where
  -- The keys are distinct, and the other requests still to come move the call forward.
  abbrev pub Calm : World → Type 0
  Calm w = HasKeys w.db × Rely (Evolves i) w.script

  -- The row of the call has the status.
  abbrev pub Holds : ToolStatus → Db → Type 0
  Holds s d = (row : ToolCall) × (find_tool i d.tools ≡ some row) × (row.status ≡ s)

  abbrev pub ResolutionSays : Resolution → Db → Type 0
  ResolutionSays (resumed d) db =
      (row : ToolCall) × (find_tool i db.tools ≡ some row)
      × (row.status ≡ pending)
      × (row.decision ≡ some d)
  ResolutionSays aborted db = Holds failed db
  ResolutionSays _ db = Unit {0}

  abbrev Resolved : Resolution × World → Type 0
  Resolved (r, w) = ResolutionSays r w.db × Calm w

  conflict_sound :
      (s : ToolStatus) (o : Option Decision) (row : ToolCall) (d : Db)
      → find_tool i d.tools ≡ some row
      → row.status ≡ s
      → row.decision ≡ o
      → ResolutionSays (resolve_conflict s o) d
  conflict_sound pending (some d) row db f s o = (row, f, s, o)
  conflict_sound failed o row db f s p = (row, f, s)
  conflict_sound pending none row db f s o = tt
  conflict_sound started o row db f s p = tt
  conflict_sound completed o row db f s p = tt
  conflict_sound denied o row db f s p = tt

  resolve_reply_sound :
      (r : Result FailReply) (w : World) (retry : World → Resolution × World)
      → FailSays i r w.db
      → Rely (Evolves i) w.script
      → ((x : World) → Calm x → Resolved (retry x))
      → Resolved (resolve_reply (r, w) retry)
  resolve_reply_sound (ok (FailReply.failed_now row)) w retry f h k = ((row, f.1, f.2), (f.0, h))
  resolve_reply_sound (ok (FailReply.conflicting row)) w retry f h k =
      (conflict_sound row.status row.decision row w.db f.1 refl refl, (f.0, h))
  resolve_reply_sound (err e) w retry f h k = k w (f, h)

  resolve_attempts_sound :
      (n : ℕ) (u : RowId) (now : ℕ → Time) (w : World)
      → Calm w
      → Resolved (resolve_attempts n u i now w)
  unfolding resolve_attempts
  resolve_attempts_sound zero u now w c = (tt, c)
  resolve_attempts_sound (suc n) u now w c =
      let (f, h) = (fail_pending-Gives i u abort_excerpt (now n)).at w c.1 c.0 in
      resolve_reply_sound _ _ _ f h (resolve_attempts_sound n u now)

  -- When the tool calls have distinct identifiers and the other requests only move the call forward:
  -- a decision that is resumed is the decision of the row, which is still pending, and when the
  -- cause of the abort is returned, the row has failed.
  pub resolve_pending_abort_sound :
      (u : RowId) (now : ℕ → Time) (w : World)
      → HasKeys w.db
      → Rely (Evolves i) w.script
      → ResolutionSays (resolve_pending_abort u i now w).0 (resolve_pending_abort u i now w).1.db
  unfolding resolve_pending_abort
  resolve_pending_abort_sound u now w k h = (resolve_attempts_sound 2 u now w (k, h)).0

  -- What a result of `finishTool` for a wanted status says.
  abbrev pub FinishedSays : ToolStatus → Finished → Db → Type 0
  FinishedSays wanted (some s, none) d = Holds s d × (s ≡ wanted)
  FinishedSays wanted (some s, some e) d = Holds s d
  FinishedSays wanted (none, none) d = ⊥
  FinishedSays wanted (none, some e) d = Unit {0}

  abbrev AttemptSays : ToolStatus → Attempt × World → Type 0
  AttemptSays wanted (returns r, w) = FinishedSays wanted r w.db × Calm w
  AttemptSays wanted (goes_on, w) = Calm w

  row_says :
      (wanted : ToolStatus) (row : ToolCall) (w : World) (e : Option FinishError)
      → find_tool i w.db.tools ≡ some row
      → (e ≡ none → row.status ≡ wanted)
      → Calm w
      → AttemptSays wanted (returns (some row.status, e), w)
  row_says wanted row w none f k c = (((row, f, refl), k refl), c)
  row_says wanted row w (some e) f k c = ((row, f, refl), c)

  fail_row_sound :
      (row : ToolCall) (retry : World → Attempt × World) (w : World)
      → find_tool i w.db.tools ≡ some row
      → Calm w
      → ((x : World) → Calm x → AttemptSays failed (retry x))
      → AttemptSays failed (fail_row row retry w)
  fail_row_sound row retry w f c k = elim (Bool-cases (is_terminal row.status)) [
    | inl e ↦ rw e (row_says failed row w _ f (λ n. ground arith) c)
    | inr e ↦ rw e (elim (Bool-cases (is_started row.status || not (is_none row.decision))) [
      | inl x ↦ rw x c
      | inr x ↦ rw x (k w c)
    ])
  ]

  fail_reply_sound :
      (r : Result FailReply) (w : World) (retry : World → Attempt × World)
      → FailSays i r w.db
      → Rely (Evolves i) w.script
      → ((x : World) → Calm x → AttemptSays failed (retry x))
      → AttemptSays failed (fail_reply_of (r, w) retry)
  fail_reply_sound (ok (FailReply.failed_now row)) w retry f h k =
      (((row, f.1, f.2), refl), (f.0, h))
  fail_reply_sound (ok (FailReply.conflicting row)) w retry f h k =
      fail_row_sound row retry w f.1 (f.0, h) k
  fail_reply_sound (err e) w retry f h k = k w (f, h)

  fail_attempts_sound :
      (n : ℕ) (u : RowId) (excerpt : Bytes) (now : ℕ → Time) (w : World)
      → Calm w
      → AttemptSays failed (fail_attempts n u i excerpt now w)
  unfolding fail_attempts
  fail_attempts_sound zero u excerpt now w c = c
  fail_attempts_sound (suc n) u excerpt now w c =
      let (f, h) = (fail_pending-Gives i u excerpt (now n)).at w c.1 c.0 in
      fail_reply_sound _ _ _ f h (fail_attempts_sound n u excerpt now)

  lookup :
      (u : RowId) (w : World)
      → Calm w
      → LookupSays i HasKeys
          (agent_tool_call_by_owner u i w).0
          (agent_tool_call_by_owner u i w).1.db
        × Rely (Evolves i) (agent_tool_call_by_owner u i w).1.script
  lookup u w c = (lookup-Gives i HasKeys u (HasKeys-stable i) (λ d k. k)).at w c.1 c.0

  undecided_sound :
      (r : Result ToolCall) (w : World)
      → LookupSays i HasKeys r w.db
      → Rely (Evolves i) w.script
      → AttemptSays failed (undecided_row (r, w))
  undecided_sound (ok row) w f h =
      elim (Bool-cases (is_pending row.status && is_none row.decision)) [
        | inl e ↦ rw e (tt, (f.0, h))
        | inr e ↦ rw e (f.0, h)
      ]
  undecided_sound (err e) w f h = (f, h)

  then_sound :
      (wanted : ToolStatus) (a : Attempt) (w : World) (next : World → Attempt × World)
      → AttemptSays wanted (a, w)
      → ((x : World) → Calm x → AttemptSays wanted (next x))
      → AttemptSays wanted (then_attempt (a, w) next)
  then_sound wanted (returns r) w next s k = s
  then_sound wanted goes_on w next s k = k w s

  reconcile_sound :
      (wanted : ToolStatus) (error : ToolStatus → Option FinishError) (r : Result ToolCall)
      (w : World) (retry : World → Attempt × World)
      → ((s : ToolStatus) → error s ≡ none → s ≡ wanted)
      → LookupSays i HasKeys r w.db
      → Rely (Evolves i) w.script
      → ((x : World) → Calm x → AttemptSays wanted (retry x))
      → AttemptSays wanted (reconcile error (r, w) retry)
  reconcile_sound wanted error (ok row) w retry m f h k =
      elim (Bool-cases (is_terminal row.status)) [
        | inl e ↦ rw e (row_says wanted row w (error row.status) f.1 (m row.status) (f.0, h))
        | inr e ↦ rw e (k w (f.0, h))
      ]
  reconcile_sound wanted error (err e) w retry m f h k = k w (f, h)

  -- A write of the status `s` that is reported with `written`.
  finish_reply_sound :
      (wanted s : ToolStatus) (written : Option FinishError) (r : Result (Unit {0})) (w : World)
      (retry : World → Attempt × World)
      → (written ≡ none → s ≡ wanted)
      → FinishSays i s r w.db
      → Rely (Evolves i) w.script
      → ((x : World) → Calm x → AttemptSays wanted (retry x))
      → AttemptSays wanted (finish_reply s written (r, w) retry)
  finish_reply_sound wanted s none (ok _) w retry m f h k = ((f.1, m refl), (f.0, h))
  finish_reply_sound wanted s (some e) (ok _) w retry m f h k = (f.1, (f.0, h))
  finish_reply_sound wanted s written (err e) w retry m f h k = k w (f, h)

  finish_attempts_sound :
      (wanted s : ToolStatus) (written : Option FinishError)
      (found : ToolStatus → Option FinishError)
      → (written ≡ none → s ≡ wanted)
      → ((t : ToolStatus) → found t ≡ none → t ≡ wanted)
      → (n : ℕ) (u : RowId) (code : Option ℕ) (excerpt : Bytes) (now : ℕ → Time) (w : World)
      → Calm w
      → AttemptSays wanted (finish_attempts n u i s code excerpt written found now w)
  unfolding finish_attempts
  finish_attempts_sound wanted s written found m k zero u code excerpt now w c = c
  finish_attempts_sound wanted s written found m k (suc n) u code excerpt now w c =
      let (f, h) = (finish-Gives i u s code (some excerpt) (now n)).at w c.1 c.0 in
      let (reply, w1) = finish_agent_tool_call u i s code (some excerpt) (now n) w in
      finish_reply_sound wanted s written reply w1
        (λ x.
          reconcile found (agent_tool_call_by_owner u i x)
            (λ y. finish_attempts n u i s code excerpt written found now y))
        m f h
        λ x cx.
          let (g, h') = lookup u x cx in
          let (row, y) = agent_tool_call_by_owner u i x in
          reconcile_sound wanted found row y
            (λ z. finish_attempts n u i s code excerpt written found now z) k g h'
            (finish_attempts_sound wanted s written found m k n u code excerpt now)

  same_status-eq : (s t : ToolStatus) → same_status s t ≡ true → s ≡ t
  same_status-eq s t h = ground arith

  fail_first_sound :
      (wanted : ToolStatus) (u : RowId) (excerpt : Bytes) (now : ℕ → Time) (w : World)
      → Calm w
      → AttemptSays wanted (fail_first wanted u i excerpt now w)
  fail_first_sound failed u excerpt now w c =
      then_sound failed _ _ _ (fail_attempts_sound 2 u excerpt now w c)
        λ x cx. let (f, h) = lookup u x cx in undecided_sound _ _ f h
  fail_first_sound pending u excerpt now w c = c
  fail_first_sound started u excerpt now w c = c
  fail_first_sound completed u excerpt now w c = c
  fail_first_sound denied u excerpt now w c = c

  compensated_sound :
      (wanted : ToolStatus) (u : RowId) (excerpt : Bytes) (now : ℕ → Time) (w : World)
      → Calm w
      → AttemptSays wanted (
          finish_attempts 2 u i failed none excerpt (some compensated) (λ _. some reconciled) now w)
  compensated_sound wanted u excerpt now w c =
      finish_attempts_sound wanted failed (some compensated) (λ _. some reconciled) (λ e. cc)
        (λ t e. cc) 2 u none excerpt now w c

  compensate_sound :
      (wanted : ToolStatus) (u : RowId) (now : ℕ → Time) (w : World)
      → Calm w
      → AttemptSays wanted (compensate wanted u i now w)
  compensate_sound failed u now w c = c
  compensate_sound pending u now w c = compensated_sound pending u _ now w c
  compensate_sound started u now w c = compensated_sound started u _ now w c
  compensate_sound completed u now w c = compensated_sound completed u _ now w c
  compensate_sound denied u now w c = compensated_sound denied u _ now w c

  finished-Sound :
      (wanted : ToolStatus) (a : Attempt) (w : World)
      → AttemptSays wanted (a, w)
      → FinishedSays wanted (finished (a, w)).0 (finished (a, w)).1.db
  finished-Sound wanted (returns r) w s = s.0
  finished-Sound wanted goes_on w s = tt

  -- When the tool calls have distinct identifiers and the other requests only move the call forward:
  -- a status that `finishTool` returns is the status of the row; with no error it is the status that
  -- was asked for, and without a status there is an error.
  pub finish_tool_call_sound :
      (u : RowId) (wanted : ToolStatus) (code : Option ℕ) (excerpt : Bytes) (clock : ℕ → ℕ → Time)
      (w : World)
      → HasKeys w.db
      → Rely (Evolves i) w.script
      → FinishedSays wanted
          (finish_tool_call u i wanted code excerpt clock w).0
          (finish_tool_call u i wanted code excerpt clock w).1.db
  unfolding finish_tool_call
  finish_tool_call_sound u wanted code excerpt clock w k h = finished-Sound wanted _ _ (
      then_sound wanted _ _ _
        (then_sound wanted _ _ _ (fail_first_sound wanted u excerpt (clock 0) w (k, h)) (
          finish_attempts_sound wanted wanted none _ (λ e. refl)
            (λ t e. same_status-eq t wanted (ground arith)) 2 u code excerpt (clock 1)))
        (compensate_sound wanted u (clock 2)))
