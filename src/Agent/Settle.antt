-- ===== src/Agent/Settle.antt =====
-- internal/agent/service.go: `resolvePendingAbort` and `finishTool`, which bring a tool call to its
-- durable end. Their two attempts, their lookups and the order of these are those of the code.
pub mod Sound
use aisummoner.Prelude.{
  ℕ, zero, suc, Bool, true, false, not, Option, none, some, ◌&&◌, ◌||◌, if◌then◌else◌,
}
use aisummoner.Prelude.Text.{codes}
use aisummoner.Store.Data.{
  RowId, Time, Bytes, ToolStatus, Decision, ToolCall, pending, started, completed, denied, failed,
  is_pending, is_started, is_none,
}
use aisummoner.Store.Driver.{Result, ok, err, World}
use aisummoner.Store.Tools.{
  FailReply, is_terminal, agent_tool_call_by_owner, fail_pending_agent_tool_call,
  finish_agent_tool_call,
}

-- What `resolvePendingAbort` returns: the decision that won, the cause of the abort, which won,
-- `ErrInvalidState`, or an error of the store.
pub data Resolution : Type 0 where
  resumed : Decision → Resolution
  aborted invalid_state not_persisted : Resolution

-- `store.ErrConflict` with the row that is there.
abbrev pub resolve_conflict : ToolStatus → Option Decision → Resolution
resolve_conflict pending (some d) = resumed d
resolve_conflict failed _ = aborted
resolve_conflict _ _ = invalid_state

abbrev pub resolve_reply :
    Result FailReply × World → (World → Resolution × World) → Resolution × World
resolve_reply (ok (FailReply.failed_now row), w) retry = (aborted, w)
resolve_reply (ok (FailReply.conflicting row), w) retry =
    (resolve_conflict row.status row.decision, w)
resolve_reply (err e, w) retry = retry w

abbrev pub abort_excerpt : Bytes
abort_excerpt = codes "approval timed out or was canceled"

-- `attempts` attempts, the clock read at each.
unfoldable pub resolve_attempts : ℕ → RowId → RowId → (ℕ → Time) → World → Resolution × World
resolve_attempts zero owner tool_call_id now w = (not_persisted, w)
resolve_attempts (suc n) owner tool_call_id now w =
    resolve_reply (fail_pending_agent_tool_call owner tool_call_id abort_excerpt (now n) w)
      (λ w'. resolve_attempts n owner tool_call_id now w')

unfoldable pub resolve_pending_abort : RowId → RowId → (ℕ → Time) → World → Resolution × World
resolve_pending_abort = resolve_attempts 2

-- The errors that `finishTool` returns beside a status.
pub data FinishError : Type 0 where
  changed undecided compensated reconciled finish_not_persisted : FinishError

-- The terminal status, if one is durable, and the error, if there is one.
abbrev pub Finished : Type 0
Finished = Option ToolStatus × Option FinishError

-- Where the attempts to fail a pending call end: with a result, or going on to the finish.
pub data Attempt : Type 0 where
  returns : Finished → Attempt
  goes_on : Attempt

abbrev pub fail_row : ToolCall → (World → Attempt × World) → World → Attempt × World
fail_row row retry w =
    if is_terminal row.status
    then (returns (some row.status, changed_unless_failed row.status), w)
    else if is_started row.status || not (is_none row.decision)
    then (goes_on, w)
    else retry w
  where
    changed_unless_failed : ToolStatus → Option FinishError
    changed_unless_failed failed = none
    changed_unless_failed _ = some changed

abbrev pub fail_reply_of : Result FailReply × World → (World → Attempt × World) → Attempt × World
fail_reply_of (ok (FailReply.failed_now row), w) retry = (returns (some failed, none), w)
fail_reply_of (ok (FailReply.conflicting row), w) retry = fail_row row retry w
fail_reply_of (err e, w) retry = retry w

unfoldable pub fail_attempts : ℕ → RowId → RowId → Bytes → (ℕ → Time) → World → Attempt × World
fail_attempts zero owner tool_call_id excerpt now w = (goes_on, w)
fail_attempts (suc n) owner tool_call_id excerpt now w =
    fail_reply_of (fail_pending_agent_tool_call owner tool_call_id excerpt (now n) w)
      (λ w'. fail_attempts n owner tool_call_id excerpt now w')

-- A row that is still pending and undecided stops the finish.
abbrev pub undecided_row : Result ToolCall × World → Attempt × World
undecided_row (ok row, w) =
    if is_pending row.status && is_none row.decision
    then (returns (none, some undecided), w)
    else (goes_on, w)
undecided_row (err e, w) = (goes_on, w)

-- After a write that failed: a row that is terminal anyway settles it.
abbrev pub reconcile :
    (ToolStatus → Option FinishError)
    → Result ToolCall × World
    → (World → Attempt × World)
    → Attempt × World
reconcile error (ok row, w) retry =
    if is_terminal row.status then (returns (some row.status, error row.status), w) else retry w
reconcile error (err e, w) retry = retry w

abbrev pub finish_reply :
    ToolStatus
    → Option FinishError
    → Result (Unit {0}) × World
    → (World → Attempt × World)
    → Attempt × World
finish_reply status error (ok _, w) retry = (returns (some status, error), w)
finish_reply status error (err e, w) retry = retry w

-- Attempts to write a status; `written` and `found` are the errors that go with a write and with a
-- reconciled row.
unfoldable pub finish_attempts :
    ℕ
    → RowId
    → RowId
    → ToolStatus
    → Option ℕ
    → Bytes
    → Option FinishError
    → (ToolStatus → Option FinishError)
    → (ℕ → Time)
    → World
    → Attempt × World
finish_attempts zero owner tool_call_id status code excerpt written found now w = (goes_on, w)
finish_attempts (suc n) owner tool_call_id status code excerpt written found now w =
    finish_reply status written
      (finish_agent_tool_call owner tool_call_id status code (some excerpt) (now n) w)
      (λ w1.
        reconcile found (agent_tool_call_by_owner owner tool_call_id w1)
          (λ w2. finish_attempts n owner tool_call_id status code excerpt written found now w2))

abbrev pub then_attempt : Attempt × World → (World → Attempt × World) → Attempt × World
then_attempt (returns r, w) next = (returns r, w)
then_attempt (goes_on, w) next = next w

abbrev pub finished : Attempt × World → Finished × World
finished (returns r, w) = (r, w)
finished (goes_on, w) = ((none, some finish_not_persisted), w)

abbrev pub same_status : ToolStatus → ToolStatus → Bool
same_status pending pending = true
same_status started started = true
same_status completed completed = true
same_status denied denied = true
same_status failed failed = true
same_status _ _ = false

abbrev compensation_excerpt : Bytes
compensation_excerpt = codes "tool finalization persistence failed"

-- The part of `finishTool` for a call that is to fail: it may not have been decided yet.
abbrev pub fail_first : ToolStatus → RowId → RowId → Bytes → (ℕ → Time) → World → Attempt × World
fail_first failed owner tool_call_id excerpt now w =
    then_attempt (fail_attempts 2 owner tool_call_id excerpt now w)
      (λ w'. undecided_row (agent_tool_call_by_owner owner tool_call_id w'))
fail_first _ owner tool_call_id excerpt now w = (goes_on, w)

-- A write that did not succeed is compensated by a failure.
abbrev pub compensate : ToolStatus → RowId → RowId → (ℕ → Time) → World → Attempt × World
compensate failed owner tool_call_id now w = (goes_on, w)
compensate _ owner tool_call_id now w =
    finish_attempts 2 owner tool_call_id failed none compensation_excerpt (some compensated)
      (λ _. some reconciled) now w

-- `clock` gives the times of the three groups of attempts.
unfoldable pub finish_tool_call :
    RowId → RowId → ToolStatus → Option ℕ → Bytes → (ℕ → ℕ → Time) → World → Finished × World
finish_tool_call owner tool_call_id desired code excerpt clock w = finished (
    then_attempt
      (then_attempt (fail_first desired owner tool_call_id excerpt (clock 0) w) (λ w1.
        finish_attempts 2 owner tool_call_id desired code excerpt none
          (λ s. if same_status s desired then none else some changed) (clock 1) w1))
      (λ w2. compensate desired owner tool_call_id (clock 2) w2))
