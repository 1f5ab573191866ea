-- ===== src/Store/Lifecycle/Moves.antt =====
-- Each statement on the tool calls moves a row along the diagram.
use aisummoner.Prelude.{
  ◌≡◌, ◌≢◌, Bool, true, Option, none, some, ◌&&◌, ◌||◌, is_some, arith, updated, Bool-cases, inl,
  inr,
}
use aisummoner.Store.Data.{
  ToolStatus, Decision, ToolCall, pending, started, completed, denied, failed, approve_once,
  approve_session, deny, other_decision, is_open, is_pending, is_none, is_approval, is_started,
  is_denial, valid_decision,
}
use aisummoner.Store.Tools.{from_predicate, is_terminal}
use aisummoner.Store.Lifecycle.{
  Course, here, next, decide, expire, run_once, run_session, refuse, give_up, complete, break,
  stage_of, Later, Later-refl,
}

-- An update touches only the rows of its condition.
pub updated-Later :
    (p : ToolCall → Bool) (f : ToolCall → ToolCall) (t : ToolCall)
    → (p t ≡ true → Later t (f t))
    → Later t (updated p f t)
updated-Later p f t h = elim (Bool-cases (p t)) [ inl e ↦ rw e (h e) | inr e ↦ rw e (Later-refl t) ]

valid-ne : (d : Decision) → valid_decision d ≡ true → d ≢ other_decision
valid-ne d h e = ground arith

pub decide_path :
    (s : ToolStatus) (o : Option Decision) (d : Decision)
    → valid_decision d ≡ true
    → (is_pending s && is_none o) ≡ true
    → Course (stage_of s o) (stage_of s (some d))
decide_path pending none d v h = next (decide d (valid-ne d v)) (here _)
decide_path pending (some _) d v h = cc
decide_path started o d v h = cc
decide_path completed o d v h = cc
decide_path denied o d v h = cc
decide_path failed o d v h = cc

pub expire_path :
    (s : ToolStatus) (o : Option Decision)
    → (is_pending s && is_none o) ≡ true
    → Course (stage_of s o) (stage_of failed o)
expire_path pending none h = next expire (here _)
expire_path pending (some _) h = cc
expire_path started o h = cc
expire_path completed o h = cc
expire_path denied o h = cc
expire_path failed o h = cc

pub start_path :
    (s : ToolStatus) (o : Option Decision)
    → (is_pending s && is_approval o) ≡ true
    → Course (stage_of s o) (stage_of started o)
start_path pending (some approve_once) h = next run_once (here _)
start_path pending (some approve_session) h = next run_session (here _)
start_path pending (some deny) h = cc
start_path pending (some other_decision) h = cc
start_path pending none h = cc
start_path started o h = cc
start_path completed o h = cc
start_path denied o h = cc
start_path failed o h = cc

pub fail_path :
    (s : ToolStatus) (o : Option Decision)
    → is_open s ≡ true
    → Course (stage_of s o) (stage_of failed o)
fail_path pending none h = next expire (here _)
fail_path pending (some d) h = next (give_up d) (here _)
fail_path started o h = next (break o) (here _)
fail_path completed o h = cc
fail_path denied o h = cc
fail_path failed o h = cc

-- The row of a call that an update changes to `u`.
module _ (t u : ToolCall) (session : u.session_id ≡ t.session_id) (name : u.name ≡ t.name)
    (arguments : u.arguments_json ≡ t.arguments_json) where
  pub Later-open :
      is_open t.status ≡ true
      → Course (stage_of t.status t.decision) (stage_of u.status u.decision)
      → ((d : Decision) → t.decision ≡ some d → u.decision ≡ some d)
      → Later t u
  Later-open h p k = record {
    same_session = session;
    same_name = name;
    same_arguments = arguments;
    path = p;
    kept = k;
    frozen = λ e. cc;
  }

-- `from_predicate` read on the status and the decision of the row.
abbrev from_status : ToolStatus → ToolStatus → Option Decision → Bool
from_status denied s o = is_pending s && is_denial o
from_status failed s o = is_started s || is_pending s && is_some o
from_status _ s o = is_started s

finish_row_path :
    (to s : ToolStatus) (o : Option Decision)
    → is_terminal to ≡ true
    → from_status to s o ≡ true
    → Course (stage_of s o) (stage_of to o)
finish_row_path completed started o v h = next (complete o) (here _)
finish_row_path failed started o v h = next (break o) (here _)
finish_row_path failed pending (some d) v h = next (give_up d) (here _)
finish_row_path denied pending (some deny) v h = next refuse (here _)
finish_row_path pending s o v h = cc
finish_row_path started s o v h = cc
finish_row_path to s o v h = ground arith

pub finish_path :
    (to : ToolStatus) (t : ToolCall)
    → is_terminal to ≡ true
    → from_predicate to t ≡ true
    → Course (stage_of t.status t.decision) (stage_of to t.decision)
finish_path completed t v h = finish_row_path completed t.status t.decision v h
finish_path denied t v h = finish_row_path denied t.status t.decision v h
finish_path failed t v h = finish_row_path failed t.status t.decision v h
finish_path pending t v h = cc
finish_path started t v h = cc
