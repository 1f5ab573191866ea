-- ===== src/Store/Lifecycle.antt =====
-- The life of a tool call (internal/store/agent.go, the statements on `tool_calls`), as a diagram
-- of stages, and the order between two states of a row.
pub mod Moves
pub mod Histories
pub mod Approval
use mathlib.Core.Option.{map}
use aisummoner.Prelude.{
  ℕ, ◌≡◌, ◌≢◌, refl, sym, ◌∙◌, Bool, true, false, Option, none, some, List, first, ◌==◌, arith,
}
use aisummoner.Prelude.Keyed.{Distinct}
use aisummoner.Store.Data.{
  RowId, Time, Bytes, ToolStatus, Decision, ToolCall, Db, pending, started, completed, denied,
  failed, approve_once, approve_session, deny, other_decision, is_open,
}

-- Waiting for a decision, decided, running, ended; the last two with the decision of the row.
pub data Stage : Type 0 where
  awaiting : Stage
  decided : Decision → Stage
  executing : Option Decision → Stage
  ended : ToolStatus → Option Decision → Stage

pub data Edge : Stage → Stage → Type 0 where
  decide : (d : Decision) → d ≢ other_decision → Edge awaiting (decided d)
  expire : Edge awaiting (ended failed none)
  run_once : Edge (decided approve_once) (executing (some approve_once))
  run_session : Edge (decided approve_session) (executing (some approve_session))
  refuse : Edge (decided deny) (ended denied (some deny))
  give_up : (d : Decision) → Edge (decided d) (ended failed (some d))
  complete : (o : Option Decision) → Edge (executing o) (ended completed o)
  break : (o : Option Decision) → Edge (executing o) (ended failed o)

pub data Course : Stage → Stage → Type 0 where
  here : (s : Stage) → Course s s
  next : {s t u : Stage} → Edge s t → Course t u → Course s u

pub Course-trans : {s t u : Stage} → Course s t → Course t u → Course s u
Course-trans (here s) q = q
Course-trans (next e p) q = next e (Course-trans p q)

abbrev pub stage_of : ToolStatus → Option Decision → Stage
stage_of pending none = awaiting
stage_of pending (some d) = decided d
stage_of started o = executing o
stage_of s o = ended s o

abbrev pub stage : ToolCall → Stage
stage t = stage_of t.status t.decision

-- `u` is a later state of the row `t`: what names the call is the same, its stage has moved along
-- the diagram, a decision that was made stands, and nothing of a call that has ended changes.
pub record Later (t u : ToolCall) : Type 0 where
  pub same_session : u.session_id ≡ t.session_id
  pub same_name : u.name ≡ t.name
  pub same_arguments : u.arguments_json ≡ t.arguments_json
  pub path : Course (stage t) (stage u)
  pub kept : (d : Decision) → t.decision ≡ some d → u.decision ≡ some d
  pub frozen : is_open t.status ≡ false → u ≡ t

pub Later-refl : (t : ToolCall) → Later t t
Later-refl t = record {
  same_session = refl;
  same_name = refl;
  same_arguments = refl;
  path = here (stage t);
  kept = λ d e. e;
  frozen = λ h. refl;
}

frozen_chain :
    {t u v : ToolCall}
    → (is_open t.status ≡ false → u ≡ t)
    → (is_open u.status ≡ false → v ≡ u)
    → is_open t.status ≡ false
    → v ≡ t
frozen_chain {t} {u} {v} f g h = let e : u ≡ t = f h in g (rw e h) ∙ e

pub Later-trans : {t u v : ToolCall} → Later t u → Later u v → Later t v
Later-trans a b = record {
  same_session = b.same_session ∙ a.same_session;
  same_name = b.same_name ∙ a.same_name;
  same_arguments = b.same_arguments ∙ a.same_arguments;
  path = Course-trans a.path b.path;
  kept = λ d e. b.kept d (a.kept d e);
  frozen = frozen_chain a.frozen b.frozen;
}

-- A row may also vanish with its session; it never appears anew.
abbrev pub LaterRow : Option ToolCall → Option ToolCall → Type 0
LaterRow none none = Unit {0}
LaterRow none (some u) = ⊥
LaterRow (some t) none = Unit {0}
LaterRow (some t) (some u) = Later t u

pub LaterRow-refl : (o : Option ToolCall) → LaterRow o o
LaterRow-refl none = tt
LaterRow-refl (some t) = Later-refl t

pub LaterRow-trans : (o p q : Option ToolCall) → LaterRow o p → LaterRow p q → LaterRow o q
LaterRow-trans none none none a b = tt
LaterRow-trans none none (some v) a b = b
LaterRow-trans none (some u) q a b = absurd a
LaterRow-trans (some t) none none a b = tt
LaterRow-trans (some t) none (some v) a b = absurd b
LaterRow-trans (some t) (some u) none a b = tt
LaterRow-trans (some t) (some u) (some v) a b = Later-trans a b

abbrev pub find_tool : RowId → List ToolCall → Option ToolCall
find_tool i = first λ t. t.id == i

-- What an operation may do to the call `i` in a table with a primary key.
abbrev pub EvolvesIn : RowId → List ToolCall → List ToolCall → Type 0
EvolvesIn i xs ys =
    Distinct ToolCall.id xs → Distinct ToolCall.id ys × LaterRow (find_tool i xs) (find_tool i ys)

abbrev pub Evolves : RowId → Db → Db → Type 0
Evolves i a b = EvolvesIn i a.tools b.tools

-- An update of a row by later states of it.
pub LaterRow-map :
    (g : ToolCall → ToolCall) (o : Option ToolCall)
    → ((t : ToolCall) → Later t (g t))
    → LaterRow o (map g o)
LaterRow-map g none h = tt
LaterRow-map g (some t) h = h t
