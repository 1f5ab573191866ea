-- ===== src/Store/Lifecycle/Approval.antt =====
-- What the order of the stages says of approval: a call that waits for a decision runs only when
-- it was approved, and a denied call never runs.
use aisummoner.Prelude.{◌≡◌, refl, List, Option, none, some, true, All}
use aisummoner.Prelude.Keyed.{Distinct}
use aisummoner.Store.Data.{
  RowId, ToolStatus, Decision, ToolCall, Db, pending, started, completed, denied, failed, deny,
  is_approval,
}
use aisummoner.Store.Driver.{Outcome}
use aisummoner.Store.Requests.{Request, history}
use aisummoner.Store.Lifecycle.{
  Stage, decided, executing, ended, Edge, decide, expire, run_once, run_session, refuse, give_up,
  complete, break, Course, here, next, stage_of, Later, find_tool,
}
use aisummoner.Store.Lifecycle.Histories.{Spares, history-LaterRow}

-- A stage that runs, or has run to its end, has an approval.
abbrev Approved : Stage → Type 0
Approved (executing o) = is_approval o ≡ true
Approved (ended completed o) = is_approval o ≡ true
Approved _ = Unit {0}

Edge-Approved : {s t : Stage} → Edge s t → Approved s → Approved t
Edge-Approved (decide d n) a = tt
Edge-Approved expire a = tt
Edge-Approved run_once a = refl
Edge-Approved run_session a = refl
Edge-Approved refuse a = tt
Edge-Approved (give_up d) a = tt
Edge-Approved (complete o) a = a
Edge-Approved (break o) a = tt

Course-Approved : {s t : Stage} → Course s t → Approved s → Approved t
Course-Approved (here s) a = a
Course-Approved (next e p) a = Course-Approved p (Edge-Approved e a)

-- A stage that a denial leads to.
abbrev Denied : Stage → Type 0
Denied (decided deny) = Unit {0}
Denied (ended denied o) = Unit {0}
Denied (ended failed o) = Unit {0}
Denied _ = ⊥

Edge-Denied : {s t : Stage} → Edge s t → Denied s → Denied t
Edge-Denied (decide d n) a = absurd a
Edge-Denied expire a = tt
Edge-Denied run_once a = absurd a
Edge-Denied run_session a = absurd a
Edge-Denied refuse a = tt
Edge-Denied (give_up d) a = tt
Edge-Denied (complete o) a = absurd a
Edge-Denied (break o) a = absurd a

Course-Denied : {s t : Stage} → Course s t → Denied s → Denied t
Course-Denied (here s) a = a
Course-Denied (next e p) a = Course-Denied p (Edge-Denied e a)

-- The call has been started: it runs or has run to its end.
abbrev pub HasRun : ToolStatus → Type 0
HasRun started = Unit {0}
HasRun completed = Unit {0}
HasRun _ = ⊥

Approved-of_run :
    (s : ToolStatus) (o : Option Decision)
    → HasRun s
    → Approved (stage_of s o)
    → is_approval o ≡ true
Approved-of_run started o r a = a
Approved-of_run completed o r a = a
Approved-of_run pending o r a = absurd r
Approved-of_run denied o r a = absurd r
Approved-of_run failed o r a = absurd r

not_run_of_Denied : (s : ToolStatus) (o : Option Decision) → Denied (stage_of s o) → ¬ HasRun s
not_run_of_Denied started o d r = absurd d
not_run_of_Denied completed o d r = absurd d
not_run_of_Denied pending o d r = r
not_run_of_Denied denied o d r = r
not_run_of_Denied failed o d r = r

module _ (i : RowId) (rs : List Request) (script : List (List Request × Outcome)) (db : Db)
    (t u : ToolCall) (spares : All (Spares i) rs) (others : All (λ x. All (Spares i) x.0) script)
    (keys : Distinct ToolCall.id db.tools) (before : find_tool i db.tools ≡ some t)
    (after : find_tool i (history rs script db).tools ≡ some u) where
  later : Later t u
  later = rw (before, after) at (history-LaterRow i rs script db spares others keys)

  -- In a database whose tool calls have distinct identifiers, take a call that is pending with no
  -- decision, and a history that does not create its identifier, in the requests or in those that
  -- run between the statements. If the call is there after the history, started or completed, its
  -- decision is an approval.
  pub run-needs-approval :
      t.status ≡ pending → t.decision ≡ none → HasRun u.status → is_approval u.decision ≡ true
  run-needs-approval p n r =
      Approved-of_run u.status u.decision r (Course-Approved later.path (rw (p, n) tt))

  -- Under the same conditions on the database and the history, a call that is pending with a denial,
  -- and is there after the history, is not started or completed then.
  pub denied-never-runs : t.status ≡ pending → t.decision ≡ some deny → ¬ HasRun u.status
  denied-never-runs p d =
      not_run_of_Denied u.status u.decision (Course-Denied later.path (rw (p, d) tt))
