-- ===== src/Store/Requests/Steps.antt =====
-- A request keeps every relation that its statements keep.
use aisummoner.Prelude.{
  leb, length, ◌≡◌, refl, true, false, ◌&&◌, Option, none, some, ◌==◌, ℕ, Bool, if◌then◌else◌,
}
use aisummoner.Store.Data.{
  RowId, Time, Bytes, Decision, Db, ApprovalMode, SessionState, ToolStatus, AgentMessage,
  valid_approval_mode, valid_agent_session_state, is_open, approve_once, approve_session, deny,
  other_decision,
}
use aisummoner.Store.Data.{Device, PairingCode, AgentSession, ToolCall, valid_decision, is_none}
use aisummoner.Store.Driver.{
  Exec, Error, Queryer, on_tx, on_db, pure, raise, ◌>>=◌, check, exec, statement,
}
use aisummoner.Store.Driver.Keeps.{
  IsOrder, Keeps, Keeps-pure, Keeps-raise, Keeps-bind, Keeps-if, Keeps-statement, Keeps-exec,
  Keeps-query, Keeps-transaction, Keeps-scan_row, Keeps-check, Keeps-require_one_row,
}
use aisummoner.Store.Sessions.{
  insert_session, set_mode, set_archived, delete_session, set_state, begin_turn, set_external,
  insert_message, agent_session_by_owner_query, agent_session_by_managing_owner_query,
  conflict_unless_one, create_agent_session, update_agent_session_approval_mode,
  set_agent_session_archived, delete_agent_session_by_owner, update_agent_session_state,
  begin_agent_turn, update_agent_external_session_id, create_agent_message,
}
use aisummoner.Store.Tools.{
  FailReply, is_terminal, insert_tool, record_decision, set_full_access, fail_pending, start_tool,
  finish_tool, agent_tool_call_by_owner_query, agent_tool_call_by_owner, upgrade_session,
  create_agent_tool_call, decide_agent_tool_call, fail_pending_agent_tool_call,
  start_agent_tool_call, finish_agent_tool_call,
}
use aisummoner.Store.Devices.{
  valid_device, upsert_device, set_last_seen, consume_device_codes, revoke_sessions,
  terminalize_tools, disown, device_by_id, register_device, update_device_last_seen, unpair_device,
}
use aisummoner.Store.Pairing.{
  insert_code, bind_device, consume_code, unconsumed, create_pairing_code, claim_pairing,
}
use aisummoner.Store.Requests.{
  Request, creates_session, sets_mode, archives, deletes_session, sets_state, begins_turn,
  sets_external, creates_message, creates_tool, decides, fails_pending, starts_tool, finishes_tool,
  registers, sees_device, unpairs, offers_code, claims, discard, request,
}

abbrev pub StepKeeps : (Db → Db → Type 0) → (Db → Db) → Type 0
StepKeeps R f = (db : Db) → R db (f db)

-- What the statements of a request have to keep, where the checks before them pass.
abbrev pub Steps : (Db → Db → Type 0) → Request → Type 0
Steps R (creates_session s) = StepKeeps R (λ db. (insert_session s db).1)
Steps R (sets_mode u s m now) =
    valid_approval_mode m ≡ true → StepKeeps R (λ db. (set_mode u s m now db).1)
Steps R (archives u s a now) =
    (at : Option Time) → StepKeeps R (λ db. (set_archived u s at now db).1)
Steps R (deletes_session u s) = StepKeeps R (λ db. (delete_session u s db).1)
Steps R (sets_state u s st now) =
    valid_agent_session_state st ≡ true → StepKeeps R (λ db. (set_state u s st now db).1)
Steps R (begins_turn u s now) = StepKeeps R (λ db. (begin_turn u s now db).1)
Steps R (sets_external u s e now) = StepKeeps R (λ db. (set_external u s e now db).1)
Steps R (creates_message u m) = StepKeeps R (λ db. (insert_message u m db).1)
Steps R (creates_tool u t) = is_open t.status ≡ true → StepKeeps R (λ db. (insert_tool u t db).1)
Steps R (decides u t d now) =
    (valid_decision d ≡ true → StepKeeps R (λ db. (record_decision u t d db).1))
    × ((s : RowId) → StepKeeps R (λ db. (set_full_access u s now db).1))
Steps R (fails_pending u t e now) = StepKeeps R (λ db. (fail_pending u t e now db).1)
Steps R (starts_tool u t) = StepKeeps R (λ db. (start_tool u t db).1)
Steps R (finishes_tool u t s c e now) =
    is_terminal s ≡ true → StepKeeps R (λ db. (finish_tool u t s c e now db).1)
Steps R (registers d) = StepKeeps R (λ db. (upsert_device d db).1)
Steps R (sees_device d at) = StepKeeps R (λ db. (set_last_seen d at db).1)
Steps R (unpairs text u d now) =
    StepKeeps R (λ db. (consume_device_codes d now db).1)
    × StepKeeps R (λ db. (revoke_sessions u d now db).1)
    × StepKeeps R (λ db. (terminalize_tools u d text now db).1)
    × StepKeeps R (λ db. (disown u d db).1)
Steps R (offers_code c now) =
    StepKeeps R (λ db. (consume_device_codes c.device_id now db).1)
    × StepKeeps R (λ db. (insert_code (record c { consumed_at = none }) db).1)
Steps R (claims u c now) =
    ((d : RowId) → StepKeeps R (λ db. (bind_device u d now db).1))
    × ((i : RowId) → StepKeeps R (λ db. (consume_code i now db).1))

&&-left : (a b : Bool) → (a && b) ≡ true → a ≡ true
&&-left true b h = refl
&&-left false b h = cc

&&-right : (a b : Bool) → (a && b) ≡ true → b ≡ true
&&-right true b h = h
&&-right false b h = cc

module _ {R : Db → Db → Type 0} (o : IsOrder R) where
  bind :
      {A B : Type 0} (m : Exec A) (f : A → Exec B)
      → Keeps R m
      → ((a : A) → Keeps R (f a))
      → Keeps R (m >>= f)
  bind = Keeps-bind o

  conflict_unless_one-Keeps :
      {A : Type 0} (n : ℕ) (m : Exec A) → Keeps R m → Keeps R (conflict_unless_one n m)
  unfolding conflict_unless_one
  conflict_unless_one-Keeps n m k =
      Keeps-if o (n == 1) (pure tt) (m >>= λ _. raise Error.conflict) (Keeps-pure o tt)
        (bind m (λ _. raise Error.conflict) k (λ _. Keeps-raise o Error.conflict))

  discard-Keeps : {A : Type 0} (m : Exec A) → Keeps R m → Keeps R (discard m)
  discard-Keeps m k = bind m (λ _. pure tt) k (λ _. Keeps-pure o tt)

  session_query-Keeps : (q : Queryer) (u s : RowId) → Keeps R (agent_session_by_owner_query q u s)
  unfolding agent_session_by_owner_query
  session_query-Keeps q u s = bind _ _ (Keeps-query o q _) (λ row. Keeps-scan_row o row)

  managed_query-Keeps :
      (q : Queryer) (u s : RowId) → Keeps R (agent_session_by_managing_owner_query q u s)
  unfolding agent_session_by_managing_owner_query
  managed_query-Keeps q u s = bind _ _ (Keeps-query o q _) (λ row. Keeps-scan_row o row)

  tool_query-Keeps : (q : Queryer) (u t : RowId) → Keeps R (agent_tool_call_by_owner_query q u t)
  unfolding agent_tool_call_by_owner_query
  tool_query-Keeps q u t = bind _ _ (Keeps-query o q _) (λ row. Keeps-scan_row o row)

  -- What follows a check may use that it passed.
  checked :
      {A : Type 0} (b : Bool) (e : Error) (m : Exec A)
      → (b ≡ true → Keeps R m)
      → Keeps R (check b e >>= λ _. m)
  checked true e m k = bind (check true e) (λ _. m) (Keeps-pure o tt) (λ _. k refl)
  checked false e m k = record { at = λ w h. (o.same w.db, h) }

  pub create_agent_session-Keeps :
      (s : AgentSession) → Steps R (creates_session s) → Keeps R (create_agent_session s)
  unfolding create_agent_session
  create_agent_session-Keeps s k =
      checked _ _ _
        λ _. bind _ _ (Keeps-statement o on_db (insert_session s) k) (Keeps-require_one_row o)

  update_mode-Keeps :
      (u s : RowId) (m : ApprovalMode) (now : Time)
      → Steps R (sets_mode u s m now)
      → Keeps R (update_agent_session_approval_mode u s m now)
  unfolding update_agent_session_approval_mode
  update_mode-Keeps u s m now k = checked _ _ _ λ valid.
      bind _ _ (Keeps-exec o on_db (set_mode u s m now) (k valid)) λ n.
        bind _ _ (conflict_unless_one-Keeps n _ (session_query-Keeps on_db u s))
          λ _. session_query-Keeps on_db u s

  set_archived-Keeps :
      (u s : RowId) (a : Bool) (now : Time)
      → Steps R (archives u s a now)
      → Keeps R (set_agent_session_archived u s a now)
  unfolding set_agent_session_archived
  set_archived-Keeps u s a now k =
      bind _ _ (Keeps-exec o on_db (set_archived u s (if a then some now else none) now) (k _)) λ n.
        bind _ _ (conflict_unless_one-Keeps n _ (managed_query-Keeps on_db u s))
          λ _. managed_query-Keeps on_db u s

  delete_session-Keeps :
      (u s : RowId) → Steps R (deletes_session u s) → Keeps R (delete_agent_session_by_owner u s)
  unfolding delete_agent_session_by_owner
  delete_session-Keeps u s k = Keeps-transaction o _ (
      bind _ _ (managed_query-Keeps on_tx u s) λ session.
        bind _ _ (Keeps-exec o on_tx (delete_session u s) k)
          λ n. bind _ _ (Keeps-check o _ _) (λ _. Keeps-pure o session))

  set_state-Keeps :
      (u s : RowId) (st : SessionState) (now : Time)
      → Steps R (sets_state u s st now)
      → Keeps R (update_agent_session_state u s st now)
  unfolding update_agent_session_state
  set_state-Keeps u s st now k = checked _ _ _ λ valid.
      bind _ _ (Keeps-exec o on_db (set_state u s st now) (k valid)) (Keeps-require_one_row o)

  begin_turn-Keeps :
      (u s : RowId) (now : Time)
      → Steps R (begins_turn u s now)
      → Keeps R (begin_agent_turn u s now)
  unfolding begin_agent_turn
  begin_turn-Keeps u s now k =
      bind _ _ (Keeps-exec o on_db (begin_turn u s now) k)
        λ n. conflict_unless_one-Keeps n _ (session_query-Keeps on_db u s)

  set_external-Keeps :
      (u s : RowId) (e : Bytes) (now : Time)
      → Steps R (sets_external u s e now)
      → Keeps R (update_agent_external_session_id u s e now)
  unfolding update_agent_external_session_id
  set_external-Keeps u s e now k =
      checked _ _ _
        λ _. bind _ _ (Keeps-statement o on_db (set_external u s e now) k) (Keeps-require_one_row o)

  create_message-Keeps :
      (u : RowId) (m : AgentMessage)
      → Steps R (creates_message u m)
      → Keeps R (create_agent_message u m)
  unfolding create_agent_message
  create_message-Keeps u m k =
      checked _ _ _
        λ _. bind _ _ (Keeps-statement o on_db (insert_message u m) k) (Keeps-require_one_row o)

  create_tool-Keeps :
      (u : RowId) (t : ToolCall) → Steps R (creates_tool u t) → Keeps R (create_agent_tool_call u t)
  unfolding create_agent_tool_call
  create_tool-Keeps u t k = checked _ _ _ λ valid.
      bind _ _ (Keeps-statement o on_db (insert_tool u t) (k (&&-right _ _ valid)))
        (Keeps-require_one_row o)

  upgrade-Keeps :
      (u s : RowId) (d : Decision) (now : Time)
      → StepKeeps R (λ db. (set_full_access u s now db).1)
      → Keeps R (upgrade_session u s d now)
  upgrade-Keeps u s approve_session now k =
      bind _ _ (Keeps-exec o on_tx (set_full_access u s now) k) (Keeps-require_one_row o)
  upgrade-Keeps u s approve_once now k = Keeps-pure o tt
  upgrade-Keeps u s deny now k = Keeps-pure o tt
  upgrade-Keeps u s other_decision now k = Keeps-pure o tt

  decide-Keeps :
      (u t : RowId) (d : Decision) (now : Time)
      → Steps R (decides u t d now)
      → Keeps R (decide_agent_tool_call u t d now)
  unfolding decide_agent_tool_call
  decide-Keeps u t d now k = checked _ _ _ λ valid. Keeps-transaction o _ (
      bind _ _ (Keeps-exec o on_tx (record_decision u t d) (k.0 valid)) λ n.
        bind _ _ (conflict_unless_one-Keeps n _ (tool_query-Keeps on_tx u t)) λ _.
          bind _ _ (tool_query-Keeps on_tx u t) λ tool_call.
            bind _ _ (upgrade-Keeps u tool_call.session_id d now (k.1 tool_call.session_id)) λ _.
              bind _ _ (tool_query-Keeps on_tx u t) λ decided.
                bind _ _ (session_query-Keeps on_tx u decided.session_id)
                  λ session. Keeps-pure o (decided, session))

  fail_pending-Keeps :
      (u t : RowId) (e : Bytes) (now : Time)
      → Steps R (fails_pending u t e now)
      → Keeps R (fail_pending_agent_tool_call u t e now)
  unfolding fail_pending_agent_tool_call
  fail_pending-Keeps u t e now k = checked (leb (length e) 8192) Error.invalid_argument _ λ _.
      bind (exec on_db (fail_pending u t e now)) (reply_to u t)
        (Keeps-exec o on_db (fail_pending u t e now) k)
        λ n.
          bind (agent_tool_call_by_owner u t)
            (λ row. pure (if n == 1 then FailReply.failed_now row else FailReply.conflicting row))
            (tool_query-Keeps on_db u t) (λ row. Keeps-pure o _)
    where
      reply_to : RowId → RowId → ℕ → Exec FailReply
      reply_to u t n = agent_tool_call_by_owner u t >>= λ row.
          pure (if n == 1 then FailReply.failed_now row else FailReply.conflicting row)

  start_tool-Keeps : (u t : RowId) → Steps R (starts_tool u t) → Keeps R (start_agent_tool_call u t)
  unfolding start_agent_tool_call
  start_tool-Keeps u t k =
      bind _ _ (Keeps-exec o on_db (start_tool u t) k)
        λ n. conflict_unless_one-Keeps n _ (tool_query-Keeps on_db u t)

  finish_tool-Keeps :
      (u t : RowId) (s : ToolStatus) (c : Option ℕ) (e : Option Bytes) (now : Time)
      → Steps R (finishes_tool u t s c e now)
      → Keeps R (finish_agent_tool_call u t s c e now)
  unfolding finish_agent_tool_call
  finish_tool-Keeps u t s c e now k = checked _ _ _ λ valid.
      bind _ _ (Keeps-exec o on_db (finish_tool u t s c e now) (k (&&-left _ _ valid)))
        λ n. conflict_unless_one-Keeps n _ (tool_query-Keeps on_db u t)

  register-Keeps : (d : Device) → Steps R (registers d) → Keeps R (register_device d)
  unfolding register_device
  register-Keeps d k =
      checked (valid_device d) Error.invalid_argument
        (statement on_db (upsert_device d) >>= λ n.
          check (n == 1) Error.conflict >>= λ _. device_by_id d.id)
        λ _. bind _ _ (Keeps-statement o on_db (upsert_device d) k) λ n.
          bind _ _ (Keeps-check o (n == 1) Error.conflict)
            λ _. bind _ _ (Keeps-query o on_db _) (λ row. Keeps-scan_row o row)

  see_device-Keeps :
      (d : RowId) (at : Time) → Steps R (sees_device d at) → Keeps R (update_device_last_seen d at)
  unfolding update_device_last_seen
  see_device-Keeps d at k =
      bind _ _ (Keeps-exec o on_db (set_last_seen d at) k) (Keeps-require_one_row o)

  unpair-Keeps :
      (text : Bytes) (u d : RowId) (now : Time)
      → Steps R (unpairs text u d now)
      → Keeps R (unpair_device text u d now)
  unfolding unpair_device
  unpair-Keeps text u d now k = Keeps-transaction o _ (
      bind _ _ (Keeps-query o on_tx _) λ row. bind _ _ (Keeps-scan_row o row) λ _.
        bind _ _ (Keeps-query o on_tx _) λ ids.
          bind _ _ (Keeps-exec o on_tx (consume_device_codes d now) k.0) λ _.
            bind _ _ (Keeps-exec o on_tx (revoke_sessions u d now) k.1) λ _.
              bind _ _ (Keeps-exec o on_tx (terminalize_tools u d text now) k.2) λ _.
                bind _ _ (Keeps-exec o on_tx (disown u d) k.3)
                  λ n. bind _ _ (Keeps-check o _ _) (λ _. Keeps-pure o ids))

  offer_code-Keeps :
      (c : PairingCode) (now : Time)
      → Steps R (offers_code c now)
      → Keeps R (create_pairing_code c now)
  unfolding create_pairing_code
  offer_code-Keeps c now k = Keeps-transaction o _ (
      bind _ _ (Keeps-query o on_tx _) λ row. bind _ _ (Keeps-scan_row o row) λ device.
        bind _ _ (Keeps-check o _ _) λ _.
          bind _ _ (Keeps-exec o on_tx (consume_device_codes c.device_id now) k.0) λ _.
            bind _ _ (Keeps-statement o on_tx (insert_code (record c { consumed_at = none })) k.1)
              (λ _. Keeps-pure o tt))

  unconsumed-Keeps : (row : Option PairingCode) → Keeps R (unconsumed row)
  unconsumed-Keeps none = Keeps-raise o Error.pairing_invalid
  unconsumed-Keeps (some c) =
      Keeps-if o (is_none c.consumed_at) _ _ (Keeps-pure o c) (Keeps-raise o Error.pairing_invalid)

  claim-Keeps :
      (u : RowId) (c : Bytes) (now : Time)
      → Steps R (claims u c now)
      → Keeps R (claim_pairing u c now)
  unfolding claim_pairing
  claim-Keeps u c now k = Keeps-transaction o _ (
      bind _ _ (Keeps-query o on_tx _) λ row. bind _ _ (unconsumed-Keeps row) λ pairing.
        bind _ _ (Keeps-check o _ _) λ _.
          bind _ _ (Keeps-exec o on_tx (bind_device u pairing.device_id now) (k.0 _)) λ bound.
            bind _ _ (Keeps-check o _ _) λ _.
              bind _ _ (Keeps-exec o on_tx (consume_code pairing.id now) (k.1 _)) λ consumed.
                bind _ _ (Keeps-check o _ _)
                  λ _. bind _ _ (Keeps-query o on_tx _) (λ device. Keeps-scan_row o device))

  -- A request keeps what its statements keep, under any driver and beside any other requests that
  -- keep it.
  pub request-Keeps : (r : Request) → Steps R r → Keeps R (request r)
  unfolding request
  request-Keeps (creates_session s) k = create_agent_session-Keeps s k
  request-Keeps (sets_mode u s m now) k = discard-Keeps _ (update_mode-Keeps u s m now k)
  request-Keeps (archives u s a now) k = discard-Keeps _ (set_archived-Keeps u s a now k)
  request-Keeps (deletes_session u s) k = discard-Keeps _ (delete_session-Keeps u s k)
  request-Keeps (sets_state u s st now) k = set_state-Keeps u s st now k
  request-Keeps (begins_turn u s now) k = begin_turn-Keeps u s now k
  request-Keeps (sets_external u s e now) k = set_external-Keeps u s e now k
  request-Keeps (creates_message u m) k = create_message-Keeps u m k
  request-Keeps (creates_tool u t) k = create_tool-Keeps u t k
  request-Keeps (decides u t d now) k = discard-Keeps _ (decide-Keeps u t d now k)
  request-Keeps (fails_pending u t e now) k = discard-Keeps _ (fail_pending-Keeps u t e now k)
  request-Keeps (starts_tool u t) k = start_tool-Keeps u t k
  request-Keeps (finishes_tool u t s c e now) k = finish_tool-Keeps u t s c e now k
  request-Keeps (registers d) k = discard-Keeps _ (register-Keeps d k)
  request-Keeps (sees_device d at) k = see_device-Keeps d at k
  request-Keeps (unpairs text u d now) k = discard-Keeps _ (unpair-Keeps text u d now k)
  request-Keeps (offers_code c now) k = offer_code-Keeps c now k
  request-Keeps (claims u c now) k = discard-Keeps _ (claim-Keeps u c now k)
