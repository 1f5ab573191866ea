-- ===== src/Agent/Registry/Exclusive.antt =====
-- One use of a session at a time, and the counts of what is going on.
use aisummoner.Prelude.{
  ℕ, zero, suc, ◌==◌, ◌≡◌, ◌≢◌, refl, sym, ap, ◌∙◌, Bool, true, false, ◌&&◌, not, none, some, List,
  [], ◌∷◌, arith, any, update, length,
}
use aisummoner.Prelude.Keyed.{has_key, Distinct, Distinct-delete, Distinct-update, any-update_key}
use aisummoner.Store.Data.{RowId}
use aisummoner.Agent.Registry.{
  RunningTurn, Registry, Mark, put, is_running, is_configuring, cancel_turn, new_turn, add_turn,
  session_refusal, closed_refusal, revoked_refusal, done, reserve_turn, release_turn,
  reserve_session_configuration, release_session_configuration, begin_mutation, end_mutation, close,
  mark_session_revoked, mark_device_revoked, cancel_device, note_archived, note_deleted,
  deliver_decision, install_pending, remove_pending,
}
use aisummoner.Agent.Registry.Requests.{
  Request, reserving_turn, releasing_turn, reserving_configuration, releasing_configuration,
  beginning_mutation, ending_mutation, closing, revoking, cancelling, archiving, deleting,
  delivering, installing, removing, serve, Allowed, Reaches, Reaches-keeps,
}
use aisummoner.Agent.Registry.Cases.{admit_lem, if_lem, done_lem, some_lem}
use aisummoner.Agent.Registry.Maps.{
  none-delete, none-update, none-update_all, any-put, Distinct-put,
}
use aisummoner.Prelude.Deletion.{same_key, delete_absent, length-delete}

abbrev pub goes_on : RunningTurn → Bool
goes_on t = not (t.cancelled)

abbrev pub OneUse : Registry → Type 0
OneUse r = (i : RowId) → (is_running i r && is_configuring i r) ≡ false

-- A session has at most one turn, and none while it is configured; the wait group counts the turns;
-- and once the service is closed, every turn is cancelled.
abbrev pub IsOrderly : Registry → Type 0
IsOrderly r =
    Distinct RunningTurn.session_id (r.running)
    × OneUse r
    × (r.turns ≡ length (r.running))
    × (r.closed ≡ true → any goes_on (r.running) ≡ false)

pub passed :
    (j : RowId) (r : Registry)
    → session_refusal j r ≡ none
    → (r.closed ≡ false) × (is_running j r ≡ false) × (is_configuring j r ≡ false)
unfolding session_refusal
passed j r is = ground arith

length-update :
    (p : RunningTurn → Bool) (f : RunningTurn → RunningTurn) (ts : List RunningTurn)
    → length (update p f ts) ≡ length ts
unfolding update
length-update p f [] = refl
length-update p f (t ∷ ts) = ap suc (length-update p f ts)

-- Cancelling some turns.
IsOrderly-cancel :
    (p : RunningTurn → Bool) (r s : Registry)
    → IsOrderly r
    → s.running ≡ update p cancel_turn (r.running)
    → s.configuring ≡ r.configuring
    → s.turns ≡ r.turns
    → (s.closed ≡ true → any goes_on (s.running) ≡ false)
    → IsOrderly s
IsOrderly-cancel p r s (distinct, one, counted, ended) running configuring turns closed = (
  rw running
      (Distinct-update RunningTurn.session_id p cancel_turn (λ t. refl) (r.running) distinct),
  (λ i.
      rw
        (
          running,
          configuring,
          any-update_key RunningTurn.session_id p cancel_turn (λ t. refl) i (r.running),
        )
        (one i)),
  turns ∙ counted ∙ sym (length-update p cancel_turn (r.running)) ∙ ap length (sym running),
  closed,
)

none-cancel :
    (p : RunningTurn → Bool) (ts : List RunningTurn)
    → any goes_on ts ≡ false
    → any goes_on (update p cancel_turn ts) ≡ false
none-cancel p ts h = none-update goes_on p cancel_turn (λ t e. refl) ts h

and_weaker :
    (a b c d : Bool)
    → (a ≡ false → b ≡ false)
    → (c ≡ false → d ≡ false)
    → (a && c) ≡ false
    → (b && d) ≡ false
and_weaker a b c d f g h = ground arith

reserved-OneUse :
    (j device user : RowId) (r : Registry)
    → OneUse r
    → is_configuring j r ≡ false
    → OneUse (add_turn (new_turn j device user) r)
reserved-OneUse j device user r one free i =
    rw (any-put RunningTurn.session_id i (new_turn j device user) (r.running))
      (ground (arith, one i, same_key (λ (k : RowId). k) j i (r.configuring)))

configured :
    (j : RowId) (r : Registry)
    → OneUse r
    → session_refusal j r ≡ none
    → OneUse (record r { configuring = put (λ (k : RowId). k) j (r.configuring) })
configured j r one is i =
    rw (any-put (λ (k : RowId). k) i j (r.configuring))
      (ground (arith, one i, same_key RunningTurn.session_id j i (r.running), (passed j r is).1))

reserved :
    (j device user : RowId) (r : Registry)
    → IsOrderly r
    → session_refusal j r ≡ none
    → IsOrderly (add_turn (new_turn j device user) r)
unfolding put
reserved j device user r (distinct, one, counted, ended) is =
    let (opened, idle, free) = passed j r is in
    (
      Distinct-put RunningTurn.session_id (new_turn j device user) (r.running)
          (Distinct-delete RunningTurn.session_id _ (r.running) distinct),
      reserved-OneUse j device user r one free,
      ap suc (counted ∙ ap length (sym (delete_absent RunningTurn.session_id j (r.running) idle))),
      λ c. absurd (ground (arith, c, opened)),
    )

IsOrderly-reserve :
    (j device user : RowId) (r : Registry)
    → IsOrderly r
    → IsOrderly ((reserve_turn j device user r).1)
unfolding reserve_turn
IsOrderly-reserve j device user r (distinct, one, counted, ended) =
    admit_lem IsOrderly (session_refusal j r) (add_turn (new_turn j device user) r) r
      (λ is. reserved j device user r (distinct, one, counted, ended) is)
      (distinct, one, counted, ended)

IsOrderly-configure :
    (j : RowId) (r : Registry) → IsOrderly r → IsOrderly ((reserve_session_configuration j r).1)
unfolding reserve_session_configuration
IsOrderly-configure j r (distinct, one, counted, ended) =
    admit_lem IsOrderly (session_refusal j r) _ r
      (λ is. (distinct, configured j r one is, counted, ended)) (distinct, one, counted, ended)

IsOrderly-release :
    (j : RowId) (r s : Registry)
    → is_running j r ≡ true
    → release_turn j r ≡ some s
    → IsOrderly r
    → IsOrderly s
unfolding release_turn
IsOrderly-release j r s ok e (distinct, one, counted, ended) =
    done_lem IsOrderly (r.turns) _ s
      (λ n is. (
        Distinct-delete RunningTurn.session_id _ (r.running) distinct,
        λ i.
            and_weaker _ _ _ _ (none-delete (has_key RunningTurn.session_id i) _ (r.running))
              (λ h. h) (one i),
        omega (arith, is, counted, length-delete RunningTurn.session_id j (r.running) distinct ok),
        λ c. none-delete goes_on _ (r.running) (ended c),
      ))
      e

IsOrderly-unconfigure :
    (j : RowId) (r : Registry) → IsOrderly r → IsOrderly (release_session_configuration j r)
unfolding release_session_configuration
IsOrderly-unconfigure j r (distinct, one, counted, ended) = (
  distinct,
  λ i.
      and_weaker _ _ _ _ (λ h. h) (none-delete (has_key (λ (k : RowId). k) i) _ (r.configuring))
        (one i),
  counted,
  ended,
)

IsOrderly-end : (r s : Registry) → end_mutation r ≡ some s → IsOrderly r → IsOrderly s
unfolding end_mutation
IsOrderly-end r s e ok =
    done_lem IsOrderly (r.mutations) (λ n. record r { mutations = n }) s (λ n is. ok) e

IsOrderly-close : (r : Registry) → IsOrderly r → IsOrderly (close r)
unfolding close
IsOrderly-close r ok =
    if_lem IsOrderly (r.closed) r _ (λ c. ok)
      (λ c.
        IsOrderly-cancel (λ t. true) r
          (record r { closed = true; running = update (λ t. true) cancel_turn (r.running) }) ok refl
          refl refl
          (λ e.
            none-update_all goes_on (λ t. true) cancel_turn (λ t h. refl) (λ t h. ground arith)
              (r.running)))

abbrev mark_one : RowId → RowId → Registry → Registry
mark_one device j r = record r {
  revoked = put Mark.session_id (record { session_id = j; device_id = device }) (r.revoked);
  running = update (has_key RunningTurn.session_id j) cancel_turn (r.running);
}

IsOrderly-mark :
    (device j : RowId) (r : Registry) → IsOrderly r → IsOrderly (mark_session_revoked device j r)
unfolding mark_session_revoked
IsOrderly-mark device j r ok =
    if_lem IsOrderly (j == 0) r _ (λ e. ok)
      (λ e.
        IsOrderly-cancel (has_key RunningTurn.session_id j) r (mark_one device j r) ok refl refl
          refl (λ c. none-cancel _ (r.running) (ok.3 c)))

IsOrderly-marks :
    (device : RowId) (is : List RowId) (r : Registry)
    → IsOrderly r
    → IsOrderly (mark_device_revoked device is r)
unfolding mark_device_revoked
IsOrderly-marks device [] r ok = ok
IsOrderly-marks device (j ∷ is) r ok =
    IsOrderly-marks device is (mark_session_revoked device j r) (IsOrderly-mark device j r ok)

IsOrderly-cancel_device :
    (device : RowId) (r : Registry) → IsOrderly r → IsOrderly (cancel_device device r)
unfolding cancel_device
IsOrderly-cancel_device device r ok =
    IsOrderly-cancel (λ t. t.device_id == device) r
      (record r { running = update (λ t. t.device_id == device) cancel_turn (r.running) }) ok refl
      refl refl (λ c. none-cancel _ (r.running) (ok.3 c))

pub IsOrderly-serve :
    (q : Request) (r s : Registry) → Allowed q r → serve q r ≡ some s → IsOrderly r → IsOrderly s
unfolding serve begin_mutation deliver_decision install_pending remove_pending note_archived
    note_deleted
IsOrderly-serve (reserving_turn j device user) r s ok e o =
    some_lem IsOrderly _ s (IsOrderly-reserve j device user r o) e
IsOrderly-serve (releasing_turn j) r s ok e o = IsOrderly-release j r s ok e o
IsOrderly-serve (reserving_configuration j) r s ok e o =
    some_lem IsOrderly _ s (IsOrderly-configure j r o) e
IsOrderly-serve (releasing_configuration j) r s ok e o =
    some_lem IsOrderly _ s (IsOrderly-unconfigure j r o) e
IsOrderly-serve beginning_mutation r s ok e o =
    some_lem IsOrderly _ s (admit_lem IsOrderly (closed_refusal r) _ r (λ is. o) o) e
IsOrderly-serve ending_mutation r s ok e o = IsOrderly-end r s e o
IsOrderly-serve closing r s ok e o = some_lem IsOrderly _ s (IsOrderly-close r o) e
IsOrderly-serve (revoking device is) r s ok e o =
    some_lem IsOrderly _ s (IsOrderly-marks device is r o) e
IsOrderly-serve (cancelling device) r s ok e o =
    some_lem IsOrderly _ s (IsOrderly-cancel_device device r o) e
IsOrderly-serve (archiving j device b) r s ok e o =
    some_lem IsOrderly _ s (if_lem IsOrderly b _ _ (λ h. o) (λ h. o)) e
IsOrderly-serve (deleting j device) r s ok e o = some_lem IsOrderly _ s o e
IsOrderly-serve (delivering owner tool j c) r s ok e o =
    some_lem IsOrderly _ s (admit_lem IsOrderly (revoked_refusal j r) _ r (λ is. o) o) e
IsOrderly-serve (installing p) r s ok e o =
    some_lem IsOrderly _ s (admit_lem IsOrderly _ _ r (λ is. o) o) e
IsOrderly-serve (removing tool) r s ok e o = some_lem IsOrderly _ s o e

-- From an orderly registry, requests in any order whose releases match reservations lead to an orderly
-- one: a session has at most one turn, and none while it is configured; the wait group counts the
-- registered turns; and when the service is closed every registered turn is cancelled.
pub Reaches-IsOrderly : {r s : Registry} → Reaches r s → IsOrderly r → IsOrderly s
Reaches-IsOrderly path ok = Reaches-keeps IsOrderly IsOrderly-serve path ok

done_some : (n : ℕ) (f : ℕ → Registry) → n ≢ 0 → done n f ≢ none
done_some zero f n e = n refl
done_some (suc n) f m e = cc

length_of_key :
    (k : RowId) (ts : List RunningTurn)
    → any (has_key RunningTurn.session_id k) ts ≡ true
    → length ts ≢ 0
unfolding any
length_of_key k [] h e = cc
length_of_key k (t ∷ ts) h e = omega (arith, e)

-- In an orderly registry, no request that is allowed makes a wait group panic.
pub Allowed-IsServed : (q : Request) (r : Registry) → IsOrderly r → Allowed q r → serve q r ≢ none
unfolding serve release_turn end_mutation
Allowed-IsServed (releasing_turn j) r (distinct, one, counted, ended) allowed e =
    done_some (r.turns) _ (λ z. length_of_key j (r.running) allowed (sym counted ∙ z)) e
Allowed-IsServed ending_mutation r ok allowed e = done_some (r.mutations) _ allowed e
Allowed-IsServed (reserving_turn j device user) r ok allowed e = cc
Allowed-IsServed (reserving_configuration j) r ok allowed e = cc
Allowed-IsServed (releasing_configuration j) r ok allowed e = cc
Allowed-IsServed beginning_mutation r ok allowed e = cc
Allowed-IsServed closing r ok allowed e = cc
Allowed-IsServed (revoking device is) r ok allowed e = cc
Allowed-IsServed (cancelling device) r ok allowed e = cc
Allowed-IsServed (archiving j device b) r ok allowed e = cc
Allowed-IsServed (deleting j device) r ok allowed e = cc
Allowed-IsServed (delivering owner tool j c) r ok allowed e = cc
Allowed-IsServed (installing p) r ok allowed e = cc
Allowed-IsServed (removing tool) r ok allowed e = cc
