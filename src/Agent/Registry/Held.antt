-- ===== src/Agent/Registry/Held.antt =====
-- internal/agent/service.go: what the callers of the critical sections hold. A caller that `reserveTurn` or
-- `beginMutation` has admitted calls `releaseTurn` or `endMutation` once, and no other caller does.
use aisummoner.Prelude.{
  ℕ, suc, ◌-◌, ◌==◌, ◌≡◌, ◌≢◌, refl, sym, ap, ◌∙◌, Bool, true, Option, none, some, List, [], ◌∷◌,
  map, arith, any, update, delete, length, inl, inr, Bool-cases,
}
use aisummoner.Prelude.Keyed.{has_key}
use aisummoner.Prelude.Deletion.{delete_absent}
use aisummoner.Store.Data.{RowId}
use aisummoner.Agent.Registry.{
  Refusal, RunningTurn, Registry, put, cancel_turn, new_turn, add_turn, session_refusal,
  closed_refusal, revoked_refusal, admit, reserve_turn, release_turn, reserve_session_configuration,
  release_session_configuration, begin_mutation, end_mutation, close, mark_session_revoked,
  mark_device_revoked, cancel_device, note_archived, note_deleted, deliver_decision,
  install_pending, remove_pending,
}
use aisummoner.Agent.Registry.Requests.{
  Request, reserving_turn, releasing_turn, reserving_configuration, releasing_configuration,
  beginning_mutation, ending_mutation, closing, revoking, cancelling, archiving, deleting,
  delivering, installing, removing, serve, Allowed,
}
use aisummoner.Agent.Registry.Cases.{admit_lem, if_lem, done_lem, some_lem}
use aisummoner.Agent.Registry.Exclusive.{IsOrderly, IsOrderly-serve, Allowed-IsServed, passed}

-- The sessions with a turn that its caller has not released, and the number of mutations not yet ended.
pub record Held : Type 0 where
  pub turns : List RowId
  pub mutations : ℕ

abbrev pub if_admitted : Option Refusal → Held → Held → Held
if_admitted none after before = after
if_admitted (some e) after before = before

-- What is held after a request; only the answer to the caller counts, not what the service made of it.
unfoldable pub held_after : Request → Registry → Held → Held
held_after (reserving_turn i device user) r h =
    if_admitted ((reserve_turn i device user r).0) (record h { turns = i ∷ h.turns }) h
held_after (releasing_turn i) r h = record h {
  turns = delete (has_key (λ (k : RowId). k) i) h.turns;
}
held_after beginning_mutation r h =
    if_admitted ((begin_mutation r).0) (record h { mutations = suc h.mutations }) h
held_after ending_mutation r h = record h { mutations = h.mutations - 1 }
held_after _ r h = h

-- Only what is held is released.
abbrev pub Holds : Request → Held → Type 0
Holds q h = elim q [
  | releasing_turn i ↦ any (has_key (λ (k : RowId). k) i) h.turns ≡ true
  | ending_mutation ↦ h.mutations ≢ 0
  | _ ↦ Unit
]

-- A history of requests by callers who release only what they hold.
pub data Works : Registry → Held → Registry → Held → Type 0 where
  here : (r : Registry) (h : Held) → Works r h r h
  next :
      (q : Request) (a b c : Registry) (h k : Held)
      → Holds q h
      → serve q a ≡ some b
      → Works b (held_after q a h) c k
      → Works a h c k

abbrev pub ids : Registry → List RowId
ids r = map RunningTurn.session_id r.running

-- The registry has the turns and the mutations that are held.
abbrev pub Accounted : Held → Registry → Type 0
Accounted h r = (ids r ≡ h.turns) × (r.mutations ≡ h.mutations)

any-map :
    (i : RowId) (ts : List RunningTurn)
    → any (has_key (λ (k : RowId). k) i) (map RunningTurn.session_id ts)
      ≡ any (has_key RunningTurn.session_id i) ts
unfolding any
any-map i [] = refl
any-map i (t ∷ ts) = rw (any-map i ts) refl

length-map : (ts : List RunningTurn) → length (map RunningTurn.session_id ts) ≡ length ts
length-map [] = refl
length-map (t ∷ ts) = ap suc (length-map ts)

map-update :
    (p : RunningTurn → Bool) (ts : List RunningTurn)
    → map RunningTurn.session_id (update p cancel_turn ts) ≡ map RunningTurn.session_id ts
unfolding update
map-update p [] = refl
map-update p (t ∷ ts) =
    let later = map-update p ts in
    elim (Bool-cases (p t)) [
      | inl picked ↦ rw picked (ap (λ is. t.session_id ∷ is) later)
      | inr other ↦ rw other (ap (λ is. t.session_id ∷ is) later)
    ]

map-delete :
    (i : RowId) (ts : List RunningTurn)
    → map RunningTurn.session_id (delete (has_key RunningTurn.session_id i) ts)
      ≡ delete (has_key (λ (k : RowId). k) i) (map RunningTurn.session_id ts)
unfolding delete
map-delete i [] = refl
map-delete i (t ∷ ts) = elim (Bool-cases (t.session_id == i)) [
  | inl same ↦ rw same (map-delete i ts)
  | inr other ↦ rw other (ap (λ is. t.session_id ∷ is) (map-delete i ts))
]

admit_held :
    (o : Option Refusal) (a b : Registry) (g h : Held)
    → (o ≡ none → Accounted g a)
    → Accounted h b
    → Accounted (if_admitted ((admit o a b).0) g h) ((admit o a b).1)
admit_held none a b g h pa pb = pa refl
admit_held (some e) a b g h pa pb = pb

Accounted-reserve :
    (i device user : RowId) (r : Registry) (h : Held)
    → Accounted h r
    → Accounted (held_after (reserving_turn i device user) r h) ((reserve_turn i device user r).1)
unfolding reserve_turn held_after put
Accounted-reserve i device user r h (turns, mutations) =
    admit_held (session_refusal i r) (add_turn (new_turn i device user) r) r
      (record h { turns = i ∷ h.turns }) h
      (λ is. (
        ap (λ ts. i ∷ map RunningTurn.session_id ts)
              (delete_absent RunningTurn.session_id i r.running (passed i r is).1)
            ∙ ap (λ xs. i ∷ xs) turns,
        mutations,
      ))
      (turns, mutations)

Accounted-begin :
    (r : Registry) (h : Held)
    → Accounted h r
    → Accounted (held_after beginning_mutation r h) ((begin_mutation r).1)
unfolding begin_mutation held_after
Accounted-begin r h (turns, mutations) =
    admit_held (closed_refusal r) (record r { mutations = suc r.mutations }) r
      (record h { mutations = suc h.mutations }) h (λ is. (turns, ap suc mutations))
      (turns, mutations)

-- Marking sessions and devices cancels turns, and keeps them.
Accounted-mark :
    (device j : RowId) (r : Registry) (h : Held)
    → Accounted h r
    → Accounted h (mark_session_revoked device j r)
unfolding mark_session_revoked
Accounted-mark device j r h (turns, mutations) =
    if_lem (Accounted h) (j == 0) r _ (λ e. (turns, mutations))
      (λ e. (map-update (has_key RunningTurn.session_id j) r.running ∙ turns, mutations))

Accounted-marks :
    (device : RowId) (is : List RowId) (r : Registry) (h : Held)
    → Accounted h r
    → Accounted h (mark_device_revoked device is r)
unfolding mark_device_revoked
Accounted-marks device [] r h ok = ok
Accounted-marks device (j ∷ is) r h ok =
    Accounted-marks device is (mark_session_revoked device j r) h (Accounted-mark device j r h ok)

Accounted-serve :
    (q : Request) (r s : Registry) (h : Held)
    → serve q r ≡ some s
    → Accounted h r
    → Accounted (held_after q r h) s
unfolding serve held_after release_turn end_mutation close cancel_device deliver_decision
    install_pending remove_pending note_archived note_deleted reserve_session_configuration
    release_session_configuration
Accounted-serve (reserving_turn i device user) r s h e ok =
    some_lem (Accounted _) _ s (Accounted-reserve i device user r h ok) e
Accounted-serve (releasing_turn i) r s h e (turns, mutations) =
    done_lem (Accounted _) r.turns _ s
      (λ n is.
        (map-delete i r.running ∙ ap (delete (has_key (λ (k : RowId). k) i)) turns, mutations))
      e
Accounted-serve (reserving_configuration i) r s h e ok =
    some_lem (Accounted h) _ s (admit_lem (Accounted h) (session_refusal i r) _ r (λ is. ok) ok) e
Accounted-serve (releasing_configuration i) r s h e ok = some_lem (Accounted h) _ s ok e
Accounted-serve beginning_mutation r s h e ok =
    some_lem (Accounted _) _ s (Accounted-begin r h ok) e
Accounted-serve ending_mutation r s h e (turns, mutations) =
    done_lem (Accounted _) r.mutations (λ n. record r { mutations = n }) s
      (λ n is. (turns, omega (arith, is, mutations))) e
Accounted-serve closing r s h e (turns, mutations) =
    some_lem (Accounted h) _ s
      (if_lem (Accounted h) r.closed r _ (λ c. (turns, mutations))
        (λ c. (map-update (λ t. true) r.running ∙ turns, mutations)))
      e
Accounted-serve (revoking device is) r s h e ok =
    some_lem (Accounted h) _ s (Accounted-marks device is r h ok) e
Accounted-serve (cancelling device) r s h e (turns, mutations) =
    some_lem (Accounted h) _ s
      (map-update (λ t. t.device_id == device) r.running ∙ turns, mutations) e
Accounted-serve (archiving i device b) r s h e ok =
    some_lem (Accounted h) _ s (if_lem (Accounted h) b _ _ (λ c. ok) (λ c. ok)) e
Accounted-serve (deleting i device) r s h e ok = some_lem (Accounted h) _ s ok e
Accounted-serve (delivering owner tool i d) r s h e ok =
    some_lem (Accounted h) _ s (admit_lem (Accounted h) (revoked_refusal i r) _ r (λ is. ok) ok) e
Accounted-serve (installing p) r s h e ok =
    some_lem (Accounted h) _ s (admit_lem (Accounted h) _ _ r (λ is. ok) ok) e
Accounted-serve (removing tool) r s h e ok = some_lem (Accounted h) _ s ok e

Holds-Allowed : (q : Request) (r : Registry) (h : Held) → Accounted h r → Holds q h → Allowed q r
Holds-Allowed (releasing_turn i) r h (turns, mutations) holds =
    sym (any-map i r.running) ∙ ap (any (has_key (λ (k : RowId). k) i)) turns ∙ holds
Holds-Allowed ending_mutation r h (turns, mutations) holds = λ z. holds (sym mutations ∙ z)
Holds-Allowed (reserving_turn j device user) r h ok holds = tt
Holds-Allowed (reserving_configuration j) r h ok holds = tt
Holds-Allowed (releasing_configuration j) r h ok holds = tt
Holds-Allowed beginning_mutation r h ok holds = tt
Holds-Allowed closing r h ok holds = tt
Holds-Allowed (revoking device is) r h ok holds = tt
Holds-Allowed (cancelling device) r h ok holds = tt
Holds-Allowed (archiving j device b) r h ok holds = tt
Holds-Allowed (deleting j device) r h ok holds = tt
Holds-Allowed (delivering owner tool j c) r h ok holds = tt
Holds-Allowed (installing p) r h ok holds = tt
Holds-Allowed (removing tool) r h ok holds = tt

-- The wait groups count what is held, and no request of a caller who releases only what it holds makes one
-- of them panic.
abbrev pub IsBalanced : Registry → Held → Type 0
IsBalanced r h =
    (r.turns ≡ length h.turns)
    × (r.mutations ≡ h.mutations)
    × ((q : Request) → Holds q h → serve q r ≢ none)

balanced : (r : Registry) (h : Held) → IsOrderly r → Accounted h r → IsBalanced r h
balanced r h orderly (turns, mutations) = (
  orderly.2 ∙ sym (length-map r.running) ∙ ap length turns,
  mutations,
  λ q holds. Allowed-IsServed q r orderly (Holds-Allowed q r h (turns, mutations) holds),
)

-- After any history of callers who release only what they hold, from an orderly registry that has what they
-- hold, the wait groups count the turns and the mutations that are still held, and no release by such
-- a caller makes a wait group panic.
pub Works-IsBalanced :
    {r s : Registry} {h k : Held} → Works r h s k → IsOrderly r → Accounted h r → IsBalanced s k
Works-IsBalanced (here r h) orderly ok = balanced r h orderly ok
Works-IsBalanced (next q a b c h k holds e more) orderly ok =
    Works-IsBalanced more (IsOrderly-serve q a b (Holds-Allowed q a h ok holds) e orderly)
      (Accounted-serve q a b h e ok)
