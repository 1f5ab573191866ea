-- ===== src/Agent/Registry/Tombstones.antt =====
-- What a session is in for once it is revoked: no critical section admits it again.
use mathlib.Core.Path.{subst}
use aisummoner.Prelude.{
  ◌==◌, ==_iff, ==_self, ◌≡◌, ◌≢◌, refl, sym, ◌∙◌, inl, inr, Bool, true, false, ◌&&◌, not,
  Bool-cases, none, some, List, [], ◌∷◌, arith, if◌then◌else◌, any,
}
use aisummoner.Prelude.Keyed.{has_key}
use aisummoner.Store.Data.{RowId, Decision}
use aisummoner.Agent.Registry.{
  RunningTurn, PendingDecision, Registry, Mark, Refusal, put, is_revoked_session, cancel_turn,
  new_turn, add_turn, session_refusal, service_closed, not_found, reserve_turn, release_turn,
  reserve_session_configuration, release_session_configuration, closed_refusal, revoked_refusal,
  admit, begin_mutation, end_mutation, close, mark_session_revoked, mark_device_revoked,
  cancel_device, note_archived, note_deleted, deliver_decision, install_pending, remove_pending,
}
use aisummoner.Agent.Registry.Requests.{
  Request, reserving_turn, releasing_turn, reserving_configuration, releasing_configuration,
  beginning_mutation, ending_mutation, closing, revoking, cancelling, archiving, deleting,
  delivering, installing, removing, serve, Allowed, Reaches, Reaches-keeps,
}
use aisummoner.Agent.Registry.Cases.{admit_lem, if_lem, done_lem, some_lem}
use aisummoner.Agent.Registry.Maps.{none-delete, none-update, none-update_all, any-put}
use aisummoner.Prelude.Deletion.{same_key}

module _ (i : RowId) where
  abbrev pub live : RunningTurn → Bool
  live t = t.session_id == i && not (t.cancelled)

  -- The session is revoked, and no turn of it goes on that was not told to stop.
  abbrev pub Dead : Registry → Type 0
  Dead r = (is_revoked_session i r ≡ true) × (any live (r.running) ≡ false)

  -- A critical section cannot make `live` of a turn that it was not.
  off : (t : RunningTurn) → live t ≡ false → live (cancel_turn t) ≡ false
  off t h = ground arith

  passed : (j : RowId) (r : Registry) → session_refusal j r ≡ none → is_revoked_session j r ≡ false
  unfolding session_refusal
  passed j r is = ground arith

  -- Who passes the guards is not this session.
  refused :
      (j : RowId) (r : Registry)
      → is_revoked_session i r ≡ true
      → session_refusal j r ≡ none
      → (j == i) ≡ false
  unfolding session_refusal
  refused j r h is = ground (arith, same_key Mark.session_id j i (r.revoked), passed j r is)

  Dead-reserve :
      (j device user : RowId) (r : Registry) → Dead r → Dead ((reserve_turn j device user r).1)
  unfolding reserve_turn put any
  Dead-reserve j device user r (mark, none_live) =
      admit_lem Dead (session_refusal j r) (add_turn (new_turn j device user) r) r
        (λ is. (mark, not_it (refused j r mark is))) (mark, none_live)
    where
      not_it :
          (j == i) ≡ false
          → any live (put RunningTurn.session_id (new_turn j device user) (r.running)) ≡ false
      not_it other =
          rw other (none-delete live (has_key RunningTurn.session_id j) (r.running) none_live)

  Dead-release : (j : RowId) (r s : Registry) → release_turn j r ≡ some s → Dead r → Dead s
  unfolding release_turn
  Dead-release j r s e (mark, none_live) =
      done_lem Dead (r.turns) _ s
        (λ n is. (mark, none-delete live (has_key RunningTurn.session_id j) (r.running) none_live))
        e

  Dead-end : (r s : Registry) → end_mutation r ≡ some s → Dead r → Dead s
  unfolding end_mutation
  Dead-end r s e dead =
      done_lem Dead (r.mutations) (λ n. record r { mutations = n }) s (λ n is. dead) e

  Marks-put :
      (m : Mark) (ms : List Mark)
      → any (has_key Mark.session_id i) ms ≡ true
      → any (has_key Mark.session_id i) (put Mark.session_id m ms) ≡ true
  Marks-put m ms h = any-put Mark.session_id i m ms ∙ rw h (ground arith)

  Dead-mark : (device j : RowId) (r : Registry) → Dead r → Dead (mark_session_revoked device j r)
  unfolding mark_session_revoked
  Dead-mark device j r (mark, none_live) =
      if_lem Dead (j == 0) r _ (λ e. (mark, none_live))
        (λ e. (
          Marks-put _ (r.revoked) mark,
          none-update live (has_key RunningTurn.session_id j) cancel_turn off (r.running) none_live,
        ))

  Dead-marks :
      (device : RowId) (is : List RowId) (r : Registry)
      → Dead r
      → Dead (mark_device_revoked device is r)
  unfolding mark_device_revoked
  Dead-marks device [] r dead = dead
  Dead-marks device (j ∷ is) r dead =
      Dead-marks device is (mark_session_revoked device j r) (Dead-mark device j r dead)

  Dead-close : (r : Registry) → Dead r → Dead (close r)
  unfolding close
  Dead-close r (mark, none_live) =
      if_lem Dead (r.closed) r _ (λ e. (mark, none_live))
        (λ e. (mark, none-update live (λ t. true) cancel_turn off (r.running) none_live))

  Dead-archived :
      (j device : RowId) (b : Bool) (r : Registry) → Dead r → Dead (note_archived j device b r)
  unfolding note_archived
  Dead-archived j device b r dead = if_lem Dead b _ _ (λ e. dead) (λ e. dead)

  Dead-deleted : (j device : RowId) (r : Registry) → Dead r → Dead (note_deleted j device r)
  unfolding note_deleted
  Dead-deleted j device r (mark, none_live) = (Marks-put _ (r.revoked) mark, none_live)

  Dead-serve : (q : Request) (r s : Registry) → Allowed q r → serve q r ≡ some s → Dead r → Dead s
  unfolding serve reserve_session_configuration begin_mutation deliver_decision install_pending
      remove_pending release_session_configuration cancel_device
  Dead-serve (reserving_turn j device user) r s ok e d =
      some_lem Dead _ s (Dead-reserve j device user r d) e
  Dead-serve (releasing_turn j) r s ok e d = Dead-release j r s e d
  Dead-serve (reserving_configuration j) r s ok e d =
      some_lem Dead _ s (admit_lem Dead (session_refusal j r) _ r (λ is. d) d) e
  Dead-serve (releasing_configuration j) r s ok e d = some_lem Dead _ s d e
  Dead-serve beginning_mutation r s ok e d =
      some_lem Dead _ s (admit_lem Dead (closed_refusal r) _ r (λ is. d) d) e
  Dead-serve ending_mutation r s ok e d = Dead-end r s e d
  Dead-serve closing r s ok e d = some_lem Dead _ s (Dead-close r d) e
  Dead-serve (revoking device is) r s ok e d = some_lem Dead _ s (Dead-marks device is r d) e
  Dead-serve (cancelling device) r s ok e d =
      some_lem Dead _ s
        (d.0, none-update live (λ t. t.device_id == device) cancel_turn off (r.running) d.1) e
  Dead-serve (archiving j device b) r s ok e d = some_lem Dead _ s (Dead-archived j device b r d) e
  Dead-serve (deleting j device) r s ok e d = some_lem Dead _ s (Dead-deleted j device r d) e
  Dead-serve (delivering owner tool j c) r s ok e d =
      some_lem Dead _ s (admit_lem Dead (revoked_refusal j r) _ r (λ is. d) d) e
  Dead-serve (installing p) r s ok e d = some_lem Dead _ s (admit_lem Dead _ _ r (λ is. d) d) e
  Dead-serve (removing tool) r s ok e d = some_lem Dead _ s d e

  -- What the revoked session meets.
  abbrev pub refusal_of_dead : Registry → Refusal
  refusal_of_dead s = if s.closed then service_closed else not_found

  abbrev pub ShutOut : Registry → Type 0
  ShutOut s =
      (any live (s.running) ≡ false)
      × ((device user : RowId) → reserve_turn i device user s ≡ (some (refusal_of_dead s), s))
      × (reserve_session_configuration i s ≡ (some (refusal_of_dead s), s))
      × ((p : PendingDecision)
          → p.session_id ≡ i
          → install_pending p s ≡ (some (refusal_of_dead s), s))
      × ((owner tool : RowId) (d : Decision)
          → deliver_decision owner tool i d s ≡ (some not_found, s))

  Dead-refusal : (s : Registry) → Dead s → session_refusal i s ≡ some (refusal_of_dead s)
  unfolding session_refusal
  Dead-refusal s (mark, none_live) = rw mark (ground arith)

  closed_first :
      (b : Bool) (a s : Registry)
      → admit (if b then some service_closed else some not_found) a s
        ≡ (some (if b then service_closed else not_found), s)
  closed_first true a s = refl
  closed_first false a s = refl

  Dead-ShutOut : (s : Registry) → Dead s → ShutOut s
  unfolding reserve_turn reserve_session_configuration install_pending deliver_decision
  Dead-ShutOut s (mark, none_live) = (
    none_live,
    λ device user. rw (Dead-refusal s (mark, none_live)) refl,
    rw (Dead-refusal s (mark, none_live)) refl,
    λ p e. rw e (rw mark (closed_first (s.closed) _ s)),
    λ owner tool d. rw mark refl,
  )

  marked : (device : RowId) (r : Registry) → i ≢ 0 → Dead (mark_session_revoked device i r)
  unfolding mark_session_revoked put any
  marked device r n =
      if_lem Dead (i == 0) r _ (λ e. absurd (n ((==_iff i 0).0 e)))
        (λ e. (
          rw (==_self i) refl,
          none-update_all live (has_key RunningTurn.session_id i) cancel_turn stopped others
              (r.running),
        ))
    where
      stopped :
          (t : RunningTurn)
          → has_key RunningTurn.session_id i t ≡ true
          → live (cancel_turn t) ≡ false
      stopped t h = ground arith

      others : (t : RunningTurn) → has_key RunningTurn.session_id i t ≡ false → live t ≡ false
      others t h = ground arith

  all_marked :
      (device : RowId) (is : List RowId) (r : Registry)
      → i ≢ 0
      → any (λ j. j == i) is ≡ true
      → Dead (mark_device_revoked device is r)
  unfolding mark_device_revoked any
  all_marked device [] r n h = cc
  all_marked device (j ∷ is) r n h = elim (Bool-cases (j == i)) [
    | inl same ↦ Dead-marks device is (mark_session_revoked device j r) (
        subst (λ k. Dead (mark_session_revoked device k r)) (sym ((==_iff j i).0 same))
          (marked device r n))
    | inr other ↦ all_marked device is (mark_session_revoked device j r) n (ground arith)
  ]

-- A session with a non-empty identifier that is among those marked as revoked is shut out for good. In
-- every state that requests lead to from there, no turn of it is registered that was not cancelled;
-- a turn, a configuration, a pending decision and the delivery of a decision are refused, and the
-- refusal changes nothing.
pub mark_device_revoked-ShutOut :
    (i device : RowId) (is : List RowId) (r s : Registry)
    → i ≢ 0
    → any (λ j. j == i) is ≡ true
    → Reaches (mark_device_revoked device is r) s
    → ShutOut i s
mark_device_revoked-ShutOut i device is r s n h path =
    Dead-ShutOut i s (Reaches-keeps (Dead i) (Dead-serve i) path (all_marked i device is r n h))
