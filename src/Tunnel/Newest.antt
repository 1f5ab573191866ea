-- ===== src/Tunnel/Newest.antt =====
-- internal/tunnel/manager.go: which connection is a device's after registering and detaching.
use aisummoner.Prelude.{
  ℕ, ◌==◌, ◌≡◌, ◌≢◌, ◌∙◌, sym, refl, ap, Bool, true, false, not, Option, none, some, arith, inl,
  inr, Bool-cases, Option-cases, if◌then◌else◌,
}
use mathlib.Core.Path.{subst}
use aisummoner.Store.Data.{RowId}
use aisummoner.Tunnel.Manager.{
  Connection, Manager, owns, closed_at, begin_close, without, own_locked, close_replaced, install,
  register, reap, remove, get, is_online,
}
use aisummoner.Tunnel.Owned.{IsOwned}

-- What registering a connection does: it becomes the device's, and the one before is closed. The other
-- devices keep theirs, and neither removing the old connection nor the end of its goroutine takes it away.
pub record NewestWins (p : ℕ) (m n : Manager) : Type 0 where
  current : get ((m.heap p).device_id) n ≡ some p
  replaced : (old : ℕ) → get ((m.heap p).device_id) m ≡ some old → old ≢ p → closed_at old n ≡ true
  others :
      (d : RowId) → d ≢ (m.heap p).device_id → (get d n ≡ get d m) × (is_online d n ≡ is_online d m)
  removed : (old : ℕ) → old ≢ p → get ((m.heap p).device_id) (remove (some old) n) ≡ some p
  reaped :
      (old : ℕ) (k : Manager)
      → old ≢ p
      → reap old n ≡ some k
      → get ((m.heap p).device_id) k ≡ some p

close_replaced_get :
    (old : Option ℕ) (p : ℕ) (m : Manager) (d : RowId)
    → (close_replaced old p m).connections d ≡ m.connections d
unfolding close_replaced begin_close
close_replaced_get none p m d = refl
close_replaced_get (some o) p m d = ground arith

close_replaced_hit :
    (old : Option ℕ) (p q : ℕ) (m : Manager)
    → old ≡ some q
    → q ≢ p
    → closed_at q (close_replaced old p m) ≡ true
unfolding close_replaced begin_close
close_replaced_hit none p q m e n = absurd (cc e)
close_replaced_hit (some o) p q m e n = ground (arith, e)

pub is_online_lem :
    (d : RowId) (q : ℕ) (m : Manager)
    → m.connections d ≡ some q
    → is_online d m ≡ not (closed_at q m)
unfolding is_online get
is_online_lem d q m e = rw (e, is_online, get) refl

pub is_online_off : (d : RowId) (m : Manager) → m.connections d ≡ none → is_online d m ≡ false
unfolding is_online get
is_online_off d m e = rw (e, is_online, get) refl

close_replaced_miss :
    (old : Option ℕ) (p q : ℕ) (m : Manager)
    → old ≢ some q
    → closed_at q (close_replaced old p m) ≡ closed_at q m
unfolding close_replaced begin_close
close_replaced_miss none p q m n = refl
close_replaced_miss (some o) p q m n = ground arith

own_locked_same :
    (p q : ℕ) (m : Manager) (d : RowId)
    → ((own_locked p m).connections d ≡ m.connections d) × ((own_locked p m).heap q ≡ m.heap q)
unfolding own_locked
own_locked_same p q m d = elim (Bool-cases (owns p m)) [
  | inl old ↦ rw old (refl, refl)
  | inr new ↦ rw new (refl, refl)
]

without_other :
    (p old : ℕ) (m : Manager) (d : RowId)
    → m.connections d ≡ some p
    → old ≢ p
    → without old m d ≡ some p
without_other p old m d e n = ground arith

if_false {ℓ} : {A : Type ℓ} (b : Bool) (x y : A) → b ≡ false → (if b then x else y) ≡ y
if_false true x y h = absurd (cc)
if_false false x y h = refl

abbrev installed : ℕ → Manager → Manager
installed p m = install p (own_locked p m)

registered_state : ℕ → Manager → Manager
registered_state p m = close_replaced (m.connections ((m.heap p).device_id)) p (installed p m)

register_lem :
    (p : ℕ) (m : Manager)
    → m.closing ≡ false
    → register (some p) m ≡ ((get ((m.heap p).device_id) m, true), registered_state p m)
unfolding register get registered_state
register_lem p m live = if_false (m.closing) _ _ live

reap_get :
    (p old : ℕ) (m k : Manager) (d : RowId)
    → m.connections d ≡ some p
    → old ≢ p
    → reap old m ≡ some k
    → k.connections d ≡ some p
unfolding reap
reap_get p old m k d e n r = ground (arith, without_other p old m d e n)

module _ (p : ℕ) (m : Manager) (o : IsOwned m) where
  installed_get :
      (d : RowId)
      → (installed p m).connections d
        ≡ (if d == (m.heap p).device_id then some p else m.connections d)
  installed_get d = ground (arith, own_locked_same p p m d)

  state_get :
      (d : RowId)
      → (registered_state p m).connections d
        ≡ (if d == (m.heap p).device_id then some p else m.connections d)
  unfolding registered_state
  state_get d =
      close_replaced_get (m.connections ((m.heap p).device_id)) p (installed p m) d
      ∙ installed_get d

  current_get : (registered_state p m).connections ((m.heap p).device_id) ≡ some p
  current_get = ground (arith, state_get ((m.heap p).device_id))

  state_closed :
      (q : ℕ)
      → m.connections ((m.heap p).device_id) ≢ some q
      → closed_at q (registered_state p m) ≡ closed_at q m
  unfolding registered_state
  state_closed q n =
      close_replaced_miss (m.connections ((m.heap p).device_id)) p q (installed p m) n
      ∙ ap Connection.closed (own_locked_same p q m 0).1

  others_online :
      (d : RowId) → d ≢ (m.heap p).device_id → is_online d (registered_state p m) ≡ is_online d m
  others_online d n = elim (Option-cases (m.connections d)) [
    | inl off ↦ is_online_off d (registered_state p m) (state_is off) ∙ sym (is_online_off d m off)
    | inr (q, at) ↦
        is_online_lem d q (registered_state p m) (state_is at)
        ∙ ap not (
            state_closed q
              (λ e. n (sym (o.registered d q at).1 ∙ (o.registered ((m.heap p).device_id) q e).1)))
        ∙ sym (is_online_lem d q m at)
  ]
    where
      state_is : {v : Option ℕ} → m.connections d ≡ v → (registered_state p m).connections d ≡ v
      state_is e = ground (arith, state_get d)

  state_replaced :
      (old : ℕ)
      → m.connections ((m.heap p).device_id) ≡ some old
      → old ≢ p
      → closed_at old (registered_state p m) ≡ true
  unfolding registered_state
  state_replaced old e n =
      close_replaced_hit (m.connections ((m.heap p).device_id)) p old (installed p m) e n

  state-NewestWins : NewestWins p m (registered_state p m)
  unfolding get remove
  state-NewestWins = record {
    current = current_get;
    replaced = state_replaced;
    others = λ d n. (ground (arith, state_get d), others_online d n);
    removed =
        λ old n. without_other p old (registered_state p m) ((m.heap p).device_id) current_get n;
    reaped =
        λ old k n e. reap_get p old (registered_state p m) k ((m.heap p).device_id) current_get n e;
  }

  -- A manager that is not closing accepts a connection and returns the one before it. The new one is then
  -- the device's, the one before is closed, other devices keep theirs and are online as before, and
  -- neither removing the old connection nor the end of its goroutine takes the new one away.
  pub register-NewestWins :
      m.closing ≡ false
      → ((register (some p) m).0 ≡ (get ((m.heap p).device_id) m, true))
        × NewestWins p m (register (some p) m).1
  register-NewestWins live = (
    ap (λ (x : (Option ℕ × Bool) × Manager). x.0) (register_lem p m live),
    subst (NewestWins p m)
        (sym (ap (λ (x : (Option ℕ × Bool) × Manager). x.1) (register_lem p m live)))
        state-NewestWins,
  )
