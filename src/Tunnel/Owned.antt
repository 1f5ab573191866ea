-- ===== src/Tunnel/Owned.antt =====
-- internal/tunnel/manager.go: every connection in the map has its goroutine, and the wait group counts them.
use aisummoner.Prelude.{
  ℕ, ◌==◌, ◌≡◌, ◌≢◌, ◌∙◌, refl, Bool, true, false, Option, none, some, ◌∷◌, any, delete, length,
  arith, inl, inr, Bool-cases, Option-cases, if◌then◌else◌,
}
use mathlib.Core.Path.{subst}
use aisummoner.Prelude.Keyed.{has_key, Distinct, Distinct-delete}
use aisummoner.Prelude.Deletion.{length-delete, any_other_key, same_key}
use aisummoner.Store.Data.{RowId}
use aisummoner.DeviceGate.{assign}
use aisummoner.Tunnel.Manager.{
  Connection, Manager, owns, begin_close, finish_cleanup, touch, without, own_locked,
  close_replaced, install, register, reap, remove, detach_device, begin_close_all_owned, Step,
  registering, closing_connection, cleaning, touching, reaping, removing, detaching, closing_all,
  Reaches, here, next,
}

pub record IsOwned (m : Manager) : Type 0 where
  pub distinct : Distinct (λ (q : ℕ). q) (m.owned)
  pub balanced : m.cleanup_wg ≡ length (m.owned)
  pub registered :
      (d : RowId) (p : ℕ)
      → m.connections d ≡ some p
      → (owns p m ≡ true) × ((m.heap p).device_id ≡ d)
  pub stopped : m.closing ≡ true → (d : RowId) → m.connections d ≡ none

-- A change of the flags and times of connections changes nothing of this.
abbrev with_heap : (ℕ → Connection) → Manager → Manager
with_heap h m = record m { heap = h }

with_heap-IsOwned :
    (m : Manager) (h : ℕ → Connection)
    → ((p : ℕ) → (h p).device_id ≡ (m.heap p).device_id)
    → IsOwned m
    → IsOwned (with_heap h m)
with_heap-IsOwned m h same o = record {
  distinct = o.distinct;
  balanced = o.balanced;
  registered = λ d p e. ground (arith, o.registered d p e, same p);
  stopped = o.stopped;
}

begin_close-IsOwned : (p : ℕ) {m : Manager} → IsOwned m → IsOwned (begin_close p m)
unfolding begin_close
begin_close-IsOwned p {m} o = with_heap-IsOwned m _ (λ q. ground arith) o

finish_cleanup-IsOwned : (p : ℕ) {m : Manager} → IsOwned m → IsOwned (finish_cleanup p m)
unfolding finish_cleanup
finish_cleanup-IsOwned p {m} o = with_heap-IsOwned m _ (λ q. ground arith) o

touch-IsOwned : (p : ℕ) (at : ℕ) {m : Manager} → IsOwned m → IsOwned (touch p at m)
unfolding touch
touch-IsOwned p at {m} o = with_heap-IsOwned m _ (λ q. ground arith) o

own_locked-IsOwned : (p : ℕ) {m : Manager} → IsOwned m → IsOwned (own_locked p m)
unfolding own_locked any
own_locked-IsOwned p {m} o = elim (Bool-cases (owns p m)) [
  | inl old ↦ rw old o
  | inr new ↦ rw new (record {
    distinct = (new, o.distinct);
    balanced = ground (arith, o.balanced);
    registered = λ d q e. added d q e;
    stopped = o.stopped;
  })
]
  where
    added :
        (d : RowId) (q : ℕ)
        → m.connections d ≡ some q
        → (any (has_key (λ (r : ℕ). r) q) (p ∷ (m.owned)) ≡ true) × ((m.heap q).device_id ≡ d)
    added d q e = ground (arith, o.registered d q e)

install-IsOwned :
    (p : ℕ) {m : Manager} → m.closing ≡ false → owns p m ≡ true → IsOwned m → IsOwned (install p m)
install-IsOwned p {m} live mine o = record {
  distinct = o.distinct;
  balanced = o.balanced;
  registered =
      λ d q e. ground (arith, o.registered d q, mine, same_key (λ (r : ℕ). r) p q (m.owned));
  stopped = λ c. absurd (cc);
}

close_replaced-IsOwned :
    (old : Option ℕ) (p : ℕ) {m : Manager} → IsOwned m → IsOwned (close_replaced old p m)
unfolding close_replaced
close_replaced-IsOwned none p o = o
close_replaced-IsOwned (some q) p {m} o = elim (Bool-cases (q == p)) [
  | inl same ↦ rw same o
  | inr other ↦ rw other (begin_close-IsOwned q o)
]

either-IsOwned {ℓ} :
    {A : Type ℓ} (b : Bool) (x y : A × Manager)
    → (b ≡ true → IsOwned (x.1))
    → (b ≡ false → IsOwned (y.1))
    → IsOwned (if b then x else y).1
either-IsOwned true x y f g = f refl
either-IsOwned false x y f g = g refl

own_locked-owns : (p : ℕ) (m : Manager) → owns p (own_locked p m) ≡ true
unfolding own_locked any
own_locked-owns p m = ground arith

own_locked_open : (p : ℕ) (m : Manager) → (own_locked p m).closing ≡ m.closing
unfolding own_locked
own_locked_open p m = ground arith

register-IsOwned : (p : Option ℕ) {m : Manager} → IsOwned m → IsOwned (register p m).1
unfolding register
register-IsOwned none o = o
register-IsOwned (some p) {m} o =
    either-IsOwned (m.closing) _ _ (λ over. begin_close-IsOwned p o)
      (λ live. close_replaced-IsOwned (m.connections ((m.heap p).device_id)) p (
        install-IsOwned p (own_locked_open p m ∙ live) (own_locked-owns p m)
          (own_locked-IsOwned p o)))

-- Taking the map's entry for a connection leaves the others.
without_sound :
    (p : ℕ) (m : Manager)
    → IsOwned m
    → (d : RowId) (q : ℕ) → without p m d ≡ some q
    → (m.connections d ≡ some q) × ((p == q) ≡ false)
without_sound p m o d q e = ground (arith, o.registered d q)

without-IsOwned :
    (p : ℕ) {m : Manager} → IsOwned m → IsOwned (record m { connections = without p m })
without-IsOwned p {m} o = record {
  distinct = o.distinct;
  balanced = o.balanced;
  registered = λ d q e. o.registered d q (without_sound p m o d q e).0;
  stopped = λ c d. ground (arith, o.stopped c d);
}

remove-IsOwned : (p : Option ℕ) {m : Manager} → IsOwned m → IsOwned (remove p m)
unfolding remove
remove-IsOwned none o = o
remove-IsOwned (some p) o = without-IsOwned p o

reaped : ℕ → ℕ → Manager → Manager
reaped p n m = record m {
  connections = without p m;
  owned = delete (has_key (λ (q : ℕ). q) p) (m.owned);
  cleanup_wg = n;
}

-- The wait group is never at 0 when the goroutine of an owned connection ends.
reap_lem :
    (p : ℕ) (m : Manager)
    → IsOwned m
    → owns p m ≡ true
    → reap p m ≡ some (reaped p (length (delete (has_key (λ (q : ℕ). q) p) (m.owned))) m)
unfolding reap reaped
reap_lem p m o mine =
    ground (arith, o.balanced, length-delete (λ (q : ℕ). q) p (m.owned) (o.distinct) mine)

reaped-IsOwned :
    (p : ℕ) (m : Manager)
    → IsOwned m
    → IsOwned (reaped p (length (delete (has_key (λ (q : ℕ). q) p) (m.owned))) m)
unfolding reaped
reaped-IsOwned p m o = record {
  distinct = Distinct-delete (λ (q : ℕ). q) (has_key (λ (q : ℕ). q) p) (m.owned) (o.distinct);
  balanced = refl;
  registered = λ d q e. kept d q (without_sound p m o d q e);
  stopped = λ c d. ground (arith, o.stopped c d);
}
  where
    kept :
        (d : RowId) (q : ℕ)
        → (m.connections d ≡ some q) × ((p == q) ≡ false)
        → (any (has_key (λ (r : ℕ). r) q) (delete (has_key (λ (r : ℕ). r) p) (m.owned)) ≡ true)
          × ((m.heap q).device_id ≡ d)
    kept d q (e, other) = (
      any_other_key (λ (r : ℕ). r) p q (m.owned) other ∙ (o.registered d q e).0,
      (o.registered d q e).1,
    )

detach_device-IsOwned : (d : RowId) {m : Manager} → IsOwned m → IsOwned (detach_device d m).1
unfolding detach_device
detach_device-IsOwned d {m} o = elim (Option-cases (m.connections d)) [
  | inl off ↦ rw (off, detach_device) o
  | inr (p, at) ↦ rw (at, detach_device) (begin_close-IsOwned p cleared)
]
  where
    cleared : IsOwned (record m { connections = assign (m.connections) d none })
    cleared = record {
      distinct = o.distinct;
      balanced = o.balanced;
      registered = λ e q h. ground (arith, o.registered e q);
      stopped = λ c e. ground (arith, o.stopped c e);
    }

begin_close_all_owned-IsOwned : {m : Manager} → IsOwned m → IsOwned (begin_close_all_owned m).1
unfolding begin_close_all_owned
begin_close_all_owned-IsOwned {m} o =
    either-IsOwned (m.closing) _ _ (λ over. o)
      (λ live. record {
        distinct = o.distinct;
        balanced = o.balanced;
        registered = λ d q e. absurd (cc e);
        stopped = λ c d. refl;
      })

Step-IsOwned : {m n : Manager} → IsOwned m → Step m n → IsOwned n
Step-IsOwned o (registering p) = register-IsOwned p o
Step-IsOwned o (closing_connection p) = begin_close-IsOwned p o
Step-IsOwned o (cleaning p c) = finish_cleanup-IsOwned p o
Step-IsOwned o (touching p at) = touch-IsOwned p at o
Step-IsOwned {m} o (reaping p n mine c e) =
    subst IsOwned (cc (e, reap_lem p m o mine)) (reaped-IsOwned p m o)
Step-IsOwned o (removing p) = remove-IsOwned p o
Step-IsOwned o (detaching d) = detach_device-IsOwned d o
Step-IsOwned o closing_all = begin_close_all_owned-IsOwned o

-- In every state that the steps lead to from a state of this form, the connections in the map are of
-- their devices and owned, the owned ones are distinct and counted by the wait group, and there are none in
-- the map once the manager is closing.
pub Reaches-IsOwned : {m n : Manager} → Reaches m n → IsOwned m → IsOwned n
Reaches-IsOwned here o = o
Reaches-IsOwned (next r s) o = Step-IsOwned (Reaches-IsOwned r o) s

-- In such a state the goroutine of an owned connection never finds the wait group at 0.
pub reap-ne-none : (p : ℕ) (m : Manager) → IsOwned m → owns p m ≡ true → reap p m ≢ none
reap-ne-none p m o mine e = cc (reap_lem p m o mine, e)
