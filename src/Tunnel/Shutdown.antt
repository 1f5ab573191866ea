-- ===== src/Tunnel/Shutdown.antt =====
-- internal/tunnel/manager.go: replacing, detaching and closing connections.
use aisummoner.Prelude.{
  ℕ, ◌==◌, ◌≡◌, ◌∙◌, refl, ap, Bool, true, false, Option, none, some, List, [], ◌∷◌, any, arith,
  inl, inr, Bool-cases, Option-cases, if◌then◌else◌,
}
use aisummoner.Prelude.Keyed.{has_key}
use aisummoner.Store.Data.{RowId}
use aisummoner.DeviceGate.{assign}
use aisummoner.Tunnel.Manager.{
  Manager, owns, closed_at, begin_close, begin_close_all, finish_cleanup, touch, own_locked,
  close_replaced, install, register, reap, remove, detach_device, begin_close_all_owned, close_all,
  get, is_online, Step, registering, closing_connection, cleaning, touching, reaping, removing,
  detaching, closing_all, Reaches, here, next,
}

begin_close_closed :
    (p q : ℕ) (m : Manager)
    → closed_at p (begin_close q m) ≡ (if p == q then true else closed_at p m)
unfolding begin_close
begin_close_closed p q m = ground arith

begin_close_get :
    (d : RowId) (q : ℕ) (m : Manager) → (begin_close q m).connections d ≡ m.connections d
unfolding begin_close
begin_close_get d q m = refl

close_replaced_closed :
    (old : Option ℕ) (p q : ℕ) (m : Manager)
    → closed_at q m ≡ true
    → closed_at q (close_replaced old p m) ≡ true
unfolding close_replaced
close_replaced_closed none p q m h = h
close_replaced_closed (some o) p q m h = ground (arith, begin_close_closed q o m)

own_locked_closed : (p q : ℕ) (m : Manager) → closed_at q (own_locked p m) ≡ closed_at q m
unfolding own_locked
own_locked_closed p q m = ground arith

-- A connection that is closed stays closed.
register_closed :
    (p : Option ℕ) (q : ℕ) (m : Manager)
    → closed_at q m ≡ true
    → closed_at q (register p m).1 ≡ true
unfolding register
register_closed none q m h = h
register_closed (some p) q m h = ground (
  arith,
  begin_close_closed q p m,
  own_locked_closed p q m,
  close_replaced_closed (m.connections ((m.heap p).device_id)) p q (install p (own_locked p m)),
)

detach_device_closed :
    (d : RowId) (q : ℕ) (m : Manager)
    → closed_at q m ≡ true
    → closed_at q (detach_device d m).1 ≡ true
unfolding detach_device
detach_device_closed d q m h = elim (Option-cases (m.connections d)) [
  | inl off ↦ rw (off, detach_device) h
  | inr (p, at) ↦
      rw (at, detach_device)
        (ground (
          arith,
          h,
          begin_close_closed q p (record m { connections = assign (m.connections) d none }),
        ))
]

Step-closed : {m n : Manager} (q : ℕ) → Step m n → closed_at q m ≡ true → closed_at q n ≡ true
unfolding finish_cleanup touch reap remove detach_device begin_close_all_owned
Step-closed {m} q (registering p) h = register_closed p q m h
Step-closed {m} q (closing_connection p) h = ground (arith, begin_close_closed q p m)
Step-closed q (cleaning p c) h = ground arith
Step-closed q (touching p at) h = ground arith
Step-closed q (reaping p n mine c e) h = ground arith
Step-closed q (removing none) h = h
Step-closed q (removing (some p)) h = h
Step-closed {m} q (detaching d) h = detach_device_closed d q m h
Step-closed q closing_all h = ground arith

Reaches-closed : {m n : Manager} (q : ℕ) → Reaches m n → closed_at q m ≡ true → closed_at q n ≡ true
Reaches-closed q here h = h
Reaches-closed q (next r s) h = Step-closed q s (Reaches-closed q r h)

begin_close_all_closed :
    (ps : List ℕ) (q : ℕ) (m : Manager)
    → closed_at q m ≡ true
    → closed_at q (begin_close_all ps m) ≡ true
begin_close_all_closed [] q m h = h
begin_close_all_closed (p ∷ ps) q m h =
    begin_close_all_closed ps q (begin_close p m) (ground (arith, begin_close_closed q p m))

begin_close_all_listed :
    (ps : List ℕ) (q : ℕ) (m : Manager)
    → any (has_key (λ (r : ℕ). r) q) ps ≡ true
    → closed_at q (begin_close_all ps m) ≡ true
unfolding any
begin_close_all_listed [] q m h = absurd (cc)
begin_close_all_listed (p ∷ ps) q m h = elim (Bool-cases (q == p)) [
  | inl same ↦
      begin_close_all_closed ps q (begin_close p m) (ground (arith, begin_close_closed q p m))
  | inr other ↦ begin_close_all_listed ps q (begin_close p m) (ground arith)
]

begin_close_all_get :
    (ps : List ℕ) (d : RowId) (m : Manager) → (begin_close_all ps m).connections d ≡ m.connections d
begin_close_all_get [] d m = refl
begin_close_all_get (p ∷ ps) d m =
    begin_close_all_get ps d (begin_close p m) ∙ begin_close_get d p m

begin_close_all_owns : (ps : List ℕ) (m : Manager) → (begin_close_all ps m).owned ≡ m.owned
unfolding begin_close
begin_close_all_owns [] m = refl
begin_close_all_owns (p ∷ ps) m = begin_close_all_owns ps (begin_close p m)

begin_close_all_closing : (ps : List ℕ) (m : Manager) → (begin_close_all ps m).closing ≡ m.closing
unfolding begin_close
begin_close_all_closing [] m = refl
begin_close_all_closing (p ∷ ps) m = begin_close_all_closing ps (begin_close p m)

-- No device is connected, and none will be.
record IsStopped (m : Manager) : Type 0 where
  closing : m.closing ≡ true
  vacant : (d : RowId) → m.connections d ≡ none

either_with {ℓ} :
    {A : Type ℓ} (P : Manager → Type 0) (b : Bool) (x y : A × Manager)
    → (b ≡ true → P (x.1))
    → (b ≡ false → P (y.1))
    → P (if b then x else y).1
either_with P true x y f g = f refl
either_with P false x y f g = g refl

register-IsStopped : (p : Option ℕ) {m : Manager} → IsStopped m → IsStopped (register p m).1
unfolding register begin_close
register-IsStopped none o = o
register-IsStopped (some p) {m} o =
    either_with IsStopped (m.closing) _ _
      (λ over. record { closing = o.closing; vacant = o.vacant })
      (λ live. absurd (cc (live, o.closing)))

detach_device-IsStopped : (d : RowId) {m : Manager} → IsStopped m → IsStopped (detach_device d m).1
unfolding detach_device
detach_device-IsStopped d {m} o = rw (o.vacant d, detach_device) o

reap-IsStopped : (p : ℕ) {m n : Manager} → IsStopped m → reap p m ≡ some n → IsStopped n
unfolding reap
reap-IsStopped p {m} {n} o e = record {
  closing = ground (arith, o.closing, e);
  vacant = λ d. ground (arith, o.vacant d, e);
}

Step-IsStopped : {m n : Manager} → IsStopped m → Step m n → IsStopped n
unfolding begin_close finish_cleanup touch remove begin_close_all_owned
Step-IsStopped o (registering p) = register-IsStopped p o
Step-IsStopped o (closing_connection p) = record { closing = o.closing; vacant = o.vacant }
Step-IsStopped o (cleaning p c) = record { closing = o.closing; vacant = o.vacant }
Step-IsStopped o (touching p at) = record { closing = o.closing; vacant = o.vacant }
Step-IsStopped o (reaping p n mine c e) = reap-IsStopped p o e
Step-IsStopped o (removing none) = o
Step-IsStopped o (removing (some p)) = record {
  closing = o.closing;
  vacant = λ d. ground (arith, o.vacant d);
}
Step-IsStopped o (detaching d) = detach_device-IsStopped d o
Step-IsStopped {m} o closing_all =
    either_with IsStopped (m.closing) _ _ (λ over. o)
      (λ live. record { closing = refl; vacant = λ d. refl })

Reaches-IsStopped : {m n : Manager} → IsStopped m → Reaches m n → IsStopped n
Reaches-IsStopped o here = o
Reaches-IsStopped o (next r s) = Step-IsStopped (Reaches-IsStopped o r) s

if_false {ℓ} : {A : Type ℓ} (b : Bool) (x y : A) → b ≡ false → (if b then x else y) ≡ y
if_false true x y h = absurd (cc)
if_false false x y h = refl

close_all_lem :
    (m : Manager)
    → m.closing ≡ false
    → close_all m ≡ begin_close_all (m.owned) (record m { closing = true; connections = λ d. none })
unfolding close_all begin_close_all_owned
close_all_lem m live =
    let close : List ℕ × Manager → Manager = λ x. begin_close_all (x.0) (x.1) in
    ap close (if_false (m.closing) _ _ live)

-- After `CloseAll` has closed a manager that was not closing, in every state that follows, no device is
-- online or has a connection, no connection is accepted, and each connection that the manager had its
-- goroutine for is closed.
pub close_all-offline :
    (m n : Manager)
    → m.closing ≡ false
    → Reaches (close_all m) n
    → (p : ℕ) (d : RowId)
    → (is_online d n ≡ false)
      × (get d n ≡ none)
      × ((register (some p) n).0 ≡ (none, false))
      × (owns p m ≡ true → closed_at p n ≡ true)
unfolding is_online get register
close_all-offline m n live r p d = (
  rw (stopped.vacant d, is_online) refl,
  stopped.vacant d,
  ground (arith, stopped.closing),
  λ mine.
      Reaches-closed p (rw (close_all_lem m live) at r) (begin_close_all_listed (m.owned) p _ mine),
)
  where
    start :
        IsStopped (begin_close_all (m.owned) (record m { closing = true; connections = λ e. none }))
    start = record {
      closing = begin_close_all_closing (m.owned) _;
      vacant = λ e. begin_close_all_get (m.owned) e _;
    }

    stopped : IsStopped n
    stopped = Reaches-IsStopped start (rw (close_all_lem m live) at r)
