-- ===== src/Tunnel/Detach.antt =====
-- internal/tunnel/manager.go: detaching a device.
use aisummoner.Prelude.{
  ℕ, ◌==◌, ◌≡◌, ◌≢◌, ◌∙◌, sym, refl, ap, true, false, not, none, some, arith, inl, inr,
  Option-cases, if◌then◌else◌,
}
use aisummoner.Store.Data.{RowId}
use aisummoner.DeviceGate.{assign}
use aisummoner.Tunnel.Manager.{Manager, closed_at, begin_close, detach_device, get, is_online}
use aisummoner.Tunnel.Owned.{IsOwned}
use aisummoner.Tunnel.Newest.{is_online_lem, is_online_off}

-- What detaching a device does: its connection is out of the map and closed, and no other device's is.
pub record Detached (d : RowId) (m n : Manager) : Type 0 where
  pub offline : is_online d n ≡ false
  pub vacant : get d n ≡ none
  pub closed : (p : ℕ) → get d m ≡ some p → closed_at p n ≡ true
  pub others : (e : RowId) → e ≢ d → (get e n ≡ get e m) × (is_online e n ≡ is_online e m)

detached : RowId → ℕ → Manager → Manager
detached d p m = begin_close p (record m { connections = assign (m.connections) d none })

detached_get :
    (d p : ℕ) (m : Manager) (e : RowId)
    → (detached d p m).connections e ≡ (if e == d then none else m.connections e)
unfolding detached begin_close
detached_get d p m e = refl

detached_closed :
    (d p q : ℕ) (m : Manager)
    → closed_at q (detached d p m) ≡ (if q == p then true else closed_at q m)
unfolding detached begin_close
detached_closed d p q m = ground arith

module _ (d : RowId) (m : Manager) (o : IsOwned m) where
  detached-Detached : (p : ℕ) → get d m ≡ some p → Detached d m (detached d p m)
  unfolding get
  detached-Detached p at = record {
    offline = is_online_off d (detached d p m) (ground (arith, detached_get d p m d));
    vacant = ground (arith, detached_get d p m d);
    closed = λ q e. ground (arith, detached_closed d p q m);
    others = λ e n. (ground (arith, detached_get d p m e), same_online e n);
  }
    where
      same_online : (e : RowId) → e ≢ d → is_online e (detached d p m) ≡ is_online e m
      same_online e n = elim (Option-cases (m.connections e)) [
        | inl off ↦
            is_online_off e (detached d p m) (ground (arith, off, detached_get d p m e))
            ∙ sym (is_online_off e m off)
        | inr (q, on) ↦
            is_online_lem e q (detached d p m) (ground (arith, on, detached_get d p m e))
            ∙ ap not (
                ground
                  (arith, on, detached_closed d p q m, o.registered e q on, o.registered d p at))
            ∙ sym (is_online_lem e q m on)
      ]

  nothing-Detached : get d m ≡ none → Detached d m m
  unfolding get
  nothing-Detached off = record {
    offline = is_online_off d m off;
    vacant = off;
    closed = λ q e. absurd (cc (e, off));
    others = λ e n. (refl, refl);
  }

  pub detach_device-Detached : Detached d m (detach_device d m).1
  unfolding detach_device detached get
  detach_device-Detached = elim (Option-cases (m.connections d)) [
    | inl off ↦ rw (off, detach_device) (nothing-Detached off)
    | inr (p, at) ↦ rw (at, detach_device) (detached-Detached p at)
  ]
