-- ===== src/DeviceGate/Order.antt =====
-- internal/devicegate/gate.go: how the map, the entries and the calls under way belong together.
use aisummoner.Prelude.{
  ℕ, suc, ◌+◌, ◌<◌, ◌==◌, ◌≡◌, refl, sym, ◌∙◌, Bool, true, false, ◌&&◌, Option, none, some, List,
  [], ◌∷◌, if◌then◌else◌, any, count, update, delete, All, arith, inl, inr, Bool-cases,
  Option-cases, ==_iff, ==_self,
}
use mathlib.Core.Path.{subst}
use aisummoner.Prelude.Keyed.{has_key, Distinct, Distinct-delete, Distinct-update}
use aisummoner.Prelude.Counting.{
  bit, count-cons, count-update, count-delete, count_one, All-first, All-delete, All-update,
  All-map,
}
use aisummoner.Store.Data.{RowId}
use aisummoner.DeviceGate.{
  Phase, waiting, received, holding, leaving, Call, Gate, assign, add_entry, join_entry, register,
  lock_device, enter, advance, set_token, receive_token, return_token, recheck, unlock,
  drop_reference, points_to, IsAt, Step, locking, giving_up, receiving, rechecking, unlocking,
  dropping, Reaches, here, next, new_gate,
}

abbrev pub has_token : Phase → Bool
has_token waiting = false
has_token received = true
has_token holding = true
has_token leaving = false

abbrev pub refers : ℕ → Call → Bool
refers p c = c.entry == p

abbrev pub takes : ℕ → Call → Bool
takes p c = c.entry == p && has_token (c.phase)

-- The entry of a call's device is the one the call refers to.
abbrev pub Placed : (RowId → Option ℕ) → ℕ → Call → Type 0
Placed entries n c = (entries (c.device) ≡ some (c.entry)) × (c.entry < n)

pub record IsOrderly (g : Gate) : Type 0 where
  pub distinct : Distinct Call.id (g.calls)
  pub placed : All (Placed (g.entries) (g.next)) (g.calls)
  pub counted : (p : ℕ) → p < g.next → (g.heap p).refs ≡ count (refers p) (g.calls)
  pub tokens : (p : ℕ) → p < g.next → count (takes p) (g.calls) + bit ((g.heap p).token) ≡ 1
  pub slots : (d : RowId) (p : ℕ) → g.entries d ≡ some p → (p < g.next) × (0 < (g.heap p).refs)
  pub separate : (d e : RowId) (p : ℕ) → g.entries d ≡ some p → g.entries e ≡ some p → d ≡ e

pub new_gate-IsOrderly : IsOrderly new_gate
new_gate-IsOrderly = record {
  distinct = tt;
  placed = tt;
  counted = λ p h. absurd (omega (arith, h));
  tokens = λ p h. absurd (omega (arith, h));
  slots = λ d p e. absurd (cc e);
  separate = λ d e p a b. absurd (cc a);
}

-- A call changes its point, and no token.
module _ (g : Gate) (o : IsOrderly g) (c : Call) (ph : Phase) (at : IsAt (c.phase) c g) where
  moved_count :
      (q : Call → Bool)
      → count q (update (has_key Call.id (c.id)) (enter ph) (g.calls)) + bit (q c)
        ≡ count q (g.calls) + bit (q (enter ph c))
  moved_count q = count-update Call.id q (c.id) (enter ph) (g.calls) c (o.distinct) (at.0)

  moved_refs :
      (p : ℕ)
      → count (refers p) (update (has_key Call.id (c.id)) (enter ph) (g.calls))
        ≡ count (refers p) (g.calls)
  moved_refs p = omega (arith, moved_count (refers p))

  moved-Placed :
      All (Placed (g.entries) (g.next)) (update (has_key Call.id (c.id)) (enter ph) (g.calls))
  moved-Placed =
      All-update (Placed (g.entries) (g.next)) (has_key Call.id (c.id)) (enter ph) (g.calls)
        (λ x h. h) (o.placed)

  moved-Distinct : Distinct Call.id (update (has_key Call.id (c.id)) (enter ph) (g.calls))
  moved-Distinct =
      Distinct-update Call.id (has_key Call.id (c.id)) (enter ph) (λ x. refl) (g.calls) (o.distinct)

  -- A move together with a write of the token of the call's entry, which balance.
  shifted :
      (b : Bool)
      → bit b + bit (has_token ph) ≡ bit ((g.heap (c.entry)).token) + bit (has_token (c.phase))
      → IsOrderly (advance ph c (set_token b (c.entry) g))
  unfolding advance set_token
  shifted b balance = record {
    distinct = moved-Distinct;
    placed = moved-Placed;
    counted = λ p h. ground (arith, moved_refs p, o.counted p h);
    tokens = λ p h. ground (arith, moved_count (takes p), o.tokens p h);
    slots = λ d p e. ground (arith, o.slots d p e);
    separate = o.separate;
  }

  advanced : has_token ph ≡ has_token (c.phase) → IsOrderly (advance ph c g)
  unfolding advance
  advanced same = record {
    distinct = moved-Distinct;
    placed = moved-Placed;
    counted = λ p h. omega (arith, moved_refs p, o.counted p h);
    tokens = λ p h. ground (arith, moved_count (takes p), o.tokens p h);
    slots = o.slots;
    separate = o.separate;
  }

count_zero : (q : Call → Bool) (xs : List Call) → All (λ x. q x ≡ false) xs → count q xs ≡ 0
unfolding count
count_zero q [] h = refl
count_zero q (x ∷ xs) h = ground (arith, h.0, count_zero q xs h.1)

-- A gate in which one entry may still lack its references.
record IsOrderlyBut (p : ℕ) (g : Gate) : Type 0 where
  distinct : Distinct Call.id (g.calls)
  placed : All (Placed (g.entries) (g.next)) (g.calls)
  counted : (q : ℕ) → q < g.next → (g.heap q).refs ≡ count (refers q) (g.calls)
  tokens : (q : ℕ) → q < g.next → count (takes q) (g.calls) + bit ((g.heap q).token) ≡ 1
  slots :
      (d : RowId) (q : ℕ)
      → g.entries d ≡ some q
      → (q < g.next) × ((q == p) ≡ false → 0 < (g.heap q).refs)
  separate : (d e : RowId) (q : ℕ) → g.entries d ≡ some q → g.entries e ≡ some q → d ≡ e

join_entry-IsOrderly :
    (i device : RowId) (p : ℕ) (g : Gate)
    → IsOrderlyBut p g
    → any (has_key Call.id i) (g.calls) ≡ false
    → g.entries device ≡ some p
    → IsOrderly (join_entry i device p g)
unfolding join_entry
join_entry-IsOrderly i device p g o fresh at = record {
  distinct = (fresh, o.distinct);
  placed = ((at, (o.slots device p at).0), o.placed);
  counted = λ q h. ground (arith, o.counted q h, count-cons (refers q) (new i device p) (g.calls));
  tokens = λ q h. ground (arith, o.tokens q h, count-cons (takes q) (new i device p) (g.calls));
  slots = λ d q e. ground (arith, o.slots d q e);
  separate = o.separate;
}
  where
    new : RowId → RowId → ℕ → Call
    new j d q = record { id = j; device = d; entry = q; phase = waiting }

add_entry-IsOrderlyBut :
    (device : RowId) (g : Gate)
    → IsOrderly g
    → g.entries device ≡ none
    → IsOrderlyBut (g.next) (add_entry device g)
unfolding add_entry
add_entry-IsOrderlyBut device g o vacant = record {
  distinct = o.distinct;
  placed = All-map (g.calls) still_placed (o.placed);
  counted = λ q h. ground (arith, o.counted q, no_calls);
  tokens = λ q h. ground (arith, o.tokens q, no_takers);
  slots = λ d q e. ground (arith, o.slots d q);
  separate = λ d e q a b. ground (arith, o.slots d q, o.slots e q, o.separate d e q);
}
  where
    still_placed :
        (c : Call)
        → Placed (g.entries) (g.next) c
        → Placed (assign (g.entries) device (some (g.next))) (suc (g.next)) c
    still_placed c h = ground (arith, h.0, h.1)

    no_calls : count (refers (g.next)) (g.calls) ≡ 0
    no_calls =
        count_zero (refers (g.next)) (g.calls)
          (All-map (g.calls) (λ c h. ground (arith, h.1)) (o.placed))

    no_takers : count (takes (g.next)) (g.calls) ≡ 0
    no_takers =
        count_zero (takes (g.next)) (g.calls)
          (All-map (g.calls) (λ c h. ground (arith, h.1)) (o.placed))

assigned : (device : RowId) (g : Gate) → (add_entry device g).entries device ≡ some (g.next)
unfolding add_entry
assigned device g = ground arith

same_calls :
    (i device : RowId) (g : Gate)
    → any (has_key Call.id i) (g.calls) ≡ false
    → any (has_key Call.id i) ((add_entry device g).calls) ≡ false
unfolding add_entry
same_calls i device g h = h

register-IsOrderly :
    (i device : RowId) (g : Gate)
    → IsOrderly g
    → any (has_key Call.id i) (g.calls) ≡ false
    → IsOrderly (register i device g)
unfolding register
register-IsOrderly i device g o fresh = elim (Option-cases (g.entries device)) [
  | inl vacant ↦
      rw (vacant, register)
        (join_entry-IsOrderly i device (g.next) (add_entry device g)
          (add_entry-IsOrderlyBut device g o vacant) (same_calls i device g fresh)
          (assigned device g))
  | inr (p, at) ↦
      rw (at, register)
        (join_entry-IsOrderly i device p g
          (record {
            distinct = o.distinct;
            placed = o.placed;
            counted = o.counted;
            tokens = o.tokens;
            slots = λ d q e. ((o.slots d q e).0, λ n. (o.slots d q e).1);
            separate = o.separate;
          })
          fresh at)
]

lock_device-IsOrderly :
    (i device : RowId) (ended : Bool) (g : Gate)
    → IsOrderly g
    → any (has_key Call.id i) (g.calls) ≡ false
    → IsOrderly (lock_device i device ended g).1
unfolding lock_device
lock_device-IsOrderly i device ended g o fresh = elim (Bool-cases (device == 0)) [
  | inl empty ↦ rw empty o
  | inr named ↦ elim (Bool-cases ended) [
    | inl over ↦ rw (named, over) o
    | inr live ↦ rw (named, live) (register-IsOrderly i device g o fresh)
  ]
]

All-uncounted {κ μ} :
    {P : Call → Type κ} {Q : Call → Type μ} (xs : List Call) (q : Call → Bool)
    → count q xs ≡ 0
    → ((x : Call) → q x ≡ false → P x → Q x)
    → All P xs
    → All Q xs
unfolding count
All-uncounted [] q n f h = tt
All-uncounted (x ∷ xs) q n f h =
    (f x (ground arith) (h.0), All-uncounted xs q (ground arith) f (h.1))

-- The reference of a call that leaves is dropped, and the entry with its last one.
module _ (g : Gate) (o : IsOrderly g) (c : Call) (at : IsAt leaving c g) where
  left_count :
      (q : Call → Bool)
      → count q (delete (has_key Call.id (c.id)) (g.calls)) + bit (q c) ≡ count q (g.calls)
  left_count q = count-delete Call.id q (c.id) (g.calls) c (o.distinct) (at.0)

  own_place : Placed (g.entries) (g.next) c
  own_place =
      All-first (Placed (g.entries) (g.next)) (has_key Call.id (c.id)) (g.calls) c (o.placed) (at.0)

  others : List Call
  others = delete (has_key Call.id (c.id)) (g.calls)

  others-Placed : All (Placed (g.entries) (g.next)) others
  unfolding others
  others-Placed =
      All-delete (Placed (g.entries) (g.next)) (has_key Call.id (c.id)) (g.calls) (o.placed)

  others-refs : (p : ℕ) → p < g.next → count (refers p) others + bit (refers p c) ≡ (g.heap p).refs
  unfolding others
  others-refs p h = omega (arith, o.counted p h, left_count (refers p))

  others-Placed_after :
      (g.heap (c.entry)).refs ≡ 1
      → All (Placed (assign (g.entries) (c.device) none) (g.next)) others
  others-Placed_after last =
      All-uncounted others (refers (c.entry))
        (ground (arith, others-refs (c.entry) (own_place.1), last)) still (others-Placed)
    where
      still :
          (x : Call)
          → refers (c.entry) x ≡ false
          → Placed (g.entries) (g.next) x
          → Placed (assign (g.entries) (c.device) none) (g.next) x
      still x n h = elim (Bool-cases (x.device == c.device)) [
        | inl same ↦ absurd (ground (arith, h.0, own_place.0, same, n))
        | inr other ↦ (rw (other, assign) (h.0), h.1)
      ]

  others-Placed_as :
      All
        (Placed
          (if (g.heap (c.entry)).refs == 1 && points_to (g.entries (c.device)) (c.entry)
            then assign (g.entries) (c.device) none
            else g.entries)
          (g.next))
        others
  others-Placed_as = elim (Bool-cases ((g.heap (c.entry)).refs == 1)) [
    | inl last ↦
        rw (last, own_place.0, ==_self (c.entry))
          (others-Placed_after ((==_iff ((g.heap (c.entry)).refs) 1).0 last))
    | inr more ↦ rw more others-Placed
  ]

  drop_reference-IsOrderly : IsOrderly (drop_reference c g)
  unfolding drop_reference others
  drop_reference-IsOrderly = record {
    distinct = Distinct-delete Call.id (has_key Call.id (c.id)) (g.calls) (o.distinct);
    placed = others-Placed_as;
    counted = λ p h. ground (arith, o.counted p h, left_count (refers p));
    tokens = λ p h. ground (arith, o.tokens p h, left_count (takes p), at.1);
    slots =
        λ d p e. ground (arith, o.slots d p, others-refs p, own_place, o.separate d (c.device) p);
    separate = λ d e p a b. ground (arith, o.separate d e p);
  }

-- A call with the token finds room for it, and a call without it finds it only in the channel.
module _ (g : Gate) (o : IsOrderly g) (c : Call) (at : IsAt (c.phase) c g) where
  entry_in_range : c.entry < g.next
  entry_in_range =
      (All-first (Placed (g.entries) (g.next)) (has_key Call.id (c.id)) (g.calls) c (o.placed)
        (at.0)).1

  pub token_out : has_token (c.phase) ≡ true → (g.heap (c.entry)).token ≡ false
  token_out h = ground (
    arith,
    o.tokens (c.entry) entry_in_range,
    count_one Call.id (takes (c.entry)) (c.id) (g.calls) c (at.0),
  )

  return_token-eq :
      has_token (c.phase) ≡ true
      → return_token c g ≡ some (advance leaving c (set_token true (c.entry) g))
  unfolding return_token
  return_token-eq h = rw (token_out h) refl

  return_token-IsOrderly :
      (h : Gate) → has_token (c.phase) ≡ true → return_token c g ≡ some h → IsOrderly h
  return_token-IsOrderly h t e =
      subst IsOrderly (cc (e, return_token-eq t))
        (shifted g o c leaving at true (ground (arith, token_out t, t)))

  receive_token-IsOrderly :
      (h : Gate) → c.phase ≡ waiting → receive_token c g ≡ some h → IsOrderly h
  unfolding receive_token
  receive_token-IsOrderly h w e = elim (Bool-cases ((g.heap (c.entry)).token)) [
    | inl full ↦
        subst IsOrderly (received_state full (rw full at e))
          (shifted g o c received at false (ground (arith, full, w)))
    | inr out ↦ absurd (ground (arith, e, out))
  ]
    where
      received_state :
          (g.heap (c.entry)).token ≡ true
          → some (advance received c (set_token false (c.entry) g)) ≡ some h
          → advance received c (set_token false (c.entry) g) ≡ h
      received_state full e = cc

  recheck-IsOrderly :
      (ended : Bool) (h : Gate) → c.phase ≡ received → recheck ended c g ≡ some h → IsOrderly h
  unfolding recheck
  recheck-IsOrderly true h w e = return_token-IsOrderly h (rw w refl) e
  recheck-IsOrderly false h w e = subst IsOrderly (cc e) (advanced g o c holding at (rw w refl))

  unlock-eq : c.phase ≡ holding → unlock c g ≡ return_token c g
  unfolding unlock return_token advance
  unlock-eq w = rw (w, unlock) refl

  unlock-IsOrderly : (h : Gate) → c.phase ≡ holding → unlock c g ≡ some h → IsOrderly h
  unlock-IsOrderly h w e = return_token-IsOrderly h (rw w refl) (sym (unlock-eq w) ∙ e)

Step-IsOrderly : {g h : Gate} → IsOrderly g → Step g h → IsOrderly h
Step-IsOrderly {g} o (locking i device ended fresh) = lock_device-IsOrderly i device ended g o fresh
Step-IsOrderly {g} o (giving_up c at) = advanced g o c leaving (at.0, refl) (rw (at.1) refl)
Step-IsOrderly {g} o (receiving c h at e) = receive_token-IsOrderly g o c (at.0, refl) h (at.1) e
Step-IsOrderly {g} o (rechecking c ended h at e) =
    recheck-IsOrderly g o c (at.0, refl) ended h (at.1) e
Step-IsOrderly {g} o (unlocking c h at e) = unlock-IsOrderly g o c (at.0, refl) h (at.1) e
Step-IsOrderly {g} o (dropping c at) = drop_reference-IsOrderly g o c at

pub Reaches-IsOrderly : {g h : Gate} → IsOrderly g → Reaches g h → IsOrderly h
Reaches-IsOrderly o here = o
Reaches-IsOrderly o (next r s) = Step-IsOrderly (Reaches-IsOrderly o r) s
