-- ===== src/Pairing/Claims.antt =====
-- internal/pairing/service.go and internal/store/pairing.go: a claim on a database that works undisturbed.
use aisummoner.Prelude.{
  ℕ, ◌≤◌, ◌<◌, ◌==◌, ◌≡◌, refl, ap, ◌∙◌, Bool, true, false, ◌&&◌, none, some, List, [], ◌∷◌, ltb,
  first, any, count, arith, inl, inr, ◌⊎◌, suc, Bool-cases, first-update, first_sound,
}
use mathlib.Core.Path.{subst}
use mathlib.Core.Option.{some-injective}
use aisummoner.Prelude.Keyed.{has_key, Distinct}
use aisummoner.Store.Data.{RowId, Time, Bytes, Device, PairingCode, Db, is_none, bytes_eq}
use aisummoner.Store.Driver.{
  World, Result, ok, err, quiet, pairing_invalid, pairing_expired, conflict, statement, transaction,
}
use aisummoner.Store.Pairing.{claim_pairing, bind_device, consume_code}
use aisummoner.Pairing.{
  Unicode, normalize, claim, claim_reply, PairingError, invalid_code, store_error,
}

abbrev has_digest : Bytes → PairingCode → Bool
has_digest digest c = bytes_eq c.code_digest digest

abbrev claimed_db : RowId → PairingCode → Time → Db → Db
claimed_db user c now db = (consume_code c.id now (bind_device user c.device_id now db).1).1

claim_pairing_absent :
    (user : RowId) (digest : Bytes) (now : Time) (db : Db)
    → first (has_digest digest) db.pairing_codes ≡ none
    → claim_pairing user digest now (quiet db) ≡ (err pairing_invalid, quiet db)
unfolding claim_pairing transaction statement
claim_pairing_absent user digest now db e = rw e refl

module _ (user : RowId) (digest : Bytes) (now : Time) (db : Db) (c : PairingCode)
    (found : first (has_digest digest) db.pairing_codes ≡ some c) where
  claim_pairing_consumed :
      is_none c.consumed_at ≡ false
      → claim_pairing user digest now (quiet db) ≡ (err pairing_invalid, quiet db)
  unfolding claim_pairing transaction statement
  claim_pairing_consumed e = rw (found, e) refl

  claim_pairing_expired :
      is_none c.consumed_at ≡ true
      → ltb now c.expires_at ≡ false
      → claim_pairing user digest now (quiet db) ≡ (err pairing_expired, quiet db)
  unfolding claim_pairing transaction statement
  claim_pairing_expired e h = rw (found, e, h) refl

  claim_pairing_owned :
      is_none c.consumed_at ≡ true
      → ltb now c.expires_at ≡ true
      → ((bind_device user c.device_id now db).0 == 1) ≡ false
      → claim_pairing user digest now (quiet db) ≡ (err conflict, quiet db)
  unfolding claim_pairing transaction statement
  claim_pairing_owned e h b = rw (found, e, h, b) refl

  claim_pairing_done :
      (d : Device)
      → is_none c.consumed_at ≡ true
      → ltb now c.expires_at ≡ true
      → ((bind_device user c.device_id now db).0 == 1) ≡ true
      → ((consume_code c.id now db).0 == 1) ≡ true
      → first (has_key Device.id c.device_id) (claimed_db user c now db).devices ≡ some d
      → claim_pairing user digest now (quiet db) ≡ (ok d, quiet (claimed_db user c now db))
  unfolding claim_pairing transaction statement
  claim_pairing_done d e h b k at = rw (found, e, h, b, k, at) refl

module _ {ℓ} {A : Type ℓ} (key : A → ℕ) (g : A → Bool) (k : ℕ) where
  count_absent :
      (xs : List A) → any (has_key key k) xs ≡ false → count (λ x. key x == k && g x) xs ≡ 0
  unfolding any count
  count_absent [] h = refl
  count_absent (x ∷ xs) h = ground (arith, count_absent xs)

  any_of_first :
      (q : A → Bool) (xs : List A) (y : A)
      → first q xs ≡ some y
      → key y ≡ k
      → any (has_key key k) xs ≡ true
  unfolding any first
  any_of_first q [] y e h = absurd (cc e)
  any_of_first q (x ∷ xs) y e h = elim (Bool-cases (q x)) [
    | inl here ↦
        let same : some x ≡ some y = rw here at e in
        ground (arith, ap key (some-injective x y same) ∙ h)
    | inr there ↦ ground (arith, any_of_first q xs y (rw there at e) h)
  ]

  -- A row that a query finds is the only one of its key, which an update of the key affects.
  count_found :
      (q : A → Bool) (xs : List A) (y : A)
      → Distinct key xs
      → first q xs ≡ some y
      → key y ≡ k
      → g y ≡ true
      → count (λ x. key x == k && g x) xs ≡ 1
  unfolding first count
  count_found q [] y d e h t = absurd (cc e)
  count_found q (x ∷ xs) y d e h t = elim (Bool-cases (q x)) [
    | inl here ↦
        let same : some x ≡ some y = rw here at e in
        let good : g x ≡ true = ap g (some-injective x y same) ∙ t in
        let at : key x ≡ k = ap key (some-injective x y same) ∙ h in
        let is : (key x == k) ≡ true = ground (arith, at) in
        let others : any (has_key key k) xs ≡ false =
          subst (λ i. any (has_key key i) xs ≡ false) at d.0 in
        rw (is, good) (ap suc (count_absent xs others))
    | inr there ↦
        let later : first q xs ≡ some y = rw there at e in
        elim (Bool-cases (key x == k)) [
          | inl at ↦
              let same : key x ≡ k = ground (arith, at) in
              absurd (
                cc (
                  subst (λ i. any (has_key key i) xs ≡ false) same d.0,
                  any_of_first q xs y later h,
                ))
          | inr other ↦ rw other (count_found q xs y d.1 later h t)
        ]
  ]

abbrev pub bound_to : RowId → Time → Device → Device
bound_to user now d = record d { owner_user_id = some user; paired_at = some now }

-- What is promised of a claim: the text, its code, and the rows that the tables have for it decide.
pub record ClaimSays (u : Unicode) (digest : List ℕ → Bytes) (user : RowId) (text : List ℕ)
    (now : Time) (db : Db) (r : (PairingError ⊎ Device) × World) : Type 0 where
  unreadable : normalize u text ≡ none → r ≡ (inl invalid_code, quiet db)
  unknown :
      (code : List ℕ)
      → normalize u text ≡ some code
      → first (has_digest (digest code)) db.pairing_codes ≡ none
      → r ≡ (inl invalid_code, quiet db)
  consumed :
      (code : List ℕ) (c : PairingCode)
      → normalize u text ≡ some code
      → first (has_digest (digest code)) db.pairing_codes ≡ some c
      → is_none c.consumed_at ≡ false
      → r ≡ (inl invalid_code, quiet db)
  expired :
      (code : List ℕ) (c : PairingCode)
      → normalize u text ≡ some code
      → first (has_digest (digest code)) db.pairing_codes ≡ some c
      → is_none c.consumed_at ≡ true
      → c.expires_at ≤ now
      → r ≡ (inl (store_error pairing_expired), quiet db)
  owned :
      (code : List ℕ) (c : PairingCode)
      → normalize u text ≡ some code
      → first (has_digest (digest code)) db.pairing_codes ≡ some c
      → is_none c.consumed_at ≡ true
      → now < c.expires_at
      → any (λ d. d.id == c.device_id && is_none d.owner_user_id) db.devices ≡ false
      → r ≡ (inl (store_error conflict), quiet db)
  claimed :
      (code : List ℕ) (c : PairingCode) (d : Device)
      → normalize u text ≡ some code
      → first (has_digest (digest code)) db.pairing_codes ≡ some c
      → is_none c.consumed_at ≡ true
      → now < c.expires_at
      → first (has_key Device.id c.device_id) db.devices ≡ some d
      → is_none d.owner_user_id ≡ true
      → (after : Db) × (r ≡ (inr (bound_to user now d), quiet after))
        × (first (has_key Device.id c.device_id) after.devices ≡ some (bound_to user now d))
        × ((other : RowId) (again : List ℕ) (later : Time)
            → normalize u again ≡ some code
            → claim u digest other again later (quiet after) ≡ (inl invalid_code, quiet after))

module _ (u : Unicode) (digest : List ℕ → Bytes) (user : RowId) (now : Time) where
  claim_normalized :
      (text code : List ℕ) (w : World) (r : Result Device × World)
      → normalize u text ≡ some code
      → claim_pairing user (digest code) now w ≡ r
      → claim u digest user text now w ≡ claim_reply r
  unfolding claim
  claim_normalized text code w r n e = rw (claim, n) (ap claim_reply e)

-- The device that was bound is in its table, and the code is consumed.
module _ (user : RowId) (now : Time) (db : Db) (c : PairingCode) (d : Device) (key : Bytes)
    (found : first (has_digest key) db.pairing_codes ≡ some c)
    (fresh : is_none c.consumed_at ≡ true)
    (at : first (has_key Device.id c.device_id) db.devices ≡ some d)
    (free : is_none d.owner_user_id ≡ true) where
  bound_at :
      first (has_key Device.id c.device_id) (claimed_db user c now db).devices
      ≡ some (bound_to user now d)
  bound_at =
      first-update (has_key Device.id c.device_id)
        (λ x. x.id == c.device_id && is_none x.owner_user_id) (bound_to user now) db.devices
        (λ x. refl)
      ∙ rw (at, first_sound (has_key Device.id c.device_id) db.devices d at, free) refl

  consumed_at :
      first (has_digest key) (claimed_db user c now db).pairing_codes
      ≡ some (record c { consumed_at = some now })
  consumed_at =
      first-update (has_digest key) (λ x. x.id == c.id && is_none x.consumed_at)
        (λ x. record x { consumed_at = some now }) db.pairing_codes (λ x. refl)
      ∙ (let same : (c.id == c.id) ≡ true = ground arith in rw (found, same, fresh) refl)

  bound_one : Distinct Device.id db.devices → ((bind_device user c.device_id now db).0 == 1) ≡ true
  bound_one keyed =
      let one =
        count_found Device.id (λ x. is_none x.owner_user_id) c.device_id
          (has_key Device.id c.device_id) db.devices d keyed at
          (ground (arith, first_sound (has_key Device.id c.device_id) db.devices d at)) free in
      rw one refl

  consumed_one :
      Distinct PairingCode.id db.pairing_codes → ((consume_code c.id now db).0 == 1) ≡ true
  consumed_one keyed =
      let one =
        count_found PairingCode.id (λ x. is_none x.consumed_at) c.id (has_digest key)
          db.pairing_codes c keyed found refl fresh in
      rw one refl

count_of_no_row : {A : Type 0} (p : A → Bool) (xs : List A) → any p xs ≡ false → count p xs ≡ 0
unfolding any count
count_of_no_row p [] h = refl
count_of_no_row p (x ∷ xs) h = ground (arith, count_of_no_row p xs)

-- On a database whose devices and codes have distinct identifiers and which works undisturbed, a text that
-- cannot be normalised, and a code that the store does not have or that is consumed, are invalid; a code
-- that has expired is refused as expired, and one whose device is not there without an owner as a conflict;
-- none of these changes the database. Any other claim binds the device to the user and gives it, and
-- from then on every claim of the same code, by any user at any time, is invalid and changes nothing.
pub claim-Once :
    (u : Unicode) (digest : List ℕ → Bytes) (user : RowId) (text : List ℕ) (now : Time) (db : Db)
    → Distinct Device.id db.devices
    → Distinct PairingCode.id db.pairing_codes
    → ClaimSays u digest user text now db (claim u digest user text now (quiet db))
unfolding claim
claim-Once u digest user text now db devices codes = record {
  unreadable = λ bad. rw (claim, bad) refl;
  unknown = λ code n absent.
      claim_normalized u digest user now text code (quiet db) _ n
        (claim_pairing_absent user (digest code) now db absent);
  consumed = λ code c n found gone.
      claim_normalized u digest user now text code (quiet db) _ n
        (claim_pairing_consumed user (digest code) now db c found gone);
  expired = λ code c n found fresh late.
      claim_normalized u digest user now text code (quiet db) _ n
        (claim_pairing_expired user (digest code) now db c found fresh (ground (arith, late)));
  owned = λ code c n found fresh early taken.
      let nothing = count_of_no_row _ db.devices taken in
      claim_normalized u digest user now text code (quiet db) _ n (
        claim_pairing_owned user (digest code) now db c found fresh (ground (arith, early))
          (rw nothing refl));
  claimed = λ code c d n found fresh early at free.
      let after : Db = claimed_db user c now db in
      let key : Bytes = digest code in
      (
        after,
        claim_normalized u digest user now text code (quiet db) _ n (
            claim_pairing_done user key now db c found (bound_to user now d) fresh
              (ground (arith, early)) (bound_one user now db c d key found fresh at free devices)
              (consumed_one user now db c d key found fresh at free codes)
              (bound_at user now db c d key found fresh at free)),
        bound_at user now db c d key found fresh at free,
        λ other again later same.
            claim_normalized u digest other later again code (quiet after) _ same (
              claim_pairing_consumed other key later after (record c { consumed_at = some now })
                (consumed_at user now db c d key found fresh at free) refl),
      );
}
