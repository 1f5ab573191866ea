-- ===== src/Store/Driver/Keeps.antt =====
-- Relations between the database before and after an operation, whatever the driver does and
-- whatever other requests run between the statements. One rule for each way to build an operation.
use aisummoner.Prelude.{Bool, true, false, Option, none, some, List, [], ◌∷◌, ◌==◌, ℕ}
use aisummoner.Prelude.{if◌then◌else◌}
use aisummoner.Store.Data.{Db}
use aisummoner.Store.Driver.{
  Result, ok, err, Error, Slot, Outcome, works, refuses, loses_reply, World, Exec, pure, raise,
  Queryer, on_db, on_tx, ◌>>=◌, bind_result, statement, deliver, run_slot, disturbed, query, exec,
  commit_reply, commit_slot, end_tx, transaction, scan_row, require_one_row, check,
}

-- A relation that the identity keeps and that composes.
pub record IsOrder (R : Db → Db → Type 0) : Type 0 where
  pub same : (a : Db) → R a a
  pub then_ : (a b c : Db) → R a b → R b c → R a c

-- The other requests keep the relation.
abbrev pub Rely : (Db → Db → Type 0) → List Slot → Type 0
Rely R [] = Unit {0}
Rely R (s ∷ rest) = ((db : Db) → R db (s.others db)) × Rely R rest

pub record Keeps (R : Db → Db → Type 0) {A : Type 0} (m : Exec A) : Type 0 where
  pub at : (w : World) → Rely R w.script → R w.db (m w).1.db × Rely R (m w).1.script

module _ {R : Db → Db → Type 0} (o : IsOrder R) where
  pub Keeps-pure : {A : Type 0} (a : A) → Keeps R (pure a)
  Keeps-pure a = record { at = λ w h. (o.same w.db, h) }

  pub Keeps-raise : {A : Type 0} (e : Error) → Keeps R (raise {A = A} e)
  Keeps-raise e = record { at = λ w h. (o.same w.db, h) }

  bind_step :
      {A B : Type 0} (a : Db) (r : Result A) (w : World) (f : A → Exec B)
      → R a w.db
      → Rely R w.script
      → ((x : A) → Keeps R (f x))
      → R a (bind_result (r, w) f).1.db × Rely R (bind_result (r, w) f).1.script
  bind_step a (ok x) w f s h k = (o.then_ a w.db _ s ((k x).at w h).0, ((k x).at w h).1)
  bind_step a (err e) w f s h k = (s, h)

  pub Keeps-bind :
      {A B : Type 0} (m : Exec A) (f : A → Exec B)
      → Keeps R m
      → ((a : A) → Keeps R (f a))
      → Keeps R (m >>= f)
  Keeps-bind m f km kf = record {
    at = λ w h. bind_step w.db (m w).0 (m w).1 f (km.at w h).0 (km.at w h).1 kf;
  }

  pub Keeps-if :
      {A : Type 0} (b : Bool) (m n : Exec A) → Keeps R m → Keeps R n → Keeps R (if b then m else n)
  Keeps-if true m n km kn = km
  Keeps-if false m n km kn = kn

  deliver_step :
      {A : Type 0} (a : Db) (out : Outcome) (db : Db) (r : Result A × Db) (rest : List Slot)
      → R a db
      → R db r.1
      → Rely R rest
      → R a (deliver out db r rest).1.db × Rely R (deliver out db r rest).1.script
  deliver_step a works db r rest s t h = (o.then_ a db r.1 s t, h)
  deliver_step a refuses db r rest s t h = (s, h)
  deliver_step a loses_reply db r rest s t h = (o.then_ a db r.1 s t, h)

  disturbed_step :
      (q : Queryer) (s : Slot) (db : Db) → ((d : Db) → R d (s.others d)) → R db (disturbed q s db)
  disturbed_step on_db s db h = h db
  disturbed_step on_tx s db h = o.same db

  run_slot_step :
      {A : Type 0} (q : Queryer) (f : Db → Result A × Db) (script : List Slot) (db : Db)
      → ((d : Db) → R d (f d).1)
      → Rely R script
      → R db (run_slot q f script db).1.db × Rely R (run_slot q f script db).1.script
  run_slot_step q f [] db k h = (k db, tt)
  run_slot_step q f (s ∷ rest) db k h =
      deliver_step db s.outcome (disturbed q s db) (f (disturbed q s db)) rest
        (disturbed_step q s db h.0) (k (disturbed q s db)) h.1

  -- A statement keeps the relation that its function keeps.
  pub Keeps-statement :
      {A : Type 0} (q : Queryer) (f : Db → Result A × Db)
      → ((d : Db) → R d (f d).1)
      → Keeps R (statement q f)
  unfolding statement
  Keeps-statement q f k = record { at = λ w h. run_slot_step q f w.script w.db k h }

  pub Keeps-exec :
      {A : Type 0} (q : Queryer) (f : Db → A × Db) → ((d : Db) → R d (f d).1) → Keeps R (exec q f)
  Keeps-exec q f k = Keeps-statement q (λ db. (ok (f db).0, (f db).1)) k

  pub Keeps-query : {A : Type 0} (q : Queryer) (f : Db → A) → Keeps R (query q f)
  Keeps-query q f = Keeps-statement q (λ db. (ok (f db), db)) o.same

  commit_reply_step :
      {A : Type 0} (out : Outcome) (x : A) (before db : Db) (rest : List Slot)
      → R before db
      → Rely R rest
      → R before (commit_reply out x before db rest).1.db
        × Rely R (commit_reply out x before db rest).1.script
  commit_reply_step works x before db rest s h = (s, h)
  commit_reply_step refuses x before db rest s h = (o.same before, h)
  commit_reply_step loses_reply x before db rest s h = (s, h)

  commit_step :
      {A : Type 0} (x : A) (before db : Db) (script : List Slot)
      → R before db
      → Rely R script
      → R before (commit_slot x before db script).1.db
        × Rely R (commit_slot x before db script).1.script
  commit_step x before db [] s h = (s, h)
  commit_step x before db (slot ∷ rest) s h = commit_reply_step slot.outcome x before db rest s h.1

  end_step :
      {A : Type 0} (before : Db) (r : Result A) (w : World)
      → R before w.db
      → Rely R w.script
      → R before (end_tx before (r, w)).1.db × Rely R (end_tx before (r, w)).1.script
  end_step before (ok x) w s h = commit_step x before w.db w.script s h
  end_step before (err e) w s h = (o.same before, h)

  -- A transaction keeps the relation that its body keeps.
  pub Keeps-transaction : {A : Type 0} (m : Exec A) → Keeps R m → Keeps R (transaction m)
  unfolding transaction
  Keeps-transaction m k =
      Keeps-bind (query on_db (λ _. tt)) (λ _ w. end_tx w.db (m w)) (Keeps-query on_db (λ _. tt))
        λ _. record { at = λ w h. end_step w.db (m w).0 (m w).1 (k.at w h).0 (k.at w h).1 }

  pub Keeps-scan_row : {A : Type 0} (row : Option A) → Keeps R (scan_row row)
  Keeps-scan_row none = Keeps-raise Error.not_found
  Keeps-scan_row (some a) = Keeps-pure a

  pub Keeps-check : (b : Bool) (e : Error) → Keeps R (check b e)
  Keeps-check true e = Keeps-pure tt
  Keeps-check false e = Keeps-raise e

  pub Keeps-require_one_row : (n : ℕ) → Keeps R (require_one_row n)
  unfolding require_one_row
  Keeps-require_one_row n = Keeps-if (n == 1) _ _ (Keeps-pure tt) (Keeps-raise Error.not_found)
