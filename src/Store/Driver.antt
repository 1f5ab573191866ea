-- ===== src/Store/Driver.antt =====
-- database/sql as internal/store uses it. A `World` is the database with a script of what happens
-- at each statement: which other requests run before it, and whether the driver does the statement,
-- refuses it, or does it and loses the reply. After the script all statements work undisturbed.
-- `SetMaxOpenConns(1)` of `store.Open` leaves one connection, so nothing runs inside a transaction.

pub mod Keeps
pub mod Gives
use aisummoner.Prelude.{
  ℕ, Bool, true, false, Option, none, some, List, [], ◌∷◌, ◌==◌, if◌then◌else◌,
}
use aisummoner.Store.Data.{Db}

-- `invalid_argument` stands for the `errors.New` texts of the argument checks, `driver_fault` for
-- a wrapped error of the driver.
pub data Error : Type 0 where
  not_found conflict pairing_invalid pairing_expired invalid_argument driver_fault : Error

pub data Result {ℓ} (A : Type ℓ) : Type ℓ where
  ok : A → Result A
  err : Error → Result A

pub data Outcome : Type 0 where
  works refuses loses_reply : Outcome

pub record Slot : Type 0 where
  pub others : Db → Db
  pub outcome : Outcome

pub record World : Type 0 where
  pub db : Db
  pub script : List Slot

abbrev pub quiet : Db → World
quiet db = record { db = db; script = [] }

abbrev pub Exec : Type 0 → Type 0
Exec A = World → Result A × World

abbrev pub pure : {A : Type 0} → A → Exec A
pure a w = (ok a, w)

abbrev pub raise : {A : Type 0} → Error → Exec A
raise e w = (err e, w)

abbrev pub bind_result : {A B : Type 0} → Result A × World → (A → Exec B) → Result B × World
bind_result (ok a, w) f = f a w
bind_result (err e, w) f = (err e, w)

infixl 5 ◌>>=◌ ◌>>◌
abbrev pub ◌>>=◌ : {A B : Type 0} → Exec A → (A → Exec B) → Exec B
◌>>=◌ m f w = bind_result (m w) f

abbrev pub ◌>>◌ : {A B : Type 0} → Exec A → Exec B → Exec B
m >> k = m >>= λ _. k

-- `agentQueryer`: the store's connection pool, or a transaction.
pub data Queryer : Type 0 where
  on_db on_tx : Queryer

abbrev pub disturbed : Queryer → Slot → Db → Db
disturbed on_db s db = s.others db
disturbed on_tx s db = db

abbrev pub deliver : {A : Type 0} → Outcome → Db → Result A × Db → List Slot → Result A × World
deliver works db r rest = (r.0, record { db = r.1; script = rest })
deliver refuses db r rest = (err driver_fault, record { db = db; script = rest })
deliver loses_reply db r rest = (err driver_fault, record { db = r.1; script = rest })

abbrev pub run_slot :
    {A : Type 0} → Queryer → (Db → Result A × Db) → List Slot → Db → Result A × World
run_slot q f [] db = ((f db).0, quiet (f db).1)
run_slot q f (s ∷ rest) db = deliver s.outcome (disturbed q s db) (f (disturbed q s db)) rest

-- One statement, which may fail by a constraint.
unfoldable pub statement : {A : Type 0} → Queryer → (Db → Result A × Db) → Exec A
statement q f w = run_slot q f w.script w.db

abbrev pub query : {A : Type 0} → Queryer → (Db → A) → Exec A
query q f = statement q (λ db. (ok (f db), db))

abbrev pub exec : {A : Type 0} → Queryer → (Db → A × Db) → Exec A
exec q f = statement q (λ db. (ok (f db).0, (f db).1))

-- A commit that the driver refuses leaves the database as it was before the transaction.
abbrev pub commit_reply : {A : Type 0} → Outcome → A → Db → Db → List Slot → Result A × World
commit_reply works a before db rest = (ok a, record { db = db; script = rest })
commit_reply refuses a before db rest = (err driver_fault, record { db = before; script = rest })
commit_reply loses_reply a before db rest = (err driver_fault, record { db = db; script = rest })

abbrev pub commit_slot : {A : Type 0} → A → Db → Db → List Slot → Result A × World
commit_slot a before db [] = (ok a, quiet db)
commit_slot a before db (s ∷ rest) = commit_reply s.outcome a before db rest

-- An error in the body rolls back to the database before.
abbrev pub end_tx : {A : Type 0} → Db → Result A × World → Result A × World
end_tx before (ok a, w) = commit_slot a before w.db w.script
end_tx before (err e, w) = (err e, record { db = before; script = w.script })

unfoldable pub transaction : {A : Type 0} → Exec A → Exec A
unfolding statement
transaction body = query on_db (λ _. tt) >>= λ _ w. end_tx w.db (body w)

-- `sql.ErrNoRows` becomes `ErrNotFound` in each `scan` function.
abbrev pub scan_row : {A : Type 0} → Option A → Exec A
scan_row none = raise not_found
scan_row (some a) = pure a

unfoldable pub require_one_row : ℕ → Exec (Unit {0})
require_one_row affected = if affected == 1 then pure tt else raise not_found

abbrev pub check : Bool → Error → Exec (Unit {0})
check true e = pure tt
check false e = raise e
