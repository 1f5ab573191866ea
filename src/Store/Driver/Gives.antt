-- ===== src/Store/Driver/Gives.antt =====
-- What an operation leaves behind, whatever the driver does, where the other requests keep a
-- relation: from a condition on the database to a condition on the result and the database.
use aisummoner.Prelude.{Bool, true, false, List, [], ◌∷◌}
use aisummoner.Store.Data.{Db}
use aisummoner.Store.Driver.{
  Result, ok, err, Error, driver_fault, Slot, Outcome, works, refuses, loses_reply, World, Exec,
  pure, raise, Queryer, on_db, on_tx, ◌>>=◌, bind_result, statement, deliver, run_slot, disturbed,
  check,
}
use aisummoner.Store.Driver.Keeps.{Rely}

module _ (R : Db → Db → Type 0) where
  pub record Gives {A : Type 0} (P : Db → Type 0) (m : Exec A) (Q : Result A → Db → Type 0)
      : Type 0 where
    pub at : (w : World) → Rely R w.script → P w.db → Q (m w).0 (m w).1.db × Rely R (m w).1.script

  -- The condition holds on, whatever the other requests do.
  abbrev pub IsStable : (Db → Type 0) → Type 0
  IsStable P = (a b : Db) → R a b → P a → P b

  pub Gives-pure :
      {A : Type 0} {P : Db → Type 0} {Q : Result A → Db → Type 0} (a : A)
      → ((d : Db) → P d → Q (ok a) d)
      → Gives P (pure a) Q
  Gives-pure a k = record { at = λ w h p. (k w.db p, h) }

  pub Gives-raise :
      {A : Type 0} {P : Db → Type 0} {Q : Result A → Db → Type 0} (e : Error)
      → ((d : Db) → P d → Q (err e) d)
      → Gives P (raise e) Q
  Gives-raise e k = record { at = λ w h p. (k w.db p, h) }

  module _ {A B : Type 0} (P : Db → Type 0) (Q : Result B → Db → Type 0) where
    bind_gives :
        (M : Result A → Db → Type 0) (f : A → Exec B) (r : Result A) (w : World)
        → M r w.db
        → Rely R w.script
        → ((a : A) → Gives (M (ok a)) (f a) Q)
        → ((e : Error) (d : Db) → M (err e) d → Q (err e) d)
        → Q (bind_result (r, w) f).0 (bind_result (r, w) f).1.db
          × Rely R (bind_result (r, w) f).1.script
    bind_gives M f (ok a) w m h k e = (k a).at w h m
    bind_gives M f (err x) w m h k e = (e x w.db m, h)

    pub Gives-bind :
        (M : Result A → Db → Type 0) (m : Exec A) (f : A → Exec B)
        → Gives P m M
        → ((a : A) → Gives (M (ok a)) (f a) Q)
        → ((e : Error) (d : Db) → M (err e) d → Q (err e) d)
        → Gives P (m >>= f) Q
    Gives-bind M m f g k e = record {
      at = λ w h p. let (q, h') = g.at w h p in bind_gives M f (m w).0 (m w).1 q h' k e;
    }

  module _ {A : Type 0} (P : Db → Type 0) (Q : Result A → Db → Type 0) (f : Db → Result A × Db)
      (done : (d : Db) → P d → Q (f d).0 (f d).1)
      (refused : (d : Db) → P d → Q (err driver_fault) d)
      (lost : (d : Db) → P d → Q (err driver_fault) (f d).1) where
    deliver_gives :
        (out : Outcome) (d : Db) (rest : List Slot)
        → P d
        → Rely R rest
        → Q (deliver out d (f d) rest).0 (deliver out d (f d) rest).1.db
          × Rely R (deliver out d (f d) rest).1.script
    deliver_gives works d rest p h = (done d p, h)
    deliver_gives refuses d rest p h = (refused d p, h)
    deliver_gives loses_reply d rest p h = (lost d p, h)

    disturbed_gives :
        (q : Queryer) (s : Slot) (d : Db)
        → IsStable P
        → ((x : Db) → R x (s.others x))
        → P d
        → P (disturbed q s d)
    disturbed_gives on_db s d stable h p = stable d (s.others d) (h d) p
    disturbed_gives on_tx s d stable h p = p

    run_slot_gives :
        (q : Queryer) (script : List Slot) (d : Db)
        → IsStable P
        → Rely R script
        → P d
        → Q (run_slot q f script d).0 (run_slot q f script d).1.db
          × Rely R (run_slot q f script d).1.script
    run_slot_gives q [] d stable h p = (done d p, tt)
    run_slot_gives q (s ∷ rest) d stable h p =
        deliver_gives s.outcome (disturbed q s d) rest (disturbed_gives q s d stable h.0 p) h.1

    pub Gives-statement : (q : Queryer) → IsStable P → Gives P (statement q f) Q
    unfolding statement
    Gives-statement q stable = record { at = λ w h p. run_slot_gives q w.script w.db stable h p }

  pub Gives-check :
      {A : Type 0} {P : Db → Type 0} {Q : Result A → Db → Type 0} (b : Bool) (e : Error)
      (m : Exec A)
      → Gives P m Q
      → ((d : Db) → P d → Q (err e) d)
      → Gives P (check b e >>= λ _. m) Q
  Gives-check true e m g k = record { at = λ w h p. g.at w h p }
  Gives-check false e m g k = record { at = λ w h p. (k w.db p, h) }
