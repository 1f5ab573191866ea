-- ===== src/Agent/Registry/Cases.antt =====
-- The ways in which a critical section can go.
use mathlib.Core.Path.{subst}
use mathlib.Core.Option.{some-injective}
use aisummoner.Prelude.{
  ℕ, zero, suc, ◌≡◌, refl, Bool, true, false, Option, none, some, if◌then◌else◌,
}
use aisummoner.Agent.Registry.{Registry, Refusal, admit, done}

module _ {ℓ} (P : Registry → Type ℓ) where
  pub admit_lem :
      (o : Option Refusal) (a b : Registry) → (o ≡ none → P a) → P b → P ((admit o a b).1)
  admit_lem none a b pa pb = pa refl
  admit_lem (some e) a b pa pb = pb

  pub if_lem :
      (c : Bool) (a b : Registry) → (c ≡ true → P a) → (c ≡ false → P b) → P (if c then a else b)
  if_lem true a b pa pb = pa refl
  if_lem false a b pa pb = pb refl

  pub some_lem : (r s : Registry) → P r → some r ≡ some s → P s
  some_lem r s p e = subst P (some-injective r s e) p

  pub done_lem :
      (n : ℕ) (f : ℕ → Registry) (s : Registry)
      → ((m : ℕ) → n ≡ suc m → P (f m))
      → done n f ≡ some s
      → P s
  done_lem zero f s p e = cc
  done_lem (suc n) f s p e = some_lem (f n) s (p n refl) e
